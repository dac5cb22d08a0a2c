-- ===== src/Examples.antt =====
-- Concrete runs of the definitions that model src/core, src/pintool, src/race and src/systematic, and
-- the theorems at them.
mod Clocks
mod Detection
mod Memory
mod Database
mod Multi
mod Program
mod Systematic
mod Search
mod Histories
mod Locks

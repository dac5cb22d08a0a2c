-- ===== src/Detector.antt =====
-- src/pintool/detector1.h and detector1.cpp: the abstract detector. Every handler holds the internal
-- lock from its first line to its last, so a handler is one step. The `DEBUG_ASSERT`s are not tests
-- of the release build; `none` is the use of a clock that is not there.
pub mod State
pub mod Heap
pub mod Handlers
pub mod Accesses
pub mod Frame
pub mod Freed
pub mod Returns
pub mod Touched

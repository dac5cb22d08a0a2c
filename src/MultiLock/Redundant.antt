-- ===== src/MultiLock/Redundant.antt =====
-- The accesses that src/pintool/multilock.cpp drops as redundant.
use data_race_detectors.Epoch
use data_race_detectors.Lockset.{Lockset}

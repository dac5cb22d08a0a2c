-- ===== src/Examples/Multi.antt =====
-- The detector of src/pintool/multilock.cpp on one unit.
use data_race_detectors.Base.{true, not, ◌&&◌, ◌||◌, [], ◌∷◌}
use data_race_detectors.Clock.{VectorClock}
use data_race_detectors.AccuLock.{Elp}
use data_race_detectors.Shadow.{init_counters, Work}
use data_race_detectors.Shadow.Reports.{Adds}
use data_race_detectors.MultiLock.{
  MultiLockMeta, new_multi_lock_meta, redundant_read, redundant_write, process_read, process_write,
}
use data_race_detectors.MultiLock.Reports.{any_other, names-multi}

abbrev vc_1 : VectorClock
vc_1 = (1, 3) ∷ []

abbrev vc_2 : VectorClock
vc_2 = (2, 1) ∷ []

-- Thread 1 has written at timestamp 3 under lock 16.
abbrev written : Work MultiLockMeta
written =
    let m = new_multi_lock_meta 64 in
    let e : Elp = record { epoch = record { tid = 1; clock = 3 }; locks = 16 ∷ [] } in
    record {
      meta = record m { writer_els_map = (1, e ∷ []) ∷ []; writer_inst_table = (e, 10) ∷ [] };
      counters = init_counters;
      reports = [];
    }

names-multi_example :
    Adds
      (λ u.
        not (redundant_read vc_2 (32 ∷ []) 2 written.meta)
        && any_other 2 vc_2 (32 ∷ []) u written.meta.writer_els_map)
      []
      (process_read true vc_2 (32 ∷ []) 2 11 written).reports
    × Adds
        (λ u.
          not (redundant_write vc_2 (32 ∷ []) 2 written.meta)
          && (any_other 2 vc_2 (32 ∷ []) u written.meta.writer_els_map
              || any_other 2 vc_2 (32 ∷ []) u written.meta.reader_els_map))
        []
        (process_write true vc_2 (32 ∷ []) 2 11 written).reports
names-multi_example = names-multi true vc_2 (32 ∷ []) 2 11 written

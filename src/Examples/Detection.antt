-- ===== src/Examples/Detection.antt =====
-- The detectors of src/pintool/djit.cpp, fasttrack.cpp, eraser.cpp and acculock.cpp on one unit.
use data_race_detectors.Base.{◌≡◌, refl, true, false, not, ◌&&◌, ◌||◌, List, [], ◌∷◌, find, arith}
use data_race_detectors.Clock
use data_race_detectors.Clock.{VectorClock, get_clock, set_clock}
use data_race_detectors.Epoch
use data_race_detectors.Epoch.{Epoch}
use data_race_detectors.Lockset.{is_disjoint, is_exist}
use data_race_detectors.Shadow.{init_counters, event_read, event_write, Work, report_clock}
use data_race_detectors.Shadow.Reports.{names, Adds}
use data_race_detectors.Djit
use data_race_detectors.Djit.History.{Past, run, last_read, last_write, names-run}
use data_race_detectors.FastTrack
use data_race_detectors.FastTrack.{FastTrackMeta, new_fast_track_meta}
use data_race_detectors.FastTrack.Reads.{of_epoch}
use data_race_detectors.FastTrack.Writes.{of_readers, names-fast}
use data_race_detectors.Djit.Laws.{unseen}
use data_race_detectors.FastTrack.Missed.{missed_race, two_reads}
use data_race_detectors.Eraser
use data_race_detectors.Eraser.{EraserMeta, new_eraser_meta, Locked}
use data_race_detectors.Eraser.Discipline.{run_locked}
use data_race_detectors.Eraser.Detects.{eraser_detects}
use data_race_detectors.AccuLock
use data_race_detectors.AccuLock.{AccuLockMeta, new_accu_lock_meta, Elp, skip_read}
use data_race_detectors.AccuLock.Reports.{unprotected, any_unprotected, names-accu}
use data_race_detectors.AccuLock.Detects.{accu_detects, accu_write-accu_read}

abbrev vc_1 : VectorClock
vc_1 = (1, 3) ∷ []

abbrev vc_2 : VectorClock
vc_2 = (2, 1) ∷ []

-- The clock of thread 2 after it has synchronised with thread 1.
abbrev joined : VectorClock
joined = (1, 3) ∷ (2, 1) ∷ []

-- Thread 1 writes, then thread 2 reads.
abbrev history : List Past
history =
    record { tid = 1; vc = vc_1; inst = 10; kind = event_write }
    ∷ record { tid = 2; vc = vc_2; inst = 11; kind = event_read }
    ∷ []

abbrev djit_work : Work Djit.DjitMeta
djit_work = run true history (Djit.History.fresh_work 64 init_counters [])

names-run_example :
    Adds
      (λ u. unseen 3 ((3, 1) ∷ []) u (last_write u 0 history))
      djit_work.reports
      (Djit.process_read true ((3, 1) ∷ []) 3 12 djit_work).reports
    × Adds
        (λ u.
          unseen 3 ((3, 1) ∷ []) u (last_write u 0 history)
          || unseen 3 ((3, 1) ∷ []) u (last_read u 0 history))
        djit_work.reports
        (Djit.process_write true ((3, 1) ∷ []) 3 12 djit_work).reports
unfolding get_clock
names-run_example =
    names-run true 64 3 12 init_counters [] ((3, 1) ∷ []) history (ground arith) (ground arith)

-- Djit reports the read of thread 2, and the later write of thread 1 against it.
djit_reports :
    (names 1 djit_work.reports ≡ true)
    × (names 2 (Djit.process_write true vc_1 1 12 djit_work).reports ≡ true)
unfolding run Djit.process_read Djit.process_write Djit.check Djit.count_read Djit.count_write
    get_clock Clock.happens_before set_clock report_clock
djit_reports = (refl, refl)

-- Nothing is reported when the clocks are ordered.
djit_ordered :
    (Djit.process_read true joined 2 11
      (Djit.process_write true vc_1 1 10 (Djit.History.fresh_work 64 init_counters []))).reports
    ≡ []
unfolding Djit.process_read Djit.process_write Djit.check Djit.count_read Djit.count_write get_clock
    Clock.happens_before set_clock report_clock
djit_ordered = refl

-- Thread 1 has written at timestamp 3, and thread 4 has read at 2.
abbrev fast_work : Work FastTrackMeta
fast_work =
    let m = new_fast_track_meta 64 in
    record {
      meta = record m {
        writer_epoch = record { tid = 1; clock = 3 };
        writer_inst = 10;
        reader_epoch = record { tid = 4; clock = 2 };
        reader_vc = (4, 2) ∷ [];
        reader_inst_table = (4, 9) ∷ [];
      };
      counters = init_counters;
      reports = [];
    }

names-fast_example :
    let e = fast_work.meta.writer_epoch in
    Adds
      (λ u. not (Epoch.equal fast_work.meta.reader_epoch vc_2) && of_epoch 2 vc_2 u e)
      []
      (FastTrack.process_read true vc_2 2 11 fast_work).reports
    × Adds
        (λ u.
          not (not (Epoch.is_initial e) && Epoch.equal e vc_2)
          && (of_epoch 2 vc_2 u e || of_readers 2 vc_2 u fast_work.meta))
        []
        (FastTrack.process_write true vc_2 2 11 fast_work).reports
names-fast_example = names-fast true vc_2 2 11 fast_work (ground arith) (ground arith)

missed_race_example :
    ((FastTrack.process_write true ((1, 3) ∷ (3, 1) ∷ []) 3 12 (
        FastTrack.process_read true joined 2 11 (
          FastTrack.process_read true vc_1 1 10
            (FastTrack.Missed.fresh_work 64 init_counters [])))).reports
      ≡ [])
    × (names 2
          (Djit.process_write true ((1, 3) ∷ (3, 1) ∷ []) 3 12 (
            run true
              (two_reads 2 1 10 11 vc_1 joined)
              (Djit.History.fresh_work 64 init_counters []))).reports
        ≡ true)
unfolding get_clock
missed_race_example =
    missed_race true 64 2 1 3 10 11 12 init_counters [] vc_1 joined ((1, 3) ∷ (3, 1) ∷ [])
      (ground arith) (ground arith) (ground arith) (ground arith) refl (ground arith) (omega arith)
      (ground arith)

abbrev eraser_work : Work EraserMeta
eraser_work = record { meta = new_eraser_meta 64; counters = init_counters; reports = [] }

-- Both threads hold lock 16.
abbrev locked : List Locked
locked =
    record { tid = 1; held = 16 ∷ 32 ∷ []; inst = 10; kind = event_write }
    ∷ record { tid = 2; held = 16 ∷ []; inst = 11; kind = event_read }
    ∷ record { tid = 2; held = 16 ∷ []; inst = 11; kind = event_write }
    ∷ []

run_locked_example :
    ((Eraser.run true locked eraser_work).reports ≡ [])
    × ((Eraser.run true locked eraser_work).meta.base.racy ≡ false)
unfolding is_exist
run_locked_example = run_locked true 16 64 init_counters [] locked (ground arith)

eraser_detects_example :
    let first = Eraser.process_write true (16 ∷ []) 1 10 eraser_work in
    (names 1 (Eraser.process event_read true (32 ∷ []) 2 11 first).reports ≡ true)
    × (names 1
          (Eraser.process_write true
            (32 ∷ [])
            2
            11
            (Eraser.process_read true (16 ∷ []) 1 10 eraser_work)).reports
        ≡ true)
unfolding is_disjoint is_exist
eraser_detects_example =
    eraser_detects event_read true (16 ∷ []) (32 ∷ []) 1 2 10 11 eraser_work (omega arith)
      (omega arith) refl

abbrev accu_work : Work AccuLockMeta
accu_work = record { meta = new_accu_lock_meta 64; counters = init_counters; reports = [] }

abbrev accu_written : Work AccuLockMeta
accu_written = AccuLock.process_write true vc_1 (16 ∷ []) 1 10 accu_work

names-accu_example :
    Adds
      (λ u.
        not (skip_read vc_2 2 accu_written.meta)
        && unprotected 2 vc_2 (32 ∷ []) u accu_written.meta.writer_elp)
      accu_written.reports
      (AccuLock.process_read true vc_2 (32 ∷ []) 2 11 accu_written).reports
    × Adds
        (λ u.
          not (Epoch.equal accu_written.meta.writer_elp.epoch vc_2)
          && (unprotected 2 vc_2 (32 ∷ []) u accu_written.meta.writer_elp
              || any_unprotected 2 vc_2 (32 ∷ []) u accu_written.meta.reader_elp_map))
        accu_written.reports
        (AccuLock.process_write true vc_2 (32 ∷ []) 2 11 accu_written).reports
names-accu_example = names-accu true vc_2 (32 ∷ []) 2 11 accu_written

accu_detects_example :
    (names 1 (AccuLock.process_read true vc_2 (32 ∷ []) 2 11 accu_written).reports ≡ true)
    × (names 1 (AccuLock.process_write true vc_2 (32 ∷ []) 2 11 accu_written).reports ≡ true)
unfolding is_disjoint is_exist Epoch.equal Epoch.is_initial get_clock
accu_detects_example =
    accu_detects true vc_1 vc_2 (16 ∷ []) (32 ∷ []) 1 2 10 11 accu_work refl (omega arith)
      (ground arith) refl

accu_write-accu_read_example :
    names 1
      (AccuLock.process_write true vc_2
        (32 ∷ [])
        2
        11
        (AccuLock.process_read true vc_1 (16 ∷ []) 1 10 accu_work)).reports
    ≡ true
unfolding is_disjoint is_exist Epoch.equal Epoch.is_initial get_clock skip_read AccuLock.reader_at
    find
accu_write-accu_read_example =
    accu_write-accu_read true vc_1 vc_2 (16 ∷ []) (32 ∷ []) 1 2 10 11 accu_work refl refl
      (omega arith) (ground arith) refl

-- ===== src/FastTrack/Writes.antt =====
-- What a write reports in src/pintool/fasttrack.cpp.
use data_race_detectors.Base.{
  ℕ, ◌≡◌, refl, sym, List, ◌++◌, Map, ◌∙◌, inl, inr, Bool, not, ◌&&◌, ◌||◌, [], if◌then◌else◌,
  Bool-cases, arith,
}
use mathlib.Core.List.{append-nil}
use data_race_detectors.Clock.{VectorClock, IsClock, get_clock}
use data_race_detectors.Clock
use data_race_detectors.Clock.Order.{happens_before_iff}
use data_race_detectors.Epoch
use data_race_detectors.Epoch.{Epoch}
use data_race_detectors.Shadow.{
  Counters, event_read, Work, Access, write_access, inst_at, report_clock, Report,
}
use data_race_detectors.Shadow.Reports.{Adds, Adds-none, Adds-trans, Adds-ext, names-report_clock}
use data_race_detectors.FastTrack.{
  FastTrackMeta, bump_ww, race, check_writer, check_readers, record_write, process_write,
  process_read,
}
use data_race_detectors.FastTrack.Reads.{
  unordered, of_epoch, Adds-epoch, Adds-check_writer, Adds-fast_read,
}

abbrev pub of_readers : ℕ → VectorClock → ℕ → FastTrackMeta → Bool
of_readers t vc u m =
    if m.read_shared
    then unordered t vc u (get_clock u m.reader_vc)
    else of_epoch t vc u m.reader_epoch

clocks_apart :
    (addr : ℕ) (a : Access) (vc m : VectorClock) (table : Map ℕ) (rs ss : List Report)
    → IsClock 0 vc
    → IsClock 0 m
    → ss ≡ (
        if not (Clock.happens_before m vc)
        then rs ++ report_clock addr a vc event_read table m
        else rs)
    → Adds (λ u. unordered a.tid vc u (get_clock u m)) rs ss
clocks_apart addr a vc m table rs ss c d h = elim (Bool-cases (Clock.happens_before m vc)) [
  | inl y ↦ (
    [],
    h ∙ rw (y) (sym (append-nil rs)),
    λ u. ground (arith, (happens_before_iff m vc d c).0 y u),
  )
  | inr n ↦ (
    report_clock addr a vc event_read table m,
    h ∙ rw (n) refl,
    λ u. names-report_clock addr a vc event_read table 0 u m d,
  )
]

Adds-check_readers :
    (a : Access) (vc : VectorClock) (w : Work FastTrackMeta)
    → IsClock 0 vc
    → IsClock 0 w.meta.reader_vc
    → Adds (λ u. of_readers a.tid vc u w.meta) w.reports (check_readers a vc w).reports
unfolding check_readers race
Adds-check_readers a vc w c d =
    let m = w.meta in
    elim (Bool-cases m.read_shared) [
      | inl y ↦ rw (y) (
          clocks_apart m.base.addr a vc m.reader_vc m.reader_inst_table w.reports _ c d
            (ground (arith, y)))
      | inr n ↦ rw (n) (
          Adds-epoch m.base.addr a vc m.reader_epoch
            (inst_at m.reader_epoch.tid m.reader_inst_table) event_read w.reports _
            (ground (arith, n)))
    ]

check_writer_keeps :
    (bump : Counters → Counters) (a : Access) (vc : VectorClock) (w : Work FastTrackMeta)
    → let m = (check_writer bump a vc w).meta in
      (m.reader_vc ≡ w.meta.reader_vc)
      × (m.read_shared ≡ w.meta.read_shared)
      × (m.reader_epoch ≡ w.meta.reader_epoch)
unfolding check_writer race
check_writer_keeps bump a vc w = ground arith

Adds-fast_write :
    (track : Bool) (vc : VectorClock) (t inst : ℕ) (w : Work FastTrackMeta)
    → IsClock 0 vc
    → IsClock 0 w.meta.reader_vc
    → let e = w.meta.writer_epoch in
      Adds
        (λ u.
          not (not (Epoch.is_initial e) && Epoch.equal e vc)
          && (of_epoch t vc u e || of_readers t vc u w.meta))
        w.reports
        (process_write track vc t inst w).reports
unfolding process_write record_write
Adds-fast_write track vc t inst w c d =
    let a = write_access t inst in
    let v = check_writer bump_ww a vc w in
    let (p, q, r) = check_writer_keeps bump_ww a vc w in
    elim (Bool-cases
      (not (Epoch.is_initial w.meta.writer_epoch) && Epoch.equal w.meta.writer_epoch vc)) [
        | inl y ↦ rw (y, process_write) (Adds-none w.reports)
        | inr n ↦
            rw (n, process_write)
              (Adds-trans _ _ w.reports v.reports _ (Adds-check_writer bump_ww a vc w) (
                Adds-ext _ _ v.reports _ (λ u. rw (p, q, r) refl)
                  (Adds-check_readers a vc v c (rw p d))))
      ]

-- For well-formed clocks, a FastTrack access appends reports to the list, and nothing else happens
-- to the list. Among what a read appends is a report against u exactly when the epoch test does
-- not drop the read and the last write is of u, another thread, at a timestamp that the clock has
-- not reached. Among what a write appends is one exactly when it is not in the epoch of the last
-- write, and the last write is of u and unordered, or the reads recorded for u are: those in the
-- vector clock when the unit is read-shared, and that in the epoch when it is not.
pub names-fast :
    (track : Bool) (vc : VectorClock) (t inst : ℕ) (w : Work FastTrackMeta)
    → IsClock 0 vc
    → IsClock 0 w.meta.reader_vc
    → let e = w.meta.writer_epoch in
      Adds
        (λ u. not (Epoch.equal w.meta.reader_epoch vc) && of_epoch t vc u e)
        w.reports
        (process_read track vc t inst w).reports
      × Adds
          (λ u.
            not (not (Epoch.is_initial e) && Epoch.equal e vc)
            && (of_epoch t vc u e || of_readers t vc u w.meta))
          w.reports
          (process_write track vc t inst w).reports
names-fast track vc t inst w c d =
    (Adds-fast_read track vc t inst w, Adds-fast_write track vc t inst w c d)

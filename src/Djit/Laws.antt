-- ===== src/Djit/Laws.antt =====
-- What the detector of src/pintool/djit.cpp reports.
use data_race_detectors.Base.{
  ℕ, ◌≡◌, sym, inl, inr, Bool, not, ◌&&◌, ◌||◌, ◌++◌, ltb, ◌==◌, Map, Bool-cases, arith,
}
use mathlib.Core.List.{append-nil}
use data_race_detectors.Clock
use data_race_detectors.Clock.{VectorClock, IsClock, get_clock, set_clock}
use data_race_detectors.Clock.Order.{happens_before_iff}
use data_race_detectors.Shadow.{
  RaceEventType, event_read, event_write, Work, Access, read_access, write_access, report_clock,
}
use data_race_detectors.Shadow.Reports.{Adds, Adds-trans, names-report_clock, report_clock_ordered}
use data_race_detectors.Djit.{DjitMeta, check, count_read, count_write, process_read, process_write}

-- Both clocks are in map order and store no 0.
pub record IsDjit (m : DjitMeta) : Type 0 where
  pub writer : IsClock 0 m.writer_vc
  pub reader : IsClock 0 m.reader_vc

-- The test of the whole clock only saves the loop: it never hides a report.
check-reports :
    (a : Access) (vc earlier : VectorClock) (kind : RaceEventType) (table : Map ℕ)
    (w : Work DjitMeta)
    → IsClock 0 earlier
    → IsClock 0 vc
    → (check a vc earlier kind table w).reports
      ≡ w.reports ++ report_clock w.meta.base.addr a vc kind table earlier
unfolding check
check-reports a vc earlier kind table w e c = elim (Bool-cases (Clock.happens_before earlier vc)) [
  | inl y ↦
      rw (y, check)
        (rw
          (report_clock_ordered w.meta.base.addr a vc kind table 0 earlier e
            ((happens_before_iff earlier vc e c).0 y))
          (sym (append-nil w.reports)))
  | inr n ↦ rw (n, check)
]

-- A timestamp of `u`, another thread than `t`, that the clock of `t` has not reached.
abbrev pub unseen : ℕ → VectorClock → ℕ → ℕ → Bool
unseen t vc u d = not (t == u) && ltb (get_clock u vc) d

Adds-check :
    (a : Access) (vc earlier : VectorClock) (kind : RaceEventType) (table : Map ℕ)
    (w : Work DjitMeta)
    → IsClock 0 earlier
    → IsClock 0 vc
    → Adds
        (λ u. unseen a.tid vc u (get_clock u earlier))
        w.reports
        (check a vc earlier kind table w).reports
Adds-check a vc earlier kind table w e c = (
  report_clock w.meta.base.addr a vc kind table earlier,
  check-reports a vc earlier kind table w e c,
  λ u. names-report_clock w.meta.base.addr a vc kind table 0 u earlier e,
)

pub check_keeps :
    (a : Access) (vc earlier : VectorClock) (kind : RaceEventType) (table : Map ℕ)
    (w : Work DjitMeta)
    → let k = (check a vc earlier kind table w).meta in
      (k.writer_vc ≡ w.meta.writer_vc)
      × (k.reader_vc ≡ w.meta.reader_vc)
      × (k.base.addr ≡ w.meta.base.addr)
unfolding check
check_keeps a vc earlier kind table w = ground arith

pub Adds-djit_read :
    (track : Bool) (vc : VectorClock) (t inst : ℕ) (w : Work DjitMeta)
    → IsClock 0 vc
    → IsDjit w.meta
    → Adds
        (λ u. unseen t vc u (get_clock u w.meta.writer_vc))
        w.reports
        (process_read track vc t inst w).reports
unfolding process_read count_read
Adds-djit_read track vc t inst w c d =
    Adds-check (read_access t inst) vc w.meta.writer_vc event_write w.meta.writer_inst_table
      (count_read vc w) d.writer c

pub Adds-djit_write :
    (track : Bool) (vc : VectorClock) (t inst : ℕ) (w : Work DjitMeta)
    → IsClock 0 vc
    → IsDjit w.meta
    → Adds
        (λ u.
          unseen t vc u (get_clock u w.meta.writer_vc)
          || unseen t vc u (get_clock u w.meta.reader_vc))
        w.reports
        (process_write track vc t inst w).reports
unfolding process_write count_write
Adds-djit_write track vc t inst w c d =
    let a = write_access t inst in
    let m = w.meta in
    let first = check a vc m.writer_vc event_write m.writer_inst_table (count_write vc w) in
    Adds-trans _ _ w.reports first.reports _
      (Adds-check a vc m.writer_vc event_write m.writer_inst_table (count_write vc w) d.writer c)
      (Adds-check a vc m.reader_vc event_read m.reader_inst_table first d.reader c)

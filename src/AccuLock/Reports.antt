-- ===== src/AccuLock/Reports.antt =====
-- What the accesses of src/pintool/acculock.cpp report.
use data_race_detectors.Base.{
  ℕ, ◌≡◌, inl, inr, Bool, false, not, ◌&&◌, ◌||◌, if◌then◌else◌, List, ◌++◌, refl, [], ◌∷◌, ltb,
  ◌==◌, Map, Bool-cases, arith,
}
use data_race_detectors.Clock.{VectorClock, get_clock}
use data_race_detectors.Epoch
use data_race_detectors.Lockset.{Lockset, is_disjoint}
use data_race_detectors.Shadow.{
  Counters, RaceEventType, event_read, event_write, Work, Access, read_access, write_access,
  inst_at, report_epoch, Report,
}
use data_race_detectors.Shadow.Reports.{
  names, Adds, Adds-none, Adds-trans, Adds-ext, Adds-names, Adds-if,
}
use data_race_detectors.AccuLock.{
  Elp, AccuLockMeta, bump_wr, bump_ww, bump_rw, check, check_readers, touch_reader, skip_read,
  process_read, process_write, record_read, record_write,
}

-- An earlier access of `u`, another thread, at a timestamp that the clock of thread `t` has not
-- reached, with no lock in common.
abbrev pub unprotected : ℕ → VectorClock → Lockset → ℕ → Elp → Bool
unprotected t vc held u e =
    e.epoch.tid == u
    && (not (t == u) && (ltb (get_clock u vc) e.epoch.clock && is_disjoint e.locks held))

abbrev pub any_unprotected : ℕ → VectorClock → Lockset → ℕ → Map Elp → Bool
any_unprotected t vc held u [] = false
any_unprotected t vc held u ((v, e) ∷ m) =
    unprotected t vc held u e || any_unprotected t vc held u m

pub or_assoc : (a b c : Bool) → ((a || b) || c) ≡ (a || (b || c))
or_assoc a b c = ground arith

names-report_epoch :
    (addr : ℕ) (a : Access) (vc : VectorClock) (e : Elp) (inst : ℕ) (kind : RaceEventType) (u : ℕ)
    → names u (report_epoch addr a vc e.epoch inst kind)
      ≡ (e.epoch.tid == u && (not (a.tid == u) && ltb (get_clock u vc) e.epoch.clock))
unfolding report_epoch
names-report_epoch addr a vc e inst kind u = ground arith

-- The test of the code in front of the report.
abbrev pub passes : VectorClock → Lockset → Elp → Bool
passes vc held e = not (Epoch.happens_before e.epoch vc) && is_disjoint e.locks held

pub passes_lem :
    (t : ℕ) (vc : VectorClock) (held : Lockset) (e : Elp) (u : ℕ)
    → (passes vc held e
        && (e.epoch.tid == u && (not (t == u) && ltb (get_clock u vc) e.epoch.clock)))
      ≡ unprotected t vc held u e
unfolding Epoch.happens_before
passes_lem t vc held e u = ground arith

-- What all detectors with epochs and locks do with one earlier access.
pub Adds-unprotected :
    (addr : ℕ) (a : Access) (vc : VectorClock) (held : Lockset) (e : Elp) (inst : ℕ)
    (kind : RaceEventType) (rs ss : List Report)
    → ss ≡ (if passes vc held e then rs ++ report_epoch addr a vc e.epoch inst kind else rs)
    → Adds (λ u. unprotected a.tid vc held u e) rs ss
Adds-unprotected addr a vc held e inst kind rs ss h =
    Adds-ext _ _ rs ss (passes_lem a.tid vc held e)
      (Adds-if (passes vc held e) _ rs _ ss h (names-report_epoch addr a vc e inst kind))

Adds-check :
    (bump : Counters → Counters) (a : Access) (vc : VectorClock) (held : Lockset) (e : Elp)
    (inst : ℕ) (kind : RaceEventType) (w : Work AccuLockMeta)
    → Adds
        (λ u. unprotected a.tid vc held u e)
        w.reports
        (check bump a vc held e inst kind w).reports
unfolding check
Adds-check bump a vc held e inst kind w =
    Adds-unprotected w.meta.base.addr a vc held e inst kind w.reports _
      (elim (Bool-cases (passes vc held e)) [
        | inl y ↦ rw (y, check) refl
        | inr n ↦ rw (n, check) refl
      ])

Adds-check_readers :
    (a : Access) (vc : VectorClock) (held : Lockset) (table : Map ℕ) (m : Map Elp)
    (w : Work AccuLockMeta)
    → Adds
        (λ u. any_unprotected a.tid vc held u m)
        w.reports
        (check_readers a vc held table m w).reports
unfolding check_readers
Adds-check_readers a vc held table [] w = Adds-none w.reports
Adds-check_readers a vc held table ((v, e) ∷ m) w =
    Adds-trans _ _ w.reports _ _
      (Adds-check bump_rw a vc held e (inst_at e.epoch.tid table) event_read w)
      (Adds-check_readers a vc held table m _)

Adds-accu_read :
    (track : Bool) (vc : VectorClock) (held : Lockset) (t inst : ℕ) (w : Work AccuLockMeta)
    → Adds
        (λ u. not (skip_read vc t w.meta) && unprotected t vc held u w.meta.writer_elp)
        w.reports
        (process_read track vc held t inst w).reports
unfolding process_read record_read touch_reader
Adds-accu_read track vc held t inst w = elim (Bool-cases (skip_read vc t w.meta)) [
  | inl y ↦ rw (y, process_read) (Adds-none w.reports)
  | inr n ↦
      rw (n, process_read)
        (Adds-check bump_wr (read_access t inst) vc held w.meta.writer_elp w.meta.writer_inst
          event_write (touch_reader t w))
]

Adds-accu_write :
    (track : Bool) (vc : VectorClock) (held : Lockset) (t inst : ℕ) (w : Work AccuLockMeta)
    → Adds
        (λ u.
          not (Epoch.equal w.meta.writer_elp.epoch vc)
          && (unprotected t vc held u w.meta.writer_elp
              || any_unprotected t vc held u w.meta.reader_elp_map))
        w.reports
        (process_write track vc held t inst w).reports
unfolding process_write record_write
Adds-accu_write track vc held t inst w =
    let a = write_access t inst in
    elim (Bool-cases (Epoch.equal w.meta.writer_elp.epoch vc)) [
      | inl y ↦ rw (y, process_write) (Adds-none w.reports)
      | inr n ↦
          rw (n, process_write)
            (Adds-trans _ _ w.reports _ _
              (Adds-check bump_ww a vc held w.meta.writer_elp w.meta.writer_inst event_write w)
              (Adds-check_readers a vc held w.meta.reader_inst_table w.meta.reader_elp_map _))
    ]

pub names-accu_read :
    (track : Bool) (vc : VectorClock) (held : Lockset) (t inst u : ℕ) (w : Work AccuLockMeta)
    → names u (process_read track vc held t inst w).reports ≡ (
        names u w.reports
        || (not (skip_read vc t w.meta) && unprotected t vc held u w.meta.writer_elp))
names-accu_read track vc held t inst u w =
    Adds-names _ w.reports _ (Adds-accu_read track vc held t inst w) u

pub names-accu_write :
    (track : Bool) (vc : VectorClock) (held : Lockset) (t inst u : ℕ) (w : Work AccuLockMeta)
    → names u (process_write track vc held t inst w).reports ≡ (
        names u w.reports
        || (not (Epoch.equal w.meta.writer_elp.epoch vc)
            && (unprotected t vc held u w.meta.writer_elp
                || any_unprotected t vc held u w.meta.reader_elp_map)))
names-accu_write track vc held t inst u w =
    Adds-names _ w.reports _ (Adds-accu_write track vc held t inst w) u

-- A read appends reports to the list, and nothing else happens to the list. Among what it appends
-- is a report against `u` exactly when the read is not in the epoch of the last write nor of the
-- thread's last read, and the last write is of `u`, another thread, at a timestamp that the
-- reader's clock has not reached, and under no lock that the reader holds. The same holds of a
-- write, when it is not in the epoch of the last write, and that write or a read since then is such
-- an access of `u`.
pub names-accu :
    (track : Bool) (vc : VectorClock) (held : Lockset) (t inst : ℕ) (w : Work AccuLockMeta)
    → Adds
        (λ u. not (skip_read vc t w.meta) && unprotected t vc held u w.meta.writer_elp)
        w.reports
        (process_read track vc held t inst w).reports
      × Adds
          (λ u.
            not (Epoch.equal w.meta.writer_elp.epoch vc)
            && (unprotected t vc held u w.meta.writer_elp
                || any_unprotected t vc held u w.meta.reader_elp_map))
          w.reports
          (process_write track vc held t inst w).reports
names-accu track vc held t inst w =
    (Adds-accu_read track vc held t inst w, Adds-accu_write track vc held t inst w)

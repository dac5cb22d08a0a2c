-- ===== src/HistLock/Reports.antt =====
-- What the accesses of src/pintool/histlock.cpp report.
use data_race_detectors.Base.{
  ℕ, ◌≡◌, refl, inl, inr, Bool, false, not, ◌&&◌, ◌||◌, some, List, [], ◌∷◌, Bool-cases,
  Option-cases, arith,
}
use data_race_detectors.Clock.{VectorClock}
use data_race_detectors.Lockset.{Lockset}
use data_race_detectors.Shadow.{
  Counters, RaceEventType, event_read, event_write, Work, Access, read_access, write_access,
}
use data_race_detectors.Shadow.Reports.{Adds, Adds-none, Adds-trans}
use data_race_detectors.AccuLock.{bump_wr, bump_ww, bump_rw}
use data_race_detectors.AccuLock.Reports.{unprotected, passes, Adds-unprotected}
use data_race_detectors.HistLock.{
  Elpi, HistLockMeta, check, check_all, skip, touch, current, push, record_read, record_write,
  skip_read, skip_write, process_read, process_write, process_access,
}

abbrev pub any_in_list : ℕ → VectorClock → Lockset → ℕ → List Elpi → Bool
any_in_list t vc held u [] = false
any_in_list t vc held u (e ∷ es) = unprotected t vc held u e.elp || any_in_list t vc held u es

Adds-check :
    (bump : Counters → Counters) (a : Access) (vc : VectorClock) (held : Lockset)
    (kind : RaceEventType) (e : Elpi) (w : Work HistLockMeta)
    → Adds
        (λ u. unprotected a.tid vc held u e.elp)
        w.reports
        (check bump a vc held kind e w).reports
unfolding check
Adds-check bump a vc held kind e w =
    Adds-unprotected w.meta.base.addr a vc held e.elp e.inst kind w.reports _
      (elim (Bool-cases (passes vc held e.elp)) [
        | inl y ↦ rw (y, check) refl
        | inr n ↦ rw (n, check) refl
      ])

Adds-check_all :
    (bump : Counters → Counters) (a : Access) (vc : VectorClock) (held : Lockset)
    (kind : RaceEventType) (es : List Elpi) (w : Work HistLockMeta)
    → Adds
        (λ u. any_in_list a.tid vc held u es)
        w.reports
        (check_all bump a vc held kind es w).reports
unfolding check_all
Adds-check_all bump a vc held kind [] w = Adds-none w.reports
Adds-check_all bump a vc held kind (e ∷ es) w =
    Adds-trans _ _ w.reports _ _ (Adds-check bump a vc held kind e w)
      (Adds-check_all bump a vc held kind es _)

Adds-hist_read :
    (track : Bool) (vc : VectorClock) (held : Lockset) (site t inst : ℕ) (w w' : Work HistLockMeta)
    → process_read track vc held site t inst w ≡ some w'
    → Adds
        (λ u. not (skip_read vc w.meta) && any_in_list t vc held u w.meta.writer.elpi_list)
        w.reports
        w'.reports
unfolding process_read record_read
Adds-hist_read track vc held site t inst w w' h =
    let m = w.meta in
    let v = record w { meta = record m { reader = touch t m.reader } } in
    let checked = check_all bump_wr (read_access t inst) vc held event_write m.writer.elpi_list v in
    elim (Bool-cases (skip_read vc m)) [
      | inl y ↦ let e : skip v ≡ w' = ground (arith, y, h) in rw (← e, y) (Adds-none w.reports)
      | inr n ↦ elim (Option-cases (push site t (current vc held t) inst checked.meta.reader)) [
        | inl p ↦ absurd (ground (arith, n, p, h))
        | inr (r, p) ↦
            let e : record_read track t inst checked r ≡ w' = ground (arith, n, p, h) in
            rw (← e, n)
              (Adds-check_all bump_wr (read_access t inst) vc held event_write m.writer.elpi_list v)
      ]
    ]

Adds-hist_write :
    (track : Bool) (vc : VectorClock) (held : Lockset) (site t inst : ℕ) (w w' : Work HistLockMeta)
    → process_write track vc held site t inst w ≡ some w'
    → Adds
        (λ u.
          not (skip_write vc w.meta)
          && (any_in_list t vc held u w.meta.writer.elpi_list
              || any_in_list t vc held u w.meta.reader.elpi_list))
        w.reports
        w'.reports
unfolding process_write record_write
Adds-hist_write track vc held site t inst w w' h =
    let m = w.meta in
    let a = write_access t inst in
    let v = record w { meta = record m { writer = touch t m.writer } } in
    let first = check_all bump_ww a vc held event_write m.writer.elpi_list v in
    let checked = check_all bump_rw a vc held event_read m.reader.elpi_list first in
    elim (Bool-cases (skip_write vc m)) [
      | inl y ↦ let e : skip v ≡ w' = ground (arith, y, h) in rw (← e, y) (Adds-none w.reports)
      | inr n ↦ elim (Option-cases (push site t (current vc held t) inst checked.meta.writer)) [
        | inl p ↦ absurd (ground (arith, n, p, h))
        | inr (r, p) ↦
            let e : record_write track t inst checked r ≡ w' = ground (arith, n, p, h) in
            rw (← e, n)
              (Adds-trans _ _ w.reports _ _
                (Adds-check_all bump_ww a vc held event_write m.writer.elpi_list v)
                (Adds-check_all bump_rw a vc held event_read m.reader.elpi_list first))
      ]
    ]

-- The accesses that an access has in its way, as the code tests them.
abbrev pub raced : RaceEventType → VectorClock → Lockset → ℕ → HistLockMeta → ℕ → Bool
raced event_read vc held t m u = not (skip_read vc m) && any_in_list t vc held u m.writer.elpi_list
raced event_write vc held t m u =
    not (skip_write vc m)
    && (any_in_list t vc held u m.writer.elpi_list || any_in_list t vc held u m.reader.elpi_list)

-- If a read returns, it has appended reports to the list, and nothing else has happened to the list.
-- Among what it has appended is a report against `u` exactly when neither the last read nor the
-- last write of the histories is in the current epoch and a write of the history is of `u`, another
-- thread, at a timestamp that the clock of `t` has not reached, and under no lock that `t` holds.
-- The same holds of a write that returns, when the last write is not in the current epoch and a
-- write or a read of the histories is such an access of `u`.
pub names-hist :
    (kind : RaceEventType) (track : Bool) (vc : VectorClock) (held : Lockset) (site t inst : ℕ)
    (w w' : Work HistLockMeta)
    → process_access kind track vc held site t inst w ≡ some w'
    → Adds (raced kind vc held t w.meta) w.reports w'.reports
names-hist event_read = Adds-hist_read
names-hist event_write = Adds-hist_write

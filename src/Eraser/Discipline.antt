-- ===== src/Eraser/Discipline.antt =====
-- The lock discipline that src/pintool/eraser.cpp enforces.
use native.Mathlib.Decide.{ℕ_discrete}
use data_race_detectors.Base.{
  ℕ, ◌≡◌, refl, ◌≢◌, ◌∙◌, ap, inl, inr, Bool, true, false, List, [], ◌∷◌, Map, Bool-cases, arith,
}
use data_race_detectors.Lockset.{Lockset, is_exist, is_disjoint}
use data_race_detectors.Lockset.Laws.{is_disjoint_iff}
use data_race_detectors.Shadow.{
  RaceEventType, event_read, event_write, null, inst_at, Work, Counters, Report, Access,
  read_access, write_access,
}
use data_race_detectors.Sync.Clocks.{Entries, Entries-insert}
use data_race_detectors.Eraser.{
  Tlp, EraserMeta, new_eraser_meta, check, check_readers, process_read, process_write, Locked,
  process, run,
}

-- Every recorded access held the lock.
pub record Guarded (lock : ℕ) (m : EraserMeta) : Type 0 where
  pub writer : m.writer_inst ≢ null → is_exist lock m.writer_lockset.locks ≡ true
  pub readers : Entries (λ _ r. is_exist lock r.locks ≡ true) m.reader_lockset

-- Two sets with a common lock are not disjoint.
common_lock :
    (lock : ℕ) (s t : Lockset)
    → is_exist lock s ≡ true
    → is_exist lock t ≡ true
    → is_disjoint s t ≡ false
common_lock lock s t p q = elim (Bool-cases (is_disjoint s t)) [
  | inl y ↦ absurd (cc (q, (is_disjoint_iff s t).0 y lock p))
  | inr n ↦ n
]

check-guarded :
    (lock : ℕ) (a : Access) (held : Lockset) (earlier : Tlp) (inst : ℕ) (kind : RaceEventType)
    (w : Work EraserMeta)
    → is_exist lock held ≡ true
    → (inst ≢ null → is_exist lock earlier.locks ≡ true)
    → check a held earlier inst kind w ≡ w
unfolding check
check-guarded lock a held earlier inst kind w p q = elim (ℕ_discrete inst null) [
  | yes z ↦ ground arith
  | no nz ↦ ground (arith, common_lock lock earlier.locks held (q nz) p)
]

check_readers-guarded :
    (lock : ℕ) (a : Access) (held : Lockset) (table : Map ℕ) (m : Map Tlp) (w : Work EraserMeta)
    → is_exist lock held ≡ true
    → Entries (λ _ r. is_exist lock r.locks ≡ true) m
    → check_readers a held table m w ≡ w
unfolding check_readers
check_readers-guarded lock a held table [] w p h = refl
check_readers-guarded lock a held table ((u, r) ∷ m) w p h =
    ap (check_readers a held table m)
      (check-guarded lock a held r (inst_at r.tid table) event_read w p (λ _. h.0))
    ∙ check_readers-guarded lock a held table m w p h.1

abbrev Quiet : ℕ → Work EraserMeta → Work EraserMeta → Type 0
Quiet lock w w' =
    Guarded lock w'.meta × (w'.reports ≡ w.reports) × (w'.meta.base.racy ≡ w.meta.base.racy)

process-Quiet :
    (kind : RaceEventType) (track : Bool) (lock : ℕ) (held : Lockset) (t inst : ℕ)
    (w : Work EraserMeta)
    → is_exist lock held ≡ true
    → Guarded lock w.meta
    → Quiet lock w (process kind track held t inst w)
unfolding process_read process_write
process-Quiet event_read track lock held t inst w h g =
    let m = w.meta in
    rw
      (check-guarded lock (read_access t inst) held m.writer_lockset m.writer_inst event_write w h
        g.writer)
      (
        record { writer = g.writer; readers = Entries-insert _ t _ m.reader_lockset h g.readers },
        refl,
        refl,
      )
process-Quiet event_write track lock held t inst w h g =
    let m = w.meta in
    let a = write_access t inst in
    rw
      (
        check-guarded lock a held m.writer_lockset m.writer_inst event_write w h g.writer,
        check_readers-guarded lock a held m.reader_inst_table m.reader_lockset w h g.readers,
      )
      (record { writer = λ _. h; readers = g.readers }, refl, refl)

abbrev pub AllHold : ℕ → List Locked → Type 0
AllHold lock [] = Unit
AllHold lock (p ∷ ps) = (is_exist lock p.held ≡ true) × AllHold lock ps

run-Quiet :
    (track : Bool) (lock : ℕ) (ps : List Locked) (w : Work EraserMeta)
    → AllHold lock ps
    → Guarded lock w.meta
    → Quiet lock w (run track ps w)
unfolding run
run-Quiet track lock [] w h g = (g, refl, refl)
run-Quiet track lock (p ∷ ps) w h g =
    let q = process-Quiet p.kind track lock p.held p.tid p.inst w h.0 g in
    let r = run-Quiet track lock ps _ h.1 q.0 in (r.0, r.1 ∙ q.1, r.2 ∙ q.2)

-- If one lock is held at every access to a unit, Eraser reports nothing for the unit and does
-- not mark it as racy, whatever the threads, instructions and kinds of the accesses.
pub run_locked :
    (track : Bool) (lock addr : ℕ) (c : Counters) (rs : List Report) (ps : List Locked)
    → AllHold lock ps
    → let w = run track ps (record { meta = new_eraser_meta addr; counters = c; reports = rs }) in
      (w.reports ≡ rs) × (w.meta.base.racy ≡ false)
run_locked track lock addr c rs ps h =
    let q =
      run-Quiet track lock ps _ h (record { writer = λ ne. absurd (ne refl); readers = tt }) in
    (q.1, q.2)

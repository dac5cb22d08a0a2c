-- ===== src/MultiLock/Reports.antt =====
-- What the accesses of src/pintool/multilock.cpp report.
use data_race_detectors.Base.{
  ℕ, ◌≡◌, refl, subst, ◌∙◌, inl, inr, Bool, false, not, ◌&&◌, ◌||◌, [], ◌∷◌, ◌==◌, Map, insert,
  Bool-cases, arith,
}
use data_race_detectors.Clock.{VectorClock}
use data_race_detectors.Lockset.{Lockset}
use data_race_detectors.Shadow.{
  Counters, RaceEventType, event_read, event_write, Work, Access, read_access, write_access,
}
use data_race_detectors.Shadow.Reports.{Adds, Adds-none, Adds-trans, Adds-ext}
use data_race_detectors.AccuLock.{Elp, bump_wr, bump_ww, bump_rw}
use data_race_detectors.AccuLock.Reports.{unprotected, passes, Adds-unprotected}
use data_race_detectors.MultiLock.{
  ElpSet, InstMap, MultiLockMeta, elp_inst, check, check_set, check_others, redundant_read,
  redundant_write, process_read, process_write, update_on_read, update_on_write, touch_els,
}

abbrev pub any_in_set : ℕ → VectorClock → Lockset → ℕ → ElpSet → Bool
any_in_set t vc held u [] = false
any_in_set t vc held u (e ∷ es) = unprotected t vc held u e || any_in_set t vc held u es

-- An access that is recorded for a thread other than `t` is of `u` and unprotected.
abbrev pub any_other : ℕ → VectorClock → Lockset → ℕ → Map ElpSet → Bool
any_other t vc held u [] = false
any_other t vc held u ((v, es) ∷ m) =
    (not (v == t) && any_in_set t vc held u es) || any_other t vc held u m

Adds-check :
    (bump : Counters → Counters) (a : Access) (vc : VectorClock) (held : Lockset) (e : Elp)
    (inst : ℕ) (kind : RaceEventType) (w : Work MultiLockMeta)
    → Adds
        (λ u. unprotected a.tid vc held u e)
        w.reports
        (check bump a vc held e inst kind w).reports
unfolding check
Adds-check bump a vc held e inst kind w =
    Adds-unprotected w.meta.base.addr a vc held e inst kind w.reports _
      (elim (Bool-cases (passes vc held e)) [
        | inl y ↦ rw (y, check) refl
        | inr n ↦ rw (n, check) refl
      ])

Adds-check_set :
    (bump : Counters → Counters) (a : Access) (vc : VectorClock) (held : Lockset)
    (kind : RaceEventType) (table : InstMap) (es : ElpSet) (w : Work MultiLockMeta)
    → Adds
        (λ u. any_in_set a.tid vc held u es)
        w.reports
        (check_set bump a vc held kind table es w).reports
unfolding check_set
Adds-check_set bump a vc held kind table [] w = Adds-none w.reports
Adds-check_set bump a vc held kind table (e ∷ es) w =
    Adds-trans _ _ w.reports _ _ (Adds-check bump a vc held e (elp_inst e table) kind w)
      (Adds-check_set bump a vc held kind table es _)

Adds-check_others :
    (bump : Counters → Counters) (a : Access) (vc : VectorClock) (held : Lockset)
    (kind : RaceEventType) (table : InstMap) (m : Map ElpSet) (w : Work MultiLockMeta)
    → Adds
        (λ u. any_other a.tid vc held u m)
        w.reports
        (check_others bump a vc held kind table m w).reports
unfolding check_others
Adds-check_others bump a vc held kind table [] w = Adds-none w.reports
Adds-check_others bump a vc held kind table ((v, es) ∷ m) w = elim (Bool-cases (v == a.tid)) [
  | inl y ↦ rw (y, check_others) (Adds-check_others bump a vc held kind table m w)
  | inr n ↦
      rw (n, check_others)
        (Adds-trans _ _ w.reports _ _ (Adds-check_set bump a vc held kind table es w)
          (Adds-check_others bump a vc held kind table m _))
]

-- What is recorded for the thread itself does not matter.
any_other-insert :
    (t : ℕ) (vc : VectorClock) (held : Lockset) (u : ℕ) (es : ElpSet) (m : Map ElpSet)
    → any_other t vc held u (insert t es m) ≡ any_other t vc held u m
unfolding insert
any_other-insert t vc held u es [] = ground arith
any_other-insert t vc held u es ((v, fs) ∷ m) = ground (arith, any_other-insert t vc held u es m)

pub read_keeps :
    (vc : VectorClock) (held : Lockset) (t inst u : ℕ) (w : Work MultiLockMeta)
    → ((update_on_read vc held t inst w).reports ≡ w.reports)
      × (any_other t vc held u (update_on_read vc held t inst w).meta.writer_els_map
          ≡ any_other t vc held u w.meta.writer_els_map)
unfolding update_on_read touch_els
read_keeps vc held t inst u w = elim (Bool-cases (redundant_read vc held t w.meta)) [
  | inl y ↦ rw (y, update_on_read) (refl, any_other-insert t vc held u _ w.meta.writer_els_map)
  | inr n ↦ rw (n, update_on_read) (refl, any_other-insert t vc held u _ w.meta.writer_els_map)
]

write_keeps :
    (vc : VectorClock) (held : Lockset) (t inst u : ℕ) (w : Work MultiLockMeta)
    → ((update_on_write vc held t inst w).reports ≡ w.reports)
      × (any_other t vc held u (update_on_write vc held t inst w).meta.writer_els_map
          ≡ any_other t vc held u w.meta.writer_els_map)
      × (any_other t vc held u (update_on_write vc held t inst w).meta.reader_els_map
          ≡ any_other t vc held u w.meta.reader_els_map)
unfolding update_on_write touch_els
write_keeps vc held t inst u w = elim (Bool-cases (redundant_write vc held t w.meta)) [
  | inl y ↦
      rw (y, update_on_write)
        (
          refl,
          any_other-insert t vc held u _ w.meta.writer_els_map,
          any_other-insert t vc held u _ w.meta.reader_els_map,
        )
  | inr n ↦
      rw (n, update_on_write)
        (
          refl,
          any_other-insert t vc held u _ _ ∙ any_other-insert t vc held u _ w.meta.writer_els_map,
          any_other-insert t vc held u _ _ ∙ any_other-insert t vc held u _ w.meta.reader_els_map,
        )
]

Adds-multi_read :
    (track : Bool) (vc : VectorClock) (held : Lockset) (t inst : ℕ) (w : Work MultiLockMeta)
    → Adds
        (λ u. not (redundant_read vc held t w.meta) && any_other t vc held u w.meta.writer_els_map)
        w.reports
        (process_read track vc held t inst w).reports
unfolding process_read
Adds-multi_read track vc held t inst w =
    let v = update_on_read vc held t inst w in
    let a = (read_keeps vc held t inst 0 w).0 in
    elim (Bool-cases (redundant_read vc held t w.meta)) [
      | inl y ↦ rw (y, process_read, a) (Adds-none w.reports)
      | inr n ↦
          rw (n, process_read)
            (Adds-ext _ _ w.reports _ (λ u. (read_keeps vc held t inst u w).1)
              (subst
                (λ rs.
                  Adds (λ u. any_other t vc held u v.meta.writer_els_map) rs
                    (check_others bump_wr (read_access t inst) vc held event_write
                      v.meta.writer_inst_table v.meta.writer_els_map v).reports)
                a
                (Adds-check_others bump_wr (read_access t inst) vc held event_write
                  v.meta.writer_inst_table v.meta.writer_els_map v)))
    ]

Adds-multi_write :
    (track : Bool) (vc : VectorClock) (held : Lockset) (t inst : ℕ) (w : Work MultiLockMeta)
    → Adds
        (λ u.
          not (redundant_write vc held t w.meta)
          && (any_other t vc held u w.meta.writer_els_map
              || any_other t vc held u w.meta.reader_els_map))
        w.reports
        (process_write track vc held t inst w).reports
unfolding process_write
Adds-multi_write track vc held t inst w =
    let x = write_access t inst in
    let v = update_on_write vc held t inst w in
    let k = v.meta in
    let first = check_others bump_ww x vc held event_write k.writer_inst_table k.writer_els_map v in
    let last =
      check_others bump_rw x vc held event_read k.reader_inst_table k.reader_els_map first in
    let a = (write_keeps vc held t inst 0 w).0 in
    elim (Bool-cases (redundant_write vc held t w.meta)) [
      | inl y ↦ rw (y, process_write, a) (Adds-none w.reports)
      | inr n ↦
          rw (n, process_write)
            (Adds-ext _ _ w.reports _
              (λ u. let (_, b, c) = write_keeps vc held t inst u w in rw (b, c) refl)
              (subst
                (λ rs.
                  Adds
                    (λ u.
                      any_other t vc held u k.writer_els_map
                      || any_other t vc held u k.reader_els_map)
                    rs last.reports)
                a
                (Adds-trans _ _ v.reports _ _
                  (Adds-check_others bump_ww x vc held event_write k.writer_inst_table
                    k.writer_els_map v)
                  (Adds-check_others bump_rw x vc held event_read k.reader_inst_table
                    k.reader_els_map first))))
    ]

-- A read appends reports to the list, and nothing else happens to the list. Among what it appends
-- is a report against `u` exactly when the code does not take the read for redundant and a write
-- recorded for a thread other than the reader is of `u`, other than the reader, at a timestamp that
-- the reader's clock has not reached, and under no lock that the reader holds. The same holds of a
-- write, when it is not taken for redundant and a write or a read recorded for another thread is
-- such an access of `u`.
pub names-multi :
    (track : Bool) (vc : VectorClock) (held : Lockset) (t inst : ℕ) (w : Work MultiLockMeta)
    → Adds
        (λ u. not (redundant_read vc held t w.meta) && any_other t vc held u w.meta.writer_els_map)
        w.reports
        (process_read track vc held t inst w).reports
      × Adds
          (λ u.
            not (redundant_write vc held t w.meta)
            && (any_other t vc held u w.meta.writer_els_map
                || any_other t vc held u w.meta.reader_els_map))
          w.reports
          (process_write track vc held t inst w).reports
names-multi track vc held t inst w =
    (Adds-multi_read track vc held t inst w, Adds-multi_write track vc held t inst w)

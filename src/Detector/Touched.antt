-- ===== src/Detector/Touched.antt =====
-- What an access does in src/pintool/detector1.cpp to the metadata of the units that it touches.
use native.Mathlib.Decide.{ℕ_discrete}
use data_race_detectors.Base.{
  ◌-◌, Option-cases, ℕ, suc, zero, ◌+◌, ◌≤◌, ◌^◌, ◌≡◌, ◌≢◌, ap, ◌∙◌, Bool, true, false, Option,
  some, List, [], ◌∷◌, Ensures, Ensures-map, subst, Bool-cases, inl, inr, ltb, u64, find, insert,
  find-insert, arith,
}
use data_race_detectors.Sync.{◌>>=◌, Ensures-bind, Sync, or_new}
use data_race_detectors.Lockset.{is_exist, Rising}
use data_race_detectors.Lockset.Laws.{Rising-mono, is_exist_below}
use data_race_detectors.Shadow.{Counters, Work}
use data_race_detectors.Memory.{units, visited_units, units_from, unit_down_align, unit_up_align}
use data_race_detectors.Detector.State.{Hooks, Detector, count}
use data_race_detectors.Detector.Accesses.{
  access_unit, access_units, skips, before_mem_read, before_mem_write,
}
use data_race_detectors.Detector.Frame.{Framed, access_units-Framed}

Rising-units_from :
    (fuel iaddr end_addr unit : ℕ) (us : List ℕ)
    → 1 ≤ unit
    → end_addr + unit ≤ 2 ^ 64
    → units_from fuel iaddr end_addr unit ≡ some us
    → Rising iaddr us
unfolding units_from
Rising-units_from zero iaddr end_addr unit us p q h = elim (Bool-cases (ltb iaddr end_addr)) [
  | inl y ↦ absurd (ground (arith, y, h))
  | inr n ↦ let same : [] ≡ us = ground (arith, n, h) in subst (Rising iaddr) same tt
]
Rising-units_from (suc fuel) iaddr end_addr unit us p q h = elim (Bool-cases (ltb iaddr end_addr)) [
  | inl y ↦
      let next : u64 (iaddr + unit) ≡ iaddr + unit = ground arith in
      elim (Option-cases (units_from fuel (u64 (iaddr + unit)) end_addr unit)) [
        | inl z ↦ absurd (ground (arith, y, z, h))
        | inr (rest, z) ↦
            let same : iaddr ∷ rest ≡ us = ground (arith, y, z, h) in
            let later : units_from fuel (iaddr + unit) end_addr unit ≡ some rest =
              subst (λ k. units_from fuel k end_addr unit ≡ some rest) next z in
            subst (Rising iaddr) same (
              omega arith,
              Rising-mono (suc iaddr) (iaddr + unit) rest (omega arith)
                  (Rising-units_from fuel (iaddr + unit) end_addr unit rest p q later),
            )
      ]
  | inr n ↦ let same : [] ≡ us = ground (arith, n, h) in subst (Rising iaddr) same tt
]

Rising-units :
    (addr size unit : ℕ) (us : List ℕ)
    → 1 ≤ unit
    → unit_up_align (u64 (addr + size)) unit + unit ≤ 2 ^ 64
    → units addr size unit ≡ some us
    → Rising (unit_down_align addr unit) us
unfolding units
Rising-units addr size unit us p q h =
    let first = unit_down_align addr unit in
    let last = unit_up_align (u64 (addr + size)) unit in
    Rising-units_from (last - first) first last unit us p q h

module _ {M X : Type 0} (h : Hooks M X) where
  -- The hook has run on the meta of unit `x`, which is new if there was none, and `e` holds what it
  -- left of it.
  pub record Touched (process : Bool → Sync → X → ℕ → ℕ → Work M → Option (Work M)) (t inst x : ℕ)
      (d e : Detector M X) : Type 0 where
    pub before : Work M
    pub after : Work M
    pub was : before.meta ≡ or_new (h.create_meta x) (find x d.meta_table)
    pub ran : process d.track_racy_inst d.sync d.extra t inst before ≡ some after
    pub now : find x e.meta_table ≡ some after.meta

  module _ (process : Bool → Sync → X → ℕ → ℕ → Work M → Option (Work M))
      (bump : Counters → Counters) (t inst : ℕ) where
    abbrev visited : ℕ → Detector M X → Work M → Detector M X
    visited u d w = record d {
      meta_table = insert u w.meta d.meta_table;
      counters = bump w.counters;
      reports = w.reports;
    }

    abbrev given : ℕ → Detector M X → Work M
    given u d = record {
      meta = or_new (h.create_meta u) (find u d.meta_table);
      counters = d.counters;
      reports = d.reports;
    }

    -- The unit that has just been visited is not visited again.
    visited-Touched :
        (u x : ℕ) (us : List ℕ) (d : Detector M X) (w : Work M)
        → u ≡ x
        → Rising (suc u) us
        → process d.track_racy_inst d.sync d.extra t inst (given u d) ≡ some w
        → Ensures
            (Touched process t inst x d)
            (access_units h process bump t inst us (visited u d w))
    visited-Touched u x us d w p r e =
        Ensures-map (Framed us (visited u d w)) (Touched process t inst x d)
          (λ _ f. record {
            before = given u d;
            after = w;
            was = ap (λ i. or_new (h.create_meta i) (find i d.meta_table)) p;
            ran = e;
            now =
                f.metas x (is_exist_below x (suc u) us r (omega arith))
                ∙ ground (arith, find-insert x u w.meta d.meta_table);
          })
          _ (access_units-Framed h process bump t inst us (visited u d w))

    later-Touched :
        (u x : ℕ) (d : Detector M X) (w : Work M) (e : Detector M X)
        → u ≢ x
        → Touched process t inst x (visited u d w) e
        → Touched process t inst x d e
    later-Touched u x d w e n g =
        let same : find x (insert u w.meta d.meta_table) ≡ find x d.meta_table =
          ground (arith, find-insert x u w.meta d.meta_table) in
        record {
          before = g.before;
          after = g.after;
          was = g.was ∙ ap (or_new (h.create_meta x)) same;
          ran = g.ran;
          now = g.now;
        }

    access_units-Touched :
        (lo x : ℕ) (us : List ℕ) (d : Detector M X)
        → Rising lo us
        → is_exist x us ≡ true
        → Ensures (Touched process t inst x d) (access_units h process bump t inst us d)
    unfolding access_units access_unit is_exist
    access_units-Touched lo x [] d r m = cc
    access_units-Touched lo x (u ∷ us) d r m =
        elim (Option-cases (process d.track_racy_inst d.sync d.extra t inst (given u d))) [
          | inl e ↦ rw (e, ◌>>=◌) tt
          | inr (w, e) ↦
              rw (e, ◌>>=◌)
                (elim (ℕ_discrete u x) [
                  | yes p ↦ visited-Touched u x us d w p r.1 e
                  | no n ↦
                      Ensures-map _ _ (λ e' g. later-Touched u x d w e' n g) _
                        (access_units-Touched (suc u) x us (visited u d w) r.1 (ground arith))
                ])
        ]

    counted-Touched :
        (lo x : ℕ) (us : List ℕ) (d : Detector M X) (add : Counters → Counters)
        → Rising lo us
        → is_exist x us ≡ true
        → Ensures
            (Touched process t inst x d)
            (access_units h process bump t inst us d >>= λ e. some (count add e))
    counted-Touched lo x us d add r m =
        Ensures-bind (Touched process t inst x d) (access_units h process bump t inst us d) _
          (λ e p.
            let g =
              subst (Ensures (Touched process t inst x d)) p (access_units-Touched lo x us d r m) in
            record { before = g.before; after = g.after; was = g.was; ran = g.ran; now = g.now })

-- When the handler is not left early, a unit has at least one byte, and the end of the access
-- plus a unit does not wrap, a read and a write that return have each run the detector's hook on
-- the metadata of every unit of the access, as it was before the access or new, and stored what
-- the hook left.
pub accesses-Touched :
    {M X : Type 0} (h : Hooks M X) (t inst addr size x : ℕ) (d : Detector M X)
    → skips t addr d ≡ false
    → 1 ≤ d.unit_size
    → unit_up_align (u64 (addr + size)) d.unit_size + d.unit_size ≤ 2 ^ 64
    → is_exist x (visited_units addr size d.unit_size) ≡ true
    → Ensures (Touched h h.on_read t inst x d) (before_mem_read h t inst addr size d)
      × Ensures (Touched h h.on_write t inst x d) (before_mem_write h t inst addr size d)
unfolding before_mem_read before_mem_write is_exist
accesses-Touched h t inst addr size x d n p q m =
    elim (Option-cases (units addr size d.unit_size)) [
      | inl z ↦ absurd (ground (arith, z, m))
      | inr (us, z) ↦
          let r = Rising-units addr size d.unit_size us p q z in
          let k : is_exist x us ≡ true = ground (arith, z, m) in
          rw (n, z, ◌>>=◌)
            (
              counted-Touched h h.on_read _ t inst _ x us d _ r k,
              counted-Touched h h.on_write _ t inst _ x us d _ r k,
            )
    ]

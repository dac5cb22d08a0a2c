-- ===== src/Detector/Returns.antt =====
-- The memory handlers of src/pintool/detector1.cpp return.
use data_race_detectors.Base.{
  ℕ, ◌+◌, ◌-◌, ◌≤◌, ◌^◌, u64, arith, ◌≡◌, refl, Bool, Option, some, List, [], ◌∷◌, Bool-cases, inl,
  inr, find,
}
use data_race_detectors.Sync.{◌>>=◌, Sync, or_new}
use data_race_detectors.Shadow.{Counters, Work}
use data_race_detectors.Memory.{units, unit_up_align, unit_down_align}
use data_race_detectors.Memory.Units.{units_from_lem}
use data_race_detectors.Detector.State.{Hooks, Detector}
use data_race_detectors.Detector.Accesses.{
  access_unit, access_units, skips, before_mem_read, before_mem_write,
}

abbrev pub Returns {ℓ} : {A : Type ℓ} → Option A → Type ℓ
Returns {A} o = (a : A) × (o ≡ some a)

Returns-bind {ℓ κ} :
    {A : Type ℓ} {B : Type κ} (o : Option A) (f : A → Option B)
    → Returns o
    → ((a : A) → Returns (f a))
    → Returns (o >>= f)
Returns-bind o f (a, e) h = rw (e, ◌>>=◌) (h a)

-- The hook returns on every meta of the detector's state.
abbrev pub Total :
    {M X : Type 0}
    → (Bool → Sync → X → ℕ → ℕ → Work M → Option (Work M))
    → ℕ
    → ℕ
    → Detector M X
    → Type 0
Total {M} process t inst d =
    (w : Work M) → Returns (process d.track_racy_inst d.sync d.extra t inst w)

module _ {M X : Type 0} (h : Hooks M X)
    (process : Bool → Sync → X → ℕ → ℕ → Work M → Option (Work M)) (bump : Counters → Counters)
    (t inst : ℕ) where
  access_units-Returns :
      (us : List ℕ) (d : Detector M X)
      → Total process t inst d
      → Returns (access_units h process bump t inst us d)
  unfolding access_units access_unit
  access_units-Returns [] d total = (d, refl)
  access_units-Returns (u ∷ us) d total =
      let (w, e) = total (record {
        meta = or_new (h.create_meta u) (find u d.meta_table);
        counters = d.counters;
        reports = d.reports;
      }) in
      rw (e, ◌>>=◌) (access_units-Returns us _ total)

-- The loop over the units of an access ends.
pub units-Returns :
    (addr size unit : ℕ)
    → 1 ≤ unit
    → unit_up_align (u64 (addr + size)) unit + unit ≤ 2 ^ 64
    → Returns (units addr size unit)
unfolding units
units-Returns addr size unit p q =
    let first = unit_down_align addr unit in
    let last = unit_up_align (u64 (addr + size)) unit in
    let (us, e, _, _) = units_from_lem (last - first) 0 first last unit p q (omega arith) in (us, e)

-- When the hooks for reads and writes return on all metadata with the clocks and the added state
-- of the detector, a unit has at least one byte, and the end of the access plus a unit does not
-- wrap, the loop over the units ends, and a read and a write of any size at any address return.
pub accesses-Returns :
    {M X : Type 0} (h : Hooks M X) (t inst addr size : ℕ) (d : Detector M X)
    → Total h.on_read t inst d
    → Total h.on_write t inst d
    → 1 ≤ d.unit_size
    → unit_up_align (u64 (addr + size)) d.unit_size + d.unit_size ≤ 2 ^ 64
    → Returns (before_mem_read h t inst addr size d)
      × Returns (before_mem_write h t inst addr size d)
unfolding before_mem_read before_mem_write
accesses-Returns h t inst addr size d r w p q = elim (Bool-cases (skips t addr d)) [
  | inl y ↦ rw y ((d, refl), (d, refl))
  | inr n ↦
      let (us, e) = units-Returns addr size d.unit_size p q in
      rw (n, e, ◌>>=◌)
        (
          Returns-bind _ _ (access_units-Returns h h.on_read _ t inst us d r) (λ e. (_, refl)),
          Returns-bind _ _ (access_units-Returns h h.on_write _ t inst us d w) (λ e. (_, refl)),
        )
]

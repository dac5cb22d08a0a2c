-- ===== src/Memory/Units.antt =====
-- The loop over the units of src/pintool/detector1.cpp ends and visits what it should.
use native.Mathlib.Nat.{mod-eq_of_lt, mod-eq-sub-mod}
use data_race_detectors.Base.{
  ℕ, zero, suc, ◌+◌, ◌-◌, ◌%◌, ◌≤◌, ◌<◌, ◌^◌, ◌≡◌, refl, ap, sym, ◌∙◌, Bool, true, false,
  Bool-cases, inl, inr, some, List, [], ◌∷◌, u64, if◌then◌else◌, ltb, ◌==◌, ◌&&◌, leb, arith,
}
use data_race_detectors.Memory.{units_from}
use data_race_detectors.Lockset.{is_exist}

sub-add : (x a b : ℕ) → x - (a + b) ≡ x - a - b
sub-add x a b = omega arith

-- One step less leaves the same remainder, and a distance below one step is its own.
step_mod :
    (x iaddr unit : ℕ)
    → 1 ≤ unit
    → (iaddr + unit ≤ x → (x - (iaddr + unit)) % unit ≡ (x - iaddr) % unit)
      × (x < iaddr + unit → (x - iaddr) % unit ≡ x - iaddr)
step_mod x iaddr unit p = (
  λ h.
      ap (λ n. n % unit) (sub-add x iaddr unit)
      ∙ sym (mod-eq-sub-mod {n = x - iaddr} (omega arith)),
  λ h. mod-eq_of_lt (omega arith),
)

mod_self : (iaddr unit : ℕ) → (iaddr - iaddr) % unit ≡ 0
mod_self iaddr unit = omega arith

-- The addresses from `iaddr` up to `end_addr` in steps of `unit`.
abbrev pub in_steps : ℕ → ℕ → ℕ → ℕ → Bool
in_steps x iaddr end_addr unit = leb iaddr x && (ltb x end_addr && (x - iaddr) % unit == 0)

abbrev pub Visits : ℕ → ℕ → ℕ → ℕ → ℕ → Type 0
Visits fuel more iaddr end_addr unit =
    (us : List ℕ) × (units_from fuel iaddr end_addr unit ≡ some us)
    × ((x : ℕ) → is_exist x us ≡ in_steps x iaddr end_addr unit)
    × (units_from (fuel + more) iaddr end_addr unit ≡ some us)

stops :
    (fuel iaddr end_addr unit : ℕ)
    → end_addr ≤ iaddr
    → units_from fuel iaddr end_addr unit ≡ some []
unfolding units_from
stops zero iaddr end_addr unit h = ground arith
stops (suc fuel) iaddr end_addr unit h = ground arith

goes_on :
    (fuel iaddr end_addr unit : ℕ) (us : List ℕ)
    → iaddr < end_addr
    → end_addr + unit ≤ 2 ^ 64
    → units_from fuel (iaddr + unit) end_addr unit ≡ some us
    → units_from (suc fuel) iaddr end_addr unit ≡ some (iaddr ∷ us)
unfolding units_from
goes_on fuel iaddr end_addr unit us h q e =
    let same : u64 (iaddr + unit) ≡ iaddr + unit = ground arith in
    let y : ltb iaddr end_addr ≡ true = ground arith in rw (y, same, e) refl

empty : (x iaddr end_addr unit : ℕ) → end_addr ≤ iaddr → false ≡ in_steps x iaddr end_addr unit
empty x iaddr end_addr unit h = ground arith

first_step :
    (x iaddr end_addr unit : ℕ)
    → 1 ≤ unit
    → iaddr < end_addr
    → (if iaddr == x then true else in_steps x (iaddr + unit) end_addr unit)
      ≡ in_steps x iaddr end_addr unit
first_step x iaddr end_addr unit p h = ground (arith, step_mod x iaddr unit p, mod_self iaddr unit)

ends : (fuel more iaddr end_addr unit : ℕ) → end_addr ≤ iaddr → Visits fuel more iaddr end_addr unit
unfolding is_exist
ends fuel more iaddr end_addr unit h = (
  [],
  stops fuel iaddr end_addr unit h,
  λ x. empty x iaddr end_addr unit h,
  stops (fuel + more) iaddr end_addr unit h,
)

suc-add : (m n : ℕ) → suc m + n ≡ suc (m + n)
suc-add m n = omega arith

-- When the end of the access plus a unit does not wrap and the fuel covers the range, the loop
-- over memory units returns, and what it has visited is exactly the addresses from the start up to
-- the end in steps of the unit size. It ends by its own test, so more fuel changes nothing.
pub units_from_lem :
    (fuel more iaddr end_addr unit : ℕ)
    → 1 ≤ unit
    → end_addr + unit ≤ 2 ^ 64
    → end_addr - iaddr ≤ fuel
    → Visits fuel more iaddr end_addr unit
unfolding is_exist
units_from_lem zero more iaddr end_addr unit p q h =
    ends zero more iaddr end_addr unit (omega arith)
units_from_lem (suc fuel) more iaddr end_addr unit p q h = elim (Bool-cases (ltb iaddr end_addr)) [
  | inr n ↦ ends (suc fuel) more iaddr end_addr unit (ground arith)
  | inl y ↦
      let lt : iaddr < end_addr = ground arith in
      let (us, e, f, g) = units_from_lem fuel more (iaddr + unit) end_addr unit p q (omega arith) in
      (
        iaddr ∷ us,
        goes_on fuel iaddr end_addr unit us lt q e,
        λ x. ground (arith, f x, first_step x iaddr end_addr unit p lt),
        ap (λ f. units_from f iaddr end_addr unit) (suc-add fuel more)
            ∙ goes_on (fuel + more) iaddr end_addr unit us lt q g,
      )
]

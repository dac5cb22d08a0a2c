-- ===== src/Memory.antt =====
-- The memory units of src/pintool/detector1.cpp: the alignment macros of src/core/basictypes.h and
-- the loop over the units that an access touches.
pub mod Units
use Prim.Native.Nat.{bit_and}
use data_race_detectors.Base.{
  ℕ, zero, suc, ◌+◌, ◌-◌, ◌^◌, Option, none, some, List, [], ◌∷◌, ltb, if◌then◌else◌, u64, arith,
}

-- `~(unit_size - 1)` in 64 bits.
unfoldable pub unit_mask : ℕ → ℕ
unit_mask unit = u64 (2 ^ 64 - u64 unit)

unfoldable pub unit_down_align : ℕ → ℕ → ℕ
unfolding unit_mask
unit_down_align addr unit = bit_and addr (unit_mask unit)

unfoldable pub unit_up_align : ℕ → ℕ → ℕ
unfolding unit_mask
unit_up_align addr unit = bit_and (u64 (addr + unit + 2 ^ 64 - 1)) (unit_mask unit)

-- `for (iaddr = start; iaddr < end; iaddr += unit)`, in at most `fuel` rounds: a loop that its own
-- test has not ended by then does not return.
unfoldable pub units_from : ℕ → ℕ → ℕ → ℕ → Option (List ℕ)
units_from zero iaddr end_addr unit = if ltb iaddr end_addr then none else some []
units_from (suc fuel) iaddr end_addr unit =
    let rest = units_from fuel (u64 (iaddr + unit)) end_addr unit in
    if ltb iaddr end_addr then elim rest [ none ↦ none | some us ↦ some (iaddr ∷ us) ] else some []

-- The units of an access to `size` bytes at `addr`.
unfoldable pub units : ℕ → ℕ → ℕ → Option (List ℕ)
unfolding unit_down_align unit_up_align units_from
units addr size unit =
    let first = unit_down_align addr unit in
    let end_addr = unit_up_align (u64 (addr + size)) unit in
    units_from (end_addr - first) first end_addr unit

-- The units that the loop visits, if it ends.
abbrev pub visited_units : ℕ → ℕ → ℕ → List ℕ
visited_units addr size unit = elim (units addr size unit) [ none ↦ [] | some us ↦ us ]

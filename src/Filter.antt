-- ===== src/Filter.antt =====
-- src/core/filter.h and filter.cc: the regions of memory that are watched, by their first address.
pub mod Laws
use data_race_detectors.Base.{
  ℕ, ◌+◌, ◌≤◌, ◌<◌, Bool, true, false, not, ◌&&◌, Option, none, some, List, [], ◌∷◌, ltb, leb, ◌==◌,
  if◌then◌else◌, u64, Map, find, insert, erase, arith,
}

abbrev pub Regions : Type 0
Regions = Map ℕ

unfoldable pub add_region : ℕ → ℕ → Regions → Regions
unfolding insert
add_region addr size m = insert addr size m

-- The size of the region, 0 if there is none, and the regions that are left.
unfoldable pub remove_region : ℕ → Regions → ℕ × Regions
unfolding find erase
remove_region addr m =
    if addr == 0
    then (0, m)
    else elim (find addr m) [ none ↦ (0, m) | some size ↦ (size, erase addr m) ]

-- The entry before `upper_bound(addr)`.
unfoldable pub region_before : ℕ → Regions → Option (ℕ × ℕ)
region_before addr [] = none
region_before addr ((start, size) ∷ m) =
    let rest = region_before addr m in
    if ltb addr start then none else elim rest [ none ↦ some (start, size) | some r ↦ some r ]

-- `true` means that the access is filtered out.
unfoldable pub filter : ℕ → Regions → Bool
unfolding region_before
filter addr m = elim (region_before addr m) [
  | none ↦ true
  | some (start, size) ↦ if leb start addr && ltb addr (u64 (start + size)) then false else true
]

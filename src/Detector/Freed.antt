-- ===== src/Detector/Freed.antt =====
-- What `FreeAddrRegion` of src/pintool/detector1.cpp drops.
use data_race_detectors.Base.{
  ℕ, ◌+◌, ◌≤◌, ◌^◌, u64, ◌≡◌, refl, ◌≢◌, ◌∙◌, none, some, Option-cases, ◌++◌, List, [], ◌∷◌, ◌==◌,
  if◌then◌else◌, Map, find, erase, find-erase, Bool-cases, inl, inr, arith,
}
use data_race_detectors.Lockset.{is_exist}
use data_race_detectors.Filter
use data_race_detectors.Memory.{units, visited_units, unit_up_align}
use data_race_detectors.Detector.Returns.{Returns, units-Returns}
use data_race_detectors.Detector.State.{Hooks, Detector}
use data_race_detectors.Detector.Heap.{erase_all, freed_insts, free_addr_region}

find-erase_all :
    {V : Type 0} (x : ℕ) (us : List ℕ) (m : Map V)
    → find x (erase_all us m) ≡ (if is_exist x us then none else find x m)
unfolding is_exist
find-erase_all x [] m = refl
find-erase_all x (u ∷ us) m = find-erase_all x us (erase u m) ∙ ground (arith, find-erase x u m)

abbrev freed : {M X : Type 0} → Hooks M X → ℕ → List ℕ → Detector M X → Detector M X
freed h addr us d =
    let s = d.sync in
    record d {
      regions = (Filter.remove_region addr d.regions).1;
      meta_table = erase_all us d.meta_table;
      sync = record s {
        mutex_meta_table = erase_all us s.mutex_meta_table;
        cond_meta_table = erase_all us s.cond_meta_table;
        barrier_meta_table = erase_all us s.barrier_meta_table;
      };
      racy_inst_set = d.racy_inst_set ++ freed_insts h d.track_racy_inst us d.meta_table;
    }

-- `e` has the entries of `d` but for those of the units that are listed.
abbrev pub Drops : {M X : Type 0} → ℕ → List ℕ → Detector M X → Detector M X → Type 0
Drops x us d e =
    let gone = is_exist x us in
    (find x e.meta_table ≡ (if gone then none else find x d.meta_table))
    × (find x e.sync.mutex_meta_table ≡ (if gone then none else find x d.sync.mutex_meta_table))
    × (find x e.sync.cond_meta_table ≡ (if gone then none else find x d.sync.cond_meta_table))
    × (find x e.sync.barrier_meta_table ≡ (if gone then none else find x d.sync.barrier_meta_table))

find-freed :
    {M X : Type 0} (h : Hooks M X) (addr x : ℕ) (d e : Detector M X)
    → addr ≢ 0
    → free_addr_region h addr d ≡ some e
    → Drops x (visited_units addr (Filter.remove_region addr d.regions).0 d.unit_size) d e
unfolding free_addr_region
find-freed h addr x d e ne r = elim (Bool-cases (addr == 0)) [
  | inl y ↦ absurd (ground arith)
  | inr n ↦
      let size = (Filter.remove_region addr d.regions).0 in
      elim (Option-cases (units addr size d.unit_size)) [
        | inl z ↦ absurd (ground (arith, n, z, r))
        | inr (us, z) ↦
            let same : freed h addr us d ≡ e = ground (arith, n, z, r) in
            rw (← same) (
              rw (z, visited_units)
                (
                  find-erase_all x us d.meta_table,
                  find-erase_all x us d.sync.mutex_meta_table,
                  find-erase_all x us d.sync.cond_meta_table,
                  find-erase_all x us d.sync.barrier_meta_table,
                ))
      ]
]

free_addr_region-Returns :
    {M X : Type 0} (h : Hooks M X) (addr : ℕ) (d : Detector M X)
    → addr ≢ 0
    → Returns (units addr (Filter.remove_region addr d.regions).0 d.unit_size)
    → Returns (free_addr_region h addr d)
unfolding free_addr_region
free_addr_region-Returns h addr d ne (us, r) = elim (Bool-cases (addr == 0)) [
  | inl y ↦ absurd (ground arith)
  | inr n ↦ (freed h addr us d, ground (arith, n, r))
]

-- When a unit has at least one byte and the end of the region plus a unit does not wrap, freeing a
-- region that does not start at 0 returns, and drops exactly the entries of its units from the four
-- tables of metadata.
pub find-free_addr_region :
    {M X : Type 0} (h : Hooks M X) (addr : ℕ) (d : Detector M X)
    → addr ≢ 0
    → 1 ≤ d.unit_size
    → unit_up_align (u64 (addr + (Filter.remove_region addr d.regions).0)) d.unit_size + d.unit_size
      ≤ 2 ^ 64
    → (e : Detector M X) × (free_addr_region h addr d ≡ some e)
      × ((x : ℕ)
          → Drops x (visited_units addr (Filter.remove_region addr d.regions).0 d.unit_size) d e)
find-free_addr_region h addr d ne p q =
    let size = (Filter.remove_region addr d.regions).0 in
    let (e, r) = free_addr_region-Returns h addr d ne (units-Returns addr size d.unit_size p q) in
    (e, r, λ x. find-freed h addr x d e ne r)

-- ===== src/Detector/Heap.antt =====
-- The regions of memory in src/pintool/detector1.cpp: images, the allocation functions, and the
-- metadata that goes with a freed region.
use data_race_detectors.Base.{
  ℕ, ◌*◌, Bool, Option, none, some, List, [], ◌∷◌, ◌++◌, ◌==◌, if◌then◌else◌, u64, Map, find, erase,
}
use data_race_detectors.Filter
use data_race_detectors.Filter.{Regions}
use data_race_detectors.Sync.{◌>>=◌}
use data_race_detectors.Memory.{units}
use data_race_detectors.Detector.State.{Hooks, Detector}

abbrev pub erase_all : {V : Type 0} → List ℕ → Map V → Map V
erase_all [] m = m
erase_all (u ∷ us) m = erase_all us (erase u m)

module _ {M X : Type 0} where
  unfoldable pub alloc_addr_region : ℕ → ℕ → Detector M X → Detector M X
  unfolding Filter.add_region
  alloc_addr_region addr size d = record d { regions = Filter.add_region addr size d.regions }

  -- The calls of `SetRacyInst` for the metas in the freed units.
  unfoldable pub freed_insts : Hooks M X → Bool → List ℕ → Map M → List ℕ
  freed_insts h track [] m = []
  freed_insts h track (u ∷ us) m =
      let rest = freed_insts h track us (erase u m) in
      elim (find u m) [ none ↦ rest | some meta ↦ h.on_free track meta ++ rest ]

  unfoldable pub free_addr_region : Hooks M X → ℕ → Detector M X → Option (Detector M X)
  unfolding Filter.remove_region freed_insts
  free_addr_region h addr d =
      if addr == 0
      then some d
      else (let (size, regions) = Filter.remove_region addr d.regions in
          let s = d.sync in
          units addr size d.unit_size >>= λ us. some (record d {
            regions = regions;
            meta_table = erase_all us d.meta_table;
            sync = record s {
              mutex_meta_table = erase_all us s.mutex_meta_table;
              cond_meta_table = erase_all us s.cond_meta_table;
              barrier_meta_table = erase_all us s.barrier_meta_table;
            };
            racy_inst_set = d.racy_inst_set ++ freed_insts h d.track_racy_inst us d.meta_table;
          }))

  unfoldable pub image_load : ℕ → ℕ → ℕ → ℕ → Detector M X → Detector M X
  unfolding alloc_addr_region
  image_load data_start data_size bss_start bss_size d =
      let loaded = if data_start == 0 then d else alloc_addr_region data_start data_size d in
      if bss_start == 0 then loaded else alloc_addr_region bss_start bss_size loaded

  unfoldable pub image_unload : Hooks M X → ℕ → ℕ → Detector M X → Option (Detector M X)
  image_unload h data_start bss_start d =
      (if data_start == 0 then some d else free_addr_region h data_start d) >>= λ freed.
      if bss_start == 0 then some freed else free_addr_region h bss_start freed

  unfoldable pub after_malloc : ℕ → ℕ → Detector M X → Detector M X
  after_malloc size addr d = alloc_addr_region addr size d

  unfoldable pub after_calloc : ℕ → ℕ → ℕ → Detector M X → Detector M X
  after_calloc nmemb size addr d = alloc_addr_region addr (u64 (size * nmemb)) d

  unfoldable pub before_realloc : Hooks M X → ℕ → Detector M X → Option (Detector M X)
  before_realloc h ori_addr d = free_addr_region h ori_addr d

  unfoldable pub after_realloc : ℕ → ℕ → Detector M X → Detector M X
  after_realloc size new_addr d = alloc_addr_region new_addr size d

  unfoldable pub before_free : Hooks M X → ℕ → Detector M X → Option (Detector M X)
  before_free h addr d = free_addr_region h addr d

  unfoldable pub after_valloc : ℕ → ℕ → Detector M X → Detector M X
  after_valloc size addr d = alloc_addr_region addr size d

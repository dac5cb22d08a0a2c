-- ===== src/Detector/Accesses.antt =====
-- `BeforeMemRead` and `BeforeMemWrite` of src/pintool/detector1.cpp.
use data_race_detectors.Base.{
  ℕ, ◌+◌, ◌-◌, Bool, true, false, not, ◌&&◌, Option, some, List, [], ◌∷◌, ltb, if◌then◌else◌, find,
  insert,
}
use data_race_detectors.Sync.{◌>>=◌, Sync, or_new}
use data_race_detectors.Shadow.{Counters, Work}
use data_race_detectors.Filter
use data_race_detectors.Filter.{Regions}
use data_race_detectors.Memory.{units}
use data_race_detectors.Detector.State.{Hooks, Detector, count}

module _ {M X : Type 0} where
  -- One round of the loop over the units, with the hook for the kind of the access.
  unfoldable pub access_unit :
      Hooks M X
      → (Bool → Sync → X → ℕ → ℕ → Work M → Option (Work M))
      → (Counters → Counters)
      → ℕ
      → ℕ
      → ℕ
      → Detector M X
      → Option (Detector M X)
  access_unit h process bump t inst iaddr d =
      let meta = or_new (h.create_meta iaddr) (find iaddr d.meta_table) in
      process d.track_racy_inst d.sync d.extra t inst
        (record { meta = meta; counters = d.counters; reports = d.reports })
      >>= λ w. some (record d {
        meta_table = insert iaddr w.meta d.meta_table;
        counters = bump w.counters;
        reports = w.reports;
      })

  unfoldable pub access_units :
      Hooks M X
      → (Bool → Sync → X → ℕ → ℕ → Work M → Option (Work M))
      → (Counters → Counters)
      → ℕ
      → ℕ
      → List ℕ
      → Detector M X
      → Option (Detector M X)
  access_units h process bump t inst [] d = some d
  access_units h process bump t inst (iaddr ∷ us) d =
      access_unit h process bump t inst iaddr d >>= access_units h process bump t inst us

  -- The early returns of the two memory handlers: the address is not watched, the thread is in an
  -- atomic instruction, or no second thread is running.
  unfoldable pub skips : ℕ → ℕ → Detector M X → Bool
  skips t addr d =
      let c = d.counters in
      if Filter.filter addr d.regions
      then true
      else if or_new false (find t d.atomic_map)
      then true
      else not (ltb 1 c.thread_start_c && ltb 1 (c.thread_start_c - c.thread_join_c))

  unfoldable pub before_mem_read : Hooks M X → ℕ → ℕ → ℕ → ℕ → Detector M X → Option (Detector M X)
  before_mem_read h t inst addr size d =
      if skips t addr d
      then some d
      else (units addr size d.unit_size >>= λ us.
          access_units h h.on_read (λ c. record c { loc_r_c = c.loc_r_c + 1 }) t inst us d >>= λ e.
          some (count (λ c. record c { read_c = c.read_c + 1 }) e))

  unfoldable pub before_mem_write : Hooks M X → ℕ → ℕ → ℕ → ℕ → Detector M X → Option (Detector M X)
  before_mem_write h t inst addr size d =
      if skips t addr d
      then some d
      else (units addr size d.unit_size >>= λ us.
          access_units h h.on_write (λ c. record c { loc_w_c = c.loc_w_c + 1 }) t inst us d >>= λ e.
          some (count (λ c. record c { write_c = c.write_c + 1 }) e))

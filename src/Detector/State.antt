-- ===== src/Detector/State.antt =====
-- The state of the abstract detector of src/pintool/detector1.h; the virtual functions that the
-- detectors override are the fields of `Hooks`.
use data_race_detectors.Base.{ℕ, Bool, Option, List, [], Map}
use data_race_detectors.Sync.{Sync}
use data_race_detectors.Shadow.{Counters, init_counters, Report, Work}
use data_race_detectors.Filter.{Regions}

-- `M` is the detector's own meta, `X` the state that it adds to the base class. The arguments are
-- `track_racy_inst_`, the clocks, the added state, the thread and the instruction or address.
pub record Hooks (M X : Type 0) : Type 0 where
  pub create_meta : ℕ → M
  pub on_read : Bool → Sync → X → ℕ → ℕ → Work M → Option (Work M)
  pub on_write : Bool → Sync → X → ℕ → ℕ → Work M → Option (Work M)
  pub on_free : Bool → M → List ℕ
  pub on_lock : ℕ → ℕ → Sync → X → Option (Sync × X)
  pub on_unlock : ℕ → ℕ → Sync → X → Option (Sync × X)
  pub on_join : ℕ → ℕ → Sync → Option Sync  -- `AfterPthreadJoin` on the clocks

pub record Detector (M X : Type 0) : Type 0 where
  pub sync : Sync
  pub atomic_map : Map Bool
  pub meta_table : Map M
  pub regions : Regions
  pub unit_size : ℕ
  pub track_racy_inst : Bool
  pub counters : Counters
  pub extra : X
  pub reports : List Report  -- the calls of `RaceDB::CreateRace`
  pub racy_inst_set : List ℕ  -- the calls of `RaceDB::SetRacyInst`

abbrev pub empty_sync : Sync
empty_sync = record {
  curr_vc_map = [];
  mutex_meta_table = [];
  cond_meta_table = [];
  barrier_meta_table = [];
}

-- The constructor and `Setup` with the values of the knobs.
unfoldable pub setup : {M X : Type 0} → ℕ → Bool → X → Detector M X
setup unit track x = record {
  sync = empty_sync;
  atomic_map = [];
  meta_table = [];
  regions = [];
  unit_size = unit;
  track_racy_inst = track;
  counters = init_counters;
  extra = x;
  reports = [];
  racy_inst_set = [];
}

module _ {M X : Type 0} where
  abbrev pub count : (Counters → Counters) → Detector M X → Detector M X
  count f d = record d { counters = f d.counters }

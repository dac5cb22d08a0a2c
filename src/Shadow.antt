-- ===== src/Shadow.antt =====
-- What the detectors of src/pintool share for one memory unit: the counters and the abstract `Meta`
-- of detector1.h, `ReportRace` of detector1.cpp and the calls of the race database it makes.
-- An `Inst *` is its address, with 0 for NULL. The counters do not wrap.
pub mod Reports
use data_race_detectors.Base.{
  ℕ, ◌+◌, Bool, true, false, not, ◌&&◌, Option, none, some, List, [], ◌∷◌, ◌++◌, ltb, ◌==◌,
  if◌then◌else◌, Map, find, arith,
}
use data_race_detectors.Clock.{VectorClock, get_clock}
use data_race_detectors.Epoch.{Epoch}
use data_race_detectors.Lockset.{Lockset, add}

pub record Counters : Type 0 where
  pub thread_start_c : ℕ
  pub thread_join_c : ℕ
  pub read_c : ℕ
  pub write_c : ℕ
  pub atom_c : ℕ
  pub loc_r_c : ℕ
  pub loc_w_c : ℕ
  pub lock_c : ℕ
  pub unlock_c : ℕ
  pub signal_c : ℕ
  pub broadcast_c : ℕ
  pub wait_b_c : ℕ
  pub wait_a_c : ℕ
  pub timew_b_c : ℕ
  pub timew_a_c : ℕ
  pub barrier_b_c : ℕ
  pub barrier_a_c : ℕ
  pub skip_w_c : ℕ
  pub skip_r_c : ℕ
  pub eli_w_c : ℕ
  pub eli_r_c : ℕ
  pub detect_ww : ℕ
  pub detect_rw : ℕ
  pub detect_wr : ℕ
  pub update_w : ℕ
  pub update_r : ℕ

-- `InitCounters`
abbrev pub init_counters : Counters
init_counters = record {
  thread_start_c = 0;
  thread_join_c = 0;
  read_c = 0;
  write_c = 0;
  atom_c = 0;
  loc_r_c = 0;
  loc_w_c = 0;
  lock_c = 0;
  unlock_c = 0;
  signal_c = 0;
  broadcast_c = 0;
  wait_b_c = 0;
  wait_a_c = 0;
  timew_b_c = 0;
  timew_a_c = 0;
  barrier_b_c = 0;
  barrier_a_c = 0;
  skip_w_c = 0;
  skip_r_c = 0;
  eli_w_c = 0;
  eli_r_c = 0;
  detect_ww = 0;
  detect_rw = 0;
  detect_wr = 0;
  update_w = 0;
  update_r = 0;
}

pub data RaceEventType : Type 0 where
  event_read event_write : RaceEventType

-- A call of `RaceDB::CreateRace`: the earlier access, then the current one.
pub record Report : Type 0 where
  pub addr : ℕ
  pub t0 : ℕ
  pub i0 : ℕ
  pub p0 : RaceEventType
  pub t1 : ℕ
  pub i1 : ℕ
  pub p1 : RaceEventType

-- `Detector1::Meta`
pub record Meta : Type 0 where
  pub addr : ℕ
  pub race_inst_set : Lockset
  pub racy : Bool

abbrev pub new_meta : ℕ → Meta
new_meta a = record { addr = a; race_inst_set = []; racy = false }

abbrev pub null : ℕ
null = 0

-- `table[tid]` of a map to instructions.
unfoldable pub inst_at : ℕ → Map ℕ → ℕ
unfolding find
inst_at t table = elim (find t table) [ none ↦ null | some i ↦ i ]

-- The update of the racy instruction set at the end of an access.
abbrev pub track_inst : Bool → ℕ → Meta → Meta
track_inst track inst m = record m {
  race_inst_set = if track then add inst m.race_inst_set else m.race_inst_set;
}

-- The calls of `SetRacyInst` when a meta is freed.
unfoldable pub racy_insts : Bool → Meta → List ℕ
racy_insts track m = if track && m.racy then m.race_inst_set else []

-- A meta `M` under access, the counters, and the races reported so far.
pub record Work (M : Type 0) : Type 0 where
  pub meta : M
  pub counters : Counters
  pub reports : List Report

-- The access that is being processed.
pub record Access : Type 0 where
  pub tid : ℕ
  pub inst : ℕ
  pub kind : RaceEventType

abbrev pub read_access : ℕ → ℕ → Access
read_access t inst = record { tid = t; inst = inst; kind = event_read }

abbrev pub write_access : ℕ → ℕ → Access
write_access t inst = record { tid = t; inst = inst; kind = event_write }

abbrev pub race_with : ℕ → Access → ℕ → ℕ → RaceEventType → Report
race_with addr a t0 i0 p0 = record {
  addr = addr;
  t0 = t0;
  i0 = i0;
  p0 = p0;
  t1 = a.tid;
  i1 = a.inst;
  p1 = a.kind;
}

-- The loop over the entries of a clock of earlier accesses.
unfoldable pub report_clock :
    ℕ → Access → VectorClock → RaceEventType → Map ℕ → VectorClock → List Report
unfolding get_clock inst_at
report_clock addr a vc kind table [] = []
report_clock addr a vc kind table ((u, c) ∷ m) =
    let rest = report_clock addr a vc kind table m in
    if not (a.tid == u) && ltb (get_clock u vc) c
    then race_with addr a u (inst_at u table) kind ∷ rest
    else rest

-- The report about an epoch that the current clock has not reached.
unfoldable pub report_epoch : ℕ → Access → VectorClock → Epoch → ℕ → RaceEventType → List Report
report_epoch addr a vc e inst kind =
    if not (a.tid == e.tid) && ltb (get_clock e.tid vc) e.clock
    then race_with addr a e.tid inst kind ∷ []
    else []

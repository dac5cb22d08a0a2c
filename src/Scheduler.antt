-- ===== src/Scheduler.antt =====
-- src/systematic/scheduler.h and scheduler.cc: the counters by which an action is told from the others
-- of its thread and on its object. `run` is the controller: it lets the thread of an action go on,
-- and gives the action as it was executed and the actions that are enabled after it.
use data_race_detectors.Base.{
  ℕ, ◌+◌, none, some, List, [], ◌∷◌, ◌==◌, if◌then◌else◌, Map, find, insert, u64,
}
use data_race_detectors.Program.{Action, State, Execution, is_write, create_state}

pub record Counts : Type 0 where
  pub tc_map : Map ℕ
  pub oc_map : Map ℕ

abbrev pub new_counts : Counts
new_counts = record { tc_map = []; oc_map = [] }

-- `GetThreadCounter` and `GetObjectCounter`: a counter that is not there is made, and is 0.
unfoldable pub counter : ℕ → Map ℕ → ℕ
unfolding find
counter k m = elim (find k m) [ none ↦ 0 | some n ↦ n ]

-- One round of the loop in `SetActionCounters`.
unfoldable pub count_action : Counts → Action → Action
unfolding counter is_write
count_action c a = elim (a.obj) [
  | none ↦ a
  | some o ↦
      let writes = counter o c.oc_map in
      record a {
        tc = u64 (counter a.thd c.tc_map + 1);
        oc = if is_write a.op then u64 (writes + 1) else writes;
      }
]

unfoldable pub count_all : Counts → Map Action → Map Action
unfolding count_action
count_all c [] = []
count_all c ((t, a) ∷ m) = (t, count_action c a) ∷ count_all c m

unfoldable pub set_action_counters : State → Counts → State
unfolding count_all
set_action_counters s c = record s { enabled = count_all c s.enabled }

-- The counters after an action.
unfoldable pub note_action : Action → Counts → Counts
unfolding insert
note_action a c = elim (a.obj) [
  | none ↦ c
  | some o ↦ record { tc_map = insert a.thd a.tc c.tc_map; oc_map = insert o a.oc c.oc_map }
]

abbrev pub set_state : State → List State → List State
set_state s [] = []
set_state s (r ∷ rs) = if r.idx == s.idx then s ∷ rs else r ∷ set_state s rs

-- `Execute`: the next state, and the execution with the action taken from the current one.
unfoldable pub execute :
    (Execution → Action → Action × Map Action)
    → State
    → Action
    → Execution
    → Counts
    → State × Execution × Counts
unfolding note_action create_state set_action_counters
execute run state action exec c =
    let c' = note_action action c in
    let (done, enabled) = run exec action in
    let exec' = record exec {
      state_vec = set_state (record state { taken = some done }) exec.state_vec;
    } in
    let (fresh, exec'') = create_state exec' in
    let next = set_action_counters (record fresh { enabled = enabled }) c' in
    (next, record exec'' { state_vec = set_state next exec''.state_vec }, c')

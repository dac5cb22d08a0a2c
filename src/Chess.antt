-- ===== src/Chess.antt =====
-- The scheduler of src/systematic/chess.h and chess.cc, which explores the schedules of a program one
-- run after the other: `PickNext` with its three filters, and one round of `Explore`. `none` is a
-- state or an action that is not there and is dereferenced. After a divergence, or when nothing is left
-- to pick, a round ends with that outcome and the run goes on as in Chess/Random; output, files and
-- the registration of knobs are left out.
pub mod FirstPass
pub mod SecondPass
pub mod Pick
pub mod Fairness
pub mod Placed
pub mod Executed
pub mod Bound
pub mod Rounds
pub mod Random
use data_race_detectors.Base.{
  ℕ, zero, suc, ◌+◌, Bool, true, false, not, ◌&&◌, ◌||◌, Option, none, some, List, [], ◌∷◌, ◌++◌,
  ltb, ◌==◌, if◌then◌else◌, Map, find, insert, arith,
}
use data_race_detectors.Sync.{◌>>=◌}
use data_race_detectors.Fair
use data_race_detectors.Fair.{FairControl}
use data_race_detectors.Program.{
  Action, State, Execution, is_enabled, find_enabled, is_terminal, prev, get_elem?,
}
use data_race_detectors.Scheduler.{Counts, execute}
use data_race_detectors.Search.{
  SearchNode, SearchInfo, is_done, add_done, add_backtrack, get_next_node,
}
use data_race_detectors.Visited.{VisitedState, has_obj, hash, hash_join, por_visited}

-- The knobs, and the number of nodes that the search starts with.
pub record Settings : Type 0 where
  pub fair_enable : Bool
  pub pb_enable : Bool
  pub por_enable : Bool
  pub pb_limit : ℕ
  pub prefix_size : ℕ

pub record Chess : Type 0 where
  pub exec : Execution
  pub counts : Counts
  pub curr_state : State
  pub curr_action : Option Action
  pub search_info : SearchInfo
  pub fair_ctrl : FairControl
  pub curr_preemptions : ℕ
  pub curr_hash_val : ℕ
  pub visited_states : Map (List VisitedState)
  pub curr_visited_states : List VisitedState
  pub curr_exec_id : ℕ

-- `IsPreemptiveChoice`
unfoldable pub is_preemptive_choice : Option Action → State → Action → Bool
unfolding is_enabled
is_preemptive_choice none curr action = false
is_preemptive_choice (some last) curr action =
    is_enabled last.thd curr && not (action.thd == last.thd)

unfoldable pub is_frontier : Settings → SearchNode → Bool
is_frontier k n = n.idx + 1 == k.prefix_size

unfoldable pub is_prefix : Settings → SearchNode → Bool
unfolding is_frontier
is_prefix k n = not (is_frontier k n) && ltb n.idx k.prefix_size

unfoldable pub update_backtrack : Map Action → SearchNode → SearchNode
unfolding add_backtrack
update_backtrack [] n = n
update_backtrack ((t, a) ∷ m) n = update_backtrack m (add_backtrack a.thd n)

-- `PbEnabled`
unfoldable pub pb_enabled : Settings → Chess → Action → Bool
pb_enabled k c action =
    if is_preemptive_choice c.curr_action c.curr_state action
    then not (ltb k.pb_limit (c.curr_preemptions + 1))
    else true

-- `PbUpdate`
unfoldable pub pb_update : Action → Chess → Chess
pb_update action c =
    if is_preemptive_choice c.curr_action c.curr_state action
    then record c { curr_preemptions = c.curr_preemptions + 1 }
    else c

-- `PorUpdate`
unfoldable pub por_update : Action → Chess → Option Chess
por_update action c =
    let state = c.curr_state in
    if not (has_obj action)
    then some c
    else (hash action >>= λ h.
        let value = hash_join c.curr_hash_val h in
        some (record c {
          curr_hash_val = value;
          curr_visited_states =
              c.curr_visited_states
              ++ record {
                hash_val = value;
                preemptions = c.curr_preemptions;
                exec_id = c.curr_exec_id;
                state_idx = state.idx + 1;
              }
                ∷ [];
        }))

-- `PorVisited`, with the preemptions that the action would bring.
unfoldable pub visited : (ℕ → Execution) → Chess → Action → Option Bool
visited exec_of c action =
    let state = c.curr_state in
    let more = if is_preemptive_choice c.curr_action state action then 1 else 0 in
    por_visited exec_of c.visited_states c.curr_hash_val (c.curr_preemptions + more) state.idx
      action c.exec

-- A filter that turns an action down marks its thread as done.
unfoldable pub mark : Bool → ℕ → SearchNode → SearchNode
mark b t n = if b then add_done t n else n

module _ (exec_of : ℕ → Execution) (k : Settings) (c : Chess) where
  -- The checks of the first pass for an action that is not done.
  unfoldable pub check : Action → SearchNode → Option SearchNode
  check action n =
      let fair =
        mark (k.fair_enable && not (Fair.enabled c.curr_state action c.fair_ctrl)) action.thd n in
      let bound = mark (k.pb_enable && not (pb_enabled k c action)) action.thd fair in
      if k.por_enable
      then (visited exec_of c action >>= λ seen. some (mark seen action.thd bound))
      else some bound

  unfoldable pub first_pass : Map Action → SearchNode → Option SearchNode
  first_pass [] n = some n
  first_pass ((t, a) ∷ m) n =
      (if not (is_done a.thd n) then check a n else some n) >>= λ n'. first_pass m n'

  -- The second pass, with the action that it has so far.
  unfoldable pub second_pass : Map Action → SearchNode → Option Action → Option Action
  second_pass [] n best = best
  second_pass ((t, a) ∷ m) n best =
      let better : Option Action = elim best [
        | none ↦ some a
        | some b ↦
            if not (is_preemptive_choice c.curr_action c.curr_state a) then some a else some b
      ] in
      second_pass m n (if not (is_done a.thd n) then better else best)

  -- `PickNext`, with the node as it leaves it.
  unfoldable pub pick_next : SearchNode → Option (Option Action × SearchNode)
  pick_next n =
      let state = c.curr_state in
      if is_prefix k n
      then (n.sel >>= λ t. some (find_enabled t state, n))
      else (first_pass state.enabled n >>= λ n'. some (second_pass state.enabled n' none, n'))

abbrev pub set_node : SearchNode → List SearchNode → List SearchNode
set_node n [] = []
set_node n (r ∷ rs) = if r.idx == n.idx then n ∷ rs else r ∷ set_node n rs

-- How a round of `Explore` ends.
pub data Outcome : Type 0 where
  terminal diverged : Outcome
  useless : Chess → Outcome
  went : Action → Chess → Outcome

module _ (exec_of : ℕ → Execution) (run : Execution → Action → Action × Map Action)
    (k : Settings) where
  -- The end of a round, with the action that was picked.
  unfoldable pub go : Action → SearchNode → Chess → Option Outcome
  go action n c =
      let chosen = record n { sel = some action.thd } in
      let n' = if not (is_prefix k n) then add_done action.thd chosen else chosen in
      let info = c.search_info in
      let c1 = record c { search_info = record info { stack = set_node n' info.stack } } in
      let c2 = if k.pb_enable then pb_update action c1 else c1 in
      let (next, exec, counts) = execute run c.curr_state action c.exec c.counts in
      (if k.por_enable then por_update action c2 else some c2) >>= λ c3. some (
        went action (record c3 {
          exec = exec;
          counts = counts;
          curr_action = some action;
          curr_state = next;
        }))

  -- `FairUpdate`, if it is switched on.
  unfoldable pub fair_update : Chess → Option FairControl
  fair_update c =
      if k.fair_enable
      then Fair.update (prev c.curr_state c.exec) c.curr_state c.fair_ctrl
      else some c.fair_ctrl

  abbrev pub to_try : State → SearchNode → SearchNode
  to_try state n = if not (is_prefix k n) then update_backtrack state.enabled n else n

  unfoldable pub outcome : Chess → Option Action × SearchNode → Option Outcome
  outcome c (none, n) =
      let info = c.search_info in
      some (useless (record c { search_info = record info { stack = set_node n info.stack } }))
  outcome c (some action, n) = go action n c

  -- The round once it has its node.
  unfoldable pub explore_node : SearchNode → Chess → Option Outcome
  explore_node n c = fair_update c >>= λ fair.
      let c' = record c { fair_ctrl = fair } in
      pick_next exec_of k c' (to_try c.curr_state n) >>= outcome c'

  unfoldable pub explore_step : Chess → Option Outcome
  explore_step c =
      let next = get_next_node c.curr_state c.search_info in
      let info = next.1 in
      if is_terminal c.curr_state then some terminal else elim (next.0) [
        | none ↦ some diverged
        | some i ↦ get_elem? info.stack i >>= λ n. explore_node n (record c { search_info = info })
      ]

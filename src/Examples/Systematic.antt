-- ===== src/Examples/Systematic.antt =====
-- The scheduler of src/systematic/chess.cc and its fair control, on a program of two threads.
use data_race_detectors.Base.{
  ◌==◌, ℕ, ◌≡◌, refl, Bool, true, false, Option, none, some, [], ◌∷◌, Map, find, arith,
}
use data_race_detectors.Lockset.{add, is_exist}
use data_race_detectors.Fair
use data_race_detectors.Fair.{FairControl, new_fair_control, track, on_yield, update}
use data_race_detectors.Fair.Rank.{Reach}
use data_race_detectors.Fair.Waiting.{Update, Updates, Yields, Passes, Yields-disabled}
use data_race_detectors.Program.{
  Operation, Action, State, Execution, new_execution, is_enabled, is_terminal,
}
use data_race_detectors.Scheduler.{new_counts}
use data_race_detectors.Search.{SearchNode, SearchInfo, is_done, new_search_info, get_next_node}
use data_race_detectors.Chess
use data_race_detectors.Search
use data_race_detectors.Chess.{
  Settings, Chess, Outcome, is_prefix, is_preemptive_choice, pick_next, explore_step,
}
use data_race_detectors.Chess.Random.{pick_random, pick_next_random}
use data_race_detectors.Chess.Pick.{Picked, pick_next-Picked}
use data_race_detectors.Chess.Fairness.{pick_next-some}
use data_race_detectors.Chess.Rounds.{Rounds, Ready, Rounds-Ready}

-- Thread `t` accesses object 7; it yields if `yield` says so.
abbrev action : ℕ → Bool → Action
action t yield = record {
  idx = 0;
  thd = t;
  obj = some 7;
  op = Operation.op_mem_write;
  inst = some 40;
  tc = 1;
  oc = 1;
  yield = yield;
}

-- Threads 1 and 2 are enabled, and `a` is taken.
abbrev state : Action → State
state a = record {
  idx = 0;
  enabled = (1, action 1 true) ∷ (2, action 2 false) ∷ [];
  taken = some a;
}

abbrev yielding : State
yielding = state (action 1 true)

abbrev running : State
running = state (action 1 false)

-- The fair control after a transition of thread 1 that yields.
abbrev after_yield : FairControl → FairControl
after_yield c = on_yield 1 yielding (track 1 yielding yielding c)

abbrev yielded : FairControl
yielded = after_yield new_fair_control

abbrev passed : FairControl
passed = track 1 running yielding yielded

yield_step : (c : FairControl) → Update (Yields 1 2) c (after_yield c)
unfolding update is_enabled find
yield_step c = Update.by yielding yielding (action 1 true) refl (refl, refl, refl) refl

pass_step : Update (Passes 2) yielded passed
unfolding update is_enabled find
pass_step = Update.by running yielding (action 1 false) refl (omega arith, refl) refl

-- Thread 1 yields, runs once more, and yields again, while thread 2 waits.
Yields-disabled_example : Fair.enabled yielding (action 1 true) (after_yield passed) ≡ false
unfolding is_enabled find
Yields-disabled_example =
    Yields-disabled 1 2 new_fair_control yielded passed (after_yield passed) (after_yield passed)
      yielding (action 1 true) (omega arith) (yield_step new_fair_control)
      (Updates.more Updates.none_yet pass_step) (yield_step passed) Updates.none_yet refl refl

abbrev no_file : ℕ → Execution
no_file i = new_execution

-- The controller takes the action as it is, and leaves the other thread enabled.
abbrev run : Execution → Action → Action × Map Action
run exec a = (a, (2, action 2 false) ∷ [])

abbrev fair_only : Settings
fair_only = record {
  fair_enable = true;
  pb_enable = false;
  por_enable = false;
  pb_limit = 0;
  prefix_size = 0;
}

abbrev bounded : Settings
bounded = record {
  fair_enable = false;
  pb_enable = true;
  por_enable = false;
  pb_limit = 1;
  prefix_size = 0;
}

-- A round is about to begin, and thread 1 was the last to run.
abbrev chess : Chess
chess = record {
  exec = new_execution;
  counts = new_counts;
  curr_state = yielding;
  curr_action = some (action 1 false);
  search_info = new_search_info;
  fair_ctrl = new_fair_control;
  curr_preemptions = 1;
  curr_hash_val = 0;
  visited_states = [];
  curr_visited_states = [];
  curr_exec_id = 1;
}

abbrev node : SearchNode
node = record { idx = 0; sel = none; backtrack = 1 ∷ 2 ∷ []; done = []; enabled = [] }

pick_next-some_example :
    (a : Action) × (n' : SearchNode) × (pick_next no_file fair_only chess node ≡ some (some a, n'))
unfolding is_prefix is_done is_exist
pick_next-some_example =
    pick_next-some no_file fair_only chess node Reach.start (ground arith) (ground arith) (λ e. cc)
      refl refl refl (λ t. refl)

abbrev picked_node : SearchNode
picked_node = record node { done = add 2 [] }

-- Another preemption would pass the limit, so thread 1 goes on and thread 2 counts as done.
pick_next-Picked_example : Picked no_file bounded chess node (some (action 1 true)) picked_node
unfolding is_prefix pick_next is_done is_exist Chess.first_pass Chess.check Chess.mark
    Chess.pb_enabled is_preemptive_choice Chess.second_pass Search.add_done
pick_next-Picked_example =
    pick_next-Picked no_file bounded chess node (some (action 1 true)) picked_node (ground arith)
      (ground arith) refl refl

abbrev chess_of : Option Outcome → Chess
chess_of (some (Outcome.went a c)) = c
chess_of _ = chess

abbrev after_round : Chess
after_round = chess_of (explore_step no_file run bounded chess)

one_round : Rounds no_file run bounded chess after_round
unfolding explore_step is_terminal get_next_node Chess.explore_node Chess.fair_update pick_next
    is_prefix Chess.update_backtrack Chess.first_pass is_done Chess.check Chess.mark
    Chess.pb_enabled is_preemptive_choice Chess.outcome Chess.second_pass Search.add_done Chess.go
    is_exist add Search.add_backtrack
one_round = Rounds.more (action 1 true) Rounds.none_yet refl

chess-Ready : Ready no_file run bounded chess
unfolding is_prefix
chess-Ready = record {
  in_order = (ground arith, ground arith);
  placed = λ i n e. cc;
  behind = omega arith;
  bound = omega arith;
}

Rounds-Ready_example : Ready no_file run bounded after_round
Rounds-Ready_example =
    Rounds-Ready no_file run bounded chess after_round (λ exec a. (ground arith, ground arith)) refl
      chess-Ready one_round

-- When only the first choice is true, a random round takes the first enabled thread.
first_only : pick_next_random (λ counter. counter == 1) chess ≡ some (action 1 true)
unfolding pick_next_random pick_random
first_only = refl

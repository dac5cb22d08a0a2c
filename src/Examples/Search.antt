-- ===== src/Examples/Search.antt =====
-- The search of src/systematic/search.cc, the identities of program.cc, and the comparison of states in
-- chess.cc.
use data_race_detectors.Base.{
  ℕ, ◌≤◌, ◌≡◌, ◌↔◌, refl, true, false, some, List, [], ◌∷◌, ◌++◌, find, arith,
}
use data_race_detectors.Lockset.{is_exist}
use data_race_detectors.RaceDb.{bucket, find_in}
use data_race_detectors.Program.{Operation, Action, State, Execution, find_state}
use data_race_detectors.Objects.{
  Thread, main_thread, thread_uid, sobject, dobject, object_uid, object_as, Program, new_program,
  get_thread, get_object, find_thread, find_object,
}
use data_race_detectors.Objects.Valid.{IsProgram, get-same}
use data_race_detectors.Search.{
  ActionInfo, info_of, SearchNode, SearchInfo, new_search_info, infos, check_divergence,
  update_for_next,
}
use data_race_detectors.Search.Files.{SearchInfoProto, StaticInfo, find_inst, save, load}
use data_race_detectors.Search.Diverge.{check_divergence_iff}
use data_race_detectors.Search.Backtrack.{AllFinished, TopOpen, update_for_next_lem}
use data_race_detectors.Search.Store.{load-save}
use data_race_detectors.Visited.{has_obj, taken_before, por_state_match}
use data_race_detectors.Visited.Table.{occurs}
use data_race_detectors.Visited.Match.{Decides, por_state_match_iff}

abbrev write_by : ℕ → Action
write_by t = record {
  idx = 0;
  thd = t;
  obj = some 7;
  op = Operation.op_mem_write;
  inst = some 40;
  tc = 1;
  oc = 1;
  yield = false;
}

abbrev info : ℕ → ActionInfo
info t = info_of (write_by t)

-- Threads 1 and 2 were enabled and 1 was selected; `done` are those that were tried.
abbrev node : ℕ → List ℕ → SearchNode
node idx done = record {
  idx = idx;
  sel = some 1;
  backtrack = 1 ∷ 2 ∷ [];
  done = done;
  enabled = (1, info 1) ∷ (2, info 2) ∷ [];
}

abbrev state : State
state = record {
  idx = 0;
  enabled = (1, write_by 1) ∷ (2, write_by 2) ∷ [];
  taken = some (write_by 1);
}

check_divergence_iff_example :
    (check_divergence (node 0 []) state ≡ true) ↔ ((node 0 []).enabled ≡ infos state.enabled [])
check_divergence_iff_example = check_divergence_iff (node 0 []) state (ground arith) (ground arith)

-- The first node has a thread to try, the second has none left.
abbrev search : SearchInfo
search = record {
  done = false;
  num_runs = 3;
  stack = node 0 (1 ∷ []) ∷ node 1 (1 ∷ 2 ∷ []) ∷ [];
  cursor = 2;
}

update_for_next_lem_example :
    let next = update_for_next search in
    ((popped : List SearchNode) × (search.stack ≡ next.stack ++ popped) × AllFinished popped)
    × TopOpen next.stack
    × ((next.done ≡ true) ↔ (next.stack ≡ []))
update_for_next_lem_example = update_for_next_lem search refl

-- The program knows threads 1 and 2 and object 7.
abbrev program : Program
program = record new_program {
  thd_uid_table = (1, main_thread 1) ∷ (2, Thread.child 2 1 1) ∷ [];
  obj_uid_table = (7, sobject 7 1 16) ∷ [];
}

abbrev static_info : StaticInfo
static_info = record { insts = 40 ∷ [] }

load-save_example :
    (q : SearchInfoProto) × (save search ≡ some q)
    × (load static_info program q new_search_info ≡ some (record search { cursor = 0 }))
unfolding find_thread find_object find_inst find is_exist
load-save_example =
    load-save (λ q. q) (λ q. q) (λ q. refl) static_info program search (ground arith)

new_program-IsProgram : IsProgram new_program
unfolding bucket find_in find
new_program-IsProgram = record {
  threads = record { sound = λ q v f. cc; complete = λ k v f. cc };
  objects = record { sound = λ q v f. cc; complete = λ k v f. cc };
}

abbrev first : ℕ
first = 1

abbrev second : ℕ
second = 2

get-same_example :
    let a = get_thread 1 1 new_program in
    let b = get_object (sobject 0 1 16) new_program in
    ((thread_uid a.0 ≡ thread_uid (get_thread 1 2 a.1).0) ↔ ((first ≡ first) × (first ≡ second)))
    × ((object_uid b.0 ≡ object_uid (get_object (dobject 0 1 40 1 16) b.1).0)
        ↔ (object_as 0 (sobject 0 1 16) ≡ object_as 0 (dobject 0 1 40 1 16)))
get-same_example =
    get-same new_program 1 1 1 2 (sobject 0 1 16) (dobject 0 1 40 1 16) new_program-IsProgram
      (omega arith) (omega arith)

-- A run in which thread 1 has written.
abbrev earlier_run : Execution
earlier_run = record { action_vec = write_by 1 ∷ []; state_vec = state ∷ state ∷ [] }

por_state_match_iff_example :
    Decides
      (por_state_match 0 (write_by 1) earlier_run 1 earlier_run)
      ((a : Action) → has_obj a ≡ true → occurs a (write_by 1 ∷ []) ≤ occurs a (write_by 1 ∷ []))
unfolding taken_before find_state
por_state_match_iff_example =
    por_state_match_iff 0 (write_by 1) earlier_run 1 earlier_run [] (write_by 1 ∷ []) refl refl refl
      refl

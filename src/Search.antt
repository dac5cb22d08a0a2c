-- ===== src/Search.antt =====
-- src/systematic/search.h and search.cc: the stack of a depth-first search through the schedules of a
-- program, which is saved between runs. A node has one entry for each schedule point of a run: the
-- threads that were enabled, the one that was selected (none before `set_sel`), those to try and
-- those that were tried. The counter of the runs does not wrap; `Load` and `Save` are in Search/Files.
pub mod InOrder
pub mod Files
pub mod Diverge
pub mod Backtrack
pub mod Store
use data_race_detectors.Base.{
  ℕ, ◌+◌, Bool, true, false, not, ◌&&◌, Option, none, some, List, [], ◌∷◌, ◌++◌, ltb, ◌==◌,
  if◌then◌else◌, Map, find, insert, arith,
}
use mathlib.Core.List.{reverse}
use data_race_detectors.Lockset.{add, is_exist}
use data_race_detectors.Sync.{◌>>=◌}
use data_race_detectors.Program.{Operation, Action, State, length, get_elem?}
use data_race_detectors.Objects.{Thread, thread_uid, object_uid, Program, find_thread, find_object}

pub record ActionInfo : Type 0 where
  pub thd : ℕ
  pub obj : Option ℕ
  pub op : Operation
  pub inst : Option ℕ

-- The constructor from an action.
abbrev pub info_of : Action → ActionInfo
info_of a = record { thd = a.thd; obj = a.obj; op = a.op; inst = a.inst }

pub record SearchNode : Type 0 where
  pub idx : ℕ
  pub sel : Option ℕ
  pub backtrack : List ℕ
  pub done : List ℕ
  pub enabled : Map ActionInfo

pub record SearchInfo : Type 0 where
  pub done : Bool
  pub num_runs : ℕ
  pub stack : List SearchNode
  pub cursor : ℕ

abbrev pub new_search_info : SearchInfo
new_search_info = record { done = false; num_runs = 0; stack = []; cursor = 0 }

unfoldable pub is_backtrack : ℕ → SearchNode → Bool
unfolding is_exist
is_backtrack t n = is_exist t n.backtrack

unfoldable pub is_done : ℕ → SearchNode → Bool
unfolding is_exist
is_done t n = is_exist t n.done

unfoldable pub add_done : ℕ → SearchNode → SearchNode
unfolding add
add_done t n = record n { done = add t n.done }

unfoldable pub add_backtrack : ℕ → SearchNode → SearchNode
unfolding add
add_backtrack t n = record n { backtrack = add t n.backtrack }

-- The loop of `Finished`.
unfoldable pub all_done : List ℕ → SearchNode → Bool
unfolding is_done
all_done [] n = true
all_done (t ∷ ts) n = let rest = all_done ts n in if not (is_done t n) then false else rest

unfoldable pub finished : SearchNode → Bool
unfolding all_done
finished n = all_done n.backtrack n

unfoldable pub infos : Map Action → Map ActionInfo → Map ActionInfo
unfolding insert
infos [] m = m
infos ((t, a) ∷ es) m = infos es (insert t (info_of a) m)

-- Comparing the operations is comparing their numbers in program.proto.
unfoldable pub op_code : Operation → ℕ
op_code Operation.op_invalid = 0
op_code Operation.op_thread_start = 1
op_code Operation.op_thread_end = 2
op_code Operation.op_thread_create = 3
op_code Operation.op_thread_join = 4
op_code Operation.op_mutex_lock = 11
op_code Operation.op_mutex_unlock = 12
op_code Operation.op_mutex_trylock = 13
op_code Operation.op_cond_wait = 21
op_code Operation.op_cond_signal = 22
op_code Operation.op_cond_broadcast = 23
op_code Operation.op_cond_timedwait = 24
op_code Operation.op_barrier_init = 31
op_code Operation.op_barrier_wait = 32
op_code Operation.op_mem_read = 41
op_code Operation.op_mem_write = 42
op_code Operation.op_sleep = 51
op_code Operation.op_usleep = 52
op_code Operation.op_nanosleep = 53
op_code Operation.op_sched_yield = 54

-- Comparing pointers of which one may be NULL.
abbrev pub same_pointer : Option ℕ → Option ℕ → Bool
same_pointer none none = true
same_pointer none (some y) = false
same_pointer (some x) none = false
same_pointer (some x) (some y) = x == y

unfoldable pub same_action : ActionInfo → Action → Bool
unfolding op_code
same_action i a =
    i.thd == a.thd
    && same_pointer i.obj a.obj
    && op_code i.op == op_code a.op
    && same_pointer i.inst a.inst

-- The loop of `CheckDivergence`.
unfoldable pub all_same : Map ActionInfo → Map Action → Bool
unfolding find
all_same [] es = true
all_same ((t, i) ∷ m) es =
    let rest = all_same m es in
    elim (find t es) [ none ↦ false | some a ↦ if same_action i a then rest else false ]

-- `CheckDivergence`, which returns true when there is none.
unfoldable pub check_divergence : SearchNode → State → Bool
unfolding all_same
check_divergence n s =
    if not (length n.enabled == length s.enabled) then false else all_same n.enabled s.enabled

-- The index of the node, and `none` for NULL.
unfoldable pub get_next_node : State → SearchInfo → Option ℕ × SearchInfo
unfolding check_divergence infos
get_next_node s info =
    if info.cursor == length info.stack
    then (
      some info.cursor,
      record info {
        stack =
            info.stack
            ++ record {
              idx = info.cursor;
              sel = none;
              backtrack = [];
              done = [];
              enabled = infos s.enabled [];
            }
              ∷ [];
        cursor = info.cursor + 1;
      },
    )
    else elim (get_elem? info.stack info.cursor) [
      | none ↦ (none, info)
      | some n ↦
          if not (check_divergence n s)
          then (none, info)
          else (some info.cursor, record info { cursor = info.cursor + 1 })
    ]

-- The loop of `UpdateForNext`, with the top of the stack first.
unfoldable pub pop_finished : List SearchNode → List SearchNode
unfolding finished
pop_finished [] = []
pop_finished (n ∷ ns) = let rest = pop_finished ns in if not (finished n) then n ∷ ns else rest

abbrev pub is_nil {ℓ} : {A : Type ℓ} → List A → Bool
is_nil [] = true
is_nil (x ∷ xs) = false

unfoldable pub update_for_next : SearchInfo → SearchInfo
unfolding pop_finished
update_for_next info =
    let stack = reverse (pop_finished (reverse info.stack)) in
    record info {
      stack = stack;
      done = if is_nil stack then true else info.done;
      num_runs = info.num_runs + 1;
    }

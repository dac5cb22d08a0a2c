-- ===== src/Program.antt =====
-- src/systematic/program.h and program.cc: the actions, states and executions of a program that is
-- run under a scheduler. A `Thread *`, `Object *` or `Inst *` is a number. An `Action *` is the
-- action with the fields that it has when it is read; `Program` itself, with the identities of
-- threads and objects across runs, is apart from it, and so are `Load` and `Save`.
use data_race_detectors.Base.{
  ℕ, suc, zero, ◌+◌, ◌-◌, Bool, true, false, Option, none, some, List, [], ◌∷◌, ◌++◌, ◌==◌,
  if◌then◌else◌, Map, find, insert,
}

pub data Operation : Type 0 where
  op_invalid op_thread_start op_thread_end op_thread_create op_thread_join : Operation
  op_mutex_lock op_mutex_unlock op_mutex_trylock : Operation
  op_cond_wait op_cond_signal op_cond_broadcast op_cond_timedwait : Operation
  op_barrier_init op_barrier_wait op_mem_read op_mem_write : Operation
  op_sleep op_usleep op_nanosleep op_sched_yield : Operation

pub record Action : Type 0 where
  pub idx : ℕ
  pub thd : ℕ
  pub obj : Option ℕ
  pub op : Operation
  pub inst : Option ℕ
  pub tc : ℕ
  pub oc : ℕ
  pub yield : Bool

pub record State : Type 0 where
  pub idx : ℕ
  pub enabled : Map Action
  pub taken : Option Action

pub record Execution : Type 0 where
  pub action_vec : List Action
  pub state_vec : List State

abbrev pub new_execution : Execution
new_execution = record { action_vec = []; state_vec = [] }

unfoldable pub is_thread_op : Operation → Bool
is_thread_op op_thread_start = true
is_thread_op op_thread_end = true
is_thread_op op_thread_create = true
is_thread_op op_thread_join = true
is_thread_op _ = false

unfoldable pub is_mutex_op : Operation → Bool
is_mutex_op op_mutex_lock = true
is_mutex_op op_mutex_unlock = true
is_mutex_op op_mutex_trylock = true
is_mutex_op _ = false

unfoldable pub is_cond_op : Operation → Bool
is_cond_op op_cond_wait = true
is_cond_op op_cond_signal = true
is_cond_op op_cond_broadcast = true
is_cond_op op_cond_timedwait = true
is_cond_op _ = false

unfoldable pub is_barrier_op : Operation → Bool
is_barrier_op op_barrier_init = true
is_barrier_op op_barrier_wait = true
is_barrier_op _ = false

unfoldable pub is_mem_op : Operation → Bool
is_mem_op op_mem_read = true
is_mem_op op_mem_write = true
is_mem_op _ = false

unfoldable pub is_write : Operation → Bool
is_write op_mem_read = false
is_write _ = true

unfoldable pub is_enabled : ℕ → State → Bool
unfolding find
is_enabled t s = elim (find t s.enabled) [ none ↦ false | some a ↦ true ]

unfoldable pub find_enabled : ℕ → State → Option Action
unfolding find
find_enabled t s = find t s.enabled

unfoldable pub add_enabled : Action → State → State
unfolding insert
add_enabled a s = record s { enabled = insert a.thd a s.enabled }

abbrev is_nil {ℓ} : {A : Type ℓ} → List A → Bool
is_nil [] = true
is_nil (x ∷ xs) = false

-- A state that is asked for it belongs to an execution.
unfoldable pub is_terminal : State → Bool
is_terminal s = is_nil s.enabled

abbrev pub length {ℓ} : {A : Type ℓ} → List A → ℕ
length [] = 0
length (x ∷ xs) = suc (length xs)

abbrev pub get_elem? {ℓ} : {A : Type ℓ} → List A → ℕ → Option A
get_elem? [] i = none
get_elem? (x ∷ xs) zero = some x
get_elem? (x ∷ xs) (suc i) = get_elem? xs i

unfoldable pub create_action : ℕ → Option ℕ → Operation → Option ℕ → Execution → Action × Execution
create_action thd obj op inst exec =
    let a : Action = record {
      idx = length exec.action_vec;
      thd = thd;
      obj = obj;
      op = op;
      inst = inst;
      tc = 0;
      oc = 0;
      yield = false;
    } in
    (a, record exec { action_vec = exec.action_vec ++ a ∷ [] })

unfoldable pub create_state : Execution → State × Execution
create_state exec =
    let s : State = record { idx = length exec.state_vec; enabled = []; taken = none } in
    (s, record exec { state_vec = exec.state_vec ++ s ∷ [] })

unfoldable pub prev : State → Execution → Option State
prev s exec = if s.idx == 0 then none else get_elem? exec.state_vec (s.idx - 1)

-- `Next` and `FindState` test the index against the size of the vector.
unfoldable pub next : State → Execution → Option State
next s exec = get_elem? exec.state_vec (s.idx + 1)

unfoldable pub find_state : ℕ → Execution → Option State
find_state i exec = get_elem? exec.state_vec i

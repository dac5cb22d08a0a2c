-- ===== src/Visited.antt =====
-- The partial order reduction of src/systematic/chess.cc: the hash of the actions that have led to a
-- state, and the comparison of a state with one that an earlier run has visited. `exec_of` gives
-- an earlier execution, as `PorGetExec` reads it from its file. `none` is a state or an action
-- that is not there and is dereferenced, as the instruction of an action that is hashed without one.
-- The directory and the file of the visited states are left out.
pub mod Table
pub mod Match
use data_race_detectors.Base.{
  ℕ, zero, suc, ◌+◌, ◌*◌, ◌^◌, Bool, true, false, not, ◌&&◌, ◌||◌, Option, none, some, List, [],
  ◌∷◌, ◌++◌, leb, ◌==◌, if◌then◌else◌, Map, find, insert, u64, arith,
}
use Prim.Native.Nat.{bit_xor}
use data_race_detectors.Sync.{◌>>=◌}
use data_race_detectors.RaceDb.{u32, push_back, bucket}
use data_race_detectors.Program.{Action, State, Execution, find_state, is_enabled, get_elem?}
use data_race_detectors.Search.{op_code, same_pointer}

-- `VisitedState`
pub record VisitedState : Type 0 where
  pub hash_val : ℕ
  pub preemptions : ℕ
  pub exec_id : ℕ
  pub state_idx : ℕ

abbrev pub has_obj : Action → Bool
has_obj a = elim (a.obj) [ none ↦ false | some o ↦ true ]

-- The sum of `Hash`: the uid of the object and the id of the instruction are shifted in 32 bits.
unfoldable pub hash_sum : ℕ → ℕ → Action → ℕ
unfolding u32 op_code
hash_sum obj inst a = u64 (
    a.thd
    + u32 (obj * 2 ^ 2)
    + op_code a.op * 2 ^ 5
    + u32 (inst * 2 ^ 7)
    + u64 (a.tc * 2 ^ 13)
    + u64 (a.oc * 2 ^ 23))

-- `Hash`, which asserts that the object and the instruction are there, and dereferences both.
unfoldable pub hash : Action → Option ℕ
unfolding hash_sum
hash a = do o ← a.obj; i ← a.inst; some (hash_sum o i a)

unfoldable pub hash_join : ℕ → ℕ → ℕ
hash_join h1 h2 = bit_xor h1 h2

-- The comparison of two actions in `PorStateMatch`.
unfoldable pub same : Action → Action → Bool
unfolding op_code
same a b =
    a.thd == b.thd
    && same_pointer a.obj b.obj
    && op_code a.op == op_code b.op
    && same_pointer a.inst b.inst
    && a.tc == b.tc
    && a.oc == b.oc

-- The actions that were taken before the state with an index, the last one first.
unfoldable pub taken_before : ℕ → Execution → Option (List Action)
unfolding find_state
taken_before zero exec = some []
taken_before (suc i) exec =
    let rest = taken_before i exec in
    do s ← find_state i exec; a ← s.taken; more ← rest; some (a ∷ more)

-- The first loop: the hash table of the actions that are not transparent.
unfoldable pub hash_table : List Action → Map (List Action) → Option (Map (List Action))
hash_table [] table = some table
hash_table (a ∷ others) table =
    (if has_obj a then (hash a >>= λ h. some (push_back h a table)) else some table)
    >>= hash_table others

-- The loop over a bucket, which erases the first action that is the same.
unfoldable pub erase_same : Action → List Action → Option (List Action)
erase_same a [] = none
erase_same a (b ∷ bs) =
    let rest = erase_same a bs in
    if same a b then some bs else elim rest [ none ↦ none | some r ↦ some (b ∷ r) ]

-- The second loop.
unfoldable pub match_all : List Action → Map (List Action) → Option Bool
match_all [] table = some true
match_all (a ∷ others) table =
    let skipped = match_all others table in
    elim (has_obj a) [
      | false ↦ skipped
      | true ↦ hash a >>= λ h. elim (find h table) [
        | none ↦ some false
        | some bs ↦ elim (erase_same a bs) [
          | none ↦ some false
          | some rest ↦ match_all others (insert h rest table)
        ]
      ]
    ]

-- `PorStateMatch` for the state with index `i` in the current execution and `action` taken from it,
-- and the state with index `j` in an earlier one.
unfoldable pub por_state_match : ℕ → Action → Execution → ℕ → Execution → Option Bool
unfolding taken_before hash_table match_all
por_state_match i action exec j vs_exec = do
  visited ← taken_before j vs_exec
  earlier ← taken_before i exec
  table ← hash_table visited []
  match_all (action ∷ earlier) table

-- The loop of `PorVisited` over the visited states with the hash.
unfoldable pub any_match :
    (ℕ → Execution) → ℕ → ℕ → Action → Execution → List VisitedState → Option Bool
unfolding find_state por_state_match
any_match exec_of preemptions i action exec [] = some false
any_match exec_of preemptions i action exec (vs ∷ rest) =
    let others = any_match exec_of preemptions i action exec rest in
    find_state vs.state_idx (exec_of vs.exec_id) >>= λ s.
    let here = por_state_match i action exec s.idx (exec_of vs.exec_id) in
    if leb vs.preemptions preemptions
    then (here >>= λ m. if m then some true else others)
    else others

-- `PorVisited`, with the number of preemptions after the action.
unfoldable pub por_visited :
    (ℕ → Execution) → Map (List VisitedState) → ℕ → ℕ → ℕ → Action → Execution → Option Bool
unfolding hash hash_join bucket any_match
por_visited exec_of visited_states hash_val preemptions i action exec =
    if not (has_obj action)
    then some false
    else (hash action >>= λ h.
        any_match exec_of preemptions i action exec (bucket (hash_join hash_val h) visited_states))

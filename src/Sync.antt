-- ===== src/Sync.antt =====
-- The vector clocks of src/pintool/detector1.h and detector1.cpp: those of the threads, mutexes,
-- condition variables and barriers, and the functions that pass them on. A `Map` stands for the maps
-- of pointers; `none` is the use of a clock pointer or an iterator that is not there.
pub mod Clocks
pub mod Snapshot
pub mod Ticks
pub mod Ahead
pub mod Release
pub mod Keep
pub mod Waits
pub mod Runs
pub mod Grows
pub mod Barriers
use data_race_detectors.Base.{
  ℕ, ◌-◌, ◌^◌, ◌≡◌, refl, Ensures, Bool, true, false, not, ◌&&◌, Option, none, some, List, [], ◌∷◌,
  ◌==◌, if◌then◌else◌, Map, find, insert, erase, arith,
}
use data_race_detectors.Clock.{VectorClock, increment, join}

infixl 5 ◌>>=◌
abbrev pub ◌>>=◌ {ℓ κ} : {A : Type ℓ} {B : Type κ} → Option A → (A → Option B) → Option B
none >>= f = none
some a >>= f = f a

pub Ensures-bind {ℓ κ μ} :
    {A : Type ℓ} {B : Type κ} (P : B → Type μ) (m : Option A) (f : A → Option B)
    → ((a : A) → m ≡ some a → Ensures P (f a))
    → Ensures P (m >>= f)
Ensures-bind P none f h = tt
Ensures-bind P (some a) f h = h a refl

pub record CondMeta : Type 0 where
  pub wait_table : Map VectorClock
  pub signal_table : Map VectorClock

pub record BarrierMeta : Type 0 where
  pub pre_using_table1 : Bool
  pub post_using_table1 : Bool
  pub barrier_wait_table1 : Map (VectorClock × Bool)
  pub barrier_wait_table2 : Map (VectorClock × Bool)

-- A `MutexMeta` is its clock.
pub record Sync : Type 0 where
  pub curr_vc_map : Map VectorClock
  pub mutex_meta_table : Map VectorClock
  pub cond_meta_table : Map CondMeta
  pub barrier_meta_table : Map BarrierMeta

abbrev pub invalid_thd_id : ℕ
invalid_thd_id = 2 ^ 64 - 1

abbrev pub new_cond : CondMeta
new_cond = record { wait_table = []; signal_table = [] }

abbrev pub new_barrier : BarrierMeta
new_barrier = record {
  pre_using_table1 = true;
  post_using_table1 = true;
  barrier_wait_table1 = [];
  barrier_wait_table2 = [];
}

abbrev pub or_new {ℓ} : {A : Type ℓ} → A → Option A → A
or_new a none = a
or_new a (some b) = b

-- The metadata at an address, which the table gets when it is first asked for.
unfoldable pub get_mutex_meta : ℕ → Sync → VectorClock
unfolding find
get_mutex_meta a s = or_new [] (find a s.mutex_meta_table)

unfoldable pub get_cond_meta : ℕ → Sync → CondMeta
unfolding find
get_cond_meta a s = or_new new_cond (find a s.cond_meta_table)

unfoldable pub get_barrier_meta : ℕ → Sync → BarrierMeta
unfolding find
get_barrier_meta a s = or_new new_barrier (find a s.barrier_meta_table)

abbrev pub set_clock_of : ℕ → VectorClock → Sync → Sync
set_clock_of t vc s = record s { curr_vc_map = insert t vc s.curr_vc_map }

-- The clock that a new thread starts from, before its parent's is joined.
abbrev pub first_clock : ℕ → VectorClock
first_clock t = increment t []

unfoldable pub thread_start : ℕ → ℕ → Sync → Option Sync
unfolding find insert increment join
thread_start t parent s =
    if parent == invalid_thd_id
    then some (set_clock_of t (first_clock t) s)
    else find parent s.curr_vc_map >>= λ parent_vc. some (
        set_clock_of t (join (first_clock t) parent_vc)
          (set_clock_of parent (increment parent parent_vc) s))

unfoldable pub after_pthread_join : ℕ → ℕ → Sync → Option Sync
unfolding find insert join
after_pthread_join t child s = do
  curr_vc ← find t s.curr_vc_map
  child_vc ← find child s.curr_vc_map
  some (set_clock_of t (join curr_vc child_vc) s)

unfoldable pub process_lock : ℕ → ℕ → Sync → Option Sync
unfolding find insert join get_mutex_meta
process_lock t a s = do
  curr_vc ← find t s.curr_vc_map
  let meta = get_mutex_meta a s
  some (
      set_clock_of t (join curr_vc meta)
        (record s { mutex_meta_table = insert a meta s.mutex_meta_table }))

unfoldable pub process_unlock : ℕ → ℕ → Sync → Option Sync
unfolding find insert increment
process_unlock t a s = do
  curr_vc ← find t s.curr_vc_map
  some (
      set_clock_of t (increment t curr_vc)
        (record s { mutex_meta_table = insert a curr_vc s.mutex_meta_table }))

-- The first loop of `ProcessNotify`.
unfoldable pub join_all : VectorClock → Map VectorClock → VectorClock
unfolding join
join_all vc [] = vc
join_all vc ((u, w) ∷ m) = join_all (join vc w) m

-- The second loop: every waiting thread gets the clock of the signal.
unfoldable pub signal_all : VectorClock → Map VectorClock → Map VectorClock → Map VectorClock
unfolding insert
signal_all vc signals [] = signals
signal_all vc signals ((u, w) ∷ m) = signal_all vc (insert u vc signals) m

unfoldable pub process_notify : ℕ → ℕ → Sync → Option Sync
unfolding find insert increment join_all signal_all get_cond_meta
process_notify t a s = do
  curr_vc ← find t s.curr_vc_map
  let meta = get_cond_meta a s
  let joined = join_all curr_vc meta.wait_table
  let signals = signal_all joined meta.signal_table meta.wait_table
  some (
      set_clock_of t (increment t joined) (record s {
        cond_meta_table = insert a (record meta { signal_table = signals }) s.cond_meta_table;
      }))

unfoldable pub process_pre_wait : ℕ → ℕ → Sync → Option Sync
unfolding find insert increment get_cond_meta
process_pre_wait t a s = do
  curr_vc ← find t s.curr_vc_map
  let meta = get_cond_meta a s
  let waits = insert t curr_vc meta.wait_table
  some (
      set_clock_of t (increment t curr_vc) (record s {
        cond_meta_table = insert a (record meta { wait_table = waits }) s.cond_meta_table;
      }))

-- A wait may end without a signal, after a timeout.
unfoldable pub process_post_wait : ℕ → ℕ → Sync → Option Sync
unfolding find insert erase join get_cond_meta
process_post_wait t a s =
    let meta = get_cond_meta a s in
    find t s.curr_vc_map >>= λ curr_vc. find t meta.wait_table >>= λ _.
    let waits = erase t meta.wait_table in
    elim (find t meta.signal_table) [
      | none ↦ some (record s {
        cond_meta_table = insert a (record meta { wait_table = waits }) s.cond_meta_table;
      })
      | some signal ↦ some (
          set_clock_of t (join curr_vc signal) (record s {
            cond_meta_table =
                insert a (record { wait_table = waits; signal_table = erase t meta.signal_table })
                  s.cond_meta_table;
          }))
    ]

-- ===== src/Sync/Runs.antt =====
-- The synchronisation events of src/pintool/detector1.cpp and the runs that they make up.
use data_race_detectors.Base.{ℕ, ◌≡◌, refl, Option, none, some, [], Ensures}
use data_race_detectors.Clock.{VectorClock, IsClock, join}
use data_race_detectors.Sync.{
  Sync, first_clock, thread_start, after_pthread_join, process_lock, process_unlock, process_notify,
  process_pre_wait, process_post_wait,
}
use data_race_detectors.Sync.Barriers.{process_pre_barrier, process_post_barrier}
use data_race_detectors.Sync.Clocks.{AllClocks}
use data_race_detectors.Sync.Keep.{
  Good, Full, Tick, unlock-AllClocks, lock-AllClocks, join-AllClocks, start-AllClocks,
  notify-AllClocks,
}
use data_race_detectors.Sync.Waits.{
  pre_wait-AllClocks, post_wait-AllClocks, pre_barrier-AllClocks, post_barrier-AllClocks,
}

-- An event of thread `t`; an address is that of the mutex, condition variable or barrier.
pub data Event : Type 0 where
  start : (t parent : ℕ) → Event
  joins : (t child : ℕ) → Event
  lock unlock notify pre_wait post_wait pre_barrier post_barrier : (t a : ℕ) → Event

unfoldable pub step : Event → Sync → Option Sync
step (start t parent) s = thread_start t parent s
step (joins t child) s = after_pthread_join t child s
step (lock t a) s = process_lock t a s
step (unlock t a) s = process_unlock t a s
step (notify t a) s = process_notify t a s
step (pre_wait t a) s = process_pre_wait t a s
step (post_wait t a) s = process_post_wait t a s
step (pre_barrier t a) s = process_pre_barrier t a s
step (post_barrier t a) s = process_post_barrier t a s

-- The thread that ticks in an event, if one does.
abbrev pub ticks : Event → Option ℕ
ticks (start t parent) = some parent
ticks (joins t child) = none
ticks (lock t a) = none
ticks (unlock t a) = some t
ticks (notify t a) = some t
ticks (pre_wait t a) = some t
ticks (post_wait t a) = none
ticks (pre_barrier t a) = none
ticks (post_barrier t a) = some t

-- The thread that an event starts.
abbrev pub starts : Event → Option ℕ
starts (start t parent) = some t
starts _ = none

-- What the start of a thread has to keep.
abbrev pub Starts : (VectorClock → Type 0) → Event → Type 0
Starts P (start t parent) = Good P (first_clock t)
Starts P _ = Unit

abbrev pub Ticks : (VectorClock → Type 0) → (VectorClock → Type 0) → Event → Sync → Type 0
Ticks P Q e s = (t : ℕ) → ticks e ≡ some t → Tick P Q t s

module _ (P Q : VectorClock → Type 0) (weaken : (vc : VectorClock) → P vc → Q vc) (nil : P [])
    (joined : (v w : VectorClock) → IsClock 0 w → P v → P w → P (join v w)) where
  -- An event turns a state whose clocks have `P` into one whose clocks have `Q`.
  pub step-AllClocks :
      (e : Event) (s : Sync)
      → AllClocks (Full P) s
      → Starts P e
      → Ticks P Q e s
      → Ensures (AllClocks (Good Q)) (step e s)
  unfolding step
  step-AllClocks (start t parent) s h f k =
      start-AllClocks P Q weaken nil joined t parent s h f (k parent refl)
  step-AllClocks (joins t child) s h f k = join-AllClocks P Q weaken nil joined t child s h
  step-AllClocks (lock t a) s h f k = lock-AllClocks P Q weaken nil joined t a s h
  step-AllClocks (unlock t a) s h f k = unlock-AllClocks P Q weaken nil joined t a s h (k t refl)
  step-AllClocks (notify t a) s h f k = notify-AllClocks P Q weaken nil joined t a s h (k t refl)
  step-AllClocks (pre_wait t a) s h f k =
      pre_wait-AllClocks P Q weaken nil joined t a s h (k t refl)
  step-AllClocks (post_wait t a) s h f k = post_wait-AllClocks P Q weaken nil joined t a s h
  step-AllClocks (pre_barrier t a) s h f k = pre_barrier-AllClocks P Q weaken nil joined t a s h
  step-AllClocks (post_barrier t a) s h f k =
      post_barrier-AllClocks P Q weaken nil joined t a s h (k t refl)

-- ===== src/Examples/Clocks.antt =====
-- The clocks of src/core/vector_clock.cc, src/pintool/epoch.cpp and detector1.cpp, and the sets of
-- src/pintool/lockset.cpp, at small states.
use data_race_detectors.Base.{
  ◌≤◌, ℕ, inl, inr, ◌↔◌, ◌+◌, ◌^◌, ◌<◌, ◌≡◌, refl, true, false, some, [], ◌∷◌, Ensures, find, arith,
}
use data_race_detectors.Clock
use data_race_detectors.Clock.{VectorClock, IsClock, get_clock, seek, join, increment, set_clock}
use data_race_detectors.Clock.Order.{◌⊑◌, happens_iff}
use data_race_detectors.Clock.Equality.{equal_iff}
use data_race_detectors.Epoch
use data_race_detectors.Epoch.{Epoch}
use data_race_detectors.Lockset.{Lockset, Rising, is_match, is_subset_of, is_disjoint, is_exist}
use data_race_detectors.Lockset.Sizes.{Within, tests_iff}
use data_race_detectors.Sync.{Sync, process_lock, process_unlock}
use data_race_detectors.Sync.Clocks.{AllClocks}
use data_race_detectors.Sync.Keep.{Room, Full}
use data_race_detectors.Sync.Runs.{unlock, lock, step}
use data_race_detectors.Sync.Grows.{Any, Grows, step-Grows}
use data_race_detectors.Sync.Ahead.{Ahead, step-Ahead}
use data_race_detectors.Sync.Release.{release_epoch}
use data_race_detectors.Sync.Snapshot.{Roomy, Later, here, next, Fresh, epoch-happens_before}

abbrev low : VectorClock
low = (1, 2) ∷ (4, 1) ∷ []

abbrev high : VectorClock
high = (1, 2) ∷ (3, 5) ∷ (4, 6) ∷ []

low-IsClock : IsClock 0 low
low-IsClock = ground arith

high-IsClock : IsClock 0 high
high-IsClock = ground arith

happens_iff_example :
    ((Clock.happens_before low high ≡ true) ↔ (low ⊑ high))
    × ((Clock.happens_after low high ≡ true) ↔ (high ⊑ low))
happens_iff_example = happens_iff low high low-IsClock high-IsClock

equal_iff_example : (Clock.equal low high ≡ true) ↔ ((t : ℕ) → get_clock t low ≡ get_clock t high)
equal_iff_example = equal_iff low high low-IsClock high-IsClock

abbrev entry : Epoch
entry = record { tid = 4; clock = 3 }

abbrev held : Lockset
held = 16 ∷ 48 ∷ []

abbrev more : Lockset
more = 16 ∷ 32 ∷ 48 ∷ []

held-Rising : Rising 0 held
held-Rising = ground arith

more-Rising : Rising 0 more
more-Rising = ground arith

tests_iff_example :
    ((is_subset_of held more ≡ true) ↔ Within held more)
    × ((is_match held more ≡ true) ↔ (held ≡ more))
    × ((is_disjoint held more ≡ true)
        ↔ ((a : ℕ) → is_exist a held ≡ true → is_exist a more ≡ false))
tests_iff_example = tests_iff held more held-Rising more-Rising

-- Threads 1 and 2 run, and mutex 16 has not been used.
abbrev two_threads : Sync
two_threads = record {
  curr_vc_map = (1, (1, 3) ∷ []) ∷ (2, (2, 1) ∷ []) ∷ [];
  mutex_meta_table = [];
  cond_meta_table = [];
  barrier_meta_table = [];
}

-- Thread 1 has unlocked the mutex.
abbrev unlocked : Sync
unlocked = record {
  curr_vc_map = (1, (1, 4) ∷ []) ∷ (2, (2, 1) ∷ []) ∷ [];
  mutex_meta_table = (16, (1, 3) ∷ []) ∷ [];
  cond_meta_table = [];
  barrier_meta_table = [];
}

-- Thread 2 has locked it then.
abbrev locked : Sync
locked = record {
  curr_vc_map = (1, (1, 4) ∷ []) ∷ (2, (1, 3) ∷ (2, 1) ∷ []) ∷ [];
  mutex_meta_table = (16, (1, 3) ∷ []) ∷ [];
  cond_meta_table = [];
  barrier_meta_table = [];
}

Room-one : (t c : ℕ) → c + 1 < 2 ^ 64 → Room ((t, c) ∷ [])
unfolding get_clock
Room-one t c h k = ground arith

two_threads-Roomy : Roomy two_threads
two_threads-Roomy = record {
  threads = (Room-one 1 3 (omega arith), (Room-one 2 1 (omega arith), tt));
  mutexes = tt;
  conds = tt;
  barriers = tt;
}

unlocked-Roomy : Roomy unlocked
unlocked-Roomy = record {
  threads = (Room-one 1 4 (omega arith), (Room-one 2 1 (omega arith), tt));
  mutexes = (Room-one 1 3 (omega arith), tt);
  conds = tt;
  barriers = tt;
}

two_threads-Full : AllClocks (Full Any) two_threads
two_threads-Full = record {
  threads = (
    (ground arith, Room-one 1 3 (omega arith), tt),
    ((ground arith, Room-one 2 1 (omega arith), tt), tt),
  );
  mutexes = tt;
  conds = tt;
  barriers = tt;
}

two_threads-Fresh : Fresh 1 ((1, 3) ∷ []) two_threads
unfolding find get_clock
two_threads-Fresh = record {
  running = refl;
  clocks = record {
    threads = ((ground arith, inl refl), ((ground arith, inr (ground arith)), tt));
    mutexes = tt;
    conds = tt;
    barriers = tt;
  };
}

unlock_1 : step (unlock 1 16) two_threads ≡ some unlocked
unfolding step process_unlock
unlock_1 = refl

lock_2 : step (lock 2 16) unlocked ≡ some locked
unfolding step process_lock
lock_2 = refl

locked-Later : Later 1 two_threads locked
locked-Later =
    next (next here (unlock 1 16) two_threads-Roomy (λ e. cc) unlock_1) (lock 2 16) unlocked-Roomy
      (λ e. cc) lock_2

-- The access of thread 1 before its unlock is ordered before thread 2 after its lock.
ordered : Clock.happens_before ((1, 3) ∷ []) ((1, 3) ∷ (2, 1) ∷ []) ≡ true
unfolding Clock.happens_before
ordered = refl

epoch-happens_before_example :
    Epoch.happens_before (Epoch.make 1 (get_clock 1 ((1, 3) ∷ []))) ((1, 3) ∷ (2, 1) ∷ [])
    ≡ Clock.happens_before ((1, 3) ∷ []) ((1, 3) ∷ (2, 1) ∷ [])
unfolding get_clock find
epoch-happens_before_example =
    epoch-happens_before 1 2 ((1, 3) ∷ []) ((1, 3) ∷ (2, 1) ∷ []) two_threads locked (ground arith)
      two_threads-Fresh locked-Later refl

step-Grows_example : Ensures (Grows 2 two_threads) (step (unlock 1 16) two_threads)
step-Grows_example = step-Grows 2 (unlock 1 16) two_threads two_threads-Full (λ e. cc)

two_threads-Ahead : Ahead 1 3 two_threads
unfolding find get_clock
two_threads-Ahead = record {
  clocks = record {
    threads = ((ground arith, ground arith), ((ground arith, ground arith), tt));
    mutexes = tt;
    conds = tt;
    barriers = tt;
  };
  own = (1, 3) ∷ [];
  running = refl;
  reached = refl;
}

release_epoch_example :
    Epoch.happens_before (Epoch.make 1 (get_clock 1 ((1, 4) ∷ []))) ((1, 3) ∷ (2, 1) ∷ [])
    ≡ Clock.happens_before ((1, 4) ∷ []) ((1, 3) ∷ (2, 1) ∷ [])
unfolding find step
release_epoch_example =
    release_epoch 1 2 3 16 ((1, 4) ∷ []) ((1, 3) ∷ (2, 1) ∷ []) two_threads two_threads unlocked
      locked (omega arith) two_threads-Ahead here two_threads-Roomy unlock_1 refl
      (next here (lock 2 16) unlocked-Roomy (λ e. cc) lock_2) refl

step-Ahead_example :
    Ensures (λ s'. (m : ℕ) × (3 ≤ m) × Ahead 1 m s') (step (unlock 1 16) two_threads)
step-Ahead_example =
    step-Ahead 1 3 (unlock 1 16) two_threads two_threads-Roomy (λ e. cc) (omega arith)
      two_threads-Ahead

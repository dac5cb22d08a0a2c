-- ===== src/Detectors.antt =====
-- The detectors of src/pintool/djit.cpp, fasttrack.cpp, eraser.cpp, acculock.cpp, multilock.cpp
-- and histlock.cpp as the virtual functions that they override in the abstract detector of
-- detector1.h: `GetMeta`, `ProcessLock`, `ProcessUnlock`, `ProcessRead`, `ProcessWrite`,
-- `ProcessFree` and, in MultiLock, `AfterPthreadJoin`. FastTrack and Eraser derive from that class,
-- `Detector1`. The classes of djit.h, acculock.h, multilock.h and histlock.h derive from a class
-- `Detector`, which detector1.h, the header that they include, does not declare; it is taken to be
-- `Detector1` here. A current clock that is missing is a failure.
use data_race_detectors.Base.{ℕ, Option, some, [], Map, find, insert}
use data_race_detectors.Clock.{VectorClock, increment}
use data_race_detectors.Lockset.{Lockset}
use data_race_detectors.Sync.{
  Sync, ◌>>=◌, after_pthread_join, process_lock, process_unlock, get_mutex_meta, set_clock_of,
  or_new,
}
use data_race_detectors.Shadow.{Work}
use data_race_detectors.Djit
use data_race_detectors.FastTrack
use data_race_detectors.Eraser
use data_race_detectors.AccuLock
use data_race_detectors.MultiLock
use data_race_detectors.HistLock
use data_race_detectors.Detector.State.{Hooks}

-- `Detector1::ProcessLock` and `ProcessUnlock`, on the clocks alone.
abbrev clock_hook :
    (ℕ → ℕ → Sync → Option Sync) → ℕ → ℕ → Sync → Unit {0} → Option (Sync × Unit {0})
clock_hook f t addr s x = do u ← f t addr s; some (u, x)

-- `lockset_map_[t]`
unfoldable pub lockset_of : ℕ → Map Lockset → Lockset
unfolding find
lockset_of t m = or_new [] (find t m)

-- `GetMutexMeta` makes the entry of the mutex.
abbrev pub touch_mutex : ℕ → Sync → Sync
touch_mutex addr s = record s {
  mutex_meta_table = insert addr (get_mutex_meta addr s) s.mutex_meta_table;
}

-- `Add` or `Remove` on `lockset_map_[t]`.
abbrev pub lock_hook :
    (ℕ → Lockset → Lockset) → ℕ → ℕ → Sync → Map Lockset → Option (Sync × Map Lockset)
lock_hook f t addr s m = some (touch_mutex addr s, insert t (f addr (lockset_of t m)) m)

-- AccuLock's `ProcessUnlock` also increments the clock of the thread.
abbrev pub tick_hook : ℕ → ℕ → Sync → Map Lockset → Option (Sync × Map Lockset)
tick_hook t addr s m = do
  vc ← find t s.curr_vc_map
  some (
    set_clock_of t (increment t vc) (touch_mutex addr s),
    insert t (AccuLock.process_unlock addr (lockset_of t m)) m,
  )

abbrev pub with_clock :
    {M : Type 0} → ℕ → Sync → (VectorClock → Work M → Work M) → Work M → Option (Work M)
with_clock t s f w = do vc ← find t s.curr_vc_map; some (f vc w)

abbrev pub djit : Hooks Djit.DjitMeta (Unit {0})
djit = record {
  create_meta = Djit.new_djit_meta;
  on_read = λ track s x t inst. with_clock t s (λ vc. Djit.process_read track vc t inst);
  on_write = λ track s x t inst. with_clock t s (λ vc. Djit.process_write track vc t inst);
  on_free = Djit.process_free;
  on_lock = clock_hook process_lock;
  on_unlock = clock_hook process_unlock;
  on_join = after_pthread_join;
}

abbrev pub fast_track : Hooks FastTrack.FastTrackMeta (Unit {0})
fast_track = record {
  create_meta = FastTrack.new_fast_track_meta;
  on_read = λ track s x t inst. with_clock t s (λ vc. FastTrack.process_read track vc t inst);
  on_write = λ track s x t inst. with_clock t s (λ vc. FastTrack.process_write track vc t inst);
  on_free = FastTrack.process_free;
  on_lock = clock_hook process_lock;
  on_unlock = clock_hook process_unlock;
  on_join = after_pthread_join;
}

abbrev pub eraser : Hooks Eraser.EraserMeta (Map Lockset)
eraser = record {
  create_meta = Eraser.new_eraser_meta;
  on_read = λ track s x t inst w. some (Eraser.process_read track (lockset_of t x) t inst w);
  on_write = λ track s x t inst w. some (Eraser.process_write track (lockset_of t x) t inst w);
  on_free = Eraser.process_free;
  on_lock = lock_hook Eraser.process_lock;
  on_unlock = lock_hook Eraser.process_unlock;
  on_join = after_pthread_join;
}

abbrev pub accu_lock : Hooks AccuLock.AccuLockMeta (Map Lockset)
accu_lock = record {
  create_meta = AccuLock.new_accu_lock_meta;
  on_read = λ track s x t inst.
      with_clock t s (λ vc. AccuLock.process_read track vc (lockset_of t x) t inst);
  on_write = λ track s x t inst.
      with_clock t s (λ vc. AccuLock.process_write track vc (lockset_of t x) t inst);
  on_free = AccuLock.process_free;
  on_lock = lock_hook AccuLock.process_lock;
  on_unlock = tick_hook;
  on_join = after_pthread_join;
}

-- MultiLock overrides `AfterPthreadJoin` too.
abbrev pub multi_lock : Hooks MultiLock.MultiLockMeta (Map Lockset)
multi_lock = record {
  create_meta = MultiLock.new_multi_lock_meta;
  on_read = λ track s x t inst.
      with_clock t s (λ vc. MultiLock.process_read track vc (lockset_of t x) t inst);
  on_write = λ track s x t inst.
      with_clock t s (λ vc. MultiLock.process_write track vc (lockset_of t x) t inst);
  on_free = MultiLock.process_free;
  on_lock = lock_hook MultiLock.process_lock;
  on_unlock = lock_hook MultiLock.process_unlock;
  on_join = MultiLock.join_and_tick;
}

-- What HistLock keeps for all threads: `lockset_map_` and `callsite_map_`.
pub record HistLockThreads : Type 0 where
  pub lockset_map : Map Lockset
  pub callsite_map : Map ℕ

-- `BeforeCall`, which is a handler of HistLock alone.
unfoldable pub note_call : ℕ → ℕ → HistLockThreads → HistLockThreads
note_call t target x = record x { callsite_map = HistLock.before_call t target x.callsite_map }

abbrev hist_unlock : ℕ → ℕ → Sync → HistLockThreads → Option (Sync × HistLockThreads)
hist_unlock t addr s x = do
  vc ← find t s.curr_vc_map
  some (
    set_clock_of t (increment t vc) (touch_mutex addr s),
    record x {
      lockset_map =
          insert t (HistLock.process_unlock addr (lockset_of t x.lockset_map)) x.lockset_map;
    },
  )

abbrev hist_access :
    (VectorClock
      → Lockset
      → ℕ
      → ℕ
      → ℕ
      → Work HistLock.HistLockMeta
      → Option (Work HistLock.HistLockMeta))
    → Sync
    → HistLockThreads
    → ℕ
    → ℕ
    → Work HistLock.HistLockMeta
    → Option (Work HistLock.HistLockMeta)
hist_access f s x t inst w = find t s.curr_vc_map >>= λ vc.
    f vc (lockset_of t x.lockset_map) (or_new 0 (find t x.callsite_map)) t inst w

abbrev pub hist_lock : Hooks HistLock.HistLockMeta HistLockThreads
hist_lock = record {
  create_meta = HistLock.new_hist_lock_meta;
  on_read = λ track. hist_access (HistLock.process_read track);
  on_write = λ track. hist_access (HistLock.process_write track);
  on_free = HistLock.process_free;
  on_lock = λ t addr s x. some (
    touch_mutex addr s,
    record x {
      lockset_map =
          insert t (HistLock.process_lock addr (lockset_of t x.lockset_map)) x.lockset_map;
    },
  );
  on_unlock = hist_unlock;
  on_join = after_pthread_join;
}

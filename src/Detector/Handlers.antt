-- ===== src/Detector/Handlers.antt =====
-- The handlers of src/pintool/detector1.cpp for threads, atomic instructions and the pthread functions.
use data_race_detectors.Base.{ℕ, ◌+◌, true, false, Option, some, insert}
use data_race_detectors.Sync.{
  ◌>>=◌, Sync, thread_start, process_notify, process_pre_wait, process_post_wait,
}
use data_race_detectors.Sync.Barriers.{process_pre_barrier, process_post_barrier}
use data_race_detectors.Detector.State.{Hooks, Detector, count}

module _ {M X : Type 0} where
  unfoldable pub on_thread_start : ℕ → ℕ → Detector M X → Option (Detector M X)
  on_thread_start t parent d = do
    s ← thread_start t parent d.sync
    let c = d.counters
    some (record d {
      sync = s;
      atomic_map = insert t false d.atomic_map;
      counters = record c { thread_start_c = c.thread_start_c + 1 };
    })

  unfoldable pub on_pthread_join : Hooks M X → ℕ → ℕ → Detector M X → Option (Detector M X)
  on_pthread_join h t child d = do
    s ← h.on_join t child d.sync
    let c = d.counters
    some (record d { sync = s; counters = record c { thread_join_c = c.thread_join_c + 1 } })

  unfoldable pub before_atomic_inst : ℕ → Detector M X → Detector M X
  before_atomic_inst t d =
      let c = d.counters in
      record d {
        atomic_map = insert t true d.atomic_map;
        counters = record c { atom_c = c.atom_c + 1 };
      }

  unfoldable pub after_atomic_inst : ℕ → Detector M X → Detector M X
  after_atomic_inst t d = record d { atomic_map = insert t false d.atomic_map }

  unfoldable pub lock_with :
      (ℕ → ℕ → Sync → X → Option (Sync × X)) → ℕ → ℕ → Detector M X → Option (Detector M X)
  lock_with f t addr d = do r ← f t addr d.sync d.extra; some (record d { sync = r.0; extra = r.1 })

  unfoldable pub after_pthread_mutex_lock : Hooks M X → ℕ → ℕ → Detector M X → Option (Detector M X)
  after_pthread_mutex_lock h t addr d = do
    e ← lock_with h.on_lock t addr d
    some (count (λ c. record c { lock_c = c.lock_c + 1 }) e)

  unfoldable pub before_pthread_mutex_unlock :
      Hooks M X → ℕ → ℕ → Detector M X → Option (Detector M X)
  before_pthread_mutex_unlock h t addr d = do
    e ← lock_with h.on_unlock t addr d
    some (count (λ c. record c { unlock_c = c.unlock_c + 1 }) e)

  abbrev on_sync : (Sync → Option Sync) → Detector M X → Option (Detector M X)
  on_sync f d = f d.sync >>= λ s. some (record d { sync = s })

  unfoldable pub before_pthread_cond_signal : ℕ → ℕ → Detector M X → Option (Detector M X)
  before_pthread_cond_signal t addr d = do
    e ← on_sync (process_notify t addr) d
    some (count (λ c. record c { signal_c = c.signal_c + 1 }) e)

  unfoldable pub before_pthread_cond_broadcast : ℕ → ℕ → Detector M X → Option (Detector M X)
  before_pthread_cond_broadcast t addr d = do
    e ← on_sync (process_notify t addr) d
    some (count (λ c. record c { broadcast_c = c.broadcast_c + 1 }) e)

  -- The mutex is released, then the wait begins.
  unfoldable pub before_pthread_cond_wait :
      Hooks M X → ℕ → ℕ → ℕ → Detector M X → Option (Detector M X)
  before_pthread_cond_wait h t cond_addr mutex_addr d = do
    e ← lock_with h.on_unlock t mutex_addr d
    f ← on_sync (process_pre_wait t cond_addr) e
    some (count (λ c. record c { wait_b_c = c.wait_b_c + 1 }) f)

  unfoldable pub after_pthread_cond_wait :
      Hooks M X → ℕ → ℕ → ℕ → Detector M X → Option (Detector M X)
  after_pthread_cond_wait h t cond_addr mutex_addr d = do
    e ← on_sync (process_post_wait t cond_addr) d
    f ← lock_with h.on_lock t mutex_addr e
    some (count (λ c. record c { wait_a_c = c.wait_a_c + 1 }) f)

  unfoldable pub before_pthread_cond_timedwait :
      Hooks M X → ℕ → ℕ → ℕ → Detector M X → Option (Detector M X)
  before_pthread_cond_timedwait h t cond_addr mutex_addr d = do
    e ← lock_with h.on_unlock t mutex_addr d
    f ← on_sync (process_pre_wait t cond_addr) e
    some (count (λ c. record c { timew_b_c = c.timew_b_c + 1 }) f)

  unfoldable pub after_pthread_cond_timedwait :
      Hooks M X → ℕ → ℕ → ℕ → Detector M X → Option (Detector M X)
  after_pthread_cond_timedwait h t cond_addr mutex_addr d = do
    e ← on_sync (process_post_wait t cond_addr) d
    f ← lock_with h.on_lock t mutex_addr e
    some (count (λ c. record c { timew_a_c = c.timew_a_c + 1 }) f)

  unfoldable pub before_pthread_barrier_wait : ℕ → ℕ → Detector M X → Option (Detector M X)
  before_pthread_barrier_wait t addr d = do
    e ← on_sync (process_pre_barrier t addr) d
    some (count (λ c. record c { barrier_b_c = c.barrier_b_c + 1 }) e)

  unfoldable pub after_pthread_barrier_wait : ℕ → ℕ → Detector M X → Option (Detector M X)
  after_pthread_barrier_wait t addr d = do
    e ← on_sync (process_post_barrier t addr) d
    some (count (λ c. record c { barrier_a_c = c.barrier_a_c + 1 }) e)

-- ===== src/Sync/Release.antt =====
-- The epochs of the accesses that a thread makes after an unlock, in src/pintool/detector1.cpp.
use data_race_detectors.Base.{
  ℕ, ◌+◌, ◌≤◌, ◌≡◌, refl, subst, inl, inr, ◌≢◌, some, Ensures, find, find-insert, arith,
}
use data_race_detectors.Clock
use data_race_detectors.Clock.{VectorClock, IsClock, get_clock, increment}
use data_race_detectors.Clock.Laws.{get_clock-increment, IsClock-increment}
use data_race_detectors.Epoch
use data_race_detectors.Sync.{◌>>=◌, Sync, invalid_thd_id, process_unlock}
use data_race_detectors.Sync.Clocks.{Entries-insert, AllClocks-map, thread_clock}
use data_race_detectors.Sync.Keep.{Room, Good}
use data_race_detectors.Sync.Snapshot.{
  Roomy, Later, here, next, IsFresh, Fresh, epoch-happens_before,
}
use data_race_detectors.Sync.Ahead.{Ahead, Below, step-Ahead}

Later-Ahead :
    (t n : ℕ) {s s' : Sync}
    → t ≢ invalid_thd_id
    → Ahead t n s
    → Later t s s'
    → (m : ℕ) × (n ≤ m) × Ahead t m s'
Later-Ahead t n valid h here = (n, omega arith, h)
Later-Ahead t n valid h (next {u} l e r ne k) =
    let (m, le, g) = Later-Ahead t n valid h l in
    let (m', le', g') =
      subst (Ensures (λ s'. (m' : ℕ) × (m ≤ m') × Ahead t m' s')) k
        (step-Ahead t m e u r ne valid g) in
    (m', omega arith, g')

-- An unlock leaves the thread with a clock that no other thread has reached.
unlock-Fresh :
    (t n a : ℕ) (s : Sync)
    → Roomy s
    → Ahead t n s
    → Ensures (λ s'. (V : VectorClock) × (1 ≤ get_clock t V) × Fresh t V s') (process_unlock t a s)
unfolding process_unlock
unlock-Fresh t n a s r h =
    let own = h.own in
    let V = increment t own in
    let room = thread_clock Room t s r h.running in
    let good = thread_clock (Good (Below t n)) t s h.clocks h.running in
    let up : get_clock t V ≡ n + 1 =
      ground (arith, room t, h.reached, get_clock-increment t t own) in
    let old =
      AllClocks-map (Good (Below t n)) (IsFresh t V) (λ vc g. (g.0, inr (omega arith))) s
        h.clocks in
    let mine : IsFresh t V own = (good.0, inr (omega arith)) in
    let new : IsFresh t V V = (IsClock-increment t own (room t) good.0, inl refl) in
    rw (h.running, ◌>>=◌)
      (
        V,
        omega arith,
        record {
          running = ground (arith, find-insert t t V s.curr_vc_map);
          clocks = record {
            threads = Entries-insert (λ _. IsFresh t V) t V s.curr_vc_map new old.threads;
            mutexes = Entries-insert (λ _. IsFresh t V) a own s.mutex_meta_table mine old.mutexes;
            conds = old.conds;
            barriers = old.barriers;
          };
        },
      )

-- Start in a state where no stored clock is ahead of thread `t` in the timestamps of `t`. After any
-- events and an unlock by `t`, let `V` be its clock. Then after any further events, and for the clock
-- of any thread, `Epoch::HappensBefore` on the epoch of `V` gives the answer of
-- `VectorClock::HappensBefore` on `V`. In the events the id of `t`, which is a valid one, is not
-- started again, and no timestamp is about to wrap before one of them or the unlock.
pub release_epoch :
    (t u n a : ℕ) (V vc : VectorClock) (s before after s' : Sync)
    → t ≢ invalid_thd_id
    → Ahead t n s
    → Later t s before
    → Roomy before
    → process_unlock t a before ≡ some after
    → find t after.curr_vc_map ≡ some V
    → Later t after s'
    → find u s'.curr_vc_map ≡ some vc
    → Epoch.happens_before (Epoch.make t (get_clock t V)) vc ≡ Clock.happens_before V vc
release_epoch t u n a V vc s before after s' valid h l r k at l' e =
    let (m, le, g) = Later-Ahead t n valid h l in
    let (W, pos, fresh) =
      subst (Ensures (λ s'. (V : VectorClock) × (1 ≤ get_clock t V) × Fresh t V s')) k
        (unlock-Fresh t m a before r g) in
    let same : W ≡ V = ground (arith, at, fresh.running) in
    subst (λ w. Epoch.happens_before (Epoch.make t (get_clock t w)) vc ≡ Clock.happens_before w vc)
      same (epoch-happens_before t u W vc after s' pos fresh l' e)

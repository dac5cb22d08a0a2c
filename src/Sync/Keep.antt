-- ===== src/Sync/Keep.antt =====
-- A property of clocks that the empty clock has and that `Join` keeps goes through every function
-- of src/pintool/detector1.cpp that passes clocks on, if it survives the thread's own tick.
use data_race_detectors.Base.{
  ℕ, ◌+◌, ◌<◌, ◌^◌, ◌≡◌, inl, inr, Bool, true, false, some, [], ◌∷◌, ◌==◌, if_elim, Ensures, Map,
  find, insert, Option-cases, arith,
}
use data_race_detectors.Clock.{VectorClock, IsClock, get_clock, increment, join}
use data_race_detectors.Clock.Laws.{get_clock-nil, get_clock-join, IsClock-join, IsClock-increment}
use data_race_detectors.Clock.Order.{◌⊑◌}
use data_race_detectors.Sync.{
  ◌>>=◌, Sync, BarrierMeta, invalid_thd_id, first_clock, get_cond_meta, thread_start,
  after_pthread_join, process_lock, process_unlock, join_all, signal_all, process_notify,
}
use data_race_detectors.Sync.Barriers.{WaitTable, post_table, put_table, Sweep, flag, settle}
use data_race_detectors.Sync.Clocks.{
  Entries, Entries-insert, AllClocks, set_thread, set_mutex, set_cond, BarrierClocks, mutex_clock,
  cond_clocks, thread_clock, AllClocks-map,
}

-- No timestamp of the clock wraps at its next tick.
abbrev pub Room : VectorClock → Type 0
Room vc = (k : ℕ) → get_clock k vc + 1 < 2 ^ 64

module _ (P : VectorClock → Type 0) where
  abbrev pub Good : VectorClock → Type 0
  Good vc = IsClock 0 vc × P vc

  abbrev pub Full : VectorClock → Type 0
  Full vc = IsClock 0 vc × Room vc × P vc

  -- What the tick of thread `t` has to bring about.
  abbrev pub Tick : (VectorClock → Type 0) → ℕ → Sync → Type 0
  Tick Q t s =
      (vc own : VectorClock)
      → find t s.curr_vc_map ≡ some own
      → own ⊑ vc
      → Full vc
      → Q (increment t vc)

module _ (P : VectorClock → Type 0) where
  pub post_table-Entries :
      (m : BarrierMeta) → BarrierClocks P m → Entries (λ _ e. P e.0) (post_table m)
  post_table-Entries m h =
      if_elim (Entries (λ _ e. P e.0)) m.post_using_table1 (λ _. h.0) (λ _. h.1)

  pub flag-Entries :
      (t : ℕ) (m : WaitTable) → Entries (λ _ e. P e.0) m → Entries (λ _ e. P e.0) (flag t m)
  unfolding flag
  flag-Entries t [] h = tt
  flag-Entries t ((u, e) ∷ m) h = (h.0, flag-Entries t m h.1)

  pub put_table-BarrierClocks :
      (b : Bool) (w : WaitTable) (m : BarrierMeta)
      → Entries (λ _ e. P e.0) w
      → BarrierClocks P m
      → BarrierClocks P (put_table b w m)
  put_table-BarrierClocks true w m h g = (h, g.1)
  put_table-BarrierClocks false w m h g = (g.0, h)

  pub settle-BarrierClocks :
      (t : ℕ) (w : Sweep) (m : BarrierMeta) → BarrierClocks P m → BarrierClocks P (settle t w m)
  unfolding settle
  settle-BarrierClocks t w m h =
      put_table-BarrierClocks m.post_using_table1 _ m
        (if_elim (Entries (λ _ e. P e.0)) w.all_flagged (λ _. tt)
          (λ _. flag-Entries t _ (post_table-Entries m h)))
        h

module _ (P Q : VectorClock → Type 0) (weaken : (vc : VectorClock) → P vc → Q vc) (nil : P [])
    (joins : (v w : VectorClock) → IsClock 0 w → P v → P w → P (join v w)) where
  pub Full-join : (v w : VectorClock) → Full P v → Full P w → Full P (join v w)
  Full-join v w f g = (
    IsClock-join 0 v w f.0 g.0,
    λ k. ground (arith, get_clock-join k 0 v w g.0, f.1 k, g.1 k),
    joins v w g.0 f.2 g.2,
  )

  pub weak : (s : Sync) → AllClocks (Full P) s → AllClocks (Good Q) s
  weak = AllClocks-map (Full P) (Good Q) (λ vc f. (f.0, weaken vc f.2))

  pub Full-nil : Full P []
  Full-nil = (tt, (λ k. omega (arith, get_clock-nil k)), nil)

  pub ticked :
      (t : ℕ) (s : Sync)
      → Tick P Q t s
      → (vc own : VectorClock) → find t s.curr_vc_map ≡ some own
      → own ⊑ vc
      → Full P vc
      → Good Q (increment t vc)
  ticked t s tick vc own e le f = (IsClock-increment t vc (f.1 t) f.0, tick vc own e le f)

  pub good : {vc : VectorClock} → Full P vc → Good Q vc
  good {vc} f = (f.0, weaken vc f.2)

  pub le-join : (v w : VectorClock) → IsClock 0 w → v ⊑ join v w
  le-join v w c k = ground (arith, get_clock-join k 0 v w c)

  pub unlock-AllClocks :
      (t a : ℕ) (s : Sync)
      → AllClocks (Full P) s
      → Tick P Q t s
      → Ensures (AllClocks (Good Q)) (process_unlock t a s)
  unfolding process_unlock
  unlock-AllClocks t a s h tick = elim (Option-cases (find t s.curr_vc_map)) [
    | inl e ↦ rw (e, process_unlock) tt
    | inr (vc, e) ↦
        let f = thread_clock (Full P) t s h e in
        rw (e, process_unlock)
          (set_thread (Good Q) t _ _ (ticked t s tick vc vc e (λ k. omega arith) f)
            (set_mutex (Good Q) a vc s (good f) (weak s h)))
  ]

  pub lock-AllClocks :
      (t a : ℕ) (s : Sync)
      → AllClocks (Full P) s
      → Ensures (AllClocks (Good Q)) (process_lock t a s)
  unfolding process_lock
  lock-AllClocks t a s h = elim (Option-cases (find t s.curr_vc_map)) [
    | inl e ↦ rw (e, process_lock) tt
    | inr (vc, e) ↦
        let m = mutex_clock (Full P) a s Full-nil h in
        rw (e, process_lock)
          (set_thread (Good Q) t _ _ (good (Full-join vc _ (thread_clock (Full P) t s h e) m))
            (set_mutex (Good Q) a _ s (good m) (weak s h)))
  ]

  pub join-AllClocks :
      (t child : ℕ) (s : Sync)
      → AllClocks (Full P) s
      → Ensures (AllClocks (Good Q)) (after_pthread_join t child s)
  unfolding after_pthread_join
  join-AllClocks t child s h = elim (Option-cases (find t s.curr_vc_map)) [
    | inl e ↦ rw (e, after_pthread_join) tt
    | inr (vc, e) ↦ elim (Option-cases (find child s.curr_vc_map)) [
      | inl d ↦ rw (e, d, after_pthread_join) tt
      | inr (w, d) ↦
          rw (e, d, after_pthread_join)
            (set_thread (Good Q) t _ s
              (good (
                Full-join vc w (thread_clock (Full P) t s h e) (thread_clock (Full P) child s h d)))
              (weak s h))
    ]
  ]

  -- A thread id that starts with the empty clock and ticks once.
  pub start-AllClocks :
      (t parent : ℕ) (s : Sync)
      → AllClocks (Full P) s
      → Good P (first_clock t)
      → Tick P Q parent s
      → Ensures (AllClocks (Good Q)) (thread_start t parent s)
  unfolding thread_start
  start-AllClocks t parent s h first tick =
      if_elim (Ensures (AllClocks (Good Q))) (parent == invalid_thd_id)
        (λ _. set_thread (Good Q) t _ s (first.0, weaken _ first.1) (weak s h))
        (λ _. elim (Option-cases (find parent s.curr_vc_map)) [
          | inl e ↦ rw (e, ◌>>=◌) tt
          | inr (vc, e) ↦
              let f = thread_clock (Full P) parent s h e in
              rw (e, ◌>>=◌)
                (set_thread (Good Q) t _ _
                  (
                    IsClock-join 0 (first_clock t) vc first.0 f.0,
                    weaken _ (joins _ vc f.0 first.1 f.2),
                  )
                  (set_thread (Good Q) parent _ s
                    (ticked parent s tick vc vc e (λ k. omega arith) f) (weak s h)))
        ])

  pub join_all-Full :
      (vc : VectorClock) (m : Map VectorClock)
      → Full P vc
      → Entries (λ _. Full P) m
      → Full P (join_all vc m) × (vc ⊑ join_all vc m)
  unfolding join_all
  join_all-Full vc [] f h = (f, λ k. omega arith)
  join_all-Full vc ((u, w) ∷ m) f h =
      let ih = join_all-Full (join vc w) m (Full-join vc w f h.0) h.1 in
      (ih.0, λ k. omega (arith, le-join vc w h.0.0 k, ih.1 k))

  signal_all-Entries :
      (vc : VectorClock) (signals m : Map VectorClock)
      → Good Q vc
      → Entries (λ _. Good Q) signals
      → Entries (λ _. Good Q) (signal_all vc signals m)
  unfolding signal_all
  signal_all-Entries vc signals [] g h = h
  signal_all-Entries vc signals ((u, w) ∷ m) g h =
      signal_all-Entries vc (insert u vc signals) m g
        (Entries-insert (λ _. Good Q) u vc signals g h)

  pub notify-AllClocks :
      (t a : ℕ) (s : Sync)
      → AllClocks (Full P) s
      → Tick P Q t s
      → Ensures (AllClocks (Good Q)) (process_notify t a s)
  unfolding process_notify
  notify-AllClocks t a s h tick = elim (Option-cases (find t s.curr_vc_map)) [
    | inl e ↦ rw (e, process_notify) tt
    | inr (vc, e) ↦
        let c = cond_clocks (Full P) a s h in
        let g = cond_clocks (Good Q) a s (weak s h) in
        let j = join_all-Full vc _ (thread_clock (Full P) t s h e) c.0 in
        rw (e, process_notify)
          (set_thread (Good Q) t _ _ (ticked t s tick _ vc e j.1 j.0) (
            set_cond (Good Q) a _ s
              (g.0, signal_all-Entries _ _ (get_cond_meta a s).wait_table (good j.0) g.1)
              (weak s h)))
  ]

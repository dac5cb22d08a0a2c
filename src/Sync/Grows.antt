-- ===== src/Sync/Grows.antt =====
-- No synchronisation event of src/pintool/detector1.cpp takes a thread back in time.
use native.Mathlib.Decide.{ℕ_discrete}
use data_race_detectors.Base.{
  ℕ, ◌≡◌, ap, inl, inr, ◌≢◌, true, some, ◌==◌, if_elim, Ensures, Map, find, insert, find-insert,
  Option-cases, arith,
}
use data_race_detectors.Clock.{VectorClock, IsClock, increment, join}
use data_race_detectors.Clock.Laws.{le-increment}
use data_race_detectors.Clock.Order.{◌⊑◌}
use data_race_detectors.Sync.{
  ◌>>=◌, Sync, invalid_thd_id, first_clock, get_cond_meta, get_barrier_meta, thread_start,
  after_pthread_join, process_lock, process_unlock, process_notify, process_pre_wait,
  process_post_wait,
}
use data_race_detectors.Sync.Barriers.{Sweep, post_table, process_pre_barrier, process_post_barrier}
use data_race_detectors.Sync.Clocks.{
  AllClocks, mutex_clock, cond_clocks, barrier_clocks, thread_clock,
}
use data_race_detectors.Sync.Keep.{Room, Full, Full-nil, le-join, join_all-Full, post_table-Entries}
use data_race_detectors.Sync.Waits.{sweep-Full, signal_clock}
use data_race_detectors.Sync.Runs.{
  Event, start, joins, lock, unlock, notify, pre_wait, post_wait, pre_barrier, post_barrier, step,
  starts,
}

-- Thread `t` keeps its clock, with timestamps that are no lower.
abbrev pub Grows : ℕ → Sync → Sync → Type 0
Grows t s s' =
    (vc : VectorClock)
    → find t s.curr_vc_map ≡ some vc
    → (vc' : VectorClock) × (find t s'.curr_vc_map ≡ some vc') × (vc ⊑ vc')

abbrev pub Any : VectorClock → Type 0
Any vc = Unit

pub Any-same : (vc : VectorClock) → Any vc → Any vc
Any-same vc h = h

pub Any-join : (v w : VectorClock) → IsClock 0 w → Any v → Any w → Any (join v w)
Any-join v w c p q = tt

tick-le : (t : ℕ) (vc : VectorClock) → Room vc → vc ⊑ increment t vc
tick-le t vc r k = le-increment k t vc (r t)

-- The clock `w` of thread `u` is replaced by one that is no lower.
insert-Grows :
    (t u : ℕ) (w w' : VectorClock) (m : Map VectorClock)
    → find u m ≡ some w
    → w ⊑ w'
    → (vc : VectorClock) → find t m ≡ some vc
    → (vc' : VectorClock) × (find t (insert u w' m) ≡ some vc') × (vc ⊑ vc')
insert-Grows t u w w' m e le vc h = elim (ℕ_discrete u t) [
  | yes p ↦ (w', ground (arith, find-insert t u w' m), λ k. ground (arith, le k))
  | no p ↦ (vc, ground (arith, find-insert t u w' m), λ k. omega arith)
]

insert-Grows_other :
    (t u : ℕ) (w : VectorClock) (m : Map VectorClock)
    → u ≢ t
    → (vc : VectorClock) → find t m ≡ some vc
    → (vc' : VectorClock) × (find t (insert u w m) ≡ some vc') × (vc ⊑ vc')
insert-Grows_other t u w m p vc h = (vc, ground (arith, find-insert t u w m), λ k. omega arith)

module _ (t u a : ℕ) (s : Sync) (h : AllClocks (Full Any) s) where
  start-Grows : u ≢ t → Ensures (Grows t s) (thread_start u a s)
  unfolding thread_start
  start-Grows ne =
      if_elim (Ensures (Grows t s)) (a == invalid_thd_id)
        (λ _. insert-Grows_other t u (first_clock u) s.curr_vc_map ne)
        (λ _. elim (Option-cases (find a s.curr_vc_map)) [
          | inl e ↦ rw (e, ◌>>=◌) tt
          | inr (w, e) ↦
              let f = thread_clock (Full Any) a s h e in
              rw (e, ◌>>=◌)
                (λ vc d.
                  let (vc', d', le) =
                    insert-Grows t a w (increment a w) s.curr_vc_map e (tick-le a w f.1) vc d in
                  let (vc'', d'', le') =
                    insert-Grows_other t u (join (first_clock u) w) _ ne vc' d' in
                  (vc'', d'', λ k. omega (arith, le k, le' k)))
        ])

  join-Grows : Ensures (Grows t s) (after_pthread_join u a s)
  unfolding after_pthread_join
  join-Grows = elim (Option-cases (find u s.curr_vc_map)) [
    | inl e ↦ rw (e, after_pthread_join) tt
    | inr (w, e) ↦ elim (Option-cases (find a s.curr_vc_map)) [
      | inl d ↦ rw (e, d, after_pthread_join) tt
      | inr (v, d) ↦
          rw (e, d, after_pthread_join)
            (insert-Grows t u w _ s.curr_vc_map e
              (le-join Any Any Any-same tt Any-join w v (thread_clock (Full Any) a s h d).0))
    ]
  ]

  lock-Grows : Ensures (Grows t s) (process_lock u a s)
  unfolding process_lock
  lock-Grows = elim (Option-cases (find u s.curr_vc_map)) [
    | inl e ↦ rw (e, process_lock) tt
    | inr (w, e) ↦
        let m = mutex_clock (Full Any) a s (Full-nil Any Any Any-same tt Any-join) h in
        rw (e, process_lock)
          (insert-Grows t u w _ s.curr_vc_map e (le-join Any Any Any-same tt Any-join w _ m.0))
  ]

  unlock-Grows : Ensures (Grows t s) (process_unlock u a s)
  unfolding process_unlock
  unlock-Grows = elim (Option-cases (find u s.curr_vc_map)) [
    | inl e ↦ rw (e, process_unlock) tt
    | inr (w, e) ↦
        let f = thread_clock (Full Any) u s h e in
        rw (e, process_unlock) (insert-Grows t u w _ s.curr_vc_map e (tick-le u w f.1))
  ]

  notify-Grows : Ensures (Grows t s) (process_notify u a s)
  unfolding process_notify
  notify-Grows = elim (Option-cases (find u s.curr_vc_map)) [
    | inl e ↦ rw (e, process_notify) tt
    | inr (w, e) ↦
        let f = thread_clock (Full Any) u s h e in
        let j = join_all-Full Any Any Any-same tt Any-join w _ f (cond_clocks (Full Any) a s h).0 in
        rw (e, process_notify)
          (insert-Grows t u w _ s.curr_vc_map e (λ k. omega (arith, j.1 k, tick-le u _ j.0.1 k)))
  ]

  pre_wait-Grows : Ensures (Grows t s) (process_pre_wait u a s)
  unfolding process_pre_wait
  pre_wait-Grows = elim (Option-cases (find u s.curr_vc_map)) [
    | inl e ↦ rw (e, process_pre_wait) tt
    | inr (w, e) ↦
        let f = thread_clock (Full Any) u s h e in
        rw (e, process_pre_wait) (insert-Grows t u w _ s.curr_vc_map e (tick-le u w f.1))
  ]

  post_wait-Grows : Ensures (Grows t s) (process_post_wait u a s)
  unfolding process_post_wait
  post_wait-Grows = elim (Option-cases (find u s.curr_vc_map)) [
    | inl e ↦ rw (e, ◌>>=◌) tt
    | inr (w, e) ↦ elim (Option-cases (find u (get_cond_meta a s).wait_table)) [
      | inl d ↦ rw (e, d, ◌>>=◌) tt
      | inr (_, d) ↦
          rw (e, d, ◌>>=◌)
            (elim (Option-cases (find u (get_cond_meta a s).signal_table)) [
              | inl n ↦ rw n (λ vc d. (vc, d, λ k. omega arith))
              | inr (signal, n) ↦
                  let g = signal_clock Any Any Any-same tt Any-join u a s h n in
                  rw n (
                    insert-Grows t u w _ s.curr_vc_map e
                      (le-join Any Any Any-same tt Any-join w signal g.0))
            ])
    ]
  ]

  pre_barrier-Grows : Ensures (Grows t s) (process_pre_barrier u a s)
  unfolding process_pre_barrier
  pre_barrier-Grows = elim (Option-cases (find u s.curr_vc_map)) [
    | inl e ↦ rw (e, process_pre_barrier) tt
    | inr (w, e) ↦ rw (e, process_pre_barrier) (λ vc d. (vc, d, λ k. omega arith))
  ]

  post_barrier-Grows : Ensures (Grows t s) (process_post_barrier u a s)
  unfolding process_post_barrier
  post_barrier-Grows = elim (Option-cases (find u s.curr_vc_map)) [
    | inl e ↦ rw (e, process_post_barrier) tt
    | inr (w, e) ↦
        let f = thread_clock (Full Any) u s h e in
        let m = get_barrier_meta a s in
        let first : Sweep = record { curr_vc = w; all_flagged = true; all_not_flagged = true } in
        let j =
          sweep-Full Any Any Any-same tt Any-join u first (post_table m) f
            (post_table-Entries (Full Any) m (barrier_clocks (Full Any) a s h)) in
        rw (e, process_post_barrier)
          (insert-Grows t u w _ s.curr_vc_map e (λ k. omega (arith, j.1 k, tick-le u _ j.0.1 k)))
  ]

-- When the clocks are well formed and about to wrap nowhere, no synchronisation event that
-- succeeds removes the clock of a thread that it does not start, or lowers a timestamp of it.
pub step-Grows :
    (t : ℕ) (e : Event) (s : Sync)
    → AllClocks (Full Any) s
    → starts e ≢ some t
    → Ensures (Grows t s) (step e s)
unfolding step
step-Grows t (start u parent) s h ne = start-Grows t u parent s h (λ e. ne (ap some e))
step-Grows t (joins u child) s h ne = join-Grows t u child s h
step-Grows t (lock u a) s h ne = lock-Grows t u a s h
step-Grows t (unlock u a) s h ne = unlock-Grows t u a s h
step-Grows t (notify u a) s h ne = notify-Grows t u a s h
step-Grows t (pre_wait u a) s h ne = pre_wait-Grows t u a s h
step-Grows t (post_wait u a) s h ne = post_wait-Grows t u a s h
step-Grows t (pre_barrier u a) s h ne = pre_barrier-Grows t u a s h
step-Grows t (post_barrier u a) s h ne = post_barrier-Grows t u a s h

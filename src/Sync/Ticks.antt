-- ===== src/Sync/Ticks.antt =====
-- The events of src/pintool/detector1.cpp that increment a thread's own timestamp.
use data_race_detectors.Base.{
  ℕ, sym, ◌+◌, ◌≤◌, ◌≡◌, ap, subst, inl, inr, ◌≢◌, some, true, ◌==◌, Ensures, if_elim, Option-cases,
  Map, find, insert, find-insert, arith,
}
use data_race_detectors.Clock.{VectorClock, get_clock, increment, join}
use data_race_detectors.Clock.Laws.{get_clock-increment}
use data_race_detectors.Clock.Order.{◌⊑◌}
use data_race_detectors.Sync.{
  ◌>>=◌, Sync, invalid_thd_id, first_clock, get_barrier_meta, thread_start, process_unlock,
  process_notify, process_pre_wait,
}
use data_race_detectors.Sync.Barriers.{Sweep, post_table, process_post_barrier}
use data_race_detectors.Sync.Clocks.{AllClocks, thread_clock, cond_clocks, barrier_clocks}
use data_race_detectors.Sync.Keep.{Room, Full, join_all-Full, post_table-Entries}
use data_race_detectors.Sync.Waits.{sweep-Full}
use data_race_detectors.Sync.Runs.{
  Event, start, joins, lock, unlock, notify, pre_wait, post_wait, pre_barrier, post_barrier, step,
  ticks, starts,
}
use data_race_detectors.Sync.Grows.{Any, Any-same, Any-join}

-- Thread `t` has ticked between `s` and `s'`.
abbrev pub Ticked : ℕ → Sync → Sync → Type 0
Ticked t s s' =
    (vc : VectorClock)
    → find t s.curr_vc_map ≡ some vc
    → (vc' : VectorClock) × (find t s'.curr_vc_map ≡ some vc')
      × (get_clock t vc + 1 ≤ get_clock t vc')

tick_up :
    (t : ℕ) (v w : VectorClock) → v ⊑ w → Room w → get_clock t v + 1 ≤ get_clock t (increment t w)
tick_up t v w le room = ground (arith, le t, room t, get_clock-increment t t w)

set-Ticked :
    (t : ℕ) (v w : VectorClock) (m : Map VectorClock)
    → find t m ≡ some v
    → v ⊑ w
    → Room w
    → (vc : VectorClock) → find t m ≡ some vc
    → (vc' : VectorClock) × (find t (insert t (increment t w) m) ≡ some vc')
      × (get_clock t vc + 1 ≤ get_clock t vc')
set-Ticked t v w m e le room vc d =
    let up = tick_up t v w le room in
    (increment t w, ground (arith, find-insert t t (increment t w) m), ground (arith, up))

module _ (t a : ℕ) (s : Sync) (h : AllClocks (Full Any) s) where
  unlock-Ticked : Ensures (Ticked t s) (process_unlock t a s)
  unfolding process_unlock
  unlock-Ticked = elim (Option-cases (find t s.curr_vc_map)) [
    | inl e ↦ rw (e, process_unlock) tt
    | inr (w, e) ↦
        let f = thread_clock (Full Any) t s h e in
        rw (e, process_unlock) (set-Ticked t w w s.curr_vc_map e (λ k. omega arith) f.1)
  ]

  pre_wait-Ticked : Ensures (Ticked t s) (process_pre_wait t a s)
  unfolding process_pre_wait
  pre_wait-Ticked = elim (Option-cases (find t s.curr_vc_map)) [
    | inl e ↦ rw (e, process_pre_wait) tt
    | inr (w, e) ↦
        let f = thread_clock (Full Any) t s h e in
        rw (e, process_pre_wait) (set-Ticked t w w s.curr_vc_map e (λ k. omega arith) f.1)
  ]

  notify-Ticked : Ensures (Ticked t s) (process_notify t a s)
  unfolding process_notify
  notify-Ticked = elim (Option-cases (find t s.curr_vc_map)) [
    | inl e ↦ rw (e, process_notify) tt
    | inr (w, e) ↦
        let f = thread_clock (Full Any) t s h e in
        let j = join_all-Full Any Any Any-same tt Any-join w _ f (cond_clocks (Full Any) a s h).0 in
        rw (e, process_notify) (set-Ticked t w _ s.curr_vc_map e j.1 j.0.1)
  ]

  post_barrier-Ticked : Ensures (Ticked t s) (process_post_barrier t a s)
  unfolding process_post_barrier
  post_barrier-Ticked = elim (Option-cases (find t s.curr_vc_map)) [
    | inl e ↦ rw (e, process_post_barrier) tt
    | inr (w, e) ↦
        let f = thread_clock (Full Any) t s h e in
        let m = get_barrier_meta a s in
        let first : Sweep = record { curr_vc = w; all_flagged = true; all_not_flagged = true } in
        let j =
          sweep-Full Any Any Any-same tt Any-join t first (post_table m) f
            (post_table-Entries (Full Any) m (barrier_clocks (Full Any) a s h)) in
        rw (e, process_post_barrier) (set-Ticked t w _ s.curr_vc_map e j.1 j.0.1)
  ]

  -- A thread that starts another ticks.
  start-Ticked : (u : ℕ) → u ≢ t → t ≢ invalid_thd_id → Ensures (Ticked t s) (thread_start u t s)
  unfolding thread_start
  start-Ticked u ne valid =
      if_elim (Ensures (Ticked t s)) (t == invalid_thd_id) (λ y. absurd (ground arith))
        (λ _. elim (Option-cases (find t s.curr_vc_map)) [
          | inl e ↦ rw (e, ◌>>=◌) tt
          | inr (w, e) ↦
              let f = thread_clock (Full Any) t s h e in
              rw (e, ◌>>=◌)
                (λ vc d.
                  let (vc', at, le) =
                    set-Ticked t w w s.curr_vc_map e (λ k. omega arith) f.1 vc d in
                  (
                    vc',
                    ground (
                      arith,
                      at,
                      find-insert t u (join (first_clock u) w)
                          (insert t (increment t w) s.curr_vc_map),
                    ),
                    le,
                  ))
        ])

pub step-Ticked :
    (t : ℕ) (e : Event) (s : Sync)
    → AllClocks (Full Any) s
    → starts e ≢ some t
    → t ≢ invalid_thd_id
    → ticks e ≡ some t
    → Ensures (Ticked t s) (step e s)
unfolding step
step-Ticked t (start u parent) s h ne valid k =
    let same : parent ≡ t = ground arith in
    subst (λ p. Ensures (Ticked t s) (thread_start u p s)) (sym same)
      (start-Ticked t parent s h u (λ e. ne (ap some e)) valid)
step-Ticked t (unlock u a) s h ne valid k =
    subst (λ v. Ensures (Ticked t s) (process_unlock v a s)) (sym (ground arith))
      (unlock-Ticked t a s h)
step-Ticked t (notify u a) s h ne valid k =
    subst (λ v. Ensures (Ticked t s) (process_notify v a s)) (sym (ground arith))
      (notify-Ticked t a s h)
step-Ticked t (pre_wait u a) s h ne valid k =
    subst (λ v. Ensures (Ticked t s) (process_pre_wait v a s)) (sym (ground arith))
      (pre_wait-Ticked t a s h)
step-Ticked t (post_barrier u a) s h ne valid k =
    subst (λ v. Ensures (Ticked t s) (process_post_barrier v a s)) (sym (ground arith))
      (post_barrier-Ticked t a s h)
step-Ticked t (joins u child) s h ne valid k = cc
step-Ticked t (lock u a) s h ne valid k = cc
step-Ticked t (post_wait u a) s h ne valid k = cc
step-Ticked t (pre_barrier u a) s h ne valid k = cc

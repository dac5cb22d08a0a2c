-- ===== src/Sync/Waits.antt =====
-- How `ProcessPreWait`, `ProcessPostWait`, `ProcessPreBarrier` and `ProcessPostBarrier` of
-- src/pintool/detector1.cpp carry a property of clocks.
use data_race_detectors.Base.{
  ℕ, ◌≡◌, inl, inr, true, false, some, [], ◌∷◌, Ensures, subst, find, insert, Option-cases,
  Bool-cases, arith,
}
use data_race_detectors.Clock.{VectorClock, IsClock, join}
use data_race_detectors.Clock.Order.{◌⊑◌}
use data_race_detectors.Sync.{
  ◌>>=◌, Sync, BarrierMeta, get_cond_meta, get_barrier_meta, process_pre_wait, process_post_wait,
}
use data_race_detectors.Sync.Barriers.{
  WaitTable, pre_table, post_table, put_table, Sweep, sweep_entry, sweep, process_pre_barrier,
  process_post_barrier,
}
use data_race_detectors.Sync.Clocks.{
  Entries, Entries-insert, Entries-erase, Entries-find, AllClocks, set_thread, set_cond,
  set_barrier, BarrierClocks, cond_clocks, barrier_clocks, thread_clock,
}
use data_race_detectors.Sync.Keep.{
  Good, Full, Tick, post_table-Entries, settle-BarrierClocks, weak, ticked, good, le-join,
  Full-join,
}

module _ (P Q : VectorClock → Type 0) (weaken : (vc : VectorClock) → P vc → Q vc) (nil : P [])
    (joins : (v w : VectorClock) → IsClock 0 w → P v → P w → P (join v w)) where
  pub pre_wait-AllClocks :
      (t a : ℕ) (s : Sync)
      → AllClocks (Full P) s
      → Tick P Q t s
      → Ensures (AllClocks (Good Q)) (process_pre_wait t a s)
  unfolding process_pre_wait
  pre_wait-AllClocks t a s h tick = elim (Option-cases (find t s.curr_vc_map)) [
    | inl e ↦ rw (e, process_pre_wait) tt
    | inr (vc, e) ↦
        let g = cond_clocks (Good Q) a s (weak P Q weaken nil joins s h) in
        let f = thread_clock (Full P) t s h e in
        rw (e, process_pre_wait)
          (set_thread (Good Q) t _ _
            (ticked P Q weaken nil joins t s tick vc vc e (λ k. omega arith) f)
            (set_cond (Good Q) a _ s
              (Entries-insert (λ _. Good Q) t vc _ (good P Q weaken nil joins f) g.0, g.1)
              (weak P Q weaken nil joins s h)))
  ]

  pub signal_clock :
      (t a : ℕ) (s : Sync) {vc : VectorClock}
      → AllClocks (Full P) s
      → find t (get_cond_meta a s).signal_table ≡ some vc
      → Full P vc
  signal_clock t a s h e =
      subst (Ensures (Full P)) e (Entries-find (λ _. Full P) t _ (cond_clocks (Full P) a s h).1)

  enter-BarrierClocks :
      (t : ℕ) (vc : VectorClock) (m : BarrierMeta)
      → Good Q vc
      → BarrierClocks (Good Q) m
      → BarrierClocks (Good Q) (put_table m.pre_using_table1 (insert t (vc, false) (pre_table m)) m)
  enter-BarrierClocks t vc m g h = elim (Bool-cases m.pre_using_table1) [
    | inl e ↦ rw e (Entries-insert (λ _ e. Good Q e.0) t (vc, false) _ g h.0, h.1)
    | inr e ↦ rw e (h.0, Entries-insert (λ _ e. Good Q e.0) t (vc, false) _ g h.1)
  ]

  pub sweep-Full :
      (t : ℕ) (w : Sweep) (m : WaitTable)
      → Full P w.curr_vc
      → Entries (λ _ e. Full P e.0) m
      → Full P (sweep t w m).curr_vc × (w.curr_vc ⊑ (sweep t w m).curr_vc)
  unfolding sweep
  sweep-Full t w [] f h = (f, λ k. omega arith)
  sweep-Full t w ((u, e) ∷ m) f h =
      let ih =
        sweep-Full t (sweep_entry t w u e) m (Full-join P Q weaken nil joins w.curr_vc e.0 f h.0)
          h.1 in
      (ih.0, λ k. omega (arith, le-join P Q weaken nil joins w.curr_vc e.0 h.0.0 k, ih.1 k))

  pub post_wait-AllClocks :
      (t a : ℕ) (s : Sync)
      → AllClocks (Full P) s
      → Ensures (AllClocks (Good Q)) (process_post_wait t a s)
  unfolding process_post_wait
  post_wait-AllClocks t a s h = elim (Option-cases (find t s.curr_vc_map)) [
    | inl e ↦ rw (e, ◌>>=◌) tt
    | inr (vc, e) ↦ elim (Option-cases (find t (get_cond_meta a s).wait_table)) [
      | inl d ↦ rw (e, d, ◌>>=◌) tt
      | inr (w, d) ↦
          let g = cond_clocks (Good Q) a s (weak P Q weaken nil joins s h) in
          let waits = Entries-erase (λ _. Good Q) t (get_cond_meta a s).wait_table g.0 in
          rw (e, d, ◌>>=◌)
            (elim (Option-cases (find t (get_cond_meta a s).signal_table)) [
              | inl n ↦ rw n (set_cond (Good Q) a _ s (waits, g.1) (weak P Q weaken nil joins s h))
              | inr (signal, n) ↦
                  let f = thread_clock (Full P) t s h e in
                  let sent = signal_clock t a s h n in
                  rw n (
                    set_thread (Good Q) t _ _
                      (good P Q weaken nil joins (Full-join P Q weaken nil joins vc signal f sent))
                      (set_cond (Good Q) a _ s (waits, Entries-erase (λ _. Good Q) t _ g.1)
                        (weak P Q weaken nil joins s h)))
            ])
    ]
  ]

  pub pre_barrier-AllClocks :
      (t a : ℕ) (s : Sync)
      → AllClocks (Full P) s
      → Ensures (AllClocks (Good Q)) (process_pre_barrier t a s)
  unfolding process_pre_barrier
  pre_barrier-AllClocks t a s h = elim (Option-cases (find t s.curr_vc_map)) [
    | inl e ↦ rw (e, process_pre_barrier) tt
    | inr (vc, e) ↦
        rw (e, process_pre_barrier)
          (set_barrier (Good Q) a _ s
            (enter-BarrierClocks t vc (get_barrier_meta a s)
              (good P Q weaken nil joins (thread_clock (Full P) t s h e))
              (barrier_clocks (Good Q) a s (weak P Q weaken nil joins s h)))
            (weak P Q weaken nil joins s h))
  ]

  pub post_barrier-AllClocks :
      (t a : ℕ) (s : Sync)
      → AllClocks (Full P) s
      → Tick P Q t s
      → Ensures (AllClocks (Good Q)) (process_post_barrier t a s)
  unfolding process_post_barrier
  post_barrier-AllClocks t a s h tick = elim (Option-cases (find t s.curr_vc_map)) [
    | inl e ↦ rw (e, process_post_barrier) tt
    | inr (vc, e) ↦
        let start : Sweep = record { curr_vc = vc; all_flagged = true; all_not_flagged = true } in
        let m = get_barrier_meta a s in
        let j =
          sweep-Full t start (post_table m) (thread_clock (Full P) t s h e)
            (post_table-Entries (Full P) m (barrier_clocks (Full P) a s h)) in
        rw (e, process_post_barrier)
          (set_thread (Good Q) t _ _ (ticked P Q weaken nil joins t s tick _ vc e j.1 j.0) (
            set_barrier (Good Q) a _ s
              (settle-BarrierClocks (Good Q) t (sweep t start (post_table m)) m
                (barrier_clocks (Good Q) a s (weak P Q weaken nil joins s h)))
              (weak P Q weaken nil joins s h)))
  ]

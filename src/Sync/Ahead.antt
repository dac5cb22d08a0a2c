-- ===== src/Sync/Ahead.antt =====
-- No clock of src/pintool/detector1.cpp runs ahead of a thread in the thread's own timestamps.
use native.Mathlib.Decide.{ℕ_discrete}
use data_race_detectors.Base.{
  ◌⊎◌, ℕ, ◌+◌, ◌≤◌, ◌≡◌, ap, ◌∙◌, inl, inr, ◌≢◌, some, none, Option, [], Ensures, Ensures-zip, find,
  arith,
}
use data_race_detectors.Clock.{VectorClock, IsClock, get_clock, increment, join}
use data_race_detectors.Clock.Laws.{
  get_clock-nil, get_clock-increment, get_clock-join, IsClock-increment,
}
use data_race_detectors.Sync.{Sync, invalid_thd_id}
use data_race_detectors.Sync.Clocks.{AllClocks, AllClocks-map, AllClocks-zip, thread_clock}
use data_race_detectors.Sync.Keep.{Room, Good, Full}
use data_race_detectors.Sync.Runs.{Event, start, step, ticks, starts, Starts, step-AllClocks}
use data_race_detectors.Sync.Grows.{Any, Grows, step-Grows}
use data_race_detectors.Sync.Snapshot.{Roomy}
use data_race_detectors.Sync.Ticks.{Ticked, step-Ticked}

-- The clock is at most at `n` in thread `t`.
abbrev pub Below : ℕ → ℕ → VectorClock → Type 0
Below t n vc = get_clock t vc ≤ n

-- Thread `t` is at timestamp `n`, and no stored clock has reached a later one of `t`.
pub record Ahead (t n : ℕ) (s : Sync) : Type 0 where
  pub clocks : AllClocks (Good (Below t n)) s
  pub own : VectorClock
  pub running : find t s.curr_vc_map ≡ some own
  pub reached : get_clock t own ≡ n

same_thread : (t : ℕ) (o : Option ℕ) → (o ≡ some t) ⊎ (o ≢ some t)
same_thread t none = inr (λ e. cc)
same_thread t (some u) = elim (ℕ_discrete u t) [
  | yes e ↦ inl (ap some e)
  | no n ↦ inr (λ e. n (ground arith))
]

module _ (t n : ℕ) where
  Below-nil : Below t n []
  Below-nil = ground (arith, get_clock-nil t)

  Below-join : (v w : VectorClock) → IsClock 0 w → Below t n v → Below t n w → Below t n (join v w)
  Below-join v w c p q = ground (arith, get_clock-join t 0 v w c)

  Below-Starts : (e : Event) → starts e ≢ some t → Starts (Below t n) e
  Below-Starts (start u parent) ne = (
    IsClock-increment u [] (omega (arith, get_clock-nil u)) tt,
    ground (arith, ne, get_clock-increment t u [], get_clock-nil t),
  )
  Below-Starts _ ne = tt

  Below-tick :
      (u : ℕ) (vc : VectorClock) → Room vc → Below t n vc → Below t (n + 1) (increment u vc)
  Below-tick u vc room h = ground (arith, room t, get_clock-increment t u vc)

  Below-tick_other : (u : ℕ) (vc : VectorClock) → u ≢ t → Below t n vc → Below t n (increment u vc)
  Below-tick_other u vc ne h = ground (arith, get_clock-increment t u vc)

  complete_clocks : (s : Sync) → Roomy s → Ahead t n s → AllClocks (Full (Below t n)) s
  complete_clocks s r h = AllClocks-zip Room _ _ (λ _ room g. (g.0, room, g.1)) s r h.clocks

  plain_clocks : (s : Sync) → Roomy s → Ahead t n s → AllClocks (Full Any) s
  plain_clocks s r h = AllClocks-map _ _ (λ _ f. (f.0, f.1, tt)) s (complete_clocks s r h)

  abbrev Next : Sync → Type 0
  Next s' = (m : ℕ) × (n ≤ m) × Ahead t m s'

  own_tick :
      (e : Event) (s : Sync)
      → Roomy s
      → starts e ≢ some t
      → t ≢ invalid_thd_id
      → Ahead t n s
      → ticks e ≡ some t
      → Ensures Next (step e s)
  own_tick e s r ne valid h k =
      Ensures-zip (AllClocks (Good (Below t (n + 1)))) (Ticked t s) Next both (step e s)
        (step-AllClocks (Below t n) (Below t (n + 1)) (λ _ p. omega arith) Below-nil Below-join e s
          (complete_clocks s r h) (Below-Starts e ne) (λ u _ vc own _ _ f. Below-tick u vc f.1 f.2))
        (step-Ticked t e s (plain_clocks s r h) ne valid k)
    where
      both : (s' : Sync) → AllClocks (Good (Below t (n + 1))) s' → Ticked t s s' → Next s'
      both s' g ticked =
          let (own, at, le) = ticked h.own h.running in
          let bound = (thread_clock (Good (Below t (n + 1))) t s' g at).1 in
          let low = h.reached in
          (
            n + 1,
            omega arith,
            record { clocks = g; own = own; running = at; reached = omega arith },
          )

  other_step :
      (e : Event) (s : Sync)
      → Roomy s
      → starts e ≢ some t
      → Ahead t n s
      → ticks e ≢ some t
      → Ensures Next (step e s)
  other_step e s r ne h k =
      Ensures-zip (AllClocks (Good (Below t n))) (Grows t s) Next both (step e s)
        (step-AllClocks (Below t n) (Below t n) (λ _ p. p) Below-nil Below-join e s
          (complete_clocks s r h) (Below-Starts e ne)
          (λ u at vc own _ _ f. Below-tick_other u vc (λ p. k (at ∙ ap some p)) f.2))
        (step-Grows t e s (plain_clocks s r h) ne)
    where
      both : (s' : Sync) → AllClocks (Good (Below t n)) s' → Grows t s s' → Next s'
      both s' g grows =
          let (own, at, le) = grows h.own h.running in
          let bound = (thread_clock (Good (Below t n)) t s' g at).1 in
          let low = h.reached in
          let up = le t in
          (n, omega arith, record { clocks = g; own = own; running = at; reached = omega arith })

  -- When no timestamp is about to wrap, an event that succeeds and does not start thread t, whose
  -- id is a valid one, keeps every stored clock at or below t's own timestamp, which does not
  -- fall.
  pub step-Ahead :
      (e : Event) (s : Sync)
      → Roomy s
      → starts e ≢ some t
      → t ≢ invalid_thd_id
      → Ahead t n s
      → Ensures Next (step e s)
  step-Ahead e s r ne valid h = elim (same_thread t (ticks e)) [
    | inl k ↦ own_tick e s r ne valid h k
    | inr k ↦ other_step e s r ne h k
  ]

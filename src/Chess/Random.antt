-- ===== src/Chess/Random.antt =====
-- The rounds of src/systematic/chess.cc that go on at random, after a divergence or when nothing is left
-- to pick. `choice` is `RandomChoice` for the rate 1 / counter.
use data_race_detectors.Base.{
  ℕ, suc, ◌+◌, ◌≡◌, ◌≢◌, refl, ◌⊎◌, inl, inr, Bool, true, false, Option, none, some, [], ◌∷◌,
  if◌then◌else◌, Map, find, From, find_below, Bool-cases, arith,
}
use data_race_detectors.Sync.{◌>>=◌}
use data_race_detectors.Program.{Action, Execution, is_terminal}
use data_race_detectors.Scheduler.{execute}
use data_race_detectors.Chess.{Chess}

-- The loop of `PickNextRandom`, with its target and its counter.
unfoldable pub pick_random : (ℕ → Bool) → ℕ → Map Action → Option Action → Option Action
pick_random choice counter [] target = target
pick_random choice counter ((t, a) ∷ m) target =
    pick_random choice (counter + 1) m (if choice counter then some a else target)

unfoldable pub pick_next_random : (ℕ → Bool) → Chess → Option Action
unfolding pick_random
pick_next_random choice c = pick_random choice 1 c.curr_state.enabled none

-- A round of `DivergenceRun` and `UselessRun`; `none` is the end of the loop, or no action.
unfoldable pub random_round :
    (Execution → Action → Action × Map Action) → (ℕ → Bool) → Chess → Option Chess
unfolding pick_next_random execute
random_round run choice c =
    if is_terminal c.curr_state
    then none
    else (pick_next_random choice c >>= λ action.
        let (next, exec, counts) = execute run c.curr_state action c.exec c.counts in
        some
          (record c { exec = exec; counts = counts; curr_action = some action; curr_state = next }))

-- What is picked is an entry of the map, or the target so far.
pick_random-some :
    (choice : ℕ → Bool) (counter lo : ℕ) (m : Map Action) (b : Action)
    → From lo m
    → (a : Action) × (pick_random choice counter m (some b) ≡ some a)
unfolding pick_random
pick_random-some choice counter lo [] b f = (b, refl)
pick_random-some choice counter lo ((t, a) ∷ m) b f = elim (Bool-cases (choice counter)) [
  | inl y ↦ rw y (pick_random-some choice (counter + 1) (suc t) m a f.1)
  | inr n ↦ rw n (pick_random-some choice (counter + 1) (suc t) m b f.1)
]

pick_random-In :
    (choice : ℕ → Bool) (counter lo : ℕ) (m : Map Action) (target : Option Action) (a : Action)
    → From lo m
    → pick_random choice counter m target ≡ some a
    → (target ≡ some a) ⊎ ((t : ℕ) × (find t m ≡ some a))
unfolding pick_random find
pick_random-In choice counter lo [] target a f h = inl h
pick_random-In choice counter lo ((t, b) ∷ m) target a f h =
    elim (pick_random-In choice (counter + 1) (suc t) m (if choice counter then some b else target)
      a f.1 h) [
        | inl e ↦ elim (Bool-cases (choice counter)) [
          | inl y ↦ inr (t, ground (arith, e, y))
          | inr n ↦ inl (ground (arith, e, n))
        ]
        | inr (u, e) ↦ inr (u, ground (arith, e, find_below u (suc t) m f.1))
      ]

picked_enabled :
    (choice : ℕ → Bool) (m : Map Action)
    → choice 1 ≡ true
    → From 0 m
    → m ≢ []
    → (a : Action) × (t : ℕ) × (pick_random choice 1 m none ≡ some a) × (find t m ≡ some a)
unfolding pick_random
picked_enabled choice [] first f ne = absurd (ne refl)
picked_enabled choice ((t, b) ∷ m) first f ne =
    let (a, e) = pick_random-some choice (1 + 1) (suc t) m b f.1 in
    let e' : pick_random choice 1 ((t, b) ∷ m) none ≡ some a = rw first e in
    elim (pick_random-In choice 1 0 ((t, b) ∷ m) none a f e') [
      | inl k ↦ cc
      | inr (u, k) ↦ (a, u, e', k)
    ]

-- In a state that is not terminal `PickNextRandom` picks an enabled action, if the first choice,
-- whose rate is 1, is true.
pub pick_next_random_lem :
    (choice : ℕ → Bool) (c : Chess)
    → choice 1 ≡ true
    → From 0 c.curr_state.enabled
    → is_terminal c.curr_state ≡ false
    → (a : Action) × (t : ℕ) × (pick_next_random choice c ≡ some a)
      × (find t c.curr_state.enabled ≡ some a)
unfolding pick_next_random is_terminal
pick_next_random_lem choice c first f o =
    picked_enabled choice c.curr_state.enabled first f (λ e. ground (arith, o, e))

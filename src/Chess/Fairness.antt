-- ===== src/Chess/Fairness.antt =====
-- Fairness alone never leaves a run of src/systematic/chess.cc without an action to pick.
use data_race_detectors.Base.{
  ℕ, ◌≡◌, refl, ◌≢◌, inl, inr, true, false, Option, none, some, [], ◌∷◌, ◌==◌, Map, find, From,
  Bool-cases, Option-cases, arith,
}
use data_race_detectors.Fair
use data_race_detectors.Fair.Rank.{Reach, enabled_some}
use data_race_detectors.Program.{Action, Execution}
use data_race_detectors.Search.{SearchNode, is_done}
use data_race_detectors.Chess.{
  Settings, Chess, is_prefix, check, first_pass, second_pass, pick_next,
}
use data_race_detectors.Chess.FirstPass.{Keyed, refused}
use data_race_detectors.Chess.Pick.{pick_next-Picked}

Keyed-find : (t : ℕ) (a : Action) (m : Map Action) → Keyed m → find t m ≡ some a → a.thd ≡ t
unfolding find
Keyed-find t a [] q e = cc
Keyed-find t a ((u, b) ∷ m) q e = elim (Bool-cases (u == t)) [
  | inl y ↦ ground (arith, y, e, q.0)
  | inr n ↦ Keyed-find t a m q.1 (ground (arith, n, e))
]

module _ (exec_of : ℕ → Execution) (k : Settings) (c : Chess) where
  check_total :
      (a : Action) (n : SearchNode)
      → k.por_enable ≡ false
      → (n' : SearchNode) × (check exec_of k c a n ≡ some n')
  unfolding check
  check_total a n off = rw off (_, refl)

  first_pass_total :
      (m : Map Action) (n : SearchNode)
      → k.por_enable ≡ false
      → (n' : SearchNode) × (first_pass exec_of k c m n ≡ some n')
  unfolding first_pass
  first_pass_total [] n off = (n, refl)
  first_pass_total ((t, a) ∷ m) n off = elim (Bool-cases (is_done a.thd n)) [
    | inl y ↦ rw y (first_pass_total m n off)
    | inr o ↦ let (n1, e) = check_total a n off in rw (o, e) (first_pass_total m n1 off)
  ]

  pick_next_total :
      (n : SearchNode)
      → is_prefix k n ≡ false
      → k.por_enable ≡ false
      → (r : Option Action) × (n' : SearchNode) × (pick_next exec_of k c n ≡ some (r, n'))
  unfolding pick_next
  pick_next_total n o off =
      let (n', e) = first_pass_total c.curr_state.enabled n off in
      (second_pass exec_of k c c.curr_state.enabled n' none, n', ground (arith, o, e))

  passes_fair :
      (a : Action)
      → k.pb_enable ≡ false
      → k.por_enable ≡ false
      → Fair.enabled c.curr_state a c.fair_ctrl ≡ true
      → refused exec_of k c a ≡ false
  unfolding refused
  passes_fair a pb por e = ground (arith, pb, por, e)

  -- With the preemption bound and the partial order reduction off, outside the prefix, at a node
  -- where no thread is done and in a state with an enabled thread, `PickNext` picks an action,
  -- whatever updates the fair control has seen.
  pub pick_next-some :
      (n : SearchNode)
      → Reach c.fair_ctrl
      → From 0 c.curr_state.enabled
      → Keyed c.curr_state.enabled
      → c.curr_state.enabled ≢ []
      → k.pb_enable ≡ false
      → k.por_enable ≡ false
      → is_prefix k n ≡ false
      → ((t : ℕ) → is_done t n ≡ false)
      → (a : Action) × (n' : SearchNode) × (pick_next exec_of k c n ≡ some (some a, n'))
  pick_next-some n h f q ne pb por o fresh =
      let (r, n', e) = pick_next_total n o por in
      let picked = pick_next-Picked exec_of k c n r n' f q o e in
      let by = λ (t : ℕ) (a : Action) (g : find t c.curr_state.enabled ≡ some a).
        Keyed-find t a c.curr_state.enabled q g in
      let (t, a, there, free) = enabled_some c.fair_ctrl c.curr_state h by ne in
      elim (Option-cases r) [
        | inl empty ↦
            let w = passes_fair a pb por free in
            let x = by t a there in
            let there' : find a.thd c.curr_state.enabled ≡ some a = rw x there in
            elim (picked.nothing a empty there') [
              | inl d ↦ let y = fresh a.thd in absurd (ground (arith, d, y))
              | inr d ↦ absurd (ground (arith, d, w))
            ]
        | inr (b, some_b) ↦ (b, n', ground (arith, e, some_b))
      ]

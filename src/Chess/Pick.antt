-- ===== src/Chess/Pick.antt =====
-- What `PickNext` of src/systematic/chess.cc picks outside the prefix, and when it picks nothing.
use data_race_detectors.Base.{
  ℕ, ◌≡◌, sym, subst, ◌∙◌, ◌↔◌, ◌⊎◌, inl, inr, true, false, ◌||◌, Option, none, some, find, From,
  Bool-cases, Option-cases, arith,
}
use data_race_detectors.Program.{Action, Execution}
use data_race_detectors.Search.{SearchNode, is_done}
use data_race_detectors.Chess.{
  Settings, Chess, is_preemptive_choice, is_prefix, first_pass, second_pass, pick_next,
}
use data_race_detectors.Chess.FirstPass.{Keyed, refused, refused_at, first_pass-done}
use data_race_detectors.Chess.SecondPass.{
  preemptive, second_pass-some, second_pass-none, second_pass-preemptive,
}

module _ (exec_of : ℕ → Execution) (k : Settings) (c : Chess) where
  -- What `PickNext` has picked, of the actions that are enabled and the filters do not turn down.
  pub record Picked (n : SearchNode) (r : Option Action) (n' : SearchNode) : Type 0 where
    pub marked :
        (t : ℕ) → is_done t n' ≡ (is_done t n || refused_at exec_of k c t c.curr_state.enabled)
    pub chosen :
        (a : Action)
        → r ≡ some a
        → (find a.thd c.curr_state.enabled ≡ some a)
          × (is_done a.thd n ≡ false)
          × (refused exec_of k c a ≡ false)
    pub favoured :
        (a b : Action)
        → r ≡ some a
        → find b.thd c.curr_state.enabled ≡ some b
        → is_done b.thd n ≡ false
        → refused exec_of k c b ≡ false
        → is_preemptive_choice c.curr_action c.curr_state a ≡ true
        → is_preemptive_choice c.curr_action c.curr_state b ≡ true
    pub nothing :
        (a : Action)
        → r ≡ none
        → find a.thd c.curr_state.enabled ≡ some a
        → (is_done a.thd n ≡ true) ⊎ (refused exec_of k c a ≡ true)

  -- An open action is one that was not done and is not turned down.
  open_iff :
      (n n' : SearchNode) (a : Action)
      → ((t : ℕ) → is_done t n' ≡ (is_done t n || refused_at exec_of k c t c.curr_state.enabled))
      → find a.thd c.curr_state.enabled ≡ some a
      → (is_done a.thd n' ≡ false) ↔ ((is_done a.thd n ≡ false) × (refused exec_of k c a ≡ false))
  open_iff n n' a done there = ground (arith, done a.thd, there)

  passes :
      (n : SearchNode) (r : Option Action) (m : SearchNode)
      → From 0 c.curr_state.enabled
      → Keyed c.curr_state.enabled
      → ((t : ℕ) → is_done t m ≡ (is_done t n || refused_at exec_of k c t c.curr_state.enabled))
      → second_pass exec_of k c c.curr_state.enabled m none ≡ r
      → Picked n r m
  passes n r m f q d p = record {
    marked = d;
    chosen = λ a e.
        elim (second_pass-some exec_of k c 0 c.curr_state.enabled m none a f q (p ∙ e)) [
          | inl no_action ↦ cc
          | inr (there, o) ↦ let (o', w) = (open_iff n m a d there).0 o in (there, o', w)
        ];
    favoured = λ a b e there o w pre.
        let only =
          λ (x : Action) (g : second_pass exec_of k c c.curr_state.enabled m none ≡ some x).
            let s : x ≡ a = ground (arith, p, e, g) in
            subst (λ v. preemptive exec_of k c v ≡ true) (sym s) pre in
        (second_pass-preemptive exec_of k c 0 c.curr_state.enabled m none f q only).1 b
          (there, (open_iff n m b d there).1 (o, w));
    nothing = λ a e there.
        let done =
          (second_pass-none exec_of k c 0 c.curr_state.enabled m none f q (p ∙ e)).1 a there in
        elim (Bool-cases (is_done a.thd n)) [
          | inl y ↦ inl y
          | inr o ↦ elim (Bool-cases (refused exec_of k c a)) [
            | inl w ↦ inr w
            | inr w ↦ let x = (open_iff n m a d there).1 (o, w) in cc
          ]
        ];
  }

  -- Outside the prefix, `PickNext` marks as done what the filters turn down. What it picks is
  -- enabled, was not done, and passes the filters, and it makes no preemption if such an action
  -- need make none; if it picks nothing, every enabled action was done or is turned down.
  pub pick_next-Picked :
      (n : SearchNode) (r : Option Action) (n' : SearchNode)
      → From 0 c.curr_state.enabled
      → Keyed c.curr_state.enabled
      → is_prefix k n ≡ false
      → pick_next exec_of k c n ≡ some (r, n')
      → Picked n r n'
  unfolding pick_next
  pick_next-Picked n r n' f q o h =
      elim (Option-cases (first_pass exec_of k c c.curr_state.enabled n)) [
        | inl e ↦ absurd (ground (arith, o, e, h))
        | inr (m, e) ↦
            let same : m ≡ n' = ground (arith, o, e, h) in
            let picked : second_pass exec_of k c c.curr_state.enabled m none ≡ r =
              ground (arith, o, e, h) in
            subst (Picked n r) same (
              passes n r m f q (first_pass-done exec_of k c 0 c.curr_state.enabled n m f q e)
                picked)
      ]

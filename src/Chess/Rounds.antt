-- ===== src/Chess/Rounds.antt =====
-- The rounds of `Explore` in src/systematic/chess.cc, one after the other, outside the prefix.
use data_race_detectors.Base.{
  ==_iff, ℕ, suc, ◌+◌, ◌≤◌, ◌≡◌, refl, subst, ap, sym, ◌∙◌, inl, inr, true, Option, none, some, [],
  ◌∷◌, ◌==◌, Map, From, Bool-cases, Option-cases, arith,
}
use data_race_detectors.Program.{Action, State, Execution, is_terminal, get_elem?, length}
use data_race_detectors.Scheduler.{Counts, count_action, count_all, set_action_counters, execute}
use data_race_detectors.Search.{SearchNode, SearchInfo, get_next_node, check_divergence}
use data_race_detectors.Chess.{
  Settings, Chess, Outcome, terminal, diverged, useless, went, pick_next, go, fair_update, to_try,
  outcome, explore_node, explore_step, set_node,
}
use data_race_detectors.Chess.FirstPass.{Keyed}
use data_race_detectors.Chess.Placed.{Placed, Placed-push, Placed-set_node}
use data_race_detectors.Chess.Executed.{updated, chosen_node, go-Executed, por_keeps, updated_keeps}
use data_race_detectors.Chess.Bound.{explore_step-bound}

-- Counting an action changes neither the keys of the map nor the threads of its actions.
count_action-thd : (cs : Counts) (a : Action) → (count_action cs a).thd ≡ a.thd
unfolding count_action
count_action-thd cs a = ground arith

count_all-From : (lo : ℕ) (cs : Counts) (m : Map Action) → From lo m → From lo (count_all cs m)
unfolding count_all
count_all-From lo cs [] f = tt
count_all-From lo cs ((t, a) ∷ m) f = (f.0, count_all-From (suc t) cs m f.1)

count_all-Keyed : (cs : Counts) (m : Map Action) → Keyed m → Keyed (count_all cs m)
unfolding count_all
count_all-Keyed cs [] q = tt
count_all-Keyed cs ((t, a) ∷ m) q = (count_action-thd cs a ∙ q.0, count_all-Keyed cs m q.1)

module _ (exec_of : ℕ → Execution) (run : Execution → Action → Action × Map Action)
    (k : Settings) where
  -- What is enabled after an action, by the controller, has each action under its thread, in order.
  abbrev pub InOrder : Type 0
  InOrder = (exec : Execution) (a : Action) → From 0 (run exec a).1 × Keyed (run exec a).1

  -- A state of the search between two rounds.
  abbrev Sound : ℕ → Chess → Type 0
  Sound cursor c =
      (From 0 c.curr_state.enabled × Keyed c.curr_state.enabled)
      × Placed c.search_info.stack
      × (c.search_info.cursor ≡ cursor)

  abbrev SoundAfter : ℕ → Outcome → Type 0
  SoundAfter cursor terminal = Unit
  SoundAfter cursor diverged = Unit
  SoundAfter cursor (useless c) = Unit
  SoundAfter cursor (went a c) = Sound cursor c

  go-SoundAfter :
      (a : Action) (n : SearchNode) (c : Chess) (o : Outcome)
      → InOrder
      → Placed c.search_info.stack
      → go exec_of run k a n c ≡ some o
      → SoundAfter c.search_info.cursor o
  unfolding execute set_action_counters
  go-SoundAfter a n c o q p h =
      let (f, g) = q c.exec a in
      let (c3, e, same) = go-Executed exec_of run k a n c o h in
      let m = chosen_node exec_of run k a n in
      let kept =
        (por_keeps exec_of run k a (updated exec_of run k a n c) c3 e).1
        ∙ updated_keeps exec_of run k a n c in
      subst (SoundAfter c.search_info.cursor) (sym same) (
        (count_all-From 0 _ _ f, count_all-Keyed _ _ g),
        subst (λ (i : SearchInfo). Placed i.stack) (sym kept)
            (Placed-set_node m c.search_info.stack p),
        ap (λ (i : SearchInfo). i.cursor) kept,
      )

  next-Placed :
      (s : State) (info : SearchInfo) (i : ℕ)
      → Placed info.stack
      → (get_next_node s info).0 ≡ some i
      → Placed (get_next_node s info).1.stack × ((get_next_node s info).1.cursor ≡ info.cursor + 1)
  unfolding get_next_node
  next-Placed s info i p e = elim (Bool-cases (info.cursor == length info.stack)) [
    | inl y ↦ rw y (Placed-push info.stack _ ((==_iff info.cursor (length info.stack)).0 y) p, refl)
    | inr o ↦ elim (Option-cases (get_elem? info.stack info.cursor)) [
      | inl x ↦ absurd (ground (arith, o, x, e))
      | inr (m, x) ↦ elim (Bool-cases (check_divergence m s)) [
        | inl same ↦ rw (o, x, same) (p, refl)
        | inr other ↦ absurd (ground (arith, o, x, other, e))
      ]
    ]
  ]

  outcome-SoundAfter :
      (r : Option Action × SearchNode) (c : Chess) (o : Outcome)
      → InOrder
      → Placed c.search_info.stack
      → outcome exec_of run k c r ≡ some o
      → SoundAfter c.search_info.cursor o
  unfolding outcome
  outcome-SoundAfter (none, m) c o q p h =
      let info = c.search_info in
      let same : useless (record c { search_info = record info { stack = set_node m info.stack } })
          ≡ o =
        ground (arith, h) in
      subst (SoundAfter c.search_info.cursor) same tt
  outcome-SoundAfter (some b, m) c o q p h = go-SoundAfter b m c o q p h

  node-SoundAfter :
      (n : SearchNode) (c : Chess) (o : Outcome)
      → InOrder
      → Placed c.search_info.stack
      → explore_node exec_of run k n c ≡ some o
      → SoundAfter c.search_info.cursor o
  unfolding explore_node
  node-SoundAfter n c o q p g = elim (Option-cases (fair_update exec_of run k c)) [
    | inl e ↦ absurd (ground (arith, e, g))
    | inr (fair, e) ↦
        let c1 = record c { fair_ctrl = fair } in
        let m = to_try exec_of run k c.curr_state n in
        elim (Option-cases (pick_next exec_of k c1 m)) [
          | inl x ↦ absurd (ground (arith, e, x, g))
          | inr (r, x) ↦ outcome-SoundAfter r c1 o q p (ground (arith, e, x, g))
        ]
  ]

  step-SoundAfter :
      (c : Chess) (o : Outcome)
      → InOrder
      → Placed c.search_info.stack
      → explore_step exec_of run k c ≡ some o
      → SoundAfter (c.search_info.cursor + 1) o
  unfolding explore_step
  step-SoundAfter c o q p g = elim (Bool-cases (is_terminal c.curr_state)) [
    | inl y ↦
        let same : terminal ≡ o = ground (arith, y, g) in
        subst (SoundAfter (c.search_info.cursor + 1)) same tt
    | inr on ↦ elim (Option-cases ((get_next_node c.curr_state c.search_info).0)) [
      | inl e ↦
          let same : diverged ≡ o = ground (arith, on, e, g) in
          subst (SoundAfter (c.search_info.cursor + 1)) same tt
      | inr (i, e) ↦
          let info = (get_next_node c.curr_state c.search_info).1 in
          let (placed, moved) = next-Placed c.curr_state c.search_info i p e in
          elim (Option-cases (get_elem? info.stack i)) [
            | inl x ↦ absurd (ground (arith, on, e, x, g))
            | inr (n, x) ↦
                subst (λ j. SoundAfter j o) moved
                  (node-SoundAfter n (record c { search_info = info }) o q placed
                    (ground (arith, on, e, x, g)))
          ]
    ]
  ]

  -- Rounds that each execute an action.
  pub data Rounds (c : Chess) : Chess → Type 0 where
    none_yet : Rounds c c
    more :
        {c' c'' : Chess} (a : Action)
        → Rounds c c'
        → explore_step exec_of run k c' ≡ some (went a c'')
        → Rounds c c''

  -- The search is between two rounds behind the prefix, and the bound holds.
  pub record Ready (c : Chess) : Type 0 where
    pub in_order : From 0 c.curr_state.enabled × Keyed c.curr_state.enabled
    pub placed : Placed c.search_info.stack
    pub behind : k.prefix_size ≤ c.search_info.cursor + 1
    pub bound : c.curr_preemptions ≤ k.pb_limit

  step-Ready :
      (a : Action) (c c' : Chess)
      → InOrder
      → k.pb_enable ≡ true
      → explore_step exec_of run k c ≡ some (went a c')
      → Ready c
      → Ready c'
  step-Ready a c c' q pb g r =
      let (order, placed, at) = step-SoundAfter c (went a c') q r.placed g in
      let b = r.behind in
      record {
        in_order = order;
        placed = placed;
        behind = omega arith;
        bound =
            explore_step-bound exec_of run k a c c' r.in_order.0 r.in_order.1 r.placed r.behind pb
              r.bound g;
      }

  -- With the preemption bound on and a controller that gives the enabled actions under their
  -- threads in order, no number of rounds that execute an action brings the preemptions above the
  -- limit, from a state of the search between two rounds whose cursor has reached the last node of
  -- the prefix, and each of these states is such a state again.
  pub Rounds-Ready :
      (c c' : Chess) → InOrder → k.pb_enable ≡ true → Ready c → Rounds c c' → Ready c'
  Rounds-Ready c c' q pb r none_yet = r
  Rounds-Ready c c' q pb r (more a before g) =
      step-Ready a _ c' q pb g (Rounds-Ready c _ q pb r before)

-- ===== src/Chess/SecondPass.antt =====
-- The second pass of `PickNext` in src/systematic/chess.cc, which chooses among the open actions.
use data_race_detectors.Base.{
  ℕ, suc, ◌≡◌, refl, sym, subst, ◌⊎◌, inl, inr, Bool, true, false, not, Option, none, some, [], ◌∷◌,
  ◌==◌, if◌then◌else◌, Map, find, From, find_below, Bool-cases, Option-cases, arith,
}
use data_race_detectors.Program.{Action, Execution}
use data_race_detectors.Search.{SearchNode, is_done}
use data_race_detectors.Chess.{Settings, Chess, is_preemptive_choice, second_pass}
use data_race_detectors.Chess.FirstPass.{Keyed}

module _ (exec_of : ℕ → Execution) (k : Settings) (c : Chess) where
  -- An enabled action that the first pass has left open.
  abbrev pub Open : SearchNode → Map Action → Action → Type 0
  Open n m a = (find a.thd m ≡ some a) × (is_done a.thd n ≡ false)

  abbrev pub preemptive : Action → Bool
  preemptive a = is_preemptive_choice c.curr_action c.curr_state a

  -- What the second pass has after one action.
  after : Action → SearchNode → Option Action → Option Action
  after b n best =
      let better : Option Action = elim best [
        | none ↦ some b
        | some x ↦ if not (preemptive b) then some b else some x
      ] in
      if not (is_done b.thd n) then better else best

  after-some :
      (b : Action) (n : SearchNode) (best : Option Action) (a : Action)
      → after b n best ≡ some a
      → (best ≡ some a) ⊎ ((b ≡ a) × (is_done b.thd n ≡ false))
  unfolding after
  after-some b n best a h = elim (Bool-cases (is_done b.thd n)) [
    | inl y ↦ inl (ground (arith, y, h))
    | inr o ↦ elim (Option-cases best) [
      | inl e ↦ inr (ground (arith, o, h, e), o)
      | inr (x, e) ↦ elim (Bool-cases (preemptive b)) [
        | inl p ↦ inl (ground (arith, o, h, e, p))
        | inr p ↦ inr (ground (arith, o, h, e, p), o)
      ]
    ]
  ]

  after-none :
      (b : Action) (n : SearchNode) (best : Option Action)
      → after b n best ≡ none
      → (best ≡ none) × (is_done b.thd n ≡ true)
  unfolding after
  after-none b n none h = (refl, ground (arith, h))
  after-none b n (some x) h = absurd (ground (arith, h))

  after-preemptive :
      (b : Action) (n : SearchNode) (best : Option Action)
      → ((x : Action) → after b n best ≡ some x → preemptive x ≡ true)
      → ((x : Action) → best ≡ some x → preemptive x ≡ true)
        × (is_done b.thd n ≡ false → preemptive b ≡ true)
  unfolding after
  after-preemptive b n none h = (λ x e. cc, λ o. h b (ground (arith, o)))
  after-preemptive b n (some y) h = (
    λ x e. elim (Bool-cases (is_done b.thd n)) [
      | inl d ↦ h x (ground (arith, d, e))
      | inr o ↦ elim (Bool-cases (preemptive b)) [
        | inl p ↦ h x (ground (arith, o, p, e))
        | inr p ↦ absurd (ground (arith, p, h b (ground (arith, o, p))))
      ]
    ],
    λ o. elim (Bool-cases (preemptive b)) [ inl p ↦ p | inr p ↦ h b (ground (arith, o, p)) ],
  )

  pub second_pass-some :
      (lo : ℕ) (m : Map Action) (n : SearchNode) (best : Option Action) (a : Action)
      → From lo m
      → Keyed m
      → second_pass exec_of k c m n best ≡ some a
      → (best ≡ some a) ⊎ Open n m a
  unfolding second_pass find after
  second_pass-some lo [] n best a f q h = inl h
  second_pass-some lo ((t, b) ∷ m) n best a f q h =
      elim (second_pass-some (suc t) m n (after b n best) a f.1 q.1 h) [
        | inl e ↦ elim (after-some b n best a e) [
          | inl x ↦ inl x
          | inr (same, o) ↦ inr (ground (arith, same, q.0), ground (arith, same, o))
        ]
        | inr (there, o) ↦
            let low = find_below a.thd (suc t) m f.1 in inr (ground (arith, low, there), o)
      ]

  pub second_pass-none :
      (lo : ℕ) (m : Map Action) (n : SearchNode) (best : Option Action)
      → From lo m
      → Keyed m
      → second_pass exec_of k c m n best ≡ none
      → (best ≡ none) × ((a : Action) → find a.thd m ≡ some a → is_done a.thd n ≡ true)
  unfolding second_pass find after
  second_pass-none lo [] n best f q h = (h, λ a e. cc)
  second_pass-none lo ((t, b) ∷ m) n best f q h =
      let (x, all) = second_pass-none (suc t) m n (after b n best) f.1 q.1 h in
      let (y, d) = after-none b n best x in
      (
        y,
        λ a e. elim (Bool-cases (t == a.thd)) [
          | inl s ↦ ground (arith, s, e, d)
          | inr s ↦ all a (ground (arith, s, e))
        ],
      )

  pub second_pass-preemptive :
      (lo : ℕ) (m : Map Action) (n : SearchNode) (best : Option Action)
      → From lo m
      → Keyed m
      → ((x : Action) → second_pass exec_of k c m n best ≡ some x → preemptive x ≡ true)
      → ((x : Action) → best ≡ some x → preemptive x ≡ true)
        × ((b : Action) → Open n m b → preemptive b ≡ true)
  unfolding second_pass find after
  second_pass-preemptive lo [] n best f q h = (h, λ b o. absurd (cc (o.0)))
  second_pass-preemptive lo ((t, b) ∷ m) n best f q h =
      let (x, all) = second_pass-preemptive (suc t) m n (after b n best) f.1 q.1 h in
      let (y, d) = after-preemptive b n best x in
      (
        y,
        λ a e. elim (Bool-cases (t == a.thd)) [
          | inl s ↦
              let same : b ≡ a = ground (arith, s, e.0) in
              subst (λ v. preemptive v ≡ true) same
                (d (subst (λ v. is_done v.thd n ≡ false) (sym same) (e.1)))
          | inr s ↦ all a (ground (arith, s, e.0), e.1)
        ],
      )

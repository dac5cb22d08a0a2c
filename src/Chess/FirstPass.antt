-- ===== src/Chess/FirstPass.antt =====
-- The first pass of `PickNext` in src/systematic/chess.cc, which marks the actions that are turned down.
use data_race_detectors.Base.{
  ℕ, suc, ◌≡◌, subst, inl, inr, Bool, true, false, not, ◌&&◌, ◌||◌, Option, none, some, [], ◌∷◌,
  ◌==◌, if◌then◌else◌, Map, find, From, find_below, Bool-cases, Option-cases, arith,
}
use data_race_detectors.Lockset.Laws.{is_exist-add}
use data_race_detectors.Fair
use data_race_detectors.Program.{Action, Execution}
use data_race_detectors.Search.{SearchNode, is_done, add_done}
use data_race_detectors.Chess.{Settings, Chess, pb_enabled, visited, mark, check, first_pass}

-- Each action stands under its thread.
abbrev pub Keyed : Map Action → Type 0
Keyed [] = Unit
Keyed ((t, a) ∷ m) = (a.thd ≡ t) × Keyed m

is_done-add_done :
    (u t : ℕ) (n : SearchNode) → is_done u (add_done t n) ≡ (if t == u then true else is_done u n)
unfolding is_done add_done
is_done-add_done u t n = is_exist-add u t n.done

is_done-mark :
    (u : ℕ) (b : Bool) (t : ℕ) (n : SearchNode)
    → is_done u (mark b t n) ≡ (is_done u n || (b && t == u))
unfolding mark
is_done-mark u true t n = ground (arith, is_done-add_done u t n)
is_done-mark u false t n = ground arith

abbrev is_true : Option Bool → Bool
is_true none = false
is_true (some b) = b

module _ (exec_of : ℕ → Execution) (k : Settings) (c : Chess) where
  -- Whether one of the filters that are switched on turns the action down.
  unfoldable pub refused : Action → Bool
  refused a =
      (k.fair_enable && not (Fair.enabled c.curr_state a c.fair_ctrl))
      || (k.pb_enable && not (pb_enabled k c a))
      || (k.por_enable && is_true (visited exec_of c a))

  is_done-check :
      (u : ℕ) (a : Action) (n n' : SearchNode)
      → check exec_of k c a n ≡ some n'
      → is_done u n' ≡ (is_done u n || (refused a && a.thd == u))
  unfolding check refused
  is_done-check u a n n' h =
      let f = k.fair_enable && not (Fair.enabled c.curr_state a c.fair_ctrl) in
      let b = k.pb_enable && not (pb_enabled k c a) in
      let n1 = mark f a.thd n in
      let n2 = mark b a.thd n1 in
      let x = is_done-mark u f a.thd n in
      let y = is_done-mark u b a.thd n1 in
      elim (Bool-cases (k.por_enable)) [
        | inl por ↦ elim (Option-cases (visited exec_of c a)) [
          | inl v ↦ absurd (ground (arith, por, v, h))
          | inr (seen, v) ↦
              let z = is_done-mark u seen a.thd n2 in
              let e : mark seen a.thd n2 ≡ n' = ground (arith, por, v, h) in
              ground (arith, x, y, z, e, por, v)
        ]
        | inr off ↦ let e : n2 ≡ n' = ground (arith, off, h) in ground (arith, x, y, e, off)
      ]

  -- Whether a filter turns down the action of a thread, if it has one.
  abbrev pub refused_at : ℕ → Map Action → Bool
  refused_at t m = elim (find t m) [ none ↦ false | some a ↦ refused a ]

  round :
      (a : Action) (n n1 : SearchNode)
      → (if not (is_done a.thd n) then check exec_of k c a n else some n) ≡ some n1
      → (u : ℕ) → is_done u n1 ≡ (is_done u n || (refused a && a.thd == u))
  round a n n1 h u = elim (Bool-cases (is_done a.thd n)) [
    | inl y ↦
        let e : n ≡ n1 = ground (arith, y, h) in
        elim (Bool-cases (a.thd == u)) [
          | inl q ↦
              let s : a.thd ≡ u = ground (arith, q) in
              let d : is_done u n ≡ true = subst (λ v. is_done v n ≡ true) s y in
              ground (arith, e, d)
          | inr q ↦ ground (arith, e, q)
        ]
    | inr o ↦ is_done-check u a n n1 (ground (arith, o, h))
  ]

  pub first_pass-done :
      (lo : ℕ) (m : Map Action) (n n' : SearchNode)
      → From lo m
      → Keyed m
      → first_pass exec_of k c m n ≡ some n'
      → (u : ℕ) → is_done u n' ≡ (is_done u n || refused_at u m)
  unfolding first_pass find
  first_pass-done lo [] n n' f q h u = ground (arith, h)
  first_pass-done lo ((t, a) ∷ m) n n' f q h u =
      elim (Option-cases (if not (is_done a.thd n) then check exec_of k c a n else some n)) [
        | inl e ↦ absurd (ground (arith, e, h))
        | inr (n1, e) ↦
            let x = first_pass-done (suc t) m n1 n' f.1 q.1 (ground (arith, e, h)) u in
            let y = round a n n1 e u in
            let z = find_below t (suc t) m f.1 in ground (arith, x, y, z, q.0)
      ]

-- ===== src/Chess/Bound.antt =====
-- A round of `Explore` in src/systematic/chess.cc keeps the number of preemptions within its bound.
use data_race_detectors.Base.{
  ==_iff, ℕ, ◌+◌, ◌≤◌, ◌≡◌, refl, subst, ap, sym, ◌∙◌, inl, inr, true, false, Option, none, some,
  List, [], ◌∷◌, ◌++◌, ◌==◌, Map, From, Bool-cases, Option-cases, arith,
}
use data_race_detectors.Program.{Action, State, Execution, is_terminal, get_elem?, length}
use data_race_detectors.Search.{
  SearchNode, SearchInfo, add_backtrack, get_next_node, check_divergence, infos,
}
use data_race_detectors.Chess.{
  Settings, Chess, Outcome, terminal, diverged, useless, went, is_frontier, is_prefix,
  update_backtrack, pb_enabled, pb_update, pick_next, go, fair_update, to_try, outcome,
  explore_node, explore_step,
}
use data_race_detectors.Chess.Placed.{Placed}
use data_race_detectors.Chess.Executed.{updated, go-Executed, por_keeps}
use data_race_detectors.Chess.FirstPass.{Keyed, refused}
use data_race_detectors.Chess.Pick.{pick_next-Picked}

update_backtrack_idx : (m : Map Action) (n : SearchNode) → (update_backtrack m n).idx ≡ n.idx
unfolding update_backtrack add_backtrack
update_backtrack_idx [] n = refl
update_backtrack_idx ((t, a) ∷ m) n = update_backtrack_idx m (add_backtrack a.thd n)

is_prefix_idx : (k : Settings) (n m : SearchNode) → n.idx ≡ m.idx → is_prefix k n ≡ is_prefix k m
unfolding is_prefix is_frontier
is_prefix_idx k n m e = rw e refl

module _ (exec_of : ℕ → Execution) (run : Execution → Action → Action × Map Action)
    (k : Settings) where
  pb_update-bound :
      (a : Action) (c : Chess)
      → c.curr_preemptions ≤ k.pb_limit
      → pb_enabled k c a ≡ true
      → (pb_update a c).curr_preemptions ≤ k.pb_limit
  unfolding pb_update pb_enabled
  pb_update-bound a c h e = ground arith

  pb_update_info :
      (a : Action) (c : Chess) (info : SearchInfo)
      → (pb_update a (record c { search_info = info })).curr_preemptions
        ≡ (pb_update a c).curr_preemptions
  unfolding pb_update
  pb_update_info a c info = ground arith

  preemptions_of : Outcome → ℕ
  preemptions_of terminal = 0
  preemptions_of diverged = 0
  preemptions_of (useless c) = c.curr_preemptions
  preemptions_of (went a c) = c.curr_preemptions

  go-bound :
      (a b : Action) (n : SearchNode) (c c' : Chess)
      → k.pb_enable ≡ true
      → c.curr_preemptions ≤ k.pb_limit
      → pb_enabled k c b ≡ true
      → go exec_of run k b n c ≡ some (went a c')
      → c'.curr_preemptions ≤ k.pb_limit
  unfolding preemptions_of
  go-bound a b n c c' pb h e g =
      let x = pb_update-bound b c h e in
      let (c3, y, z) = go-Executed exec_of run k b n c (went a c') g in
      let same = ap preemptions_of z in
      let kept = (por_keeps exec_of run k b (updated exec_of run k b n c) c3 y).0 in
      let counted : (updated exec_of run k b n c).curr_preemptions
          ≡ (pb_update b c).curr_preemptions =
        rw pb (pb_update_info b c _) in
      omega arith

  refused-pb :
      (a : Action) (c : Chess)
      → k.pb_enable ≡ true
      → refused exec_of k c a ≡ false
      → pb_enabled k c a ≡ true
  unfolding refused
  refused-pb a c pb h = ground (arith, pb, h)

  -- What `PickNext` gives makes no preemption too many.
  outcome-bound :
      (n : SearchNode) (r : Option Action × SearchNode) (a : Action) (c c' : Chess)
      → From 0 c.curr_state.enabled
      → Keyed c.curr_state.enabled
      → is_prefix k n ≡ false
      → k.pb_enable ≡ true
      → c.curr_preemptions ≤ k.pb_limit
      → pick_next exec_of k c n ≡ some r
      → outcome exec_of run k c r ≡ some (went a c')
      → c'.curr_preemptions ≤ k.pb_limit
  unfolding outcome
  outcome-bound n (none, m) a c c' f q o pb h p g = cc
  outcome-bound n (some b, m) a c c' f q o pb h p g =
      let picked = pick_next-Picked exec_of k c n (some b) m f q o p in
      let (there, open', free) = picked.chosen b refl in
      go-bound a b m c c' pb h (refused-pb b c pb free) g

  fresh-bound :
      (n : SearchNode) (a : Action) (c c' : Chess)
      → From 0 c.curr_state.enabled
      → Keyed c.curr_state.enabled
      → is_prefix k n ≡ false
      → k.pb_enable ≡ true
      → c.curr_preemptions ≤ k.pb_limit
      → explore_node exec_of run k n c ≡ some (went a c')
      → c'.curr_preemptions ≤ k.pb_limit
  unfolding explore_node
  fresh-bound n a c c' f q o pb h g = elim (Option-cases (fair_update exec_of run k c)) [
    | inl e ↦ absurd (ground (arith, e, g))
    | inr (fair, e) ↦
        let c1 = record c { fair_ctrl = fair } in
        let m = to_try exec_of run k c.curr_state n in
        let o' : is_prefix k m ≡ false = rw o (
          is_prefix_idx k (update_backtrack c.curr_state.enabled n) n
            (update_backtrack_idx c.curr_state.enabled n)
          ∙ o) in
        elim (Option-cases (pick_next exec_of k c1 m)) [
          | inl p ↦ absurd (ground (arith, e, p, g))
          | inr (r, p) ↦ outcome-bound m r a c1 c' f q o' pb h p (ground (arith, e, p, g))
        ]
  ]

  get_elem?-push :
      (ns : List SearchNode) (n m : SearchNode)
      → get_elem? (ns ++ n ∷ []) (length ns) ≡ some m
      → n ≡ m
  get_elem?-push [] n m e = ground (arith, e)
  get_elem?-push (x ∷ ns) n m e = get_elem?-push ns n m e

  abbrev new_node : State → SearchInfo → SearchNode
  new_node s info = record {
    idx = info.cursor;
    sel = none;
    backtrack = [];
    done = [];
    enabled = infos s.enabled [];
  }

  -- The node that a round works on is the one at the cursor.
  get_next_node-idx :
      (s : State) (info : SearchInfo) (i : ℕ) (n : SearchNode)
      → Placed info.stack
      → (get_next_node s info).0 ≡ some i
      → get_elem? (get_next_node s info).1.stack i ≡ some n
      → n.idx ≡ info.cursor
  unfolding get_next_node
  get_next_node-idx s info i n placed e g = elim (Bool-cases (info.cursor == length info.stack)) [
    | inl y ↦
        let c = (==_iff info.cursor (length info.stack)).0 y in
        let i' : i ≡ length info.stack = ground (arith, y, e, c) in
        let g' : get_elem? (info.stack ++ new_node s info ∷ []) (length info.stack) ≡ some n =
          subst (λ j. get_elem? (info.stack ++ new_node s info ∷ []) j ≡ some n) i'
            (ground (arith, y, g)) in
        let same = get_elem?-push info.stack (new_node s info) n g' in ap (λ m. m.idx) (sym same)
    | inr o ↦ elim (Option-cases (get_elem? info.stack info.cursor)) [
      | inl x ↦ absurd (ground (arith, o, x, e))
      | inr (m, x) ↦ elim (Bool-cases (check_divergence m s)) [
        | inl same ↦
            let i' : i ≡ info.cursor = ground (arith, o, x, same, e) in
            let g' : get_elem? info.stack i ≡ some n = ground (arith, o, x, same, g) in
            placed i n g' ∙ i'
        | inr other ↦ absurd (ground (arith, o, x, other, e))
      ]
    ]
  ]

  not-prefix : (n : SearchNode) → k.prefix_size ≤ n.idx + 1 → is_prefix k n ≡ false
  unfolding is_prefix is_frontier
  not-prefix n h = ground arith

  -- With the preemption bound on, in a state whose enabled actions stand under their threads in
  -- order, and with a cursor that has reached the last node of the prefix, a round that executes an
  -- action keeps the number of preemptions at or below the limit.
  pub explore_step-bound :
      (a : Action) (c c' : Chess)
      → From 0 c.curr_state.enabled
      → Keyed c.curr_state.enabled
      → Placed c.search_info.stack
      → k.prefix_size ≤ c.search_info.cursor + 1
      → k.pb_enable ≡ true
      → c.curr_preemptions ≤ k.pb_limit
      → explore_step exec_of run k c ≡ some (went a c')
      → c'.curr_preemptions ≤ k.pb_limit
  unfolding explore_step
  explore_step-bound a c c' f q placed far pb h g = elim (Bool-cases (is_terminal c.curr_state)) [
    | inl y ↦ absurd (ground (arith, y, g))
    | inr o ↦ elim (Option-cases ((get_next_node c.curr_state c.search_info).0)) [
      | inl e ↦ absurd (ground (arith, o, e, g))
      | inr (i, e) ↦
          let info = (get_next_node c.curr_state c.search_info).1 in
          elim (Option-cases (get_elem? info.stack i)) [
            | inl x ↦ absurd (ground (arith, o, e, x, g))
            | inr (n, x) ↦
                let at = get_next_node-idx c.curr_state c.search_info i n placed e x in
                fresh-bound n a (record c { search_info = info }) c' f q
                  (not-prefix n (omega arith)) pb h (ground (arith, o, e, x, g))
          ]
    ]
  ]

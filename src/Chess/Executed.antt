-- ===== src/Chess/Executed.antt =====
-- What a round of `Explore` in src/systematic/chess.cc leaves when it executes an action.
use data_race_detectors.Base.{
  if◌then◌else◌, not, ℕ, ◌≡◌, inl, inr, some, Map, Bool-cases, Option-cases, arith,
}
use data_race_detectors.Program.{Action, Execution}
use data_race_detectors.Scheduler.{execute}
use data_race_detectors.Visited.{has_obj, hash}
use data_race_detectors.Search.{add_done, SearchNode}
use data_race_detectors.Chess.{
  Settings, Chess, Outcome, went, is_prefix, pb_update, por_update, go, set_node,
}

module _ (exec_of : ℕ → Execution) (run : Execution → Action → Action × Map Action)
    (k : Settings) where
  -- Recording the state for the reduction leaves the preemptions and the search alone.
  pub por_keeps :
      (a : Action) (c c' : Chess)
      → (if k.por_enable then por_update a c else some c) ≡ some c'
      → (c'.curr_preemptions ≡ c.curr_preemptions) × (c'.search_info ≡ c.search_info)
  unfolding por_update
  por_keeps a c c' h = elim (Bool-cases k.por_enable) [
    | inr n ↦ ground (arith, n, h)
    | inl y ↦ elim (Bool-cases (has_obj a)) [
      | inr n ↦ ground (arith, y, n, h)
      | inl o ↦ elim (Option-cases (hash a)) [
        | inl e ↦ absurd (ground (arith, y, o, e, h))
        | inr (v, e) ↦ ground (arith, y, o, e, h)
      ]
    ]
  ]

  abbrev pub chosen_node : Action → SearchNode → SearchNode
  chosen_node a n =
      let chosen = record n { sel = some a.thd } in
      if not (is_prefix k n) then add_done a.thd chosen else chosen

  -- What a round has recorded before the state goes to the reduction.
  abbrev pub updated : Action → SearchNode → Chess → Chess
  updated a n c =
      let info = c.search_info in
      let stack = set_node (chosen_node a n) info.stack in
      let c1 = record c { search_info = record info { stack = stack } } in
      if k.pb_enable then pb_update a c1 else c1

  -- What a round that executes an action leaves.
  abbrev pub Executed : Action → SearchNode → Chess → Outcome → Type 0
  Executed a n c o =
      let (next, exec, counts) = execute run c.curr_state a c.exec c.counts in
      (c3 : Chess) × ((if k.por_enable then por_update a (updated a n c) else some (updated a n c))
        ≡ some c3)
      × (o
          ≡ went a
              (record c3 { exec = exec; counts = counts; curr_action = some a; curr_state = next }))

  pub go-Executed :
      (a : Action) (n : SearchNode) (c : Chess) (o : Outcome)
      → go exec_of run k a n c ≡ some o
      → Executed a n c o
  unfolding go
  go-Executed a n c o g =
      elim (Option-cases
        (if k.por_enable then por_update a (updated a n c) else some (updated a n c))) [
          | inl e ↦ absurd (ground (arith, e, g))
          | inr (c3, e) ↦ (c3, e, ground (arith, e, g))
        ]

  pub updated_keeps :
      (a : Action) (n : SearchNode) (c : Chess)
      → let info = c.search_info in
        (updated a n c).search_info ≡ record info { stack = set_node (chosen_node a n) info.stack }
  unfolding pb_update
  updated_keeps a n c = ground arith

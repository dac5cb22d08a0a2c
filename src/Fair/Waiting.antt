-- ===== src/Fair/Waiting.antt =====
-- A thread that yields again and again in src/systematic/fair.cc does not run ahead of one that waits.
use data_race_detectors.Base.{
  ℕ, ◌≡◌, sym, subst, ◌≢◌, ◌⊎◌, inl, inr, true, false, ◌&&◌, ◌||◌, some, [], ◌∷◌, ◌++◌, ◌==◌, find,
  Bool-cases, Option-cases, arith,
}
use data_race_detectors.Lockset.{is_exist}
use data_race_detectors.Lockset.Laws.{is_exist-add}
use data_race_detectors.Program.{Action, State, is_enabled}
use data_race_detectors.Fair.{
  ThreadSet, ThreadRelation, FairControl, blocked, enabled, related, drop_sink, add_edges,
  add_threads, update, track, on_yield, set_at, kept_waiting,
}
use data_race_detectors.Fair.Sets.{
  is_exist-kept_waiting, is_exist-add_threads, is_exist-keep_enabled, set_at-update_e,
  find-update_s, set_at-insert, update-elim,
}

-- One update, for a transition whose action and next state satisfy `P`.
pub data Update (P : Action → State → Type 0) (c c' : FairControl) : Type 0 where
  by :
      (before curr : State) (a : Action)
      → before.taken ≡ some a
      → P a curr
      → update (some before) curr c ≡ some c'
      → Update P c c'

pub data Updates (P : Action → State → Type 0) (c : FairControl) : FairControl → Type 0 where
  none_yet : Updates P c c
  more : {c' c'' : FairControl} → Updates P c c' → Update P c' c'' → Updates P c c''

related-drop_sink :
    (t h x : ℕ) (p : ThreadRelation)
    → (x == h) ≡ false
    → related t h p ≡ true
    → related t h (drop_sink x p) ≡ true
unfolding related drop_sink
related-drop_sink t h x [] n r = r
related-drop_sink t h x ((a, b) ∷ p) n r = ground (arith, related-drop_sink t h x p n)

related-push :
    (t h x y : ℕ) (p : ThreadRelation)
    → related t h (p ++ (x, y) ∷ []) ≡ (related t h p || (x == t && y == h))
unfolding related
related-push t h x y [] = ground arith
related-push t h x y ((a, b) ∷ p) = ground (arith, related-push t h x y p)

related-add_edges :
    (t h x : ℕ) (hs : ThreadSet) (p : ThreadRelation)
    → related t h (add_edges x hs p) ≡ (related t h p || (x == t && is_exist h hs))
unfolding add_edges is_exist
related-add_edges t h x [] p = ground arith
related-add_edges t h x (y ∷ hs) p = elim (Bool-cases (related x y p)) [
  | inl e ↦ rw e (ground (arith, related-add_edges t h x hs p, e))
  | inr e ↦
      rw e
        (ground (arith, related-add_edges t h x hs (p ++ (x, y) ∷ []), related-push t h x y p, e))
]

related-blocked :
    (t u : ℕ) (s : State) (p : ThreadRelation)
    → related t u p ≡ true
    → is_enabled u s ≡ true
    → blocked t s p ≡ true
unfolding related blocked
related-blocked t u s [] r e = cc
related-blocked t u s ((a, b) ∷ p) r e = ground (arith, related-blocked t u s p)

-- `u` has been enabled and has not run since the last yield of `t`.
record Since (t u : ℕ) (c : FairControl) : Type 0 where
  in_e : is_exist u (set_at t c.e) ≡ true
  not_in_s : is_exist u (set_at t c.s) ≡ false

module _ (t u x : ℕ) (before curr : State) (c : FairControl) (n : (x == u) ≡ false) where
  track-Since : is_enabled u curr ≡ true → Since t u c → Since t u (track x before curr c)
  unfolding track set_at is_exist
  track-Since e h = record {
    in_e =
        ground
          (arith, set_at-update_e t curr c.e, is_exist-keep_enabled u curr (set_at t c.e), h.in_e);
    not_in_s = elim (Option-cases (find t c.s)) [
      | inl m ↦ ground (arith, find-update_s t x c.s)
      | inr (su, m) ↦ ground (arith, find-update_s t x c.s, is_exist-add u x su, h.not_in_s)
    ];
  }

  track-related : related t u c.p ≡ true → related t u (track x before curr c).p ≡ true
  unfolding track
  track-related r = related-drop_sink t u x c.p n r

module _ (t u x : ℕ) (curr : State) (c : FairControl) where
  yield-related : related t u c.p ≡ true → related t u (on_yield x curr c).p ≡ true
  unfolding on_yield
  yield-related r = ground (arith, related-add_edges t u x (kept_waiting x c) c.p)

  yield-Since :
      is_enabled u curr ≡ true → (x == t) ≡ true ⊎ Since t u c → Since t u (on_yield x curr c)
  unfolding on_yield is_exist
  yield-Since e h = record {
    in_e = elim h [
      | inl y ↦
          ground (
            arith,
            set_at-insert t x (add_threads curr.enabled []) c.e,
            is_exist-add_threads u curr,
          )
      | inr y ↦ ground (
        arith,
        set_at-insert t x (add_threads curr.enabled []) c.e,
        y.in_e,
        is_exist-add_threads u curr,
      )
    ];
    not_in_s = elim h [
      | inl y ↦ ground (arith, set_at-insert t x [] c.s)
      | inr y ↦ ground (arith, set_at-insert t x [] c.s, y.not_in_s)
    ];
  }

-- The yield of `t` gives the threads that it has kept waiting the priority.
yield-gives :
    (t u : ℕ) (curr : State) (c : FairControl)
    → Since t u c
    → related t u (on_yield t curr c).p ≡ true
unfolding on_yield
yield-gives t u curr c h = ground (
  arith,
  related-add_edges t u t (kept_waiting t c) c.p,
  is_exist-kept_waiting u t c,
  h.in_e,
  h.not_in_s,
)

abbrev Ahead : ℕ → ℕ → FairControl → Type 0
Ahead t u c = Since t u c ⊎ (related t u c.p ≡ true)

not_same : (x u : ℕ) → x ≢ u → (x == u) ≡ false
not_same x u n = ground (arith, n)

-- A transition that yields by `t`, or one of another thread than `u`, after which `u` is enabled.
abbrev pub Yields : ℕ → ℕ → Action → State → Type 0
Yields t u a s = (a.thd ≡ t) × (a.yield ≡ true) × (is_enabled u s ≡ true)

abbrev pub Passes : ℕ → Action → State → Type 0
Passes u a s = (a.thd ≢ u) × (is_enabled u s ≡ true)

abbrev pub Others : ℕ → Action → State → Type 0
Others u a s = a.thd ≢ u

module _ (t u : ℕ) where
  yielded-Since : (c c' : FairControl) → t ≢ u → Update (Yields t u) c c' → Since t u c'
  yielded-Since c c' n (by before curr a k (same, y, e) done) =
      update-elim (Since t u) before curr a c c' k done (λ f. absurd (cc))
        (λ h. yield-Since t u a.thd curr _ e (inl (ground (arith, same))))

  passed-Ahead : (c c' : FairControl) → Ahead t u c → Update (Passes u) c c' → Ahead t u c'
  passed-Ahead c c' h (by before curr a k (n, e) done) =
      let n' = not_same a.thd u n in
      update-elim (Ahead t u) before curr a c c' k done (λ f. kept a before curr n' e)
        (λ y. elim (kept a before curr n' e) [
          | inl since ↦ inl (yield-Since t u a.thd curr _ e (inr since))
          | inr r ↦ inr (yield-related t u a.thd curr _ r)
        ])
    where
      kept :
          (a : Action) (before curr : State)
          → (a.thd == u) ≡ false
          → is_enabled u curr ≡ true
          → Ahead t u (track a.thd before curr c)
      kept a before curr n e = elim h [
        | inl since ↦ inl (track-Since t u a.thd before curr c n e since)
        | inr r ↦ inr (track-related t u a.thd before curr c n r)
      ]

  all_passed : (c c' : FairControl) → Ahead t u c → Updates (Passes u) c c' → Ahead t u c'
  all_passed c c' h none_yet = h
  all_passed c c' h (more us v) = passed-Ahead _ c' (all_passed c _ h us) v

  yielded-related :
      (c c' : FairControl)
      → t ≢ u
      → Ahead t u c
      → Update (Yields t u) c c'
      → related t u c'.p ≡ true
  yielded-related c c' n h (by before curr a k (same, y, e) done) =
      let m = not_same a.thd u (λ q. n (cc)) in
      update-elim (λ x. related t u x.p ≡ true) before curr a c c' k done (λ f. absurd (cc))
        (λ z. elim h [
          | inl since ↦
              subst (λ x. related t u (on_yield x curr (track a.thd before curr c)).p ≡ true)
                (sym same) (yield-gives t u curr _ (track-Since t u a.thd before curr c m e since))
          | inr r ↦ yield-related t u a.thd curr _ (track-related t u a.thd before curr c m r)
        ])

  Others-related :
      (c c' : FairControl)
      → related t u c.p ≡ true
      → Updates (Others u) c c'
      → related t u c'.p ≡ true
  Others-related c c' r none_yet = r
  Others-related c c' r (more {c' = d} us (by before curr a k n done)) =
      let s =
        track-related t u a.thd before curr d (not_same a.thd u n) (Others-related c d r us) in
      update-elim (λ x. related t u x.p ≡ true) before curr a d c' k done (λ f. s)
        (λ y. yield-related t u a.thd curr _ s)

-- Thread t yields, and later yields again, while u is another thread that is enabled in each state
-- from the first yield to the second and does not run. Then the fair control lets no action of t
-- through in a state with u enabled, for as long as u does not run.
pub Yields-disabled :
    (t u : ℕ) (c c1 c2 c3 c4 : FairControl) (s : State) (a : Action)
    → t ≢ u
    → Update (Yields t u) c c1
    → Updates (Passes u) c1 c2
    → Update (Yields t u) c2 c3
    → Updates (Others u) c3 c4
    → a.thd ≡ t
    → is_enabled u s ≡ true
    → enabled s a c4 ≡ false
unfolding enabled
Yields-disabled t u c c1 c2 c3 c4 s a n first between second after same e =
    let ahead = all_passed t u c1 c2 (inl (yielded-Since t u c c1 n first)) between in
    let r = Others-related t u c3 c4 (yielded-related t u c2 c3 n ahead second) after in
    ground (arith, same, related-blocked t u s c4.p r e)

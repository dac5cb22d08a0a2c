-- ===== src/Fair/Rank.antt =====
-- The priorities of src/systematic/fair.cc have no cycle: they follow a rank of the threads.
use data_race_detectors.Base.{
  ℕ, suc, ◌≤◌, ◌<◌, ◌≡◌, refl, subst, ◌≢◌, inl, inr, true, false, Option, none, some, [], ◌∷◌, ◌++◌,
  leb, ◌==◌, if◌then◌else◌, Map, find, find-insert, Bool-cases, Option-cases, arith,
}
use data_race_detectors.Lockset.{is_exist}
use data_race_detectors.Lockset.Laws.{is_exist-add}
use data_race_detectors.Program.{Action, State, is_enabled}
use data_race_detectors.Fair.{
  ThreadSet, ThreadRelation, FairControl, new_fair_control, blocked, enabled, drop_sink, add_edges,
  add_threads, update, track, on_yield, set_at, kept_waiting,
}
use data_race_detectors.Fair.Sets.{
  is_exist-kept_waiting, find-update_s, find-update_d-none, find-update_e-none, update-elim,
}

-- The control after any sequence of calls of `Update`.
pub data Reach : FairControl → Type 0 where
  start : Reach new_fair_control
  next :
      {c c' : FairControl} (before : Option State) (curr : State)
      → Reach c
      → update before curr c ≡ some c'
      → Reach c'

abbrev Ranked : (ℕ → ℕ) → ThreadRelation → Type 0
Ranked r [] = Unit
Ranked r ((a, b) ∷ p) = (r a < r b) × Ranked r p

-- The rank that puts `t` below all others.
abbrev below : ℕ → (ℕ → ℕ) → ℕ → ℕ
below t r u = if u == t then 0 else suc (r u)

Ranked-drop_sink :
    (t : ℕ) (r : ℕ → ℕ) (p : ThreadRelation) → Ranked r p → Ranked (below t r) (drop_sink t p)
unfolding drop_sink
Ranked-drop_sink t r [] h = tt
Ranked-drop_sink t r ((a, b) ∷ p) h = ground (arith, Ranked-drop_sink t r p h.1)

Ranked-push :
    (r : ℕ → ℕ) (a b : ℕ) (p : ThreadRelation)
    → r a < r b
    → Ranked r p
    → Ranked r (p ++ (a, b) ∷ [])
Ranked-push r a b [] h q = (h, tt)
Ranked-push r a b ((x, y) ∷ p) h q = (q.0, Ranked-push r a b p h q.1)

Ranked-add_edges :
    (t : ℕ) (r : ℕ → ℕ) (hs : ThreadSet) (p : ThreadRelation)
    → is_exist t hs ≡ false
    → Ranked (below t r) p
    → Ranked (below t r) (add_edges t hs p)
unfolding add_edges is_exist
Ranked-add_edges t r [] p n q = q
Ranked-add_edges t r (h ∷ hs) p n q =
    Ranked-add_edges t r hs _ (ground arith) (ground (arith, Ranked-push (below t r) t h p))

-- A thread without a set of scheduled threads has no other set.
abbrev Known : FairControl → Type 0
Known c = (t : ℕ) → find t c.s ≡ none → (find t c.e ≡ none) × (find t c.d ≡ none)

track-Known :
    (t : ℕ) (before curr : State) (c : FairControl) → Known c → Known (track t before curr c)
unfolding track
track-Known t before curr c k u h =
    let old = k u (elim (Option-cases (find u c.s)) [
      | inl e ↦ e
      | inr (su, e) ↦ ground (arith, find-update_s u t c.s)
    ]) in
    (find-update_e-none u curr c.e old.0, find-update_d-none u t before curr c.d old.1)

on_yield-Known : (t : ℕ) (curr : State) (c : FairControl) → Known c → Known (on_yield t curr c)
unfolding on_yield
on_yield-Known t curr c k u h = ground (
  arith,
  k u,
  find-insert u t [] c.s,
  find-insert u t [] c.d,
  find-insert u t (add_threads curr.enabled []) c.e,
)

-- The thread that has just run does not wait for itself.
kept_waiting_self :
    (t : ℕ) (before curr : State) (c : FairControl)
    → Known c
    → is_exist t (kept_waiting t (track t before curr c)) ≡ false
unfolding track set_at is_exist
kept_waiting_self t before curr c k = elim (Option-cases (find t c.s)) [
  | inl e ↦ ground (
    arith,
    k t e,
    is_exist-kept_waiting t t (track t before curr c),
    find-update_e-none t curr c.e,
    find-update_d-none t t before curr c.d,
  )
  | inr (su, e) ↦ ground (
    arith,
    is_exist-kept_waiting t t (track t before curr c),
    find-update_s t t c.s,
    is_exist-add t t su,
  )
]

record IsOrdered (c : FairControl) : Type 0 where
  rank : ℕ → ℕ
  ranked : Ranked rank c.p
  known : Known c

track-IsOrdered :
    (t : ℕ) (before curr : State) (c : FairControl)
    → IsOrdered c
    → IsOrdered (track t before curr c)
unfolding track
track-IsOrdered t before curr c o = record {
  rank = below t o.rank;
  ranked = Ranked-drop_sink t o.rank c.p o.ranked;
  known = track-Known t before curr c o.known;
}

yield-IsOrdered :
    (t : ℕ) (before curr : State) (c : FairControl)
    → IsOrdered c
    → IsOrdered (on_yield t curr (track t before curr c))
unfolding on_yield track
yield-IsOrdered t before curr c o = record {
  rank = below t o.rank;
  ranked =
      Ranked-add_edges t o.rank _ _ (unfold track in kept_waiting_self t before curr c o.known)
        (Ranked-drop_sink t o.rank c.p o.ranked);
  known =
      unfold on_yield track in
      on_yield-Known t curr (track t before curr c) (track-Known t before curr c o.known);
}

update-IsOrdered :
    (before : Option State) (curr : State) (c c' : FairControl)
    → IsOrdered c
    → update before curr c ≡ some c'
    → IsOrdered c'
unfolding update
update-IsOrdered none curr c c' o e = subst IsOrdered (cc) o
update-IsOrdered (some before) curr c c' o e = elim (Option-cases before.taken) [
  | inl n ↦ cc
  | inr (a, n) ↦
      update-elim IsOrdered before curr a c c' n (unfold update in e)
        (λ f. track-IsOrdered a.thd before curr c o) (λ y. yield-IsOrdered a.thd before curr c o)
]

Reach-IsOrdered : (c : FairControl) → Reach c → IsOrdered c
unfolding find
Reach-IsOrdered c start = record { rank = λ t. t; ranked = tt; known = λ t h. (refl, refl) }
Reach-IsOrdered c (next before curr h e) = update-IsOrdered before curr _ c (Reach-IsOrdered _ h) e

-- An entry of the greatest rank.
abbrev Top : (ℕ → ℕ) → Map Action → Type 0
Top r m =
    (t : ℕ) × (a : Action) × (find t m ≡ some a)
    × ((u : ℕ) (b : Action) → find u m ≡ some b → r u ≤ r t)

top : (r : ℕ → ℕ) (k : ℕ) (a : Action) (m : Map Action) → Top r ((k, a) ∷ m)
unfolding find
top r k a [] = (k, a, ground arith, λ u b h. ground arith)
top r k a ((j, b) ∷ m) =
    let (t, x, e, most) = top r j b m in
    elim (Bool-cases (leb (r t) (r k))) [
      | inl le ↦ (k, a, ground arith, λ u y h. ground (arith, most u y))
      | inr gt ↦ (t, x, ground arith, λ u y h. ground (arith, most u y))
    ]

Top-of : (r : ℕ → ℕ) (m : Map Action) → m ≢ [] → Top r m
Top-of r [] n = absurd (n refl)
Top-of r ((k, a) ∷ m) n = top r k a m

not-blocked :
    (r : ℕ → ℕ) (t : ℕ) (curr : State) (p : ThreadRelation)
    → Ranked r p
    → ((u : ℕ) (b : Action) → find u curr.enabled ≡ some b → r u ≤ r t)
    → blocked t curr p ≡ false
unfolding blocked is_enabled
not-blocked r t curr [] q most = refl
not-blocked r t curr ((x, y) ∷ p) q most = elim (Option-cases (find y curr.enabled)) [
  | inl e ↦ ground (arith, not-blocked r t curr p q.1 most)
  | inr (b, e) ↦ ground (arith, not-blocked r t curr p q.1 most, most y b e)
]

-- The map of the enabled actions has each action under its thread.
abbrev pub ByThread : State → Type 0
ByThread s = (t : ℕ) (a : Action) → find t s.enabled ≡ some a → a.thd ≡ t

-- Whatever updates have been made, in a state with an enabled thread the fair control lets the
-- action of at least one enabled thread through.
pub enabled_some :
    (c : FairControl) (curr : State)
    → Reach c
    → ByThread curr
    → curr.enabled ≢ []
    → (t : ℕ) × (a : Action) × (find t curr.enabled ≡ some a) × (enabled curr a c ≡ true)
unfolding enabled
enabled_some c curr h by ne =
    let o = Reach-IsOrdered c h in
    let (t, a, e, most) = Top-of o.rank curr.enabled ne in
    (t, a, e, ground (arith, by t a e, not-blocked o.rank t curr c.p o.ranked most))

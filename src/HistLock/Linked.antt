-- ===== src/HistLock/Linked.antt =====
-- As long as nothing has left its window, a history of src/pintool/histlock.cpp has every node that a
-- call site refers to, so that erasing them succeeds.
use data_race_detectors.Base.{
  ==_iff, ℕ, suc, ◌+◌, ◌≤◌, ◌<◌, ◌≡◌, refl, ap, ◌∙◌, ◌⊎◌, inl, inr, Bool, true, false, not, ◌||◌,
  some, List, [], ◌∷◌, ◌++◌, ◌==◌, if◌then◌else◌, find, insert, find-insert, Bool-cases, arith,
}
use data_race_detectors.Lockset.{Lockset, Rising, is_exist}
use data_race_detectors.AccuLock.{Elp}
use data_race_detectors.HistLock.{
  new_history, Elpi, History, CallSites, length, callsite_at, touch, pop_old, push,
}
use data_race_detectors.HistLock.Window.{kept}
use data_race_detectors.HistLock.Nodes.{has_pos, PosFrom, erase_all-AllErased}

-- The nodes that a thread would erase.
abbrev pub nodes_of : ℕ → History → List ℕ
nodes_of t h = (callsite_at t h.callsite_map).1

-- Positions rise and are below the next one, in the list and for each thread; no two threads have a
-- node in common; what a thread would erase is in the list.
pub record IsHistory (h : History) : Type 0 where
  pub placed : PosFrom 0 h.elpi_list
  pub low : (p : ℕ) → has_pos p h.elpi_list ≡ true → p < h.next_pos
  pub rising : (t : ℕ) → Rising 0 (nodes_of t h)
  pub owned :
      (t u p : ℕ) → is_exist p (nodes_of t h) ≡ true → is_exist p (nodes_of u h) ≡ true → t ≡ u
  pub linked : (t p : ℕ) → is_exist p (nodes_of t h) ≡ true → has_pos p h.elpi_list ≡ true

pub new_history-IsHistory : IsHistory new_history
unfolding has_pos callsite_at is_exist find
new_history-IsHistory = record {
  placed = tt;
  low = λ p h. cc;
  rising = λ t. tt;
  owned = λ t u p a b. cc;
  linked = λ t p h. cc;
}

pub callsite_at-insert :
    (u t : ℕ) (c : ℕ × List ℕ) (m : CallSites)
    → callsite_at u (insert t c m) ≡ (if t == u then c else callsite_at u m)
unfolding callsite_at
callsite_at-insert u t c m = ground (arith, find-insert u t c m)

-- Making the entry of a thread changes no one's nodes.
pub nodes_of-touch : (u t : ℕ) (h : History) → nodes_of u (touch t h) ≡ nodes_of u h
nodes_of-touch u t h =
    ap (λ (c : ℕ × List ℕ). c.1)
      (callsite_at-insert u t (callsite_at t h.callsite_map) h.callsite_map)
    ∙ same (Bool-cases (t == u))
  where
    same :
        ((t == u) ≡ true) ⊎ ((t == u) ≡ false)
        → (if t == u then callsite_at t h.callsite_map else callsite_at u h.callsite_map).1
          ≡ nodes_of u h
    same (inl y) = rw y (ap (λ v. nodes_of v h) ((==_iff t u).0 y))
    same (inr n) = rw n refl

pub touch-IsHistory : (t : ℕ) (h : History) → IsHistory h → IsHistory (touch t h)
touch-IsHistory t h i = record {
  placed = i.placed;
  low = i.low;
  rising = λ u. rw (nodes_of-touch u t h) (i.rising u);
  owned =
      λ u v p a b. i.owned u v p (rw (nodes_of-touch u t h) at a) (rw (nodes_of-touch v t h) at b);
  linked = λ u p a. i.linked u p (rw (nodes_of-touch u t h) at a);
}

-- What is left of the thread's own nodes before an access.
abbrev pub own : ℕ → ℕ → History → List ℕ
own site t h = if not ((callsite_at t h.callsite_map).0 == site) then [] else nodes_of t h

-- What an access keeps of the list: all nodes, or all but the thread's own.
pub record Kept (site t : ℕ) (h : History) (es : List Elpi) : Type 0 where
  pub in_order : PosFrom 0 es
  pub fewer : (p : ℕ) → has_pos p es ≡ true → has_pos p h.elpi_list ≡ true
  pub mine : (p : ℕ) → is_exist p (own site t h) ≡ true → has_pos p es ≡ true
  pub others : (u p : ℕ) → (t == u) ≡ false → is_exist p (nodes_of u h) ≡ true → has_pos p es ≡ true

pub kept_total :
    (site t : ℕ) (h : History)
    → IsHistory h
    → (es : List Elpi) × (kept site t h ≡ some es) × Kept site t h es
unfolding is_exist
kept_total site t h i = elim (Bool-cases ((callsite_at t h.callsite_map).0 == site)) [
  | inl y ↦ (
    h.elpi_list,
    ground (arith, y),
    record {
      in_order = i.placed;
      fewer = λ p g. g;
      mine = λ p g. i.linked t p (ground (arith, y, g));
      others = λ u p n g. i.linked u p g;
    },
  )
  | inr o ↦
      let (r, x, er) =
        erase_all-AllErased 0 (nodes_of t h) 0 h.elpi_list (i.rising t) i.placed (i.linked t) in
      (
        r,
        ground (arith, o, x),
        record {
          in_order = er.placed;
          fewer = λ p g. ground (arith, er.others p, g);
          mine = λ p g. absurd (ground (arith, o, g));
          others = λ u p n g.
              let there = i.linked u p g in
              elim (Bool-cases (is_exist p (nodes_of t h))) [
                | inl m ↦ let same = i.owned t u p m g in absurd (ground (arith, same, n))
                | inr m ↦ ground (arith, er.others p, there, m)
              ];
        },
      )
]

-- The history after an access that nothing has left.
abbrev pub pushed : ℕ → ℕ → Elp → ℕ → History → List Elpi → History
pushed site t elp inst h es = record {
  elpi_list = es ++ record { pos = h.next_pos; elp = elp; inst = inst } ∷ [];
  callsite_map = insert t (site, own site t h ++ h.next_pos ∷ []) h.callsite_map;
  next_pos = h.next_pos + 1;
}

pub push-some :
    (site t : ℕ) (elp : Elp) (inst : ℕ) (h : History) (es : List Elpi)
    → kept site t h ≡ some es
    → (r : ℕ × History) × (push site t elp inst h ≡ some r)
      × (r.1 ≡ record (pushed site t elp inst h es) {
        elpi_list = pop_old (es ++ record { pos = h.next_pos; elp = elp; inst = inst } ∷ []);
      })
unfolding push
push-some site t elp inst h es e =
    let n : Elpi = record { pos = h.next_pos; elp = elp; inst = inst } in
    (
      (
        if not ((callsite_at t h.callsite_map).0 == site) then length (nodes_of t h) else 0,
        record (pushed site t elp inst h es) { elpi_list = pop_old (es ++ n ∷ []) },
      ),
      rw (e, push) refl,
      refl,
    )

pub nodes_of-pushed :
    (u site t : ℕ) (elp : Elp) (inst : ℕ) (h : History) (es : List Elpi)
    → nodes_of u (pushed site t elp inst h es)
      ≡ (if t == u then own site t h ++ h.next_pos ∷ [] else nodes_of u h)
nodes_of-pushed u site t elp inst h es =
    ap (λ (c : ℕ × List ℕ). c.1)
      (callsite_at-insert u t (site, own site t h ++ h.next_pos ∷ []) h.callsite_map)
    ∙ same (t == u)
  where
    same :
        (b : Bool)
        → (if b then (site, own site t h ++ h.next_pos ∷ []) else callsite_at u h.callsite_map).1
          ≡ (if b then own site t h ++ h.next_pos ∷ [] else nodes_of u h)
    same true = refl
    same false = refl

pub is_exist-last : (p q : ℕ) (s : Lockset) → is_exist p (s ++ q ∷ []) ≡ (is_exist p s || q == p)
unfolding is_exist
is_exist-last p q [] = ground arith
is_exist-last p q (a ∷ s) = ground (arith, is_exist-last p q s)

pub Rising-last :
    (lo q : ℕ) (s : Lockset)
    → lo ≤ q
    → ((p : ℕ) → is_exist p s ≡ true → p < q)
    → Rising lo s
    → Rising lo (s ++ q ∷ [])
unfolding is_exist
Rising-last lo q [] l h r = (l, tt)
Rising-last lo q (a ∷ s) l h r = (
  r.0,
  Rising-last (suc a) q s (let y = h a (ground arith) in omega arith) (λ p g. h p (ground arith))
      r.1,
)

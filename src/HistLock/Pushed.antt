-- ===== src/HistLock/Pushed.antt =====
-- The end of an access of src/pintool/histlock.cpp keeps a history whose nodes are linked.
use data_race_detectors.Base.{
  ==_iff, ℕ, ◌≤◌, ◌<◌, ◌≡◌, refl, ap, sym, subst, ◌∙◌, ◌⊎◌, inl, inr, true, some, List, [], ◌∷◌,
  ◌++◌, ◌==◌, Bool-cases, arith,
}
use data_race_detectors.Lockset.{Rising, is_exist}
use data_race_detectors.AccuLock.{Elp}
use data_race_detectors.HistLock.{Elpi, History, window_size, length, callsite_at, pop_old, push}
use data_race_detectors.HistLock.Window.{kept-length, length-push}
use data_race_detectors.HistLock.Nodes.{has_pos, has_pos-push, PosFrom-push}
use data_race_detectors.HistLock.Linked.{
  IsHistory, nodes_of, own, Kept, kept_total, pushed, push-some, nodes_of-pushed, is_exist-last,
  Rising-last,
}

-- Whose node it is after the access: the thread's, if it is new, or one of before.
module _ (site t : ℕ) (elp : Elp) (inst : ℕ) (h : History) (es : List Elpi) (i : IsHistory h)
    (k : Kept site t h es) where
  own_exists : (p : ℕ) → is_exist p (own site t h) ≡ true → is_exist p (nodes_of t h) ≡ true
  unfolding is_exist
  own_exists p g = ground (arith, g)

  before : (u p : ℕ) → is_exist p (nodes_of u h) ≡ true → p < h.next_pos
  before u p g = i.low p (i.linked u p g)

  whose :
      (u p : ℕ)
      → is_exist p (nodes_of u (pushed site t elp inst h es)) ≡ true
      → ((t ≡ u) × (p ≡ h.next_pos)) ⊎ (is_exist p (nodes_of u h) ≡ true)
  whose u p g =
      let e = nodes_of-pushed u site t elp inst h es in
      elim (Bool-cases (t == u)) [
        | inl y ↦
            let s : t ≡ u = (==_iff t u).0 y in
            let l = is_exist-last p h.next_pos (own site t h) in
            let g' : is_exist p (own site t h ++ h.next_pos ∷ []) ≡ true =
              ground (arith, e, y, g) in
            elim (Bool-cases (is_exist p (own site t h))) [
              | inl m ↦ inr (subst (λ v. is_exist p (nodes_of v h) ≡ true) s (own_exists p m))
              | inr m ↦ inl (s, ground (arith, l, g', m))
            ]
        | inr n ↦ inr (ground (arith, e, n, g))
      ]

  pushed-linked :
      (u p : ℕ)
      → is_exist p (nodes_of u (pushed site t elp inst h es)) ≡ true
      → has_pos p (pushed site t elp inst h es).elpi_list ≡ true
  pushed-linked u p g =
      let e = nodes_of-pushed u site t elp inst h es in
      let l = has_pos-push p es (record { pos = h.next_pos; elp = elp; inst = inst }) in
      elim (Bool-cases (t == u)) [
        | inl y ↦
            let x = is_exist-last p h.next_pos (own site t h) in
            let g' : is_exist p (own site t h ++ h.next_pos ∷ []) ≡ true =
              ground (arith, e, y, g) in
            elim (Bool-cases (is_exist p (own site t h))) [
              | inl m ↦ let z = k.mine p m in ground (arith, l, z)
              | inr m ↦ ground (arith, l, x, g', m)
            ]
        | inr n ↦ let z = k.others u p n (ground (arith, e, n, g)) in ground (arith, l, z)
      ]

  own-Rising : Rising 0 (own site t h)
  own-Rising = elim (Bool-cases ((callsite_at t h.callsite_map).0 == site)) [
    | inl y ↦ rw y (i.rising t)
    | inr n ↦ rw n tt
  ]

  pushed-IsHistory : IsHistory (pushed site t elp inst h es)
  pushed-IsHistory = record {
    placed = PosFrom-push 0 es _ (omega arith) (λ p g. i.low p (k.fewer p g)) k.in_order;
    low = λ p g.
        let l = has_pos-push p es (record { pos = h.next_pos; elp = elp; inst = inst }) in
        elim (Bool-cases (has_pos p es)) [
          | inl m ↦ let y = i.low p (k.fewer p m) in omega arith
          | inr m ↦ ground (arith, l, g, m)
        ];
    rising = λ u.
        let e = nodes_of-pushed u site t elp inst h es in
        elim (Bool-cases (t == u)) [
          | inl y ↦
              rw (e, y)
                (Rising-last 0 h.next_pos (own site t h) (omega arith)
                  (λ p g. before t p (own_exists p g)) own-Rising)
          | inr n ↦ rw (e, n) (i.rising u)
        ];
    owned = λ u v p a b. elim (whose u p a) [
      | inl (x, y) ↦ elim (whose v p b) [
        | inl (x', y') ↦ sym x ∙ x'
        | inr old ↦ let z = before v p old in absurd (omega arith)
      ]
      | inr old ↦ elim (whose v p b) [
        | inl (x', y') ↦ let z = before u p old in absurd (omega arith)
        | inr old' ↦ i.owned u v p old old'
      ]
    ];
    linked = pushed-linked;
  }

pop_old_short : (fs : List Elpi) → length fs ≤ window_size → pop_old fs ≡ fs
unfolding pop_old
pop_old_short [] l = refl
pop_old_short (x ∷ fs) l = ground arith

-- The end of an access succeeds, and keeps the invariant if the list has room for one more.
pub push_total :
    (site t : ℕ) (elp : Elp) (inst : ℕ) (h : History)
    → IsHistory h
    → (r : ℕ × History) × (push site t elp inst h ≡ some r)
      × (length h.elpi_list < window_size → IsHistory r.1)
push_total site t elp inst h i =
    let (es, x, k) = kept_total site t h i in
    let (r, y, e) = push-some site t elp inst h es x in
    (
      r,
      y,
      λ room.
          let n : Elpi = record { pos = h.next_pos; elp = elp; inst = inst } in
          let z = length-push es n in
          let l = kept-length site t h es x in
          let short = pop_old_short (es ++ n ∷ []) (omega arith) in
          subst IsHistory
            (sym (e ∙ ap (λ v. record (pushed site t elp inst h es) { elpi_list = v }) short))
            (pushed-IsHistory site t elp inst h es i k),
    )

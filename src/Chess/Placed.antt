-- ===== src/Chess/Placed.antt =====
-- The positions of the nodes on the stack of src/systematic/search.h, which a round of chess.cc keeps.
use data_race_detectors.Base.{
  ==_iff, ℕ, zero, suc, ◌+◌, ◌≡◌, refl, ap, sym, ◌∙◌, inl, inr, some, List, [], ◌∷◌, ◌++◌, ◌==◌,
  Bool-cases, arith,
}
use data_race_detectors.Program.{get_elem?, length}
use data_race_detectors.Search.{SearchNode}
use data_race_detectors.Chess.{set_node}

-- Every node of the stack has its position for its index.
abbrev pub Placed : List SearchNode → Type 0
Placed stack = (i : ℕ) (n : SearchNode) → get_elem? stack i ≡ some n → n.idx ≡ i

-- The nodes of a stack have the indices from `j` on.
PlacedFrom : ℕ → List SearchNode → Type 0
PlacedFrom j stack = (i : ℕ) (n : SearchNode) → get_elem? stack i ≡ some n → n.idx ≡ j + i

PlacedFrom-push :
    (j : ℕ) (ns : List SearchNode) (n : SearchNode)
    → n.idx ≡ j + length ns
    → PlacedFrom j ns
    → PlacedFrom j (ns ++ n ∷ [])
unfolding PlacedFrom
PlacedFrom-push j [] n e p zero m g = ground (arith, e, g)
PlacedFrom-push j [] n e p (suc i) m g = cc
PlacedFrom-push j (r ∷ ns) n e p zero m g = p zero m g
PlacedFrom-push j (r ∷ ns) n e p (suc i) m g =
    let ih : m.idx ≡ suc j + i =
      PlacedFrom-push (suc j) ns n (omega arith)
        (λ i' m' g'. let x = p (suc i') m' g' in omega arith) i m g in
    omega arith

PlacedFrom-set_node :
    (j : ℕ) (n : SearchNode) (ns : List SearchNode) → PlacedFrom j ns → PlacedFrom j (set_node n ns)
unfolding PlacedFrom
PlacedFrom-set_node j n [] p i m g = p i m g
PlacedFrom-set_node j n (r ∷ ns) p zero m g = elim (Bool-cases (r.idx == n.idx)) [
  | inl y ↦
      let same : n ≡ m = ground (arith, y, g) in
      let at = p zero r refl in
      let e = (==_iff r.idx n.idx).0 y in ap (λ (x : SearchNode). x.idx) (sym same) ∙ sym e ∙ at
  | inr o ↦ p zero m (rw o at g)
]
PlacedFrom-set_node j n (r ∷ ns) p (suc i) m g = elim (Bool-cases (r.idx == n.idx)) [
  | inl y ↦ p (suc i) m (rw y at g)
  | inr o ↦
      let ih : m.idx ≡ suc j + i =
        PlacedFrom-set_node (suc j) n ns (λ i' m' g'. let x = p (suc i') m' g' in omega arith) i m
          (rw o at g) in
      omega arith
]

pub Placed-push :
    (ns : List SearchNode) (n : SearchNode) → n.idx ≡ length ns → Placed ns → Placed (ns ++ n ∷ [])
unfolding PlacedFrom
Placed-push ns n e p i m g =
    let x = PlacedFrom-push 0 ns n (omega arith) (λ j r h. let y = p j r h in omega arith) i m g in
    omega arith

pub Placed-set_node : (n : SearchNode) (ns : List SearchNode) → Placed ns → Placed (set_node n ns)
unfolding PlacedFrom
Placed-set_node n ns p i m g =
    let x = PlacedFrom-set_node 0 n ns (λ j r h. let y = p j r h in omega arith) i m g in
    omega arith

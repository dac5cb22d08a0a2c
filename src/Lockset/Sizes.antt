-- ===== src/Lockset/Sizes.antt =====
-- The size tests in front of the loops of src/pintool/lockset.cpp, for sets in rising order.
use mathlib.Core.Path.{ap₂}
use native.Mathlib.Decide.{dec_lt}
use data_race_detectors.Base.{ℕ, suc, ◌≤◌, ◌<◌, ◌≡◌, refl, subst, ◌↔◌, true, false, [], ◌∷◌, arith}
use data_race_detectors.Lockset.{
  Lockset, Rising, is_exist, size, is_subset_of, is_superset_of, is_match, is_disjoint,
}
use data_race_detectors.Lockset.Laws.{is_exist_below, all_exist_iff, is_disjoint_iff}

abbrev pub Within : Lockset → Lockset → Type 0
Within s t = (a : ℕ) → is_exist a s ≡ true → is_exist a t ≡ true

-- The first address of `t` lies below all of `a ∷ s`.
Within-later :
    (a b : ℕ) (s t : Lockset) → Rising (suc a) s → b < a → Within (a ∷ s) (b ∷ t) → Within (a ∷ s) t
unfolding is_exist
Within-later a b s t r lt h x m = ground (arith, h x m, is_exist_below x (suc a) s r)

-- Both sets begin with the same address.
Within-tail :
    (a b : ℕ) (s t : Lockset) → Rising (suc a) s → a ≡ b → Within (a ∷ s) (b ∷ t) → Within s t
unfolding is_exist
Within-tail a b s t r e h x m = ground (arith, h x, is_exist_below x (suc a) s r)

Within-head : (a b : ℕ) (s t : Lockset) → Rising (suc b) t → Within (a ∷ s) (b ∷ t) → b ≤ a
unfolding is_exist
Within-head a b s t q h = ground (arith, h a, is_exist_below a (suc b) t q)

-- A set inside another is no larger, and is the other one where the sizes agree.
Within-size :
    (lo hi : ℕ) (s t : Lockset)
    → Rising lo s
    → Rising hi t
    → Within s t
    → (size s ≤ size t) × (size s ≡ size t → s ≡ t)
unfolding is_exist size
Within-size lo hi [] [] r q h = (omega arith, λ _. refl)
Within-size lo hi [] (b ∷ t) r q h = (omega arith, λ e. absurd (omega arith))
Within-size lo hi (a ∷ s) [] r q h = absurd (ground (arith, h a))
Within-size lo hi (a ∷ s) (b ∷ t) r q h = elim (dec_lt b a) [
  | yes lt ↦
      let ih : (size (a ∷ s) ≤ size t) × (size (a ∷ s) ≡ size t → a ∷ s ≡ t) =
        Within-size a (suc b) (a ∷ s) t (omega arith, r.1) q.1 (Within-later a b s t r.1 lt h) in
      (omega arith, λ e. absurd (omega arith))
  | no ge ↦
      let e : a ≡ b = omega (arith, Within-head a b s t q.1 h) in
      let ih : (size s ≤ size t) × (size s ≡ size t → s ≡ t) =
        Within-size (suc a) (suc b) s t r.1 q.1 (Within-tail a b s t r.1 e h) in
      (omega arith, λ k. ap₂ ◌∷◌ e (ih.1 (omega arith)))
]

-- For sets in order, IsSubsetOf returns true exactly when every address of the receiver is in the
-- argument.
pub is_subset_of_iff :
    (s t : Lockset) → Rising 0 s → Rising 0 t → (is_subset_of s t ≡ true) ↔ Within s t
unfolding is_subset_of
is_subset_of_iff s t r q = (
  λ h. (all_exist_iff s t).0 (ground arith),
  λ h. ground (arith, (Within-size 0 0 s t r q h).0, (all_exist_iff s t).1 h),
)

pub is_superset_of-is_subset_of : (s t : Lockset) → is_superset_of s t ≡ is_subset_of t s
unfolding is_superset_of is_subset_of
is_superset_of-is_subset_of s t = refl

-- For sets in order, IsMatch returns true exactly when the sets are equal.
pub is_match_iff : (s t : Lockset) → Rising 0 s → Rising 0 t → (is_match s t ≡ true) ↔ (s ≡ t)
unfolding is_match
is_match_iff s t r q = (
  λ h. (Within-size 0 0 s t r q ((all_exist_iff s t).0 (ground arith))).1 (ground arith),
  λ e. subst (λ u. is_match s u ≡ true) e (ground (arith, (all_exist_iff s s).1 (λ a m. m))),
)

-- For sets in order, IsSubsetOf returns true exactly when every address of the receiver is in the
-- argument, IsMatch exactly when the sets are equal, and IsDisjoint exactly when no address is in
-- both.
pub tests_iff :
    (s t : Lockset)
    → Rising 0 s
    → Rising 0 t
    → ((is_subset_of s t ≡ true) ↔ Within s t)
      × ((is_match s t ≡ true) ↔ (s ≡ t))
      × ((is_disjoint s t ≡ true) ↔ ((a : ℕ) → is_exist a s ≡ true → is_exist a t ≡ false))
tests_iff s t r q = (is_subset_of_iff s t r q, is_match_iff s t r q, is_disjoint_iff s t)

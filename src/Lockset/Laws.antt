-- ===== src/Lockset/Laws.antt =====
-- The operations of src/pintool/lockset.cpp as operations on sets of addresses.
use data_race_detectors.Base.{
  ℕ, suc, ◌≤◌, ◌<◌, ◌≡◌, refl, ◌↔◌, true, false, ◌||◌, [], ◌∷◌, ◌==◌, if◌then◌else◌, arith,
}
use data_race_detectors.Lockset.{
  Lockset, Rising, is_exist, add, remove, union, all_exist, is_disjoint,
}

pub Rising-mono : (lo hi : ℕ) (s : Lockset) → lo ≤ hi → Rising hi s → Rising lo s
Rising-mono lo hi [] h r = tt
Rising-mono lo hi (a ∷ s) h r = (omega arith, r.1)

pub is_exist_below : (a lo : ℕ) (s : Lockset) → Rising lo s → a < lo → is_exist a s ≡ false
unfolding is_exist
is_exist_below a lo [] r h = refl
is_exist_below a lo (b ∷ s) r h = ground (arith, is_exist_below a (suc b) s r.1)

pub is_exist-add :
    (b a : ℕ) (s : Lockset) → is_exist b (add a s) ≡ (if a == b then true else is_exist b s)
unfolding is_exist add
is_exist-add b a [] = refl
is_exist-add b a (c ∷ s) = ground (arith, is_exist-add b a s)

pub is_exist-remove :
    (b a : ℕ) (s : Lockset) → is_exist b (remove a s) ≡ (if a == b then false else is_exist b s)
unfolding is_exist remove
is_exist-remove b a [] = ground arith
is_exist-remove b a (c ∷ s) = ground (arith, is_exist-remove b a s)

pub Rising-add : (lo a : ℕ) (s : Lockset) → lo ≤ a → Rising lo s → Rising lo (add a s)
unfolding add
Rising-add lo a [] h r = (h, tt)
Rising-add lo a (b ∷ s) h r = ground (arith, Rising-add (suc b) a s)

pub Rising-remove : (lo a : ℕ) (s : Lockset) → Rising lo s → Rising lo (remove a s)
unfolding remove
Rising-remove lo a [] r = tt
Rising-remove lo a (b ∷ s) r =
    ground (arith, Rising-remove (suc b) a s r.1, Rising-mono lo (suc b) (remove a s))

-- `Union` adds exactly the addresses of the other set.
pub is_exist-union :
    (b : ℕ) (s t : Lockset) → is_exist b (union s t) ≡ (is_exist b s || is_exist b t)
unfolding union is_exist
is_exist-union b s [] = ground arith
is_exist-union b s (a ∷ t) = ground (arith, is_exist-union b (add a s) t, is_exist-add b a s)

all_exist_sound :
    (s t : Lockset) → all_exist s t ≡ true → (a : ℕ) → is_exist a s ≡ true → is_exist a t ≡ true
unfolding all_exist is_exist
all_exist_sound [] t h a m = cc
all_exist_sound (b ∷ s) t h a m =
    ground (arith, all_exist_sound s t, λ (k : all_exist s t ≡ true). all_exist_sound s t k a)

all_exist_complete :
    (s t : Lockset) → ((a : ℕ) → is_exist a s ≡ true → is_exist a t ≡ true) → all_exist s t ≡ true
unfolding all_exist is_exist
all_exist_complete [] t h = refl
all_exist_complete (b ∷ s) t h =
    ground (arith, h b, all_exist_complete s t (λ a m. h a (ground arith)))

-- The common loop of the comparisons returns true exactly when every address of `s` is in `t`.
pub all_exist_iff :
    (s t : Lockset) → (all_exist s t ≡ true) ↔ ((a : ℕ) → is_exist a s ≡ true → is_exist a t ≡ true)
all_exist_iff s t = (all_exist_sound s t, all_exist_complete s t)

is_disjoint_sound :
    (s t : Lockset) → is_disjoint s t ≡ true → (a : ℕ) → is_exist a s ≡ true → is_exist a t ≡ false
unfolding is_disjoint is_exist
is_disjoint_sound [] t h a m = cc
is_disjoint_sound (b ∷ s) t h a m =
    ground (arith, λ (k : is_disjoint s t ≡ true). is_disjoint_sound s t k a)

is_disjoint_complete :
    (s t : Lockset)
    → ((a : ℕ) → is_exist a s ≡ true → is_exist a t ≡ false)
    → is_disjoint s t ≡ true
unfolding is_disjoint is_exist
is_disjoint_complete [] t h = refl
is_disjoint_complete (b ∷ s) t h =
    ground (arith, h b, is_disjoint_complete s t (λ a m. h a (ground arith)))

-- `IsDisjoint` returns true exactly when no address is in both sets.
pub is_disjoint_iff :
    (s t : Lockset)
    → (is_disjoint s t ≡ true) ↔ ((a : ℕ) → is_exist a s ≡ true → is_exist a t ≡ false)
is_disjoint_iff s t = (is_disjoint_sound s t, is_disjoint_complete s t)

-- ===== src/Lockset.antt =====
-- src/pintool/lockset.h and lockset.cpp: the set of the locks that a thread holds, a
-- `std::set<address_t>`. `Intersect` is left out: its loop goes on from an iterator that it has
-- erased. `GetIntersection` and `GetUnion` are declared and have no body.
pub mod Laws
pub mod Sizes
use data_race_detectors.Base.{
  ℕ, zero, suc, ◌+◌, ◌*◌, ◌≤◌, Bool, true, false, not, List, [], ◌∷◌, ltb, ◌==◌, if◌then◌else◌, u64,
  arith,
}
use Prim.Native.Nat.{bit_xor}

-- `AddrSet`, its addresses in rising order.
abbrev pub Lockset : Type 0
Lockset = List ℕ

abbrev pub Rising : ℕ → Lockset → Type 0
Rising lo [] = Unit
Rising lo (a ∷ s) = (lo ≤ a) × Rising (suc a) s

unfoldable pub is_exist : ℕ → Lockset → Bool
is_exist a [] = false
is_exist a (b ∷ s) = if b == a then true else is_exist a s

unfoldable pub add : ℕ → Lockset → Lockset
add a [] = a ∷ []
add a (b ∷ s) =
    let rest = add a s in if ltb a b then a ∷ b ∷ s else if b == a then b ∷ s else b ∷ rest

unfoldable pub remove : ℕ → Lockset → Lockset
remove a [] = []
remove a (b ∷ s) = let rest = remove a s in if b == a then rest else b ∷ rest

unfoldable pub is_empty : Lockset → Bool
is_empty [] = true
is_empty (a ∷ s) = false

unfoldable pub size : Lockset → ℕ
size [] = 0
size (a ∷ s) = suc (size s)

unfoldable pub union : Lockset → Lockset → Lockset
unfolding add
union s [] = s
union s (a ∷ t) = union (add a s) t

-- The loop of `IsSubsetOf`, `IsSupersetOf` and `IsMatch`.
unfoldable pub all_exist : Lockset → Lockset → Bool
unfolding is_exist
all_exist [] t = true
all_exist (a ∷ s) t = let rest = all_exist s t in if not (is_exist a t) then false else rest

unfoldable pub is_subset_of : Lockset → Lockset → Bool
unfolding size all_exist
is_subset_of s t = if ltb (size t) (size s) then false else all_exist s t

unfoldable pub is_superset_of : Lockset → Lockset → Bool
unfolding size all_exist
is_superset_of s t = if ltb (size s) (size t) then false else all_exist t s

unfoldable pub is_match : Lockset → Lockset → Bool
unfolding size all_exist
is_match s t = if not (size s == size t) then false else all_exist s t

unfoldable pub is_disjoint : Lockset → Lockset → Bool
unfolding is_exist
is_disjoint [] t = true
is_disjoint (a ∷ s) t = let rest = is_disjoint s t in if is_exist a t then false else rest

-- The loops of `operator<`: `a = (a << 1) ^ *it` in 64 bits.
unfoldable pub mix : ℕ → Lockset → ℕ
mix acc [] = acc
mix acc (a ∷ s) = mix (bit_xor (u64 (acc * 2)) a) s

unfoldable pub less : Lockset → Lockset → Bool
unfolding size mix
less s t =
    if ltb (size s) (size t)
    then true
    else if ltb (size t) (size s)
    then false
    else ltb (mix 0 s) (mix 0 t)

-- ===== src/LockVersions.antt =====
-- src/core/lock_set.h and lock_set.cc: a set of locks with the version of each, a number that one
-- counter of the program gives to every acquisition. The iterator of the class and `ToString` are
-- left out.
pub mod Tests
pub mod Held
use data_race_detectors.Base.{
  ℕ, suc, ◌+◌, Bool, true, false, not, ◌&&◌, Option, none, some, List, [], ◌∷◌, ◌==◌, if◌then◌else◌,
  Map, find, insert, erase, u64, arith,
}

-- `LockVersionMap`
abbrev pub LockSet : Type 0
LockSet = Map ℕ

-- `curr_lock_version_` and one set.
pub record Locks : Type 0 where
  pub curr_lock_version : ℕ
  pub set : LockSet

unfoldable pub get_next_lock_version : ℕ → ℕ
get_next_lock_version curr = u64 (curr + 1)

unfoldable pub is_empty : LockSet → Bool
is_empty [] = true
is_empty (x ∷ s) = false

unfoldable pub add : ℕ → Locks → Locks
unfolding insert get_next_lock_version
add addr l =
    let version = get_next_lock_version l.curr_lock_version in
    record { curr_lock_version = version; set = insert addr version l.set }

unfoldable pub remove : ℕ → Locks → Locks
unfolding erase
remove addr l = record l { set = erase addr l.set }

unfoldable pub clear : Locks → Locks
clear l = record l { set = [] }

unfoldable pub exist : ℕ → LockSet → Bool
unfolding find
exist addr s = elim (find addr s) [ none ↦ false | some v ↦ true ]

unfoldable pub exist_version : ℕ → ℕ → LockSet → Bool
unfolding find
exist_version addr version s = elim (find addr s) [
  | none ↦ false
  | some v ↦ if v == version then true else false
]

abbrev pub size : LockSet → ℕ
size [] = 0
size (x ∷ s) = suc (size s)

-- The loop of `Match`.
unfoldable pub all_exist : LockSet → LockSet → Bool
unfolding exist
all_exist [] ls = true
all_exist ((addr, v) ∷ s) ls =
    let rest = all_exist s ls in if not (exist addr ls) then false else rest

unfoldable pub match : LockSet → LockSet → Bool
unfolding all_exist
match s ls = if not (size s == size ls) then false else all_exist s ls

unfoldable pub disjoint : LockSet → LockSet → Bool
unfolding exist
disjoint [] ls = true
disjoint ((addr, v) ∷ s) ls = let rest = disjoint s ls in if exist addr ls then false else rest

-- Whether the two remote sets hold the lock in one version.
abbrev pub same_version : Option ℕ → Option ℕ → Bool
same_version none r = false
same_version (some v) none = false
same_version (some v) (some w) = v == w

-- `Disjoint` with two remote sets.
unfoldable pub disjoint_remote : LockSet → LockSet → LockSet → Bool
unfolding find
disjoint_remote [] r1 r2 = true
disjoint_remote ((addr, v) ∷ s) r1 r2 =
    let rest = disjoint_remote s r1 r2 in
    if same_version (find addr r1) (find addr r2) then false else rest

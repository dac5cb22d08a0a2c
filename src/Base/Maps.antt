-- ===== src/Base/Maps.antt =====
-- `std::map` with numbers as keys: a list of entries in the order of the keys. The hash maps of the
-- program are read through the same operations, since nothing depends on their order.
use Prim.Native.Nat.{ℕ, suc, ◌≤◌, ◌<◌}
use mathlib.Core.Path.{◌≡◌, refl}
use mathlib.Core.Option.{Option, none, some}
use mathlib.Core.List.{List, [], ◌∷◌}
use native.Mathlib.Omega.{arith}
use data_race_detectors.Base.Tests.{ltb, ◌==◌, if◌then◌else◌}

abbrev pub Map {ℓ} : Type ℓ → Type ℓ
Map V = List (ℕ × V)

module _ {ℓ} {V : Type ℓ} where
  unfoldable pub find : ℕ → Map V → Option V
  find k [] = none
  find k ((j, v) ∷ m) = if j == k then some v else find k m

  unfoldable pub insert : ℕ → V → Map V → Map V
  insert k v [] = (k, v) ∷ []
  insert k v ((j, w) ∷ m) =
      let rest = insert k v m in
      if ltb k j then (k, v) ∷ (j, w) ∷ m else if j == k then (k, v) ∷ m else (j, w) ∷ rest

  unfoldable pub erase : ℕ → Map V → Map V
  erase k [] = []
  erase k ((j, w) ∷ m) = let rest = erase k m in if j == k then rest else (j, w) ∷ rest

  -- The keys rise strictly from `lo`.
  abbrev pub From : ℕ → Map V → Type 0
  From lo [] = Unit
  From lo ((j, v) ∷ m) = (lo ≤ j) × From (suc j) m

  pub find-insert :
      (j k : ℕ) (v : V) (m : Map V) → find j (insert k v m) ≡ (if k == j then some v else find j m)
  unfolding find insert
  find-insert j k v [] = refl
  find-insert j k v ((i, w) ∷ m) = ground (arith, find-insert j k v m)

  pub find-erase : (j k : ℕ) (m : Map V) → find j (erase k m) ≡ (if k == j then none else find j m)
  unfolding find erase
  find-erase j k [] = ground arith
  find-erase j k ((i, w) ∷ m) = ground (arith, find-erase j k m)

  pub find_below : (k lo : ℕ) (m : Map V) → From lo m → k < lo → find k m ≡ none
  unfolding find
  find_below k lo [] f h = refl
  find_below k lo ((j, v) ∷ m) f h = ground (arith, find_below k (suc j) m f.1)

  pub From-mono : (lo hi : ℕ) (m : Map V) → lo ≤ hi → From hi m → From lo m
  From-mono lo hi [] h f = tt
  From-mono lo hi ((j, v) ∷ m) h f = (omega arith, f.1)

  pub From-insert : (lo k : ℕ) (v : V) (m : Map V) → lo ≤ k → From lo m → From lo (insert k v m)
  unfolding insert
  From-insert lo k v [] h f = (h, tt)
  From-insert lo k v ((j, w) ∷ m) h f = ground (arith, From-insert (suc j) k v m)

  pub From-erase : (lo k : ℕ) (m : Map V) → From lo m → From lo (erase k m)
  unfolding erase
  From-erase lo k [] f = tt
  From-erase lo k ((j, w) ∷ m) f =
      ground (arith, From-erase (suc j) k m f.1, From-mono lo (suc j) (erase k m))

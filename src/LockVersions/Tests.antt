-- ===== src/LockVersions/Tests.antt =====
-- What the tests of src/core/lock_set.cc decide.
use data_race_detectors.Base.{
  ==_iff, ℕ, suc, ◌≡◌, ◌≢◌, refl, sym, ap, ◌↔◌, inl, inr, Bool, true, false, not, Option, none,
  some, [], ◌∷◌, ◌==◌, if◌then◌else◌, find, From, Bool-cases, arith,
}
use data_race_detectors.Lockset
use data_race_detectors.Lockset.{Lockset, Rising, is_exist, is_match}
use data_race_detectors.Lockset.Sizes.{is_match_iff}
use data_race_detectors.LockVersions.{
  LockSet, size, exist, all_exist, match, disjoint, same_version, disjoint_remote,
}

exist-cons : (x a v : ℕ) (s : LockSet) → exist x ((a, v) ∷ s) ≡ (if a == x then true else exist x s)
unfolding exist find
exist-cons x a v s = ground arith

-- All addresses of the set pass a test.
unfoldable every : (ℕ → Bool) → LockSet → Bool
every p [] = true
every p ((a, v) ∷ s) = let rest = every p s in if p a then rest else false

every_iff :
    (p : ℕ → Bool) (s : LockSet) → (every p s ≡ true) ↔ ((x : ℕ) → exist x s ≡ true → p x ≡ true)
unfolding every
every_iff p [] = (λ h x e. unfold exist find in cc, λ h. refl)
every_iff p ((a, v) ∷ s) =
    let (f, g) = every_iff p s in
    (
      λ h x e.
          let later : every p s ≡ true → exist x s ≡ true → p x ≡ true = λ k j. f k x j in
          ground (arith, h, later, exist-cons x a v s, e),
      λ h.
          let rest = g (λ x e. h x (ground (arith, e, exist-cons x a v s))) in
          let here = h a (ground (arith, exist-cons a a v s)) in ground (arith, rest, here),
    )

all_exist-every : (s t : LockSet) → all_exist s t ≡ every (λ x. exist x t) s
unfolding all_exist every
all_exist-every [] t = refl
all_exist-every ((a, v) ∷ s) t = ground (arith, all_exist-every s t)

disjoint-every : (s t : LockSet) → disjoint s t ≡ every (λ x. not (exist x t)) s
unfolding disjoint every
disjoint-every [] t = refl
disjoint-every ((a, v) ∷ s) t = ground (arith, disjoint-every s t)

abbrev differ : LockSet → LockSet → ℕ → Bool
differ r1 r2 x = not (same_version (find x r1) (find x r2))

disjoint_remote-every : (s r1 r2 : LockSet) → disjoint_remote s r1 r2 ≡ every (differ r1 r2) s
unfolding disjoint_remote every
disjoint_remote-every [] r1 r2 = refl
disjoint_remote-every ((a, v) ∷ s) r1 r2 = ground (arith, disjoint_remote-every s r1 r2)

-- The addresses of a set, without the versions.
abbrev pub addrs : LockSet → Lockset
addrs [] = []
addrs ((a, v) ∷ s) = a ∷ addrs s

addrs-Rising : (lo : ℕ) (s : LockSet) → From lo s → Rising lo (addrs s)
addrs-Rising lo [] f = tt
addrs-Rising lo ((a, v) ∷ s) f = (f.0, addrs-Rising (suc a) s f.1)

exist-addrs : (x : ℕ) (s : LockSet) → exist x s ≡ is_exist x (addrs s)
unfolding exist find is_exist
exist-addrs x [] = refl
exist-addrs x ((a, v) ∷ s) = ground (arith, exist-addrs x s)

all_exist-addrs : (s t : LockSet) → all_exist s t ≡ Lockset.all_exist (addrs s) (addrs t)
unfolding all_exist Lockset.all_exist
all_exist-addrs [] t = refl
all_exist-addrs ((a, v) ∷ s) t = ground (arith, all_exist-addrs s t, exist-addrs a t)

size-addrs : (s : LockSet) → size s ≡ Lockset.size (addrs s)
unfolding Lockset.size
size-addrs [] = refl
size-addrs ((a, v) ∷ s) = omega (arith, size-addrs s)

match-addrs : (s t : LockSet) → match s t ≡ is_match (addrs s) (addrs t)
unfolding match is_match
match-addrs s t = rw (size-addrs s, size-addrs t, all_exist-addrs s t) refl

same_version_true :
    (o r : Option ℕ) → (same_version o r ≡ false) ↔ ((v : ℕ) → o ≡ some v → r ≢ some v)
same_version_true none r = (λ h v e. cc, λ h. refl)
same_version_true (some v) none = (λ h w e k. cc, λ h. refl)
same_version_true (some v) (some w) = (
  λ h u e k. ground (arith, h, e, k),
  λ h. elim (Bool-cases (v == w)) [
    | inl y ↦ absurd (h v refl (ap some (sym ((==_iff v w).0 y))))
    | inr n ↦ n
  ],
)

-- For sets in order, Match returns true exactly when the sets have the same addresses, Disjoint with
-- one set exactly when no address is in both, and Disjoint with two remote sets exactly when no
-- address of the receiver is in both remote sets in the same version.
pub versions_iff :
    (s t r1 r2 : LockSet)
    → From 0 s
    → From 0 t
    → ((match s t ≡ true) ↔ (addrs s ≡ addrs t))
      × ((disjoint s t ≡ true) ↔ ((x : ℕ) → exist x s ≡ true → exist x t ≡ false))
      × ((disjoint_remote s r1 r2 ≡ true)
          ↔ ((x : ℕ) → exist x s ≡ true → (v : ℕ) → find x r1 ≡ some v → find x r2 ≢ some v))
versions_iff s t r1 r2 f g =
    let m = is_match_iff (addrs s) (addrs t) (addrs-Rising 0 s f) (addrs-Rising 0 t g) in
    let d = every_iff (λ x. not (exist x t)) s in
    let r = every_iff (differ r1 r2) s in
    (
      rw (match-addrs s t) m,
      (
        λ h x e. let k = d.0 (rw (disjoint-every s t) at h) x e in ground (arith, k),
        λ h. rw (disjoint-every s t) (d.1 (λ x e. ground (arith, h x e))),
      ),
      (
        λ h x e.
            let k = r.0 (rw (disjoint_remote-every s r1 r2) at h) x e in
            (same_version_true (find x r1) (find x r2)).0 (ground (arith, k)),
        λ h. rw (disjoint_remote-every s r1 r2) (
            r.1 (λ x e.
              let k = (same_version_true (find x r1) (find x r2)).1 (h x e) in ground (arith, k))),
      ),
    )

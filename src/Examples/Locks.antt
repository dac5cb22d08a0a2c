-- ===== src/Examples/Locks.antt =====
-- The lock sets of src/core/lock_set.cc.
use data_race_detectors.Base.{
  ℕ, ◌≡◌, ◌≢◌, refl, ◌↔◌, true, false, some, [], ◌∷◌, find, insert, erase, arith,
}
use data_race_detectors.LockVersions.{
  Locks, LockSet, exist, match, disjoint, disjoint_remote, get_next_lock_version, add, remove,
}
use data_race_detectors.LockVersions.Tests.{addrs, versions_iff}
use data_race_detectors.LockVersions.Held.{
  acquire, release, elsewhere, step, run, untouched, same_version_iff,
}

-- Lock 16 in version 4 and lock 32 in version 6, and the same locks acquired again.
abbrev held : LockSet
held = (16, 4) ∷ (32, 6) ∷ []

abbrev again : LockSet
again = (16, 4) ∷ (32, 7) ∷ []

versions_iff_example :
    ((match held again ≡ true) ↔ (addrs held ≡ addrs again))
    × ((disjoint held again ≡ true) ↔ ((x : ℕ) → exist x held ≡ true → exist x again ≡ false))
    × ((disjoint_remote held again held ≡ true)
        ↔ ((x : ℕ) → exist x held ≡ true → (v : ℕ) → find x again ≡ some v → find x held ≢ some v))
versions_iff_example = versions_iff held again again held (ground arith) (ground arith)

abbrev locks : Locks
locks = record { curr_lock_version = 6; set = held }

same_version_iff_example :
    (find 32 (run (acquire 48 ∷ elsewhere ∷ release 32 ∷ acquire 32 ∷ []) locks).set ≡ some 6)
    ↔ (untouched 32 (acquire 48 ∷ elsewhere ∷ release 32 ∷ acquire 32 ∷ []) ≡ true)
unfolding find
same_version_iff_example =
    same_version_iff 32 6 (acquire 48 ∷ elsewhere ∷ release 32 ∷ acquire 32 ∷ []) locks
      (omega arith) (omega arith) refl

-- A lock that is released and acquired again has a new version.
new_version : find 32 (run (release 32 ∷ elsewhere ∷ acquire 32 ∷ []) locks).set ≡ some 8
unfolding run step add remove insert erase find get_next_lock_version
new_version = refl

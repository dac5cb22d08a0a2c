-- ===== src/LockVersions/Held.antt =====
-- What a version of src/core/lock_set.h stands for: one acquisition of the lock.
use data_race_detectors.Base.{
  ℕ, suc, ◌+◌, ◌≤◌, ◌<◌, ◌^◌, ◌≡◌, ◌≢◌, refl, ◌↔◌, inl, inr, Bool, true, false, not, ◌&&◌, some,
  List, [], ◌∷◌, ◌==◌, find, find-insert, find-erase, u64, Bool-cases, arith,
}
use data_race_detectors.LockVersions.{Locks, get_next_lock_version, add, remove, clear}

-- What happens to the set of one thread: it acquires a lock, it releases one, it gives up all, or
-- another thread acquires one, which moves the counter alone.
pub data Event : Type 0 where
  acquire release : (addr : ℕ) → Event
  release_all elsewhere : Event

unfoldable pub step : Event → Locks → Locks
step (acquire addr) l = add addr l
step (release addr) l = remove addr l
step release_all l = clear l
step elsewhere l = record l { curr_lock_version = get_next_lock_version l.curr_lock_version }

unfoldable pub run : List Event → Locks → Locks
run [] l = l
run (e ∷ es) l = run es (step e l)

abbrev pub about : ℕ → Event → Bool
about x (acquire addr) = addr == x
about x (release addr) = addr == x
about x release_all = true
about x elsewhere = false

-- No event acquires or releases `x`.
abbrev pub untouched : ℕ → List Event → Bool
untouched x [] = true
untouched x (e ∷ es) = not (about x e) && untouched x es

abbrev length : List Event → ℕ
length [] = 0
length (e ∷ es) = suc (length es)

-- The counter has room for as many acquisitions as there are events.
abbrev pub Room : List Event → Locks → Type 0
Room es l = l.curr_lock_version + length es < 2 ^ 64

step-Room :
    (e : Event) (es : List Event) (l : Locks)
    → Room (e ∷ es) l
    → Room es (step e l) × (l.curr_lock_version ≤ (step e l).curr_lock_version)
unfolding step add remove clear get_next_lock_version
step-Room (acquire a) es l r = ground arith
step-Room (release a) es l r = ground arith
step-Room release_all es l r = ground arith
step-Room elsewhere es l r = ground arith

find-step :
    (x : ℕ) (e : Event) (l : Locks) → about x e ≡ false → find x (step e l).set ≡ find x l.set
unfolding step add remove clear
find-step x (acquire a) l n =
    ground (arith, find-insert x a (get_next_lock_version l.curr_lock_version) l.set)
find-step x (release a) l n = ground (arith, find-erase x a l.set)
find-step x release_all l n = cc
find-step x elsewhere l n = refl

find_empty : (x v : ℕ) → find {V = ℕ} x [] ≢ some v
unfolding find
find_empty x v h = cc

-- A version that the counter has passed is not given out again.
step-lost :
    (x v : ℕ) (e : Event) (es : List Event) (l : Locks)
    → Room (e ∷ es) l
    → v ≤ l.curr_lock_version
    → about x e ≡ true
    → find x (step e l).set ≢ some v
unfolding step add remove clear get_next_lock_version
step-lost x v (acquire a) es l r b y h =
    ground (arith, find-insert x a (u64 (l.curr_lock_version + 1)) l.set)
step-lost x v (release a) es l r b y h = ground (arith, find-erase x a l.set)
step-lost x v release_all es l r b y h = find_empty x v h
step-lost x v elsewhere es l r b y h = cc

run-lost :
    (x v : ℕ) (es : List Event) (l : Locks)
    → Room es l
    → v ≤ l.curr_lock_version
    → find x l.set ≢ some v
    → find x (run es l).set ≢ some v
unfolding run
run-lost x v [] l r b n = n
run-lost x v (e ∷ es) l r b n =
    let (r', up) = step-Room e es l r in
    run-lost x v es (step e l) r' (omega arith) (elim (Bool-cases (about x e)) [
      | inl y ↦ step-lost x v e es l r b y
      | inr o ↦ λ h. n (rw (find-step x e l o) at h)
    ])

-- Let a thread hold `x` in version `v`, which the counter has reached, and let the counter not wrap
-- in what follows. The thread's set has `x` in that version again exactly when `x` was neither
-- acquired nor released in between, alone or with all locks.
pub same_version_iff :
    (x v : ℕ) (es : List Event) (l : Locks)
    → Room es l
    → v ≤ l.curr_lock_version
    → find x l.set ≡ some v
    → (find x (run es l).set ≡ some v) ↔ (untouched x es ≡ true)
unfolding run
same_version_iff x v [] l r b h = (λ k. refl, λ k. h)
same_version_iff x v (e ∷ es) l r b h =
    let (r', up) = step-Room e es l r in
    elim (Bool-cases (about x e)) [
      | inl y ↦ (
        λ k. absurd (run-lost x v es (step e l) r' (omega arith) (step-lost x v e es l r b y) k),
        λ k. absurd (ground (arith, y, k)),
      )
      | inr o ↦
          let ih = same_version_iff x v es (step e l) r' (omega arith) (rw (find-step x e l o) h) in
          rw o ih
    ]

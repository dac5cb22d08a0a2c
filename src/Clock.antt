-- ===== src/Clock.antt =====
-- src/core/vector_clock.h and vector_clock.cc: a vector clock is a map from thread ids to
-- timestamps, where a thread without an entry stands at 0. The member iterator is not kept: a loop
-- over the clock is a recursion on its entries.
pub mod Laws
pub mod Order
pub mod Equality
use data_race_detectors.Base.{
  ℕ, suc, ◌+◌, ◌≤◌, Bool, true, false, ◌&&◌, ◌||◌, not, Option, none, some, List, [], ◌∷◌, max, ltb,
  leb, ◌==◌, if◌then◌else◌, u64, Map, find, insert, arith,
}

abbrev pub VectorClock : Type 0
VectorClock = Map ℕ

-- Keys rise from `lo`, and no stored timestamp is 0.
abbrev pub IsClock : ℕ → VectorClock → Type 0
IsClock lo [] = Unit
IsClock lo ((t, c) ∷ m) = (lo ≤ t) × (1 ≤ c) × IsClock (suc t) m

abbrev pub or_zero : Option ℕ → ℕ
or_zero none = 0
or_zero (some c) = c

unfoldable pub get_clock : ℕ → VectorClock → ℕ
unfolding find
get_clock t vc = or_zero (find t vc)

unfoldable pub set_clock : ℕ → ℕ → VectorClock → VectorClock
unfolding insert
set_clock t c vc = insert t c vc

unfoldable pub increment : ℕ → VectorClock → VectorClock
unfolding find insert
increment t vc = elim (find t vc) [ none ↦ insert t 1 vc | some c ↦ insert t (u64 (c + 1)) vc ]

-- One round of the loop in `Join`.
unfoldable pub join_entry : VectorClock → ℕ → ℕ → VectorClock
unfolding find insert
join_entry vc t c = elim (find t vc) [ none ↦ insert t c vc | some d ↦ insert t (max c d) vc ]

unfoldable pub join : VectorClock → VectorClock → VectorClock
unfolding join_entry
join vc [] = vc
join vc ((t, c) ∷ other) = join (join_entry vc t c) other

-- The inner loop of `HappensBefore`: whether it found the thread with a clock large enough, and
-- where it leaves its iterator.
unfoldable pub seek : ℕ → ℕ → VectorClock → Bool × VectorClock
seek t c [] = (false, [])
seek t c ((u, d) ∷ m) =
    let rest = seek t c m in
    if u == t
    then (if leb c d then (true, m) else (false, (u, d) ∷ m))
    else if ltb t u
    then (false, (u, d) ∷ m)
    else rest

unfoldable pub happens_before : VectorClock → VectorClock → Bool
unfolding seek
happens_before [] other = true
happens_before ((t, c) ∷ vc) other =
    let rest = happens_before vc (seek t c other).1 in if (seek t c other).0 then rest else false

-- The inner loop of `HappensAfter` runs over the receiver, up to the thread `t` of the argument.
unfoldable pub seek_own : ℕ → ℕ → VectorClock → Bool × VectorClock
seek_own t c [] = (false, [])
seek_own t c ((u, d) ∷ m) =
    let rest = seek_own t c m in
    if u == t
    then (if leb c d then (true, m) else (false, (u, d) ∷ m))
    else if ltb t u
    then (false, (u, d) ∷ m)
    else rest

unfoldable pub happens_after : VectorClock → VectorClock → Bool
unfolding seek_own
happens_after vc [] = true
happens_after vc ((t, c) ∷ other) =
    let rest = happens_after (seek_own t c vc).1 other in
    if (seek_own t c vc).0 then rest else false

unfoldable pub size : VectorClock → ℕ
size [] = 0
size (e ∷ m) = suc (size m)

-- The loop of `Equal`, which stops where either map ends.
unfoldable pub equal_entries : VectorClock → VectorClock → Bool
equal_entries [] other = true
equal_entries (e ∷ vc) [] = true
equal_entries ((t, c) ∷ vc) ((u, d) ∷ other) =
    let rest = equal_entries vc other in if not (t == u) || not (c == d) then false else rest

unfoldable pub equal : VectorClock → VectorClock → Bool
unfolding size equal_entries
equal vc other = if not (size vc == size other) then false else equal_entries vc other

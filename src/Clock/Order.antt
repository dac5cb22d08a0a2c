-- ===== src/Clock/Order.antt =====
-- `HappensBefore` and `HappensAfter` of src/core/vector_clock.cc decide the pointwise order.
use data_race_detectors.Base.{ℕ, suc, ◌≤◌, ◌<◌, ◌≡◌, refl, ◌↔◌, true, [], ◌∷◌, arith}
use data_race_detectors.Clock.{
  VectorClock, IsClock, get_clock, seek, happens_before, seek_own, happens_after,
}
use data_race_detectors.Clock.Laws.{get_clock-nil, get_clock-cons, get_clock_below, IsClock-mono}

-- Every thread's timestamp is at most the other clock's.
infix 50 ◌⊑◌
abbrev pub ◌⊑◌ : VectorClock → VectorClock → Type 0
a ⊑ b = (t : ℕ) → get_clock t a ≤ get_clock t b

pub seek-true :
    (t c lo : ℕ) (m : VectorClock)
    → IsClock lo m
    → 1 ≤ c
    → c ≤ get_clock t m
    → (seek t c m).0 ≡ true
unfolding seek
seek-true t c lo [] w p h = absurd (omega (arith, get_clock-nil t))
seek-true t c lo ((u, d) ∷ m) w p h =
    ground
      (arith, get_clock-cons t u d m, get_clock_below (suc u) t m w.2, seek-true t c (suc u) m w.2)

pub seek_found : (t c : ℕ) (m : VectorClock) → (seek t c m).0 ≡ true → c ≤ get_clock t m
unfolding seek
seek_found t c [] h = cc
seek_found t c ((u, d) ∷ m) h = ground (arith, get_clock-cons t u d m, seek_found t c m)

seek-IsClock :
    (t c lo : ℕ) (m : VectorClock)
    → IsClock lo m
    → (seek t c m).0 ≡ true
    → IsClock (suc t) (seek t c m).1
unfolding seek
seek-IsClock t c lo [] w h = cc
seek-IsClock t c lo ((u, d) ∷ m) w h =
    ground (arith, IsClock-mono (suc t) (suc u) m, seek-IsClock t c (suc u) m w.2)

get_clock-seek :
    (v t c lo : ℕ) (m : VectorClock)
    → IsClock lo m
    → t < v
    → get_clock v (seek t c m).1 ≡ get_clock v m
unfolding seek
get_clock-seek v t c lo [] w h = refl
get_clock-seek v t c lo ((u, d) ∷ m) w h =
    ground (arith, get_clock-cons v u d m, get_clock-seek v t c (suc u) m w.2)

happens_before-le :
    (lo hi : ℕ) (a b : VectorClock)
    → IsClock lo a
    → IsClock hi b
    → happens_before a b ≡ true
    → (t : ℕ) → get_clock t a ≤ get_clock t b
unfolding happens_before
happens_before-le lo hi [] b v w h t = omega (arith, get_clock-nil t)
happens_before-le lo hi ((u, c) ∷ a) b v w h t = ground (
  arith,
  get_clock-cons t u c a,
  get_clock_below (suc u) t a v.2,
  seek_found u c b,
  seek-IsClock u c hi b w,
  get_clock-seek t u c hi b w,
  λ (s : (seek u c b).0 ≡ true) (r : happens_before a (seek u c b).1 ≡ true).
      happens_before-le (suc u) (suc u) a (seek u c b).1 v.2 (seek-IsClock u c hi b w s) r t,
)

happens_before-true :
    (lo hi : ℕ) (a b : VectorClock)
    → IsClock lo a
    → IsClock hi b
    → a ⊑ b
    → happens_before a b ≡ true
unfolding happens_before
happens_before-true lo hi [] b v w h = refl
happens_before-true lo hi ((u, c) ∷ a) b v w h =
    rw found (
      happens_before-true (suc u) (suc u) a (seek u c b).1 v.2 (seek-IsClock u c hi b w found) rest)
  where
    found : (seek u c b).0 ≡ true
    found = seek-true u c hi b w v.1 (ground (arith, h u, get_clock-cons u u c a))

    rest : (t : ℕ) → get_clock t a ≤ get_clock t (seek u c b).1
    rest t = ground (
      arith,
      h t,
      get_clock-cons t u c a,
      get_clock_below (suc u) t a v.2,
      get_clock-seek t u c hi b w,
    )

-- `a.HappensBefore(&b)` returns true exactly when no thread's timestamp in `a` exceeds the one in
-- `b`, for clocks in map order that store no 0.
pub happens_before_iff :
    (a b : VectorClock) → IsClock 0 a → IsClock 0 b → (happens_before a b ≡ true) ↔ (a ⊑ b)
happens_before_iff a b v w = (happens_before-le 0 0 a b v w, happens_before-true 0 0 a b v w)

seek_own-seek : (t c : ℕ) (m : VectorClock) → seek_own t c m ≡ seek t c m
unfolding seek seek_own
seek_own-seek t c [] = refl
seek_own-seek t c ((u, d) ∷ m) = rw (seek_own-seek t c m)

-- `a.HappensAfter(&b)` gives the answer of `b.HappensBefore(&a)`, for all clocks.
pub happens_after-happens_before : (a b : VectorClock) → happens_after a b ≡ happens_before b a
unfolding happens_after happens_before
happens_after-happens_before a [] = refl
happens_after-happens_before a ((t, c) ∷ b) =
    rw (seek_own-seek t c a, happens_after-happens_before (seek t c a).1 b)

-- For clocks in map order that store no 0, `a.HappensBefore(&b)` returns true exactly when no
-- thread's timestamp in `a` exceeds the one in `b`, and `a.HappensAfter(&b)` exactly when none in
-- `b` exceeds the one in `a`.
pub happens_iff :
    (a b : VectorClock)
    → IsClock 0 a
    → IsClock 0 b
    → ((happens_before a b ≡ true) ↔ (a ⊑ b)) × ((happens_after a b ≡ true) ↔ (b ⊑ a))
happens_iff a b v w =
    (happens_before_iff a b v w, rw (happens_after-happens_before a b) (happens_before_iff b a w v))

-- ===== src/Clock/Equality.antt =====
-- `Equal` of src/core/vector_clock.cc against the timestamps that `GetClock` returns, and the order
-- laws of `HappensBefore`.
use data_race_detectors.Base.{ℕ, suc, ◌≡◌, refl, ap, subst, ◌↔◌, true, [], ◌∷◌, arith}
use data_race_detectors.Clock.{VectorClock, IsClock, get_clock, size, equal_entries, equal}
use data_race_detectors.Clock.Laws.{get_clock-cons, get_clock_below, get_clock-nil}

equal-eq : (a b : VectorClock) → equal a b ≡ true → a ≡ b
unfolding equal equal_entries size
equal-eq [] [] h = refl
equal-eq [] (e ∷ b) h = ground arith
equal-eq (e ∷ a) [] h = ground arith
equal-eq ((t, c) ∷ a) ((u, d) ∷ b) h = ground (arith, equal-eq a b)

equal_self : (a : VectorClock) → equal a a ≡ true
unfolding equal equal_entries size
equal_self [] = refl
equal_self ((t, c) ∷ a) = ground (arith, equal_self a)

-- Two well-formed clocks with the same timestamps are the same map.
pub clock_ext :
    (lo hi : ℕ) (a b : VectorClock)
    → IsClock lo a
    → IsClock hi b
    → ((t : ℕ) → get_clock t a ≡ get_clock t b)
    → a ≡ b
clock_ext lo hi [] [] v w h = refl
clock_ext lo hi [] ((u, d) ∷ b) v w h =
    absurd (ground (arith, h u, get_clock-nil u, get_clock-cons u u d b))
clock_ext lo hi ((t, c) ∷ a) [] v w h =
    absurd (ground (arith, h t, get_clock-nil t, get_clock-cons t t c a))
clock_ext lo hi ((t, c) ∷ a) ((u, d) ∷ b) v w h =
    ground (arith, heads, clock_ext (suc t) (suc u) a b v.2 w.2 tails)
  where
    heads : (t ≡ u) × (c ≡ d)
    heads = ground (
      arith,
      h t,
      h u,
      get_clock-cons t t c a,
      get_clock-cons u t c a,
      get_clock-cons t u d b,
      get_clock-cons u u d b,
      get_clock_below (suc t) u a v.2,
      get_clock_below (suc u) t b w.2,
    )

    tails : (s : ℕ) → get_clock s a ≡ get_clock s b
    tails s = ground (
      arith,
      heads,
      h s,
      get_clock-cons s t c a,
      get_clock-cons s u d b,
      get_clock_below (suc t) s a v.2,
      get_clock_below (suc u) s b w.2,
    )

-- For well-formed clocks, Equal returns true exactly when every thread has the same timestamp in
-- both.
pub equal_iff :
    (a b : VectorClock)
    → IsClock 0 a
    → IsClock 0 b
    → (equal a b ≡ true) ↔ ((t : ℕ) → get_clock t a ≡ get_clock t b)
equal_iff a b v w = (
  λ h t. ap (get_clock t) (equal-eq a b h),
  λ h. subst (λ c. equal a c ≡ true) (clock_ext 0 0 a b v w h) (equal_self a),
)

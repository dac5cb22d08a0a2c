-- ===== src/Clock/Laws.antt =====
-- The operations of src/core/vector_clock.cc read through `GetClock`, and the well-formed clocks
-- that they build.
use data_race_detectors.Base.{
  ℕ, suc, ◌+◌, ◌≤◌, ◌<◌, ◌^◌, ◌≡◌, refl, [], ◌∷◌, max, ◌==◌, if◌then◌else◌, u64, insert,
  find-insert, arith,
}
use data_race_detectors.Clock.{
  VectorClock, IsClock, get_clock, set_clock, increment, join_entry, join,
}

pub get_clock-nil : (t : ℕ) → get_clock t [] ≡ 0
unfolding get_clock
get_clock-nil t = refl

pub get_clock-cons :
    (u t c : ℕ) (m : VectorClock) → get_clock u ((t, c) ∷ m) ≡ (if t == u then c else get_clock u m)
unfolding get_clock
get_clock-cons u t c m = ground arith

pub get_clock_below : (lo u : ℕ) (m : VectorClock) → IsClock lo m → u < lo → get_clock u m ≡ 0
get_clock_below lo u [] w h = get_clock-nil u
get_clock_below lo u ((t, c) ∷ m) w h =
    ground (arith, get_clock-cons u t c m, get_clock_below (suc t) u m w.2)

pub get_clock-set_clock :
    (u t c : ℕ) (m : VectorClock)
    → get_clock u (set_clock t c m) ≡ (if t == u then c else get_clock u m)
unfolding get_clock set_clock
get_clock-set_clock u t c m = ground (arith, find-insert u t c m)

pub get_clock-increment :
    (u t : ℕ) (m : VectorClock)
    → get_clock u (increment t m) ≡ (if t == u then u64 (get_clock t m + 1) else get_clock u m)
unfolding get_clock increment
get_clock-increment u t m =
    ground (arith, find-insert u t 1 m, find-insert u t (u64 (get_clock t m + 1)) m)

pub get_clock-join_entry :
    (u t c : ℕ) (m : VectorClock)
    → get_clock u (join_entry m t c) ≡ (if t == u then max c (get_clock t m) else get_clock u m)
unfolding get_clock join_entry
get_clock-join_entry u t c m =
    ground (arith, find-insert u t c m, find-insert u t (max c (get_clock t m)) m)

pub IsClock-mono : (lo hi : ℕ) (m : VectorClock) → lo ≤ hi → IsClock hi m → IsClock lo m
IsClock-mono lo hi [] h w = tt
IsClock-mono lo hi ((t, c) ∷ m) h w = (omega arith, w.1, w.2)

-- `Join` takes the larger timestamp of every thread.
pub get_clock-join :
    (u lo : ℕ) (m other : VectorClock)
    → IsClock lo other
    → get_clock u (join m other) ≡ max (get_clock u m) (get_clock u other)
unfolding join
get_clock-join u lo m [] w = omega (arith, get_clock-nil u)
get_clock-join u lo m ((t, c) ∷ other) w = ground (
  arith,
  get_clock-join u (suc t) (join_entry m t c) other w.2,
  get_clock-join_entry u t c m,
  get_clock-cons u t c other,
  get_clock_below (suc t) t other w.2,
)

pub IsClock-set_clock :
    (lo t c : ℕ) (m : VectorClock) → lo ≤ t → 1 ≤ c → IsClock lo m → IsClock lo (set_clock t c m)
unfolding set_clock insert
IsClock-set_clock lo t c [] h p w = (h, p, tt)
IsClock-set_clock lo t c ((u, d) ∷ m) h p w = ground (arith, IsClock-set_clock (suc u) t c m)

pub IsClock-increment :
    (t : ℕ) (m : VectorClock) → get_clock t m + 1 < 2 ^ 64 → IsClock 0 m → IsClock 0 (increment t m)
unfolding get_clock increment set_clock
IsClock-increment t m h w =
    ground (arith, IsClock-set_clock 0 t 1 m, IsClock-set_clock 0 t (u64 (get_clock t m + 1)) m)

IsClock-join_entry :
    (t c : ℕ) (m : VectorClock) → 1 ≤ c → IsClock 0 m → IsClock 0 (join_entry m t c)
unfolding join_entry set_clock get_clock
IsClock-join_entry t c m p w =
    ground (arith, IsClock-set_clock 0 t c m, IsClock-set_clock 0 t (max c (get_clock t m)) m)

pub IsClock-join :
    (lo : ℕ) (m other : VectorClock) → IsClock 0 m → IsClock lo other → IsClock 0 (join m other)
unfolding join
IsClock-join lo m [] v w = v
IsClock-join lo m ((t, c) ∷ other) v w =
    IsClock-join (suc t) (join_entry m t c) other (IsClock-join_entry t c m w.1 v) w.2

-- A tick that does not wrap lowers no timestamp.
pub le-increment :
    (u t : ℕ) (m : VectorClock)
    → get_clock t m + 1 < 2 ^ 64
    → get_clock u m ≤ get_clock u (increment t m)
le-increment u t m h = ground (arith, get_clock-increment u t m)

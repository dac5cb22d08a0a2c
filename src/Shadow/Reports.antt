-- ===== src/Shadow/Reports.antt =====
-- What the report loop of the detectors over a clock yields.
use data_race_detectors.Base.{
  ℕ, suc, ◌≡◌, refl, sym, ap, ◌∙◌, Bool, true, false, not, ◌&&◌, ◌||◌, List, [], ◌∷◌, ◌++◌, ltb,
  ◌==◌, if◌then◌else◌, Map, arith,
}
use mathlib.Core.List.{append-nil, append_assoc}
use data_race_detectors.Clock.{VectorClock, IsClock, get_clock}
use data_race_detectors.Clock.Laws.{get_clock-nil, get_clock-cons, get_clock_below}
use data_race_detectors.Clock.Order.{◌⊑◌}
use data_race_detectors.Shadow.{RaceEventType, Report, Access, report_clock}

-- A clock that is below the current one yields no report.
pub report_clock_ordered :
    (addr : ℕ) (a : Access) (vc : VectorClock) (kind : RaceEventType) (table : Map ℕ) (lo : ℕ)
    (m : VectorClock)
    → IsClock lo m
    → m ⊑ vc
    → report_clock addr a vc kind table m ≡ []
unfolding report_clock
report_clock_ordered addr a vc kind table lo [] w h = refl
report_clock_ordered addr a vc kind table lo ((u, c) ∷ m) w h = ground (
  arith,
  h u,
  get_clock-cons u u c m,
  report_clock_ordered addr a vc kind table (suc u) m w.2
      (λ t. ground (arith, h t, get_clock-cons t u c m, get_clock_below (suc u) t m w.2)),
)

-- Whether a report names `u` as the thread of the earlier access.
abbrev pub names : ℕ → List Report → Bool
names u [] = false
names u (r ∷ rs) = if r.t0 == u then true else names u rs

-- The loop reports exactly the other threads whose timestamp the current clock has not reached.
pub names-report_clock :
    (addr : ℕ) (a : Access) (vc : VectorClock) (kind : RaceEventType) (table : Map ℕ) (lo u : ℕ)
    (m : VectorClock)
    → IsClock lo m
    → names u (report_clock addr a vc kind table m)
      ≡ (not (a.tid == u) && ltb (get_clock u vc) (get_clock u m))
unfolding report_clock
names-report_clock addr a vc kind table lo u [] w = ground (arith, get_clock-nil u)
names-report_clock addr a vc kind table lo u ((t, c) ∷ m) w = ground (
  arith,
  get_clock-cons u t c m,
  get_clock_below (suc t) u m w.2,
  names-report_clock addr a vc kind table (suc t) u m w.2,
)

pub names-append : (u : ℕ) (rs ss : List Report) → names u (rs ++ ss) ≡ (names u rs || names u ss)
names-append u [] ss = refl
names-append u (r ∷ rs) ss = ground (arith, names-append u rs ss)

-- A step appends reports to the list, and what it appends names the threads that pass the test.
abbrev pub Adds : (ℕ → Bool) → List Report → List Report → Type 0
Adds p rs rs' = (new : List Report) × (rs' ≡ rs ++ new) × ((u : ℕ) → names u new ≡ p u)

pub Adds-none : (rs : List Report) → Adds (λ u. false) rs rs
Adds-none rs = ([], sym (append-nil rs), λ u. refl)

pub Adds-trans :
    (p q : ℕ → Bool) (rs ss ts : List Report)
    → Adds p rs ss
    → Adds q ss ts
    → Adds (λ u. p u || q u) rs ts
Adds-trans p q rs ss ts (a, e, f) (b, g, h) = (
  a ++ b,
  g ∙ ap (λ xs. xs ++ b) e ∙ append_assoc rs a b,
  λ u. names-append u a b ∙ rw (f u, h u) refl,
)

pub Adds-ext :
    (p q : ℕ → Bool) (rs ss : List Report) → ((u : ℕ) → p u ≡ q u) → Adds p rs ss → Adds q rs ss
Adds-ext p q rs ss same (a, e, f) = (a, e, λ u. f u ∙ same u)

pub Adds-names :
    (p : ℕ → Bool) (rs ss : List Report) → Adds p rs ss → (u : ℕ) → names u ss ≡ (names u rs || p u)
Adds-names p rs ss (a, e, f) u = rw (e, names-append u rs a, f u) refl

-- A step that reports what one condition and one list say.
pub Adds-if :
    (b : Bool) (p : ℕ → Bool) (rs new ss : List Report)
    → ss ≡ (if b then rs ++ new else rs)
    → ((u : ℕ) → names u new ≡ p u)
    → Adds (λ u. b && p u) rs ss
Adds-if true p rs new ss e f = (new, e, f)
Adds-if false p rs new ss e f = ([], e ∙ sym (append-nil rs), λ u. refl)

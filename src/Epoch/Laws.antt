-- ===== src/Epoch/Laws.antt =====
-- The tests of src/pintool/epoch.cpp against the vector clock of src/core/vector_clock.cc.
use data_race_detectors.Base.{ℕ, ◌≤◌, ◌≡◌, ◌↔◌, true, false, [], ◌∷◌, arith}
use data_race_detectors.Clock
use data_race_detectors.Clock.{VectorClock, IsClock, get_clock}
use data_race_detectors.Clock.Order.{seek-true, seek_found}
use data_race_detectors.Epoch.{Epoch, happens_before, same, less}

-- For a timestamp other than 0 and a well-formed clock, Epoch::HappensBefore gives the answer of
-- VectorClock::HappensBefore for the clock with that one entry.
pub happens_before-singleton :
    (e : Epoch) (lo : ℕ) (vc : VectorClock)
    → 1 ≤ e.clock
    → IsClock lo vc
    → happens_before e vc ≡ Clock.happens_before ((e.tid, e.clock) ∷ []) vc
unfolding happens_before Clock.happens_before
happens_before-singleton e lo vc p w =
    ground (arith, seek-true e.tid e.clock lo vc w p, seek_found e.tid e.clock vc)

pub same_iff : (e f : Epoch) → (same e f ≡ true) ↔ (e ≡ f)
unfolding same
same_iff e f = (λ h. ground arith, λ h. ground arith)

-- The order on epochs is total: one of the two is less, or they are the same.
pub less_total : (e f : Epoch) → same e f ≡ false → less e f ≡ false → less f e ≡ true
unfolding same less
less_total e f p q = ground arith

pub less_trans : (e f g : Epoch) → less e f ≡ true → less f g ≡ true → less e g ≡ true
unfolding less
less_trans e f g p q = ground arith

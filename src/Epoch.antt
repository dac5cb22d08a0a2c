-- ===== src/Epoch.antt =====
-- src/pintool/epoch.h and epoch.cpp: one entry of a vector clock, which stands for the access of one
-- thread at one timestamp.
pub mod Laws
use data_race_detectors.Base.{ℕ, Bool, true, false, ◌&&◌, ◌||◌, not, ltb, leb, ◌==◌, arith}
use data_race_detectors.Clock.{VectorClock, get_clock}

pub record Epoch : Type 0 where
  pub tid : ℕ
  pub clock : ℕ

abbrev pub new_epoch : Epoch
new_epoch = record { tid = 0; clock = 0 }

unfoldable pub is_initial : Epoch → Bool
is_initial e = e.tid == 0 && e.clock == 0

-- `Equal`: the timestamps are compared, and the thread that holds `vc` is not.
unfoldable pub equal : Epoch → VectorClock → Bool
unfolding is_initial
equal e vc = not (is_initial e) && e.clock == get_clock e.tid vc

unfoldable pub happens_before : Epoch → VectorClock → Bool
happens_before e vc = leb e.clock (get_clock e.tid vc)

unfoldable pub make : ℕ → ℕ → Epoch
make t c = record { tid = t; clock = c }

unfoldable pub same : Epoch → Epoch → Bool
same e f = e.tid == f.tid && e.clock == f.clock

unfoldable pub less : Epoch → Epoch → Bool
less e f = ltb e.tid f.tid || (not (ltb f.tid e.tid) && ltb e.clock f.clock)

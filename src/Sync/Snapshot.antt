-- ===== src/Sync/Snapshot.antt =====
-- What an epoch of src/pintool/epoch.cpp stands for, through the events of
-- src/pintool/detector1.cpp: the whole clock that the thread had at its access.
use data_race_detectors.Base.{
  ℕ, sym, ◌⊎◌, ◌≤◌, ◌<◌, ◌≡◌, ap, subst, inl, inr, ◌≢◌, some, [], Ensures, Ensures-zip, find,
  Bool-cases, arith,
}
use native.Mathlib.Decide.{ℕ_discrete, dec_le}
use data_race_detectors.Clock
use data_race_detectors.Clock.{VectorClock, IsClock, get_clock, increment, join}
use data_race_detectors.Clock.Laws.{
  get_clock-nil, get_clock-increment, get_clock-join, le-increment, IsClock-increment,
}
use data_race_detectors.Clock.Order.{◌⊑◌, happens_before_iff}
use data_race_detectors.Epoch
use data_race_detectors.Epoch.{Epoch}
use data_race_detectors.Sync.{Sync, first_clock}
use data_race_detectors.Sync.Clocks.{AllClocks, AllClocks-map, AllClocks-zip, thread_clock}
use data_race_detectors.Sync.Keep.{Room, Good, Full}
use data_race_detectors.Sync.Runs.{Event, start, step, starts, Ticks, Starts, step-AllClocks}
use data_race_detectors.Sync.Grows.{Grows, step-Grows}

-- No stored timestamp is about to wrap.
abbrev pub Roomy : Sync → Type 0
Roomy = AllClocks Room

-- The states that follow `s` in a run in which thread `t` is not started again.
pub data Later (t : ℕ) (s : Sync) : Sync → Type 0 where
  here : Later t s s
  next :
      {u v : Sync}
      → Later t s u
      → (e : Event) → Roomy u
      → starts e ≢ some t
      → step e u ≡ some v
      → Later t s v

-- A clock that has reached the timestamp `c` of thread `t` has all of `V`.
abbrev pub Covers : ℕ → ℕ → VectorClock → VectorClock → Type 0
Covers t c V vc = c ≤ get_clock t vc → V ⊑ vc

-- Only clocks above `V` have reached timestamp `c` of thread `t`, whose own clock is one of them.
pub record Snapshot (t c : ℕ) (V : VectorClock) (s : Sync) : Type 0 where
  pub clocks : AllClocks (Good (Covers t c V)) s
  pub own : VectorClock
  pub running : find t s.curr_vc_map ≡ some own
  pub above : V ⊑ own

module _ (t c : ℕ) (V : VectorClock) (pos : 1 ≤ c) where
  Covers-nil : Covers t c V []
  Covers-nil h = absurd (omega (arith, get_clock-nil t))

  Covers-join :
      (v w : VectorClock) → IsClock 0 w → Covers t c V v → Covers t c V w → Covers t c V (join v w)
  Covers-join v w k p q h x = elim (dec_le c (get_clock t v)) [
    | yes y ↦ ground (arith, get_clock-join x 0 v w k, p y x)
    | no n ↦
        let z : c ≤ get_clock t w = ground (arith, get_clock-join t 0 v w k) in
        ground (arith, get_clock-join x 0 v w k, q z x)
  ]

  Covers-first : (u : ℕ) → u ≢ t → Good (Covers t c V) (first_clock u)
  Covers-first u ne = (
    IsClock-increment u [] (omega (arith, get_clock-nil u)) tt,
    λ h. absurd (ground (arith, get_clock-increment t u [], get_clock-nil t)),
  )

  Covers-tick :
      (u : ℕ) (vc : VectorClock)
      → Full (Covers t c V) vc
      → (u ≡ t → V ⊑ vc)
      → Covers t c V (increment u vc)
  Covers-tick u vc f own h x = elim (ℕ_discrete u t) [
    | yes e ↦ omega (arith, own e x, le-increment x u vc (f.1 u))
    | no ne ↦
        let z : c ≤ get_clock t vc = ground (arith, get_clock-increment t u vc) in
        omega (arith, f.2 z x, le-increment x u vc (f.1 u))
  ]

  Covers-Starts : (e : Event) → starts e ≢ some t → Starts (Covers t c V) e
  Covers-Starts (start u parent) ne = Covers-first u (λ e. ne (ap some e))
  Covers-Starts _ ne = tt

  Covers-Ticks : (e : Event) (s : Sync) → Snapshot t c V s → Ticks (Covers t c V) (Covers t c V) e s
  Covers-Ticks e s h u _ vc own at le f = Covers-tick u vc f (λ same x.
      omega (arith, le x, subst (λ w. get_clock x V ≤ get_clock x w) (same_own same) (h.above x)))
    where
      same_own : u ≡ t → h.own ≡ own
      same_own p = ground (arith, h.running, subst (λ i. find i s.curr_vc_map ≡ some own) p at)

  pub step-Snapshot :
      (e : Event) (s : Sync)
      → Roomy s
      → starts e ≢ some t
      → Snapshot t c V s
      → Ensures (Snapshot t c V) (step e s)
  step-Snapshot e s r ne h =
      Ensures-zip (AllClocks (Good (Covers t c V))) (Grows t s) (Snapshot t c V) both (step e s)
        (step-AllClocks (Covers t c V) (Covers t c V) (λ _ p. p) Covers-nil Covers-join e s full
          (Covers-Starts e ne) (Covers-Ticks e s h))
        (step-Grows t e s (AllClocks-map _ _ (λ _ f. (f.0, f.1, tt)) s full) ne)
    where
      full : AllClocks (Full (Covers t c V)) s
      full = AllClocks-zip Room _ _ (λ _ room g. (g.0, room, g.1)) s r h.clocks

      both : (s' : Sync) → AllClocks (Good (Covers t c V)) s' → Grows t s s' → Snapshot t c V s'
      both s' g grows =
          let (own, at, le) = grows h.own h.running in
          record {
            clocks = g;
            own = own;
            running = at;
            above = λ x. omega (arith, h.above x, le x);
          }

  -- A snapshot stays one through every later event.
  pub Later-Snapshot : {s u : Sync} → Snapshot t c V s → Later t s u → Snapshot t c V u
  Later-Snapshot h here = h
  Later-Snapshot h (next {u} l e r ne k) =
      subst (Ensures (Snapshot t c V)) k (step-Snapshot e u r ne (Later-Snapshot h l))

-- Thread `t` has the clock `V`, and every stored clock is `V` or has not reached its timestamp of `t`.
abbrev pub IsFresh : ℕ → VectorClock → VectorClock → Type 0
IsFresh t V vc = IsClock 0 vc × ((vc ≡ V) ⊎ (get_clock t vc < get_clock t V))

pub record Fresh (t : ℕ) (V : VectorClock) (s : Sync) : Type 0 where
  pub running : find t s.curr_vc_map ≡ some V
  pub clocks : AllClocks (IsFresh t V) s

fresh-Good : (t : ℕ) (V vc : VectorClock) → IsFresh t V vc → Good (Covers t (get_clock t V) V) vc
fresh-Good t V vc (c, inl e) = (c, λ _. subst (λ w. V ⊑ w) (sym e) (λ k. omega arith))
fresh-Good t V vc (c, inr lt) = (c, λ h. absurd (omega arith))

Fresh-Snapshot : (t : ℕ) (V : VectorClock) (s : Sync) → Fresh t V s → Snapshot t (get_clock t V) V s
Fresh-Snapshot t V s h = record {
  clocks = AllClocks-map _ _ (fresh-Good t V) s h.clocks;
  own = V;
  running = h.running;
  above = λ k. omega arith;
}

Fresh-clock : (t : ℕ) (V : VectorClock) (s : Sync) → Fresh t V s → IsClock 0 V
Fresh-clock t V s h = (thread_clock (IsFresh t V) t s h.clocks h.running).0

epoch-eq :
    (t : ℕ) (V vc : VectorClock)
    → Good (Covers t (get_clock t V) V) vc
    → IsClock 0 V
    → Epoch.happens_before (Epoch.make t (get_clock t V)) vc ≡ Clock.happens_before V vc
unfolding Epoch.happens_before Epoch.make
epoch-eq t V vc g c = elim (dec_le (get_clock t V) (get_clock t vc)) [
  | yes le ↦ ground (arith, (happens_before_iff V vc c g.0).1 (g.1 le))
  | no gt ↦ elim (Bool-cases (Clock.happens_before V vc)) [
    | inl y ↦ absurd (gt ((happens_before_iff V vc c g.0).0 y t))
    | inr n ↦ ground arith
  ]
]

-- If a thread accesses memory in a state where every other stored clock is the same or has not
-- reached its timestamp, which is not 0, then after any later events, in which its id is not
-- started again and before which no timestamp is about to wrap, `Epoch::HappensBefore` on the
-- epoch of that access gives for the clock of any thread the answer of
-- `VectorClock::HappensBefore` on the whole clock of the access.
pub epoch-happens_before :
    (t u : ℕ) (V vc : VectorClock) (s s' : Sync)
    → 1 ≤ get_clock t V
    → Fresh t V s
    → Later t s s'
    → find u s'.curr_vc_map ≡ some vc
    → Epoch.happens_before (Epoch.make t (get_clock t V)) vc ≡ Clock.happens_before V vc
epoch-happens_before t u V vc s s' pos h l e = epoch-eq t V vc k (Fresh-clock t V s h)
  where
    k : Good (Covers t (get_clock t V) V) vc
    k =
        thread_clock _ u s'
          (Later-Snapshot t (get_clock t V) V pos (Fresh-Snapshot t V s h) l).clocks e

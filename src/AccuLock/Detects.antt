-- ===== src/AccuLock/Detects.antt =====
-- The races that src/pintool/acculock.cpp finds between two accesses of a unit.
use native.Mathlib.Decide.{ℕ_discrete}
use data_race_detectors.Base.{
  ℕ, ◌<◌, ◌≡◌, refl, ◌≢◌, ◌∙◌, Bool, true, false, [], ◌∷◌, Map, find, find-insert, some, arith,
}
use data_race_detectors.Clock.{VectorClock, get_clock}
use data_race_detectors.Epoch
use data_race_detectors.Lockset.{Lockset, is_disjoint}
use data_race_detectors.Shadow.{RaceEventType, event_write, Work, Access, read_access}
use data_race_detectors.Shadow.Reports.{names}
use data_race_detectors.AccuLock.{
  Elp, AccuLockMeta, bump_wr, check, touch_reader, reader_at, skip_read, process_read,
  process_write, record_read, record_write,
}
use data_race_detectors.AccuLock.Reports.{
  unprotected, any_unprotected, names-accu_read, names-accu_write,
}

any_there :
    (t : ℕ) (vc : VectorClock) (held : Lockset) (u : ℕ) (e : Elp) (m : Map Elp)
    → find u m ≡ some e
    → unprotected t vc held u e ≡ true
    → any_unprotected t vc held u m ≡ true
unfolding find
any_there t vc held u e [] f h = cc
any_there t vc held u e ((v, d) ∷ m) f h = elim (ℕ_discrete v u) [
  | yes p ↦ let same : d ≡ e = ground arith in ground arith
  | no q ↦ let there = any_there t vc held u e m (ground arith) h in ground arith
]

unprotected_epoch :
    (t u c : ℕ) (vc : VectorClock) (s held : Lockset)
    → t ≢ u
    → get_clock u vc < c
    → is_disjoint s held ≡ true
    → unprotected t vc held u (record { epoch = Epoch.make u c; locks = s }) ≡ true
unfolding Epoch.make
unprotected_epoch t u c vc s held ne lt d = ground arith

after_write :
    (track : Bool) (vc : VectorClock) (held : Lockset) (u i : ℕ) (w : Work AccuLockMeta)
    → Epoch.equal w.meta.writer_elp.epoch vc ≡ false
    → let m = (process_write track vc held u i w).meta in
      (m.writer_elp ≡ record { epoch = Epoch.make u (get_clock u vc); locks = held })
      × (m.reader_elp_map ≡ [])
unfolding process_write record_write
after_write track vc held u i w n = rw (n, process_write) (refl, refl)

stale : (u c : ℕ) (vc : VectorClock) → get_clock u vc < c → Epoch.equal (Epoch.make u c) vc ≡ false
unfolding Epoch.equal Epoch.make
stale u c vc lt = ground arith

not_skipped :
    (t : ℕ) (vc : VectorClock) (m : AccuLockMeta)
    → m.reader_elp_map ≡ []
    → Epoch.equal m.writer_elp.epoch vc ≡ false
    → skip_read vc t m ≡ false
unfolding skip_read reader_at find Epoch.equal
not_skipped t vc m e f = rw e f

-- A write of thread `u` in a new epoch is reported when another thread `t`, whose clock has not
-- reached it, reads the unit next and the two held no common lock.
pub accu_read-accu_write :
    (track : Bool) (first second : VectorClock) (s held : Lockset) (u t i j : ℕ)
    (w : Work AccuLockMeta)
    → Epoch.equal w.meta.writer_elp.epoch first ≡ false
    → t ≢ u
    → get_clock u second < get_clock u first
    → is_disjoint s held ≡ true
    → names u (process_read track second held t j (process_write track first s u i w)).reports
      ≡ true
accu_read-accu_write track first second s held u t i j w n ne lt d =
    let (e, r) = after_write track first s u i w n in
    names-accu_read track second held t j u _
    ∙ rw
        (
          not_skipped t second (process_write track first s u i w).meta r
              (rw e (stale u (get_clock u first) second lt)),
          e,
          unprotected_epoch t u (get_clock u first) second s held ne lt d,
        )
        (ground arith)

-- A write of thread `u` in a new epoch is reported when another thread `t`, whose clock has not
-- reached it, writes the unit next and the two held no common lock.
pub accu_write-accu_write :
    (track : Bool) (first second : VectorClock) (s held : Lockset) (u t i j : ℕ)
    (w : Work AccuLockMeta)
    → Epoch.equal w.meta.writer_elp.epoch first ≡ false
    → t ≢ u
    → get_clock u second < get_clock u first
    → is_disjoint s held ≡ true
    → names u (process_write track second held t j (process_write track first s u i w)).reports
      ≡ true
accu_write-accu_write track first second s held u t i j w n ne lt d =
    let (e, r) = after_write track first s u i w n in
    names-accu_write track second held t j u _
    ∙ rw (e, r)
        (ground (
          arith,
          unprotected_epoch t u (get_clock u first) second s held ne lt d,
          stale u (get_clock u first) second lt,
        ))

check_keeps_elp :
    (a : Access) (vc : VectorClock) (held : Lockset) (e : Elp) (inst : ℕ) (kind : RaceEventType)
    (w : Work AccuLockMeta)
    → (check bump_wr a vc held e inst kind w).meta.writer_elp ≡ w.meta.writer_elp
unfolding check
check_keeps_elp a vc held e inst kind w = ground arith

after_read :
    (track : Bool) (vc : VectorClock) (held : Lockset) (u i : ℕ) (w : Work AccuLockMeta)
    → skip_read vc u w.meta ≡ false
    → let m = (process_read track vc held u i w).meta in
      (m.writer_elp ≡ w.meta.writer_elp)
      × (find u m.reader_elp_map
          ≡ some (record { epoch = Epoch.make u (get_clock u vc); locks = held }))
unfolding process_read record_read touch_reader
after_read track vc held u i w n =
    let k =
      check_keeps_elp (read_access u i) vc held w.meta.writer_elp w.meta.writer_inst event_write
        (touch_reader u w) in
    rw (n, process_read) (ground (arith, k), find-insert u u _ _ ∙ ground arith)

-- A read of thread `u` in a new epoch is reported when another thread `t`, whose clock has not
-- reached it, writes the unit next in an epoch other than the last write's and the two held no
-- common lock.
pub accu_write-accu_read :
    (track : Bool) (first second : VectorClock) (s held : Lockset) (u t i j : ℕ)
    (w : Work AccuLockMeta)
    → skip_read first u w.meta ≡ false
    → Epoch.equal w.meta.writer_elp.epoch second ≡ false
    → t ≢ u
    → get_clock u second < get_clock u first
    → is_disjoint s held ≡ true
    → names u (process_write track second held t j (process_read track first s u i w)).reports
      ≡ true
accu_write-accu_read track first second s held u t i j w n m ne lt d =
    let (e, r) = after_read track first s u i w n in
    names-accu_write track second held t j u _
    ∙ rw
        (
          e,
          m,
          any_there t second held u _ _ r
              (unprotected_epoch t u (get_clock u first) second s held ne lt d),
        )
        (ground arith)

-- A write of thread `u` in a new epoch is reported when another thread `t`, whose clock has not
-- reached it, reads or writes the unit next and the two held no common lock.
pub accu_detects :
    (track : Bool) (first second : VectorClock) (s held : Lockset) (u t i j : ℕ)
    (w : Work AccuLockMeta)
    → Epoch.equal w.meta.writer_elp.epoch first ≡ false
    → t ≢ u
    → get_clock u second < get_clock u first
    → is_disjoint s held ≡ true
    → let v = process_write track first s u i w in
      (names u (process_read track second held t j v).reports ≡ true)
      × (names u (process_write track second held t j v).reports ≡ true)
accu_detects track first second s held u t i j w n ne lt d = (
  accu_read-accu_write track first second s held u t i j w n ne lt d,
  accu_write-accu_write track first second s held u t i j w n ne lt d,
)

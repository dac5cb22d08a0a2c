-- ===== src/FastTrack/Reads.antt =====
-- What a read reports in src/pintool/fasttrack.cpp.
use data_race_detectors.Base.{
  ℕ, ◌≡◌, inl, inr, Bool, not, ◌&&◌, List, ◌++◌, if◌then◌else◌, refl, ltb, ◌==◌, Bool-cases, arith,
}
use data_race_detectors.Clock.{VectorClock, get_clock}
use data_race_detectors.Epoch
use data_race_detectors.Epoch.{Epoch}
use data_race_detectors.Shadow.{
  report_epoch, Counters, event_write, Work, Access, read_access, RaceEventType, Report,
}
use data_race_detectors.Shadow.Reports.{names, Adds, Adds-none, Adds-ext, Adds-if}
use data_race_detectors.FastTrack.{FastTrackMeta, race, check_writer, record_read, process_read}

-- An earlier access of `u` at timestamp `c` that the clock of thread `t` has not reached.
abbrev pub unordered : ℕ → VectorClock → ℕ → ℕ → Bool
unordered t vc u c = not (t == u) && ltb (get_clock u vc) c

abbrev pub of_epoch : ℕ → VectorClock → ℕ → Epoch → Bool
of_epoch t vc u e = e.tid == u && unordered t vc u e.clock

names-report_epoch :
    (addr : ℕ) (a : Access) (vc : VectorClock) (e : Epoch) (inst : ℕ) (kind : RaceEventType) (u : ℕ)
    → names u (report_epoch addr a vc e inst kind) ≡ of_epoch a.tid vc u e
unfolding report_epoch
names-report_epoch addr a vc e inst kind u = ground arith

late :
    (t : ℕ) (vc : VectorClock) (e : Epoch) (u : ℕ)
    → (not (Epoch.happens_before e vc) && of_epoch t vc u e) ≡ of_epoch t vc u e
unfolding Epoch.happens_before
late t vc e u = ground arith

-- What a check of one epoch reports.
pub Adds-epoch :
    (addr : ℕ) (a : Access) (vc : VectorClock) (e : Epoch) (inst : ℕ) (kind : RaceEventType)
    (rs ss : List Report)
    → ss
      ≡ (if not (Epoch.happens_before e vc) then rs ++ report_epoch addr a vc e inst kind else rs)
    → Adds (λ u. of_epoch a.tid vc u e) rs ss
Adds-epoch addr a vc e inst kind rs ss h = Adds-ext _ _ rs ss (late a.tid vc e) (
    Adds-if (not (Epoch.happens_before e vc)) _ rs _ ss h
      (names-report_epoch addr a vc e inst kind))

pub Adds-check_writer :
    (bump : Counters → Counters) (a : Access) (vc : VectorClock) (w : Work FastTrackMeta)
    → Adds
        (λ u. of_epoch a.tid vc u w.meta.writer_epoch)
        w.reports
        (check_writer bump a vc w).reports
unfolding check_writer race
Adds-check_writer bump a vc w =
    let m = w.meta in
    Adds-epoch m.base.addr a vc m.writer_epoch m.writer_inst event_write w.reports _
      (elim (Bool-cases (not (Epoch.happens_before m.writer_epoch vc))) [
        | inl y ↦ rw (y, check_writer) refl
        | inr n ↦ rw (n, check_writer) refl
      ])

pub Adds-fast_read :
    (track : Bool) (vc : VectorClock) (t inst : ℕ) (w : Work FastTrackMeta)
    → Adds
        (λ u. not (Epoch.equal w.meta.reader_epoch vc) && of_epoch t vc u w.meta.writer_epoch)
        w.reports
        (process_read track vc t inst w).reports
unfolding process_read record_read
Adds-fast_read track vc t inst w = elim (Bool-cases (Epoch.equal w.meta.reader_epoch vc)) [
  | inl y ↦ rw (y, process_read) (Adds-none w.reports)
  | inr n ↦ rw (n, process_read) (Adds-check_writer _ (read_access t inst) vc w)
]

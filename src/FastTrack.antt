-- ===== src/FastTrack.antt =====
-- src/pintool/fasttrack.h and fasttrack.cpp: an epoch for the last write of a unit, and for its reads
-- an epoch that gives way to a vector clock when they are concurrent.
pub mod Reads
pub mod Writes
pub mod Missed
use data_race_detectors.Base.{
  ℕ, ◌+◌, Bool, true, false, not, ◌&&◌, List, [], ◌∷◌, ◌++◌, ltb, ◌==◌, if◌then◌else◌, Map, insert,
  arith,
}
use data_race_detectors.Clock
use data_race_detectors.Clock.{VectorClock, get_clock, set_clock}
use data_race_detectors.Epoch
use data_race_detectors.Epoch.{Epoch, new_epoch}
use data_race_detectors.Shadow.{
  Counters, RaceEventType, event_read, event_write, Meta, new_meta, null, inst_at, track_inst,
  racy_insts, Report, Work, Access, read_access, write_access, race_with, report_clock,
  report_epoch,
}

pub record FastTrackMeta : Type 0 where
  pub base : Meta
  pub read_shared : Bool
  pub writer_epoch : Epoch
  pub reader_epoch : Epoch
  pub reader_vc : VectorClock
  pub writer_inst : ℕ
  pub reader_inst_table : Map ℕ

abbrev pub new_fast_track_meta : ℕ → FastTrackMeta
new_fast_track_meta addr = record {
  base = new_meta addr;
  read_shared = false;
  writer_epoch = new_epoch;
  reader_epoch = new_epoch;
  reader_vc = [];
  writer_inst = null;
  reader_inst_table = [];
}

-- A race marks the unit and is counted by `bump`.
unfoldable pub race : (Counters → Counters) → List Report → Work FastTrackMeta → Work FastTrackMeta
race bump rs w =
    let m = w.meta in
    record {
      meta = record m { base = record (m.base) { racy = true } };
      counters = bump w.counters;
      reports = w.reports ++ rs;
    }

abbrev bump_wr : Counters → Counters
bump_wr c = record c { detect_wr = c.detect_wr + 1 }

abbrev pub bump_ww : Counters → Counters
bump_ww c = record c { detect_ww = c.detect_ww + 1 }

abbrev bump_rw : Counters → Counters
bump_rw c = record c { detect_rw = c.detect_rw + 1 }

unfoldable pub check_writer :
    (Counters → Counters) → Access → VectorClock → Work FastTrackMeta → Work FastTrackMeta
check_writer bump a vc w =
    let m = w.meta in
    if not (Epoch.happens_before m.writer_epoch vc)
    then race bump (report_epoch m.base.addr a vc m.writer_epoch m.writer_inst event_write) w
    else w

unfoldable pub check_readers : Access → VectorClock → Work FastTrackMeta → Work FastTrackMeta
check_readers a vc w =
    let m = w.meta in
    if not m.read_shared && not (Epoch.happens_before m.reader_epoch vc)
    then race bump_rw
        (report_epoch m.base.addr a vc m.reader_epoch
          (inst_at m.reader_epoch.tid m.reader_inst_table) event_read)
        w
    else if m.read_shared && not (Clock.happens_before m.reader_vc vc)
    then (let r =
          race bump_rw (report_clock m.base.addr a vc event_read m.reader_inst_table m.reader_vc)
            w in
        let k = r.meta in record r { meta = record k { read_shared = false } })
    else w

unfoldable pub record_read : Bool → VectorClock → ℕ → ℕ → Work FastTrackMeta → Work FastTrackMeta
record_read track vc t inst w =
    let k = w.meta in
    let c = w.counters in
    record w {
      meta = record k {
        base = track_inst track inst k.base;
        read_shared = if not (Epoch.happens_before k.reader_epoch vc) then true else k.read_shared;
        reader_epoch = Epoch.make t (get_clock t vc);
        reader_vc = set_clock t (get_clock t vc) k.reader_vc;
        reader_inst_table = insert t inst k.reader_inst_table;
      };
      counters = record c { update_r = c.update_r + 1 };
    }

unfoldable pub process_read : Bool → VectorClock → ℕ → ℕ → Work FastTrackMeta → Work FastTrackMeta
process_read track vc t inst w =
    let c = w.counters in
    if Epoch.equal w.meta.reader_epoch vc
    then record w { counters = record c { skip_r_c = c.skip_r_c + 1 } }
    else record_read track vc t inst (check_writer bump_wr (read_access t inst) vc w)

unfoldable pub record_write : Bool → VectorClock → ℕ → ℕ → Work FastTrackMeta → Work FastTrackMeta
record_write track vc t inst w =
    let k = w.meta in
    let c = w.counters in
    record w {
      meta = record k {
        base = track_inst track inst k.base;
        writer_epoch = Epoch.make t (get_clock t vc);
        writer_inst = inst;
      };
      counters = record c { update_r = c.update_r + 1 };
    }

unfoldable pub process_write : Bool → VectorClock → ℕ → ℕ → Work FastTrackMeta → Work FastTrackMeta
process_write track vc t inst w =
    let c = w.counters in
    let a = write_access t inst in
    if not (Epoch.is_initial w.meta.writer_epoch) && Epoch.equal w.meta.writer_epoch vc
    then record w { counters = record c { skip_w_c = c.skip_w_c + 1 } }
    else record_write track vc t inst (check_readers a vc (check_writer bump_ww a vc w))

unfoldable pub process_free : Bool → FastTrackMeta → List ℕ
process_free track m = racy_insts track m.base

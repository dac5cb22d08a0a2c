-- ===== src/Djit.antt =====
-- src/pintool/djit.h and djit.cpp: a vector clock of the reads and one of the writes of each unit.
pub mod Laws
pub mod History
use data_race_detectors.Base.{
  ℕ, ◌+◌, Bool, true, false, not, List, [], ◌∷◌, ◌++◌, if◌then◌else◌, Map, insert, arith,
}
use data_race_detectors.Clock
use data_race_detectors.Clock.{VectorClock, get_clock, set_clock}
use data_race_detectors.Shadow.{
  Counters, RaceEventType, event_read, event_write, Report, Meta, new_meta, track_inst, racy_insts,
  Work, Access, read_access, write_access, report_clock,
}

pub record DjitMeta : Type 0 where
  pub base : Meta
  pub writer_vc : VectorClock
  pub reader_vc : VectorClock
  pub writer_inst_table : Map ℕ
  pub reader_inst_table : Map ℕ

abbrev pub new_djit_meta : ℕ → DjitMeta
new_djit_meta addr = record {
  base = new_meta addr;
  writer_vc = [];
  reader_vc = [];
  writer_inst_table = [];
  reader_inst_table = [];
}

-- A clock of earlier accesses that does not happen before the current one marks the unit as racy
-- and is reported.
unfoldable pub check :
    Access → VectorClock → VectorClock → RaceEventType → Map ℕ → Work DjitMeta → Work DjitMeta
check a vc earlier kind table w =
    let m = w.meta in
    if not (Clock.happens_before earlier vc)
    then record w {
      meta = record m { base = record (m.base) { racy = true } };
      reports = w.reports ++ report_clock m.base.addr a vc kind table earlier;
    }
    else w

-- The access is counted as redundant and processed all the same.
unfoldable pub count_read : VectorClock → Work DjitMeta → Work DjitMeta
count_read vc w =
    let c = w.counters in
    record w {
      counters =
          if Clock.equal w.meta.reader_vc vc then record c { skip_r_c = c.skip_r_c + 1 } else c;
    }

unfoldable pub count_write : VectorClock → Work DjitMeta → Work DjitMeta
count_write vc w =
    let c = w.counters in
    record w {
      counters =
          if Clock.equal w.meta.writer_vc vc then record c { skip_w_c = c.skip_w_c + 1 } else c;
    }

unfoldable pub process_read : Bool → VectorClock → ℕ → ℕ → Work DjitMeta → Work DjitMeta
process_read track vc t inst w =
    let m = w.meta in
    let a = read_access t inst in
    let checked = check a vc m.writer_vc event_write m.writer_inst_table (count_read vc w) in
    let k = checked.meta in
    record checked {
      meta = record k {
        base = track_inst track inst k.base;
        reader_vc = set_clock t (get_clock t vc) k.reader_vc;
        reader_inst_table = insert t inst k.reader_inst_table;
      };
    }

unfoldable pub process_write : Bool → VectorClock → ℕ → ℕ → Work DjitMeta → Work DjitMeta
process_write track vc t inst w =
    let m = w.meta in
    let a = write_access t inst in
    let writers = check a vc m.writer_vc event_write m.writer_inst_table (count_write vc w) in
    let readers = check a vc m.reader_vc event_read m.reader_inst_table writers in
    let k = readers.meta in
    record readers {
      meta = record k {
        base = track_inst track inst k.base;
        writer_vc = set_clock t (get_clock t vc) k.writer_vc;
        writer_inst_table = insert t inst k.writer_inst_table;
      };
    }

-- The instructions that `ProcessFree` marks in the race database.
unfoldable pub process_free : Bool → DjitMeta → List ℕ
unfolding racy_insts
process_free track m = racy_insts track m.base

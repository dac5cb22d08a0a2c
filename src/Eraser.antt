-- ===== src/Eraser.antt =====
-- src/pintool/eraser.h and eraser.cpp: the locks held at the last write and at the last read of each
-- thread of a unit.
pub mod Discipline
pub mod Detects
use data_race_detectors.Base.{
  ℕ, Bool, true, false, not, ◌&&◌, List, [], ◌∷◌, ◌++◌, ◌==◌, if◌then◌else◌, Map, insert, arith,
}
use data_race_detectors.Lockset.{Lockset, is_disjoint, add, remove}
use data_race_detectors.Shadow.{
  RaceEventType, event_read, event_write, Meta, new_meta, null, inst_at, track_inst, racy_insts,
  Work, Access, read_access, write_access, race_with,
}

-- A thread with the locks that it held.
pub record Tlp : Type 0 where
  pub tid : ℕ
  pub locks : Lockset

pub record EraserMeta : Type 0 where
  pub base : Meta
  pub writer_lockset : Tlp
  pub writer_inst : ℕ
  pub reader_lockset : Map Tlp
  pub reader_inst_table : Map ℕ

abbrev pub new_eraser_meta : ℕ → EraserMeta
new_eraser_meta addr = record {
  base = new_meta addr;
  writer_lockset = record { tid = 0; locks = [] };
  writer_inst = null;
  reader_lockset = [];
  reader_inst_table = [];
}

-- The lock sets of the threads.
unfoldable pub process_lock : ℕ → Lockset → Lockset
process_lock addr held = add addr held

unfoldable pub process_unlock : ℕ → Lockset → Lockset
process_unlock addr held = remove addr held

-- An earlier access of another thread is a race if no lock was held at both.
unfoldable pub check :
    Access → Lockset → Tlp → ℕ → RaceEventType → Work EraserMeta → Work EraserMeta
check a held earlier inst kind w =
    let m = w.meta in
    if not (earlier.tid == a.tid) && is_disjoint earlier.locks held && not (inst == null)
    then record w {
      meta = record m { base = record (m.base) { racy = true } };
      reports = w.reports ++ race_with m.base.addr a earlier.tid inst kind ∷ [];
    }
    else w

-- The loop over the readers.
unfoldable pub check_readers :
    Access → Lockset → Map ℕ → Map Tlp → Work EraserMeta → Work EraserMeta
check_readers a held table [] w = w
check_readers a held table ((u, r) ∷ m) w =
    check_readers a held table m (check a held r (inst_at r.tid table) event_read w)

unfoldable pub process_read : Bool → Lockset → ℕ → ℕ → Work EraserMeta → Work EraserMeta
process_read track held t inst w =
    let m = w.meta in
    let checked = check (read_access t inst) held m.writer_lockset m.writer_inst event_write w in
    let k = checked.meta in
    record checked {
      meta = record k {
        base = track_inst track inst k.base;
        reader_lockset = insert t (record { tid = t; locks = held }) k.reader_lockset;
        reader_inst_table = insert t inst k.reader_inst_table;
      };
    }

unfoldable pub process_write : Bool → Lockset → ℕ → ℕ → Work EraserMeta → Work EraserMeta
process_write track held t inst w =
    let m = w.meta in
    let a = write_access t inst in
    let writer = check a held m.writer_lockset m.writer_inst event_write w in
    let checked = check_readers a held m.reader_inst_table m.reader_lockset writer in
    let k = checked.meta in
    record checked {
      meta = record k {
        base = track_inst track inst k.base;
        writer_lockset = record { tid = t; locks = held };
        writer_inst = inst;
      };
    }

unfoldable pub process_free : Bool → EraserMeta → List ℕ
process_free track m = racy_insts track m.base

-- An access of a thread with the locks that it holds.
pub record Locked : Type 0 where
  pub tid : ℕ
  pub held : Lockset
  pub inst : ℕ
  pub kind : RaceEventType

abbrev pub process : RaceEventType → Bool → Lockset → ℕ → ℕ → Work EraserMeta → Work EraserMeta
process event_read = process_read
process event_write = process_write

unfoldable pub run : Bool → List Locked → Work EraserMeta → Work EraserMeta
run track [] w = w
run track (p ∷ ps) w = run track ps (process p.kind track p.held p.tid p.inst w)

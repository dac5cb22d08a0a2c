-- ===== src/AccuLock.antt =====
-- src/pintool/acculock.h and acculock.cpp: an epoch with the locks held for the last write of a unit
-- and for the reads of each thread since.
pub mod Reports
pub mod Detects
use data_race_detectors.Base.{
  ℕ, ◌+◌, Bool, true, false, not, ◌&&◌, ◌||◌, Option, none, some, List, [], ◌∷◌, ◌++◌, ltb, ◌==◌,
  if◌then◌else◌, Map, find, insert, arith,
}
use data_race_detectors.Clock.{VectorClock, get_clock}
use data_race_detectors.Epoch
use data_race_detectors.Epoch.{Epoch, new_epoch}
use data_race_detectors.Lockset.{Lockset, is_disjoint, add, remove}
use data_race_detectors.Shadow.{
  Counters, RaceEventType, event_read, event_write, Meta, new_meta, null, inst_at, track_inst,
  racy_insts, Report, Work, Access, read_access, write_access, report_epoch,
}

-- `ELP`
pub record Elp : Type 0 where
  pub epoch : Epoch
  pub locks : Lockset

abbrev pub new_elp : Elp
new_elp = record { epoch = new_epoch; locks = [] }

pub record AccuLockMeta : Type 0 where
  pub base : Meta
  pub writer_elp : Elp
  pub reader_elp_map : Map Elp
  pub writer_inst : ℕ
  pub reader_inst_table : Map ℕ

abbrev pub new_accu_lock_meta : ℕ → AccuLockMeta
new_accu_lock_meta addr = record {
  base = new_meta addr;
  writer_elp = new_elp;
  reader_elp_map = [];
  writer_inst = null;
  reader_inst_table = [];
}

-- The lock sets of the threads; the clock of a thread that unlocks is `Sync.process_unlock`'s.
unfoldable pub process_lock : ℕ → Lockset → Lockset
process_lock addr held = add addr held

unfoldable pub process_unlock : ℕ → Lockset → Lockset
process_unlock addr held = remove addr held

-- `reader_elp_map[t]`, with the entry that it makes.
unfoldable pub reader_at : ℕ → Map Elp → Elp
unfolding find
reader_at t m = elim (find t m) [ none ↦ new_elp | some e ↦ e ]

unfoldable pub touch_reader : ℕ → Work AccuLockMeta → Work AccuLockMeta
unfolding reader_at
touch_reader t w =
    let k = w.meta in
    record w {
      meta = record k { reader_elp_map = insert t (reader_at t k.reader_elp_map) k.reader_elp_map };
    }

-- An earlier access is a race if the clock has not reached its epoch and no lock was held at both.
unfoldable pub check :
    (Counters → Counters)
    → Access
    → VectorClock
    → Lockset
    → Elp
    → ℕ
    → RaceEventType
    → Work AccuLockMeta
    → Work AccuLockMeta
check bump a vc held earlier inst kind w =
    let m = w.meta in
    if not (Epoch.happens_before earlier.epoch vc) && is_disjoint earlier.locks held
    then record {
      meta = record m { base = record (m.base) { racy = true } };
      counters = bump w.counters;
      reports = w.reports ++ report_epoch m.base.addr a vc earlier.epoch inst kind;
    }
    else record w { counters = bump w.counters }

abbrev pub bump_wr : Counters → Counters
bump_wr c = record c { detect_wr = c.detect_wr + 1 }

abbrev pub bump_ww : Counters → Counters
bump_ww c = record c { detect_ww = c.detect_ww + 1 }

abbrev pub bump_rw : Counters → Counters
bump_rw c = record c { detect_rw = c.detect_rw + 1 }

-- The loop over the readers.
unfoldable pub check_readers :
    Access → VectorClock → Lockset → Map ℕ → Map Elp → Work AccuLockMeta → Work AccuLockMeta
check_readers a vc held table [] w = w
check_readers a vc held table ((u, r) ∷ m) w =
    check_readers a vc held table m
      (check bump_rw a vc held r (inst_at r.epoch.tid table) event_read w)

unfoldable pub record_read :
    Bool → VectorClock → Lockset → ℕ → ℕ → Work AccuLockMeta → Work AccuLockMeta
record_read track vc held t inst w =
    let k = w.meta in
    let c = w.counters in
    record w {
      meta = record k {
        base = track_inst track inst k.base;
        reader_elp_map =
            insert t (record { epoch = Epoch.make t (get_clock t vc); locks = held })
              k.reader_elp_map;
        reader_inst_table = insert t inst k.reader_inst_table;
      };
      counters = record c { update_r = c.update_r + 1 };
    }

-- The test for an access in the epoch of the reader or of the writer.
unfoldable pub skip_read : VectorClock → ℕ → AccuLockMeta → Bool
skip_read vc t m =
    Epoch.equal (reader_at t m.reader_elp_map).epoch vc || Epoch.equal m.writer_elp.epoch vc

unfoldable pub process_read :
    Bool → VectorClock → Lockset → ℕ → ℕ → Work AccuLockMeta → Work AccuLockMeta
unfolding touch_reader
process_read track vc held t inst w =
    let v = touch_reader t w in
    let c = w.counters in
    if skip_read vc t w.meta
    then record v { counters = record c { skip_r_c = c.skip_r_c + 1 } }
    else record_read track vc held t inst (
        check bump_wr (read_access t inst) vc held v.meta.writer_elp v.meta.writer_inst event_write
          v)

unfoldable pub record_write :
    Bool → VectorClock → Lockset → ℕ → ℕ → Work AccuLockMeta → Work AccuLockMeta
record_write track vc held t inst w =
    let k = w.meta in
    let c = w.counters in
    record w {
      meta = record k {
        base = track_inst track inst k.base;
        reader_elp_map = [];
        writer_elp = record { epoch = Epoch.make t (get_clock t vc); locks = held };
        writer_inst = inst;
      };
      counters = record c { update_w = c.update_w + 1 };
    }

unfoldable pub process_write :
    Bool → VectorClock → Lockset → ℕ → ℕ → Work AccuLockMeta → Work AccuLockMeta
process_write track vc held t inst w =
    let m = w.meta in
    let c = w.counters in
    let a = write_access t inst in
    let writer = check bump_ww a vc held m.writer_elp m.writer_inst event_write w in
    if Epoch.equal m.writer_elp.epoch vc
    then record w { counters = record c { skip_w_c = c.skip_w_c + 1 } }
    else record_write track vc held t inst
        (check_readers a vc held m.reader_inst_table m.reader_elp_map writer)

unfoldable pub process_free : Bool → AccuLockMeta → List ℕ
process_free track m = racy_insts track m.base

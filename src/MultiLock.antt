-- ===== src/MultiLock.antt =====
-- src/pintool/multilock.h and multilock.cpp: for each thread the epochs and lock sets of its accesses
-- to a unit, less those that the code takes for redundant. A set of them is a list without
-- repetitions, the newest last. The loops that erase the element that they stand on go on with the
-- next one here. The timers are left out.
pub mod Reports
pub mod Redundant
use data_race_detectors.Base.{
  ℕ, ◌+◌, Bool, true, false, not, ◌&&◌, ◌||◌, Option, none, some, List, [], ◌∷◌, ◌++◌, ltb, ◌==◌,
  if◌then◌else◌, Map, find, insert, arith,
}
use data_race_detectors.Clock.{VectorClock, get_clock, increment}
use data_race_detectors.Epoch
use data_race_detectors.Epoch.{Epoch}
use data_race_detectors.Lockset
use data_race_detectors.Lockset.{
  Lockset, is_disjoint, is_subset_of, is_superset_of, is_match, add, remove,
}
use data_race_detectors.Sync.{Sync, after_pthread_join, or_new, ◌>>=◌, set_clock_of}
use data_race_detectors.Shadow.{
  Counters, RaceEventType, event_read, event_write, Meta, new_meta, null, track_inst, racy_insts,
  Work, Access, read_access, write_access, report_epoch,
}
use data_race_detectors.AccuLock.{Elp, bump_wr, bump_ww, bump_rw}

-- `ELPSet`
abbrev pub ElpSet : Type 0
ElpSet = List Elp

-- `InstMap`
abbrev pub InstMap : Type 0
InstMap = List (Elp × ℕ)

pub record MultiLockMeta : Type 0 where
  pub base : Meta
  pub writer_els_map : Map ElpSet
  pub reader_els_map : Map ElpSet
  pub writer_inst_table : InstMap
  pub reader_inst_table : InstMap

abbrev pub new_multi_lock_meta : ℕ → MultiLockMeta
new_multi_lock_meta addr = record {
  base = new_meta addr;
  writer_els_map = [];
  reader_els_map = [];
  writer_inst_table = [];
  reader_inst_table = [];
}

-- `operator==` of the pair, by which an unordered set tells its elements apart.
unfoldable pub same_elp : Elp → Elp → Bool
same_elp e f = Epoch.same e.epoch f.epoch && is_match e.locks f.locks

-- `operator<` of the pair, which orders the keys of a map.
unfoldable pub less_elp : Elp → Elp → Bool
less_elp e f =
    Epoch.less e.epoch f.epoch || (not (Epoch.less f.epoch e.epoch) && Lockset.less e.locks f.locks)

unfoldable pub same_key : Elp → Elp → Bool
unfolding less_elp
same_key e f = not (less_elp e f) && not (less_elp f e)

unfoldable pub els_of : ℕ → Map ElpSet → ElpSet
unfolding find
els_of t m = or_new [] (find t m)

unfoldable pub insert_elp : Elp → ElpSet → ElpSet
insert_elp e [] = e ∷ []
insert_elp e (f ∷ es) = let rest = insert_elp e es in if same_elp f e then f ∷ es else f ∷ rest

unfoldable pub elp_inst : Elp → InstMap → ℕ
elp_inst e [] = null
elp_inst e ((f, i) ∷ m) = let rest = elp_inst e m in if same_key f e then i else rest

unfoldable pub put_inst : Elp → ℕ → InstMap → InstMap
put_inst e i [] = (e, i) ∷ []
put_inst e i ((f, j) ∷ m) =
    let rest = put_inst e i m in if same_key f e then (f, i) ∷ m else (f, j) ∷ rest

unfoldable pub erase_inst : Elp → InstMap → InstMap
erase_inst e [] = []
erase_inst e ((f, j) ∷ m) = let rest = erase_inst e m in if same_key f e then m else (f, j) ∷ rest

unfoldable pub process_lock : ℕ → Lockset → Lockset
process_lock addr held = add addr held

unfoldable pub process_unlock : ℕ → Lockset → Lockset
process_unlock addr held = remove addr held

-- The loops that return when an element in the current epoch makes the access redundant.
unfoldable pub covered : (Lockset → Lockset → Bool) → VectorClock → Lockset → ElpSet → Bool
covered test vc held [] = false
covered test vc held (e ∷ es) =
    let rest = covered test vc held es in
    if Epoch.equal e.epoch vc && test e.locks held then true else rest

-- The elements in the current epoch with at least the locks that are held.
abbrev pub superseded : VectorClock → Lockset → Elp → Bool
superseded vc held e = Epoch.equal e.epoch vc && is_superset_of e.locks held

-- What the erasing loops leave of the set, of the table, and how many elements they erase.
unfoldable pub keep_els : VectorClock → Lockset → ElpSet → ElpSet
keep_els vc held [] = []
keep_els vc held (e ∷ es) =
    let rest = keep_els vc held es in if superseded vc held e then rest else e ∷ rest

unfoldable pub keep_insts : VectorClock → Lockset → ElpSet → InstMap → InstMap
keep_insts vc held [] m = m
keep_insts vc held (e ∷ es) m =
    keep_insts vc held es (if superseded vc held e then erase_inst e m else m)

unfoldable pub count_erased : VectorClock → Lockset → ElpSet → ℕ
count_erased vc held [] = 0
count_erased vc held (e ∷ es) =
    let rest = count_erased vc held es in if superseded vc held e then rest + 1 else rest

abbrev pub current : VectorClock → Lockset → ℕ → Elp
current vc held t = record { epoch = Epoch.make t (get_clock t vc); locks = held }

-- The tests of `UpdateOnRead`: as written, the negation of those of `UpdateOnWrite`.
unfoldable pub redundant_read : VectorClock → Lockset → ℕ → MultiLockMeta → Bool
redundant_read vc held t m =
    covered (λ locks now. not (is_subset_of locks now)) vc held (els_of t m.reader_els_map)
    || covered (λ locks now. not (is_subset_of locks now)) vc held (els_of t m.writer_els_map)

unfoldable pub redundant_write : VectorClock → Lockset → ℕ → MultiLockMeta → Bool
redundant_write vc held t m = covered is_subset_of vc held (els_of t m.writer_els_map)

-- `reader_els_map[t]` and `writer_els_map[t]` make their entries.
unfoldable pub touch_els : ℕ → MultiLockMeta → MultiLockMeta
touch_els t m = record m {
  reader_els_map = insert t (els_of t m.reader_els_map) m.reader_els_map;
  writer_els_map = insert t (els_of t m.writer_els_map) m.writer_els_map;
}

unfoldable pub update_on_read :
    VectorClock → Lockset → ℕ → ℕ → Work MultiLockMeta → Work MultiLockMeta
update_on_read vc held t inst w =
    let m = touch_els t w.meta in
    let c = w.counters in
    let els = els_of t m.reader_els_map in
    let e = current vc held t in
    if redundant_read vc held t w.meta
    then record w { meta = m; counters = record c { update_r = c.update_r + 1 } }
    else record w {
      meta = record m {
        reader_els_map = insert t (insert_elp e (keep_els vc held els)) m.reader_els_map;
        reader_inst_table = put_inst e inst (keep_insts vc held els m.reader_inst_table);
      };
      counters = record c {
        update_r = c.update_r + 1;
        eli_r_c = c.eli_r_c + count_erased vc held els;
      };
    }

unfoldable pub update_on_write :
    VectorClock → Lockset → ℕ → ℕ → Work MultiLockMeta → Work MultiLockMeta
update_on_write vc held t inst w =
    let m = touch_els t w.meta in
    let c = w.counters in
    let readers = els_of t m.reader_els_map in
    let writers = els_of t m.writer_els_map in
    let e = current vc held t in
    if redundant_write vc held t w.meta
    then record w { meta = m; counters = record c { update_w = c.update_w + 1 } }
    else record w {
      meta = record m {
        reader_els_map = insert t (keep_els vc held readers) m.reader_els_map;
        reader_inst_table = keep_insts vc held readers m.reader_inst_table;
        writer_els_map = insert t (insert_elp e (keep_els vc held writers)) m.writer_els_map;
        writer_inst_table = put_inst e inst (keep_insts vc held writers m.writer_inst_table);
      };
      counters = record c {
        update_w = c.update_w + 1;
        eli_r_c = c.eli_r_c + count_erased vc held readers;
        eli_w_c = c.eli_w_c + count_erased vc held writers;
      };
    }

-- The body of the loops over the accesses of one thread.
unfoldable pub check :
    (Counters → Counters)
    → Access
    → VectorClock
    → Lockset
    → Elp
    → ℕ
    → RaceEventType
    → Work MultiLockMeta
    → Work MultiLockMeta
check bump a vc held earlier inst kind w =
    let m = w.meta in
    if not (Epoch.happens_before earlier.epoch vc) && is_disjoint earlier.locks held
    then record {
      meta = record m { base = record (m.base) { racy = true } };
      counters = bump w.counters;
      reports = w.reports ++ report_epoch m.base.addr a vc earlier.epoch inst kind;
    }
    else record w { counters = bump w.counters }

unfoldable pub check_set :
    (Counters → Counters)
    → Access
    → VectorClock
    → Lockset
    → RaceEventType
    → InstMap
    → ElpSet
    → Work MultiLockMeta
    → Work MultiLockMeta
check_set bump a vc held kind table [] w = w
check_set bump a vc held kind table (e ∷ es) w =
    check_set bump a vc held kind table es (check bump a vc held e (elp_inst e table) kind w)

-- The loops over the other threads.
unfoldable pub check_others :
    (Counters → Counters)
    → Access
    → VectorClock
    → Lockset
    → RaceEventType
    → InstMap
    → Map ElpSet
    → Work MultiLockMeta
    → Work MultiLockMeta
check_others bump a vc held kind table [] w = w
check_others bump a vc held kind table ((u, es) ∷ m) w =
    check_others bump a vc held kind table m
      (if u == a.tid then w else check_set bump a vc held kind table es w)

abbrev track_access : Bool → ℕ → Work MultiLockMeta → Work MultiLockMeta
track_access track inst w =
    let m = w.meta in record w { meta = record m { base = track_inst track inst m.base } }

unfoldable pub process_read :
    Bool → VectorClock → Lockset → ℕ → ℕ → Work MultiLockMeta → Work MultiLockMeta
process_read track vc held t inst w =
    let v = update_on_read vc held t inst w in
    let m = v.meta in
    if redundant_read vc held t w.meta
    then v
    else track_access track inst (
        check_others bump_wr (read_access t inst) vc held event_write m.writer_inst_table
          m.writer_els_map v)

unfoldable pub process_write :
    Bool → VectorClock → Lockset → ℕ → ℕ → Work MultiLockMeta → Work MultiLockMeta
process_write track vc held t inst w =
    let v = update_on_write vc held t inst w in
    let m = v.meta in
    let a = write_access t inst in
    if redundant_write vc held t w.meta
    then v
    else track_access track inst (
        check_others bump_rw a vc held event_read m.reader_inst_table m.reader_els_map
          (check_others bump_ww a vc held event_write m.writer_inst_table m.writer_els_map v))

unfoldable pub process_free : Bool → MultiLockMeta → List ℕ
process_free track m = racy_insts track m.base

-- The detector's own `AfterPthreadJoin`: the clock of the thread ticks after the join.
unfoldable pub join_and_tick : ℕ → ℕ → Sync → Option Sync
unfolding find insert increment after_pthread_join
join_and_tick t child s = do
  u ← after_pthread_join t child s
  vc ← find t u.curr_vc_map
  some (set_clock_of t (increment t vc) u)

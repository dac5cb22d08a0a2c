-- ===== src/HistLock.antt =====
-- src/pintool/histlock.h and histlock.cpp: for each unit a history of its last writes and reads, with
-- the epoch and the lock set of each, from which a thread takes out what it did in one call site
-- when it does the next access in another. A node of a `std::list` is told from the others by its
-- position, a number that grows with each insertion; an iterator is the position of its node, and
-- erasing one whose node is gone is `none`. The timers are left out.
pub mod Reports
pub mod Window
pub mod Nodes
pub mod Linked
pub mod Pushed
pub mod Returns
pub mod Evicted
use data_race_detectors.Base.{
  ℕ, suc, ◌+◌, Bool, true, false, not, ◌&&◌, ◌||◌, Option, none, some, List, [], ◌∷◌, ◌++◌, ltb,
  ◌==◌, if◌then◌else◌, Map, find, insert, arith,
}
use data_race_detectors.Clock.{VectorClock, get_clock}
use data_race_detectors.Epoch
use data_race_detectors.Epoch.{Epoch}
use data_race_detectors.Lockset.{Lockset, is_disjoint, add, remove}
use data_race_detectors.Sync.{or_new, ◌>>=◌}
use data_race_detectors.Shadow.{
  Counters, RaceEventType, event_read, event_write, Meta, new_meta, track_inst, racy_insts, Work,
  Access, read_access, write_access, report_epoch,
}
use data_race_detectors.AccuLock.{Elp, bump_wr, bump_ww, bump_rw}

-- A node of an `ELPIList`.
pub record Elpi : Type 0 where
  pub pos : ℕ
  pub elp : Elp
  pub inst : ℕ

-- `CallSiteELPIListMap`: for each thread its last call site, and its nodes from there.
abbrev pub CallSites : Type 0
CallSites = Map (ℕ × List ℕ)

-- The accesses of one kind: their list, the call sites, and the position of the next node.
pub record History : Type 0 where
  pub elpi_list : List Elpi
  pub callsite_map : CallSites
  pub next_pos : ℕ

pub record HistLockMeta : Type 0 where
  pub base : Meta
  pub writer : History
  pub reader : History

abbrev pub new_history : History
new_history = record { elpi_list = []; callsite_map = []; next_pos = 0 }

abbrev pub new_hist_lock_meta : ℕ → HistLockMeta
new_hist_lock_meta addr = record {
  base = new_meta addr;
  writer = new_history;
  reader = new_history;
}

abbrev pub window_size : ℕ
window_size = 100

unfoldable pub process_lock : ℕ → Lockset → Lockset
process_lock addr held = add addr held

-- The clock of the thread ticks in its hook.
unfoldable pub process_unlock : ℕ → Lockset → Lockset
process_unlock addr held = remove addr held

-- `BeforeCall`
unfoldable pub before_call : ℕ → ℕ → Map ℕ → Map ℕ
before_call t target m = insert t target m

abbrev pub length {ℓ} : {A : Type ℓ} → List A → ℕ
length [] = 0
length (x ∷ xs) = suc (length xs)

-- `map[t]`, with the value that it makes.
unfoldable pub callsite_at : ℕ → CallSites → ℕ × List ℕ
unfolding find
callsite_at t m = or_new (0, []) (find t m)

abbrev pub touch : ℕ → History → History
touch t h = record h { callsite_map = insert t (callsite_at t h.callsite_map) h.callsite_map }

-- Whether the last node is in the current epoch.
unfoldable pub last_equal : VectorClock → List Elpi → Bool
last_equal vc [] = false
last_equal vc (e ∷ []) = Epoch.equal e.elp.epoch vc
last_equal vc (e ∷ f ∷ es) = last_equal vc (f ∷ es)

unfoldable pub erase_pos : ℕ → List Elpi → Option (List Elpi)
erase_pos p [] = none
erase_pos p (e ∷ es) =
    let rest = erase_pos p es in
    if e.pos == p then some es else elim rest [ none ↦ none | some r ↦ some (e ∷ r) ]

-- The loop that erases the nodes of a call site.
unfoldable pub erase_all : List ℕ → List Elpi → Option (List Elpi)
erase_all [] es = some es
erase_all (p ∷ ps) es = elim (erase_pos p es) [ none ↦ none | some r ↦ erase_all ps r ]

-- `pop_front` when the list has become too long.
unfoldable pub pop_old : List Elpi → List Elpi
pop_old [] = []
pop_old (e ∷ es) = if ltb window_size (length (e ∷ es)) then es else e ∷ es

-- The end of an access: the nodes of another call site go, and the access comes in. The number is
-- that of the nodes erased.
unfoldable pub push : ℕ → ℕ → Elp → ℕ → History → Option (ℕ × History)
unfolding callsite_at insert
push site t elp inst h =
    let (old, ps) = callsite_at t h.callsite_map in
    let moved = not (old == site) in
    let e : Elpi = record { pos = h.next_pos; elp = elp; inst = inst } in
    (if moved then erase_all ps h.elpi_list else some h.elpi_list) >>= λ es. some (
      if moved then length ps else 0,
      record {
        elpi_list = pop_old (es ++ e ∷ []);
        callsite_map =
            insert t (site, (if moved then [] else ps) ++ h.next_pos ∷ []) h.callsite_map;
        next_pos = h.next_pos + 1;
      },
    )

-- The body of the loops over earlier accesses.
unfoldable pub check :
    (Counters → Counters)
    → Access
    → VectorClock
    → Lockset
    → RaceEventType
    → Elpi
    → Work HistLockMeta
    → Work HistLockMeta
check bump a vc held kind e w =
    let m = w.meta in
    let earlier = e.elp in
    if not (Epoch.happens_before earlier.epoch vc) && is_disjoint earlier.locks held
    then record {
      meta = record m { base = record (m.base) { racy = true } };
      counters = bump w.counters;
      reports = w.reports ++ report_epoch m.base.addr a vc earlier.epoch e.inst kind;
    }
    else record w { counters = bump w.counters }

unfoldable pub check_all :
    (Counters → Counters)
    → Access
    → VectorClock
    → Lockset
    → RaceEventType
    → List Elpi
    → Work HistLockMeta
    → Work HistLockMeta
check_all bump a vc held kind [] w = w
check_all bump a vc held kind (e ∷ es) w =
    check_all bump a vc held kind es (check bump a vc held kind e w)

abbrev pub current : VectorClock → Lockset → ℕ → Elp
current vc held t = record { epoch = Epoch.make t (get_clock t vc); locks = held }

-- A skipped read and a skipped write both count as `skip_r_c_`.
abbrev pub skip : Work HistLockMeta → Work HistLockMeta
skip w = let c = w.counters in record w { counters = record c { skip_r_c = c.skip_r_c + 1 } }

unfoldable pub record_read : Bool → ℕ → ℕ → Work HistLockMeta → ℕ × History → Work HistLockMeta
record_read track t inst w (erased, h) =
    let m = w.meta in
    let c = w.counters in
    record w {
      meta = record m { base = track_inst track inst m.base; reader = h };
      counters = record c { update_r = c.update_r + 1; eli_r_c = c.eli_r_c + erased };
    }

unfoldable pub record_write : Bool → ℕ → ℕ → Work HistLockMeta → ℕ × History → Work HistLockMeta
record_write track t inst w (erased, h) =
    let m = w.meta in
    let c = w.counters in
    record w {
      meta = record m { base = track_inst track inst m.base; writer = h };
      counters = record c { update_w = c.update_w + 1; eli_w_c = c.eli_w_c + erased };
    }

unfoldable pub skip_read : VectorClock → HistLockMeta → Bool
skip_read vc m = last_equal vc m.reader.elpi_list || last_equal vc m.writer.elpi_list

unfoldable pub skip_write : VectorClock → HistLockMeta → Bool
skip_write vc m = last_equal vc m.writer.elpi_list

-- `site` is `callsite_map_[t]`.
unfoldable pub process_read :
    Bool → VectorClock → Lockset → ℕ → ℕ → ℕ → Work HistLockMeta → Option (Work HistLockMeta)
process_read track vc held site t inst w =
    let m = w.meta in
    let v = record w { meta = record m { reader = touch t m.reader } } in
    let checked = check_all bump_wr (read_access t inst) vc held event_write m.writer.elpi_list v in
    if skip_read vc m
    then some (skip v)
    else (push site t (current vc held t) inst checked.meta.reader >>= λ h.
        some (record_read track t inst checked h))

unfoldable pub process_write :
    Bool → VectorClock → Lockset → ℕ → ℕ → ℕ → Work HistLockMeta → Option (Work HistLockMeta)
process_write track vc held site t inst w =
    let m = w.meta in
    let a = write_access t inst in
    let v = record w { meta = record m { writer = touch t m.writer } } in
    let checked =
      check_all bump_rw a vc held event_read m.reader.elpi_list
        (check_all bump_ww a vc held event_write m.writer.elpi_list v) in
    if skip_write vc m
    then some (skip v)
    else (push site t (current vc held t) inst checked.meta.writer >>= λ h.
        some (record_write track t inst checked h))

abbrev pub process_access :
    RaceEventType
    → Bool
    → VectorClock
    → Lockset
    → ℕ
    → ℕ
    → ℕ
    → Work HistLockMeta
    → Option (Work HistLockMeta)
process_access event_read = process_read
process_access event_write = process_write

unfoldable pub process_free : Bool → HistLockMeta → List ℕ
process_free track m = racy_insts track m.base

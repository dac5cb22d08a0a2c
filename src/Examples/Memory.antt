-- ===== src/Examples/Memory.antt =====
-- The regions, units and tables of src/core/filter.cc and src/pintool/detector1.cpp, and a whole
-- program run under two detectors.
use data_race_detectors.Base.{ℕ, some, refl, ◌≡◌, true, not, none, [], ◌∷◌, find, Ensures, arith}
use data_race_detectors.Lockset.{is_exist}
use data_race_detectors.Filter
use data_race_detectors.Filter.{region_before, Regions, filter}
use data_race_detectors.Filter.Laws.{watched, filter-watched}
use data_race_detectors.Memory.{
  unit_down_align, unit_up_align, unit_mask, units_from, units, visited_units,
}
use data_race_detectors.Memory.Units.{Visits, units_from_lem}
use data_race_detectors.Djit.{DjitMeta, new_djit_meta}
use data_race_detectors.Detector.State.{Detector, setup}
use data_race_detectors.Detector.Heap.{free_addr_region}
use data_race_detectors.Detector.Accesses.{skips, before_mem_read, before_mem_write}
use data_race_detectors.Detector.Frame.{Framed, accesses-Framed}
use data_race_detectors.Detector.Touched.{Touched, accesses-Touched}
use data_race_detectors.Detector.Returns.{Returns, Total, accesses-Returns}
use data_race_detectors.Detector.Freed.{Drops, find-free_addr_region}
use data_race_detectors.Detectors.{djit}

abbrev regions : Regions
regions = (64, 16) ∷ (128, 8) ∷ []

filter-watched_example : filter 90 regions ≡ not (watched 90 regions)
filter-watched_example = filter-watched 90 0 regions (ground arith)

units_from_lem_example : Visits 16 20 64 80 4
units_from_lem_example = units_from_lem 16 20 64 80 4 (omega arith) (omega arith) (omega arith)

-- A loop that does not advance does not return.
stuck : units_from 16 64 80 0 ≡ none
unfolding units_from
stuck = refl

abbrev start : Detector DjitMeta (Unit {0})
start = record (setup 4 true tt) {
  regions = regions;
  meta_table = (64, new_djit_meta 64) ∷ (128, new_djit_meta 128) ∷ [];
}

find-free_addr_region_example :
    (e : Detector DjitMeta (Unit {0})) × (free_addr_region djit 64 start ≡ some e)
    × ((x : ℕ) → Drops x (visited_units 64 (Filter.remove_region 64 regions).0 4) start e)
unfolding unit_up_align unit_mask Filter.remove_region setup
find-free_addr_region_example =
    find-free_addr_region djit 64 start (omega arith) (omega arith) (omega arith)

accesses-Framed_example :
    Ensures
      (Framed (visited_units 66 4 start.unit_size) start)
      (before_mem_read djit 1 10 66 4 start)
    × Ensures
        (Framed (visited_units 66 4 start.unit_size) start)
        (before_mem_write djit 1 10 66 4 start)
accesses-Framed_example = accesses-Framed djit 1 10 66 4 start

-- Two threads have started.
abbrev running : Detector DjitMeta (Unit {0})
running =
    let s = start.sync in
    let c = start.counters in
    record start {
      sync = record s { curr_vc_map = (1, (1, 3) ∷ []) ∷ (2, (2, 1) ∷ []) ∷ [] };
      counters = record c { thread_start_c = 2 };
    }

accesses-Touched_example :
    Ensures (Touched djit djit.on_read 1 10 68 running) (before_mem_read djit 1 10 66 4 running)
    × Ensures (Touched djit djit.on_write 1 10 68 running) (before_mem_write djit 1 10 66 4 running)
unfolding skips filter region_before setup find units units_from unit_down_align unit_up_align
    unit_mask is_exist
accesses-Touched_example =
    accesses-Touched djit 1 10 66 4 68 running refl (omega arith) (omega arith) refl

read_returns : Total djit.on_read 1 10 running
unfolding find setup
read_returns w = (_, refl)

write_returns : Total djit.on_write 1 10 running
unfolding find setup
write_returns w = (_, refl)

accesses-Returns_example :
    Returns (before_mem_read djit 1 10 66 4 running)
    × Returns (before_mem_write djit 1 10 66 4 running)
unfolding unit_up_align unit_mask setup
accesses-Returns_example =
    accesses-Returns djit 1 10 66 4 running read_returns write_returns (omega arith) (omega arith)

-- ===== src/Examples/Program.antt =====
-- A program under the detectors of src/pintool/djit.cpp and eraser.cpp, through the handlers of
-- detector1.cpp.
use data_race_detectors.Base.{◌≡◌, refl, true, Option, some, List, [], ◌∷◌, find, insert}
use data_race_detectors.Clock
use data_race_detectors.Clock.{
  increment, join, join_entry, set_clock, get_clock, equal_entries, seek,
}
use data_race_detectors.Filter.{add_region, region_before, filter}
use data_race_detectors.Memory.{units, units_from, unit_mask, unit_down_align, unit_up_align}
use data_race_detectors.Lockset.{add, remove, is_disjoint, is_exist}
use data_race_detectors.Sync.{
  ◌>>=◌, invalid_thd_id, thread_start, process_lock, process_unlock, get_mutex_meta,
}
use data_race_detectors.Shadow.{Report, event_write, inst_at, report_clock}
use data_race_detectors.Djit
use data_race_detectors.Eraser
use data_race_detectors.Detector.State.{Hooks, Detector, setup}
use data_race_detectors.Detector.Heap.{after_malloc, alloc_addr_region}
use data_race_detectors.Detector.Handlers.{
  on_thread_start, lock_with, after_pthread_mutex_lock, before_pthread_mutex_unlock,
}
use data_race_detectors.Detector.Accesses.{before_mem_write, skips, access_unit, access_units}
use data_race_detectors.Detectors.{djit, eraser, lockset_of}

-- A block of 16 bytes at 64, and two threads.
abbrev begin : {M X : Type 0} → X → Option (Detector M X)
begin x = do
  d ← on_thread_start 1 invalid_thd_id (after_malloc 16 64 (setup 4 true x))
  on_thread_start 2 1 d

-- Both write to the block.
abbrev racy : {M X : Type 0} → Hooks M X → X → Option (List Report)
racy h x = do
  d ← begin x
  e ← before_mem_write h 1 10 64 4 d
  f ← before_mem_write h 2 11 64 4 e
  some f.reports

-- Both write to it, each under the mutex at 32.
abbrev locked : {M X : Type 0} → Hooks M X → X → Option (List Report)
locked h x = do
  d ← begin x
  e ← after_pthread_mutex_lock h 1 32 d
  f ← before_mem_write h 1 10 64 4 e
  g ← before_pthread_mutex_unlock h 1 32 f
  i ← after_pthread_mutex_lock h 2 32 g
  j ← before_mem_write h 2 11 64 4 i
  some j.reports

abbrev expected_race : Report
expected_race = record {
  addr = 64;
  t0 = 1;
  i0 = 10;
  p0 = event_write;
  t1 = 2;
  i1 = 11;
  p1 = event_write;
}

djit-racy : racy djit tt ≡ some (expected_race ∷ [])
unfolding on_thread_start thread_start after_malloc alloc_addr_region setup before_mem_write skips
    filter access_units units access_unit find insert increment join join_entry set_clock get_clock
    add_region region_before add unit_down_align unit_mask unit_up_align units_from inst_at
    Djit.process_write Djit.check Clock.happens_before Djit.count_write Clock.equal equal_entries
    seek Clock.size report_clock
djit-racy = refl

djit-locked : locked djit tt ≡ some []
unfolding on_thread_start thread_start after_malloc alloc_addr_region setup before_mem_write skips
    filter access_units units access_unit find insert increment join join_entry set_clock get_clock
    add_region region_before add unit_down_align unit_mask unit_up_align units_from inst_at
    Djit.process_write Djit.check Clock.happens_before Djit.count_write Clock.equal equal_entries
    seek Clock.size report_clock after_pthread_mutex_lock lock_with process_lock
    before_pthread_mutex_unlock process_unlock get_mutex_meta
djit-locked = refl

eraser-racy : racy eraser [] ≡ some (expected_race ∷ [])
unfolding on_thread_start thread_start after_malloc alloc_addr_region setup before_mem_write skips
    filter access_units units access_unit find insert increment join join_entry set_clock get_clock
    add_region region_before add unit_down_align unit_mask unit_up_align units_from inst_at
    Eraser.process_write Eraser.check Eraser.check_readers is_disjoint is_exist lockset_of
eraser-racy = refl

eraser-locked : locked eraser [] ≡ some []
unfolding on_thread_start thread_start after_malloc alloc_addr_region setup before_mem_write skips
    filter access_units units access_unit find insert increment join join_entry set_clock get_clock
    add_region region_before add unit_down_align unit_mask unit_up_align units_from inst_at
    Eraser.process_write Eraser.check Eraser.check_readers is_disjoint is_exist lockset_of
    after_pthread_mutex_lock lock_with process_lock before_pthread_mutex_unlock process_unlock
    get_mutex_meta Eraser.process_lock Eraser.process_unlock remove
eraser-locked = refl

-- ===== src/Examples/Histories.antt =====
-- The detector of src/pintool/histlock.cpp on one unit.
use data_race_detectors.Base.{
  ℕ, zero, suc, ◌+◌, ◌<◌, ◌≡◌, refl, true, Option, none, some, List, [], ◌∷◌, find, arith,
}
use data_race_detectors.Clock.{VectorClock, get_clock}
use data_race_detectors.Epoch
use data_race_detectors.Lockset.{is_disjoint, is_exist}
use data_race_detectors.Shadow.{
  event_read, event_write, init_counters, Work, new_meta, report_epoch,
}
use data_race_detectors.Shadow.Reports.{names, Adds}
use data_race_detectors.HistLock.{
  Elpi, History, HistLockMeta, new_hist_lock_meta, new_history, callsite_at, erase_all, pop_old,
  push, check, check_all, current, record_read, record_write, skip_read, skip_write, last_equal,
  process_read, process_write,
}
use data_race_detectors.HistLock.Nodes.{has_pos, PosFrom}
use data_race_detectors.HistLock.Linked.{IsHistory, new_history-IsHistory}
use data_race_detectors.HistLock.Reports.{raced, names-hist}
use data_race_detectors.HistLock.Window.{InWindow, accesses-InWindow}
use data_race_detectors.HistLock.Returns.{IsMeta, accesses-Return}
use data_race_detectors.HistLock.Evicted.{read_evicted}

abbrev vc_1 : VectorClock
vc_1 = (1, 3) ∷ []

abbrev vc_2 : VectorClock
vc_2 = (2, 1) ∷ []

abbrev fresh : Work HistLockMeta
fresh = record { meta = new_hist_lock_meta 64; counters = init_counters; reports = [] }

abbrev work_of : Option (Work HistLockMeta) → Work HistLockMeta
work_of none = fresh
work_of (some w) = w

-- Thread 1 has written in call site 5.
abbrev written : Work HistLockMeta
written = work_of (process_write true vc_1 (16 ∷ []) 5 1 10 fresh)

abbrev after_read : Work HistLockMeta
after_read = work_of (process_read true vc_2 (32 ∷ []) 6 2 11 written)

abbrev after_write : Work HistLockMeta
after_write = work_of (process_write true vc_2 (32 ∷ []) 6 2 11 written)

names-hist_example : Adds (raced event_read vc_2 (32 ∷ []) 2 written.meta) [] after_read.reports
unfolding process_read process_write push skip_read skip_write last_equal check_all erase_all
    record_write pop_old Epoch.equal Epoch.make get_clock check Epoch.happens_before is_disjoint
names-hist_example = names-hist event_read true vc_2 (32 ∷ []) 6 2 11 written after_read refl

hist_write : Adds (raced event_write vc_2 (32 ∷ []) 2 written.meta) [] after_write.reports
unfolding process_read process_write push skip_read skip_write last_equal check_all erase_all
    record_write pop_old Epoch.equal Epoch.make get_clock check Epoch.happens_before is_disjoint
hist_write = names-hist event_write true vc_2 (32 ∷ []) 6 2 11 written after_write refl

-- Both accesses of thread 2 are reported against thread 1.
both_reported : (names 1 after_read.reports ≡ true) × (names 1 after_write.reports ≡ true)
unfolding process_read process_write push skip_read skip_write last_equal check_all check
    report_epoch is_disjoint is_exist get_clock Epoch.happens_before record_read record_write
    Epoch.make Epoch.equal Epoch.is_initial erase_all pop_old
both_reported = (refl, refl)

accesses-InWindow_example : InWindow after_write.meta
unfolding process_read process_write push skip_read skip_write last_equal check_all erase_all
    record_write pop_old Epoch.equal Epoch.make get_clock check Epoch.happens_before is_disjoint
accesses-InWindow_example =
    accesses-InWindow event_write true vc_2 (32 ∷ []) 6 2 11 written after_write
      (omega arith, omega arith) refl

accesses-Return_example :
    ((w1 : Work HistLockMeta) × (process_read true vc_1 (16 ∷ []) 5 1 10 fresh ≡ some w1)
      × IsMeta w1.meta)
    × ((w2 : Work HistLockMeta) × (process_write true vc_1 (16 ∷ []) 5 1 10 fresh ≡ some w2)
        × IsMeta w2.meta)
accesses-Return_example =
    accesses-Return true vc_1 (16 ∷ []) 5 1 10 fresh (new_history-IsHistory, new_history-IsHistory)
      (omega arith, omega arith)

-- `n` nodes from position `p` on, of thread 3.
abbrev nodes : ℕ → ℕ → List Elpi
nodes zero p = []
nodes (suc n) p = record { pos = p; elp = current ((3, 9) ∷ []) [] 3; inst = 12 } ∷ nodes n (suc p)

nodes-PosFrom : (n p : ℕ) → PosFrom p (nodes n p)
nodes-PosFrom zero p = tt
nodes-PosFrom (suc n) p = (omega arith, nodes-PosFrom n (suc p))

nodes_below : (n p q : ℕ) → has_pos q (nodes n p) ≡ true → q < p + n
unfolding has_pos
nodes_below zero p q h = cc
nodes_below (suc n) p q h = ground (arith, nodes_below n (suc p) q)

abbrev first_node : Elpi
first_node = record { pos = 0; elp = current ((1, 2) ∷ []) [] 1; inst = 10 }

-- A full window, of which thread 1 has made the first node in call site 5.
abbrev full : History
full = record {
  elpi_list = first_node ∷ nodes 99 1;
  callsite_map = (1, (5, 0 ∷ [])) ∷ [];
  next_pos = 100;
}

full-IsHistory : IsHistory full
unfolding has_pos callsite_at is_exist find
full-IsHistory = record {
  placed = (omega arith, nodes-PosFrom 99 1);
  low = λ p h. ground (arith, nodes_below 99 1 p);
  rising = λ t. ground arith;
  owned = λ t u p a b. ground arith;
  linked = λ t p h. ground arith;
}

abbrev full_meta : HistLockMeta
full_meta = record { base = new_meta 64; writer = new_history; reader = full }

abbrev full_work : Work HistLockMeta
full_work = record { meta = full_meta; counters = init_counters; reports = [] }

abbrev evicting : Work HistLockMeta
evicting = work_of (process_read true vc_1 [] 5 1 10 full_work)

-- Thread 1 reads again in call site 5, and then, at a later timestamp, in call site 6.
read_evicted_example : process_read true ((1, 4) ∷ []) [] 6 1 11 evicting ≡ none
unfolding process_read push skip_read last_equal callsite_at is_exist find Epoch.equal get_clock
    Epoch.make check_all record_read pop_old
read_evicted_example =
    read_evicted true vc_1 ((1, 4) ∷ []) [] [] 5 6 1 10 11 full_work evicting first_node
      (nodes 99 1) full-IsHistory refl refl refl refl refl refl refl refl

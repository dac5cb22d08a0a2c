-- ===== src/Sync/Barriers.antt =====
-- `ProcessPreBarrier` and `ProcessPostBarrier` of src/pintool/detector1.cpp. Two tables take turns, so
-- that a thread may enter the next round while others still leave the last one.
use data_race_detectors.Base.{
  ℕ, Bool, true, false, not, Option, some, [], ◌∷◌, ◌==◌, if◌then◌else◌, Map, find, insert,
}
use data_race_detectors.Clock.{VectorClock, increment, join}
use data_race_detectors.Sync.{◌>>=◌, Sync, BarrierMeta, get_barrier_meta, set_clock_of}

abbrev pub WaitTable : Type 0
WaitTable = Map (VectorClock × Bool)

abbrev pub pre_table : BarrierMeta → WaitTable
pre_table m = if m.pre_using_table1 then m.barrier_wait_table1 else m.barrier_wait_table2

abbrev pub post_table : BarrierMeta → WaitTable
post_table m = if m.post_using_table1 then m.barrier_wait_table1 else m.barrier_wait_table2

-- The first table when the flag holds, the second when it does not.
abbrev pub put_table : Bool → WaitTable → BarrierMeta → BarrierMeta
put_table true w m = record m { barrier_wait_table1 = w }
put_table false w m = record m { barrier_wait_table2 = w }

unfoldable pub process_pre_barrier : ℕ → ℕ → Sync → Option Sync
unfolding find insert get_barrier_meta
process_pre_barrier t a s = do
  curr_vc ← find t s.curr_vc_map
  let meta = get_barrier_meta a s
  let meta' = put_table meta.pre_using_table1 (insert t (curr_vc, false) (pre_table meta)) meta
  some (record s { barrier_meta_table = insert a meta' s.barrier_meta_table })

-- What the loop of `ProcessPostBarrier` has reached.
pub record Sweep : Type 0 where
  pub curr_vc : VectorClock
  pub all_flagged : Bool
  pub all_not_flagged : Bool

-- One round of that loop, without the flag that it sets.
unfoldable pub sweep_entry : ℕ → Sweep → ℕ → VectorClock × Bool → Sweep
unfolding join
sweep_entry t w u e = record {
  curr_vc = join w.curr_vc e.0;
  all_flagged = if u == t then w.all_flagged else if e.1 then w.all_flagged else false;
  all_not_flagged = if u == t then w.all_not_flagged else if e.1 then false else w.all_not_flagged;
}

unfoldable pub sweep : ℕ → Sweep → WaitTable → Sweep
unfolding sweep_entry
sweep t w [] = w
sweep t w ((u, e) ∷ m) = sweep t (sweep_entry t w u e) m

-- The flags that the loop leaves in the table.
unfoldable pub flag : ℕ → WaitTable → WaitTable
flag t [] = []
flag t ((u, e) ∷ m) = (u, (e.0, if u == t then true else e.1)) ∷ flag t m

-- The barrier after a sweep that ended with `w`.
unfoldable pub settle : ℕ → Sweep → BarrierMeta → BarrierMeta
unfolding flag
settle t w m =
    let table = if w.all_flagged then [] else flag t (post_table m) in
    record (put_table m.post_using_table1 table m) {
      pre_using_table1 = if w.all_not_flagged then not m.pre_using_table1 else m.pre_using_table1;
      post_using_table1 = if w.all_flagged then not m.post_using_table1 else m.post_using_table1;
    }

unfoldable pub process_post_barrier : ℕ → ℕ → Sync → Option Sync
unfolding find insert increment get_barrier_meta sweep settle
process_post_barrier t a s = do
  curr_vc ← find t s.curr_vc_map
  let meta = get_barrier_meta a s
  let start : Sweep = record { curr_vc = curr_vc; all_flagged = true; all_not_flagged = true }
  let w = sweep t start (post_table meta)
  some (
      set_clock_of t (increment t w.curr_vc)
        (record s { barrier_meta_table = insert a (settle t w meta) s.barrier_meta_table }))

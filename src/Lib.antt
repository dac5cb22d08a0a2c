-- ===== src/Lib.antt =====
-- The dynamic data race detectors of this repository: a Pin tool watches a program and calls an
-- analysis on every memory access, synchronisation and allocation; the analysis keeps metadata per
-- memory unit, decides whether an access races with an earlier one, and puts what it finds into a
-- race database. A second tool runs a program under a scheduler that explores its interleavings,
-- one run after the other.
--
-- Parts and files
--
-- - Base: shared names, Boolean tests on numbers, 64-bit wrap, and ordered maps with their laws.
-- - Clock: src/core/vector_clock.h and vector_clock.cc. `happens_before` and `happens_after` keep
--   the double loop over two ordered maps; `Order` compares them with the order on all threads'
--   timestamps, `Equality` does the same for `equal`.
-- - Epoch: src/pintool/epoch.h and epoch.cpp, one entry of a clock.
-- - Lockset: src/pintool/lockset.h and lockset.cpp, an ordered set of addresses.
-- - LockVersions: src/core/lock_set.h and lock_set.cc, a set of locks with a version of each; `Tests`
--   compares it with Lockset, `Held` is about what a version stands for.
-- - Filter and Memory: src/core/filter.cc, the regions that are watched, and the alignment macros
--   of src/core/basictypes.h with the loop over the units of an access.
-- - Sync: the clocks in src/pintool/detector1.h and detector1.cpp and the functions that pass
--   them on: thread start and join, `ProcessLock`, `ProcessUnlock`, `ProcessNotify`,
--   `ProcessPreWait`, `ProcessPostWait`, and in `Barriers` `ProcessPreBarrier` and
--   `ProcessPostBarrier`. `Runs` has them as events and steps; `Clocks`, `Keep` and `Waits`
--   carry a property of all stored clocks through a step, `Grows` and `Ticks` follow one
--   thread's clock; `Snapshot` has the runs and what an epoch stands for in them, `Ahead` and
--   `Release` the states in which that applies.
-- - Shadow: what the detectors share for one unit, with `ReportRace` as a list of reports; in
--   `Reports`, `Adds` says that a step appends reports and which threads they name.
-- - Detector: every handler of detector1.cpp, over a record `Hooks` of the virtual functions:
--   `State`, `Heap` for allocation, `Handlers` for synchronisation, `Accesses` for reads and
--   writes; `Frame`, `Touched`, `Returns` and `Freed` are about what they change.
-- - Djit, FastTrack, Eraser, AccuLock, MultiLock, HistLock: the detectors of the files with
--   these names in src/pintool, as functions on the metadata of one unit; Detectors plugs them
--   into the handlers. Djit, AccuLock, MultiLock and HistLock derive from a class `Detector` that
--   detector1.h does not declare, which is taken to be its `Detector1`. In HistLock, `Nodes`, `Linked` and `Pushed` say which nodes a thread may erase.
-- - RaceDb: src/race/race.h and race.cc. `Index` is about a table with a hash index into it, `Valid`
--   about the getters, `Made` and `Identity` about `CreateRace`.
-- - Program: the actions, states and executions of src/systematic/program.h and program.cc;
--   Objects: the class `Program` there, which names threads and objects across runs.
-- - Fair: src/systematic/fair.h and fair.cc. `Sets` is about its sets, `Rank` and `Waiting` about
--   the priorities that follow from any sequence of updates.
-- - Search: src/systematic/search.h, search.cc and search.proto, the stack of the depth-first search;
--   `Diverge` is about the check that a run follows the stack, `Backtrack` about the end of a run,
--   `Files` has `Load` and `Save`, and `Store` their round trip.
-- - Scheduler, Visited, Chess: src/systematic/scheduler.cc and chess.cc. Scheduler has the counters
--   of actions, Visited the comparison with states of earlier runs, Chess one round of `Explore`,
--   which uses Fair, Search and both of these; `FirstPass`, `SecondPass` and `Pick` are about the
--   choice of an action, `Fairness` about what the fair control leaves, and `Bound` and `Rounds`
--   about the limit on preemptions, with `Placed` about the stack and `Executed` about a round that
--   executes an action; `Random` has the rounds that go on at random.
-- - Examples: runs at concrete states.
--
-- How it is modelled
--
-- Maps are lists in the order of their keys; hash maps are read through the same operations. Threads,
-- addresses, instructions and timestamps are numbers; arithmetic on addresses, timestamps and hashes
-- wraps at 2 ^ 64 and that on ids of the database at 2 ^ 32, as written. The counters of a detector
-- do not wrap. A clock that is dereferenced and not there, and an iterator at the end, are `none`.
-- The lock around each handler makes it one step, so that a run is a sequence of handlers. The loop
-- over units has as much fuel as the access has bytes, which is enough when its end does not wrap; a
-- loop that has not ended by then is `none`, and the handlers that run it do not return.
--
-- The controller, which runs the threads of a program, is a function from an action to what was
-- executed and what is enabled then. A message is written to a file and read back by parameters of
-- which only that is assumed. A node of a `std::list` is told from the others by its position.
--
-- Not modelled: output and logging, knobs, the analysis descriptor, the Pin callbacks, `Load`
-- and `Save` of the race database, of `Program` and of executions, `Lockset::Intersect`, the files of
-- the CHESS scheduler, the controller and the random scheduler, and
-- HistLockPlus, which does not compile. The other tools of the repository (idiom, pct, randsched,
-- sinst, tracer) are apart from these.
pub mod Base
pub mod Clock
pub mod Epoch
pub mod Lockset
pub mod LockVersions
pub mod Sync
pub mod Shadow
pub mod Djit
pub mod Eraser
pub mod Filter
pub mod Memory
pub mod Detector
pub mod FastTrack
pub mod AccuLock
pub mod MultiLock
pub mod HistLock
pub mod Detectors
pub mod RaceDb
pub mod Program
pub mod Fair
pub mod Objects
pub mod Search
pub mod Visited
pub mod Scheduler
pub mod Chess
pub mod Examples

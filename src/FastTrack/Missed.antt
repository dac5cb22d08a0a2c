-- ===== src/FastTrack/Missed.antt =====
-- A read that src/pintool/fasttrack.cpp drops, and the race that is missed for it.
use data_race_detectors.Base.{ℕ, ◌≤◌, ◌<◌, ◌≡◌, ◌≢◌, ◌∙◌, Bool, true, List, [], ◌∷◌, arith}
use data_race_detectors.Clock.{VectorClock, IsClock, get_clock}
use data_race_detectors.Epoch
use data_race_detectors.Shadow.{Counters, event_read, Report, Work}
use data_race_detectors.Shadow.Reports.{names}
use data_race_detectors.Djit
use data_race_detectors.Djit.History.{Past, run, last_read, last_write, names-write-run}
use data_race_detectors.FastTrack.{
  FastTrackMeta, new_fast_track_meta, check_writer, check_readers, record_read, record_write,
  process_read, process_write,
}

abbrev pub fresh_work : ℕ → Counters → List Report → Work FastTrackMeta
fresh_work addr c rs = record { meta = new_fast_track_meta addr; counters = c; reports = rs }

silent :
    (track : Bool) (addr t u v i j k : ℕ) (c : Counters) (rs : List Report)
    (reader second writer : VectorClock)
    → 1 ≤ get_clock u reader
    → get_clock u second ≡ get_clock u reader
    → get_clock u reader ≤ get_clock u writer
    → (process_write track writer v k (
        process_read track second t j
          (process_read track reader u i (fresh_work addr c rs)))).reports
      ≡ rs
unfolding process_read process_write record_read record_write check_writer check_readers Epoch.equal
    Epoch.happens_before Epoch.is_initial Epoch.make
silent track addr t u v i j k c rs reader second writer p e q = ground arith

abbrev pub two_reads : ℕ → ℕ → ℕ → ℕ → VectorClock → VectorClock → List Past
two_reads t u i j reader second =
    record { tid = u; vc = reader; inst = i; kind = event_read }
    ∷ record { tid = t; vc = second; inst = j; kind = event_read }
    ∷ []

loud :
    (track : Bool) (addr t u v i j k : ℕ) (c : Counters) (rs : List Report)
    (reader second writer : VectorClock)
    → IsClock 0 reader
    → IsClock 0 second
    → IsClock 0 writer
    → 1 ≤ get_clock u reader
    → t ≢ v
    → get_clock t writer < get_clock t second
    → names t
        (Djit.process_write track writer v k
          (run track (two_reads t u i j reader second) (Djit.History.fresh_work addr c rs))).reports
      ≡ true
unfolding last_read last_write
loud track addr t u v i j k c rs reader second writer a b d p ne lt =
    names-write-run track addr v k t c rs writer (two_reads t u i j reader second) d
      (a, p, (b, omega arith, tt))
    ∙ ground arith

-- A unit is read by a thread u whose own timestamp is not 0, then by a thread t whose clock holds
-- the same timestamp of u, and then written by another thread v after the first read and not
-- after the second. For well-formed clocks, FastTrack drops the second read and reports nothing,
-- where Djit reports a race with t.
pub missed_race :
    (track : Bool) (addr t u v i j k : ℕ) (c : Counters) (rs : List Report)
    (reader second writer : VectorClock)
    → IsClock 0 reader
    → IsClock 0 second
    → IsClock 0 writer
    → 1 ≤ get_clock u reader
    → get_clock u second ≡ get_clock u reader
    → get_clock u reader ≤ get_clock u writer
    → t ≢ v
    → get_clock t writer < get_clock t second
    → ((process_write track writer v k (
          process_read track second t j
            (process_read track reader u i (fresh_work addr c rs)))).reports
        ≡ rs)
      × (names t
            (Djit.process_write track writer v k (
              run track
                (two_reads t u i j reader second)
                (Djit.History.fresh_work addr c rs))).reports
          ≡ true)
missed_race track addr t u v i j k c rs reader second writer a b d p e q ne lt = (
  silent track addr t u v i j k c rs reader second writer p e q,
  loud track addr t u v i j k c rs reader second writer a b d p ne lt,
)

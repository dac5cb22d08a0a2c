-- ===== src/Djit/History.antt =====
-- The detector of src/pintool/djit.cpp on one memory unit against the history of its accesses.
use data_race_detectors.Base.{
  ℕ, ◌≤◌, ◌≡◌, refl, ap, ◌∙◌, Bool, true, false, not, ◌&&◌, ◌||◌, List, [], ◌∷◌, ◌==◌,
  if◌then◌else◌, arith,
}
use data_race_detectors.Clock.{VectorClock, IsClock, get_clock, set_clock}
use data_race_detectors.Clock.Laws.{get_clock-nil, get_clock-set_clock, IsClock-set_clock}
use data_race_detectors.Shadow.{
  RaceEventType, event_read, event_write, Work, Counters, Report, read_access, write_access,
}
use data_race_detectors.Shadow.Reports.{names, Adds, Adds-ext, Adds-names}
use data_race_detectors.Djit.{
  DjitMeta, new_djit_meta, check, count_read, count_write, process_read, process_write,
}
use data_race_detectors.Djit.Laws.{IsDjit, unseen, check_keeps, Adds-djit_read, Adds-djit_write}

-- An access to the unit: the thread, its clock at the time, and the instruction.
pub record Past : Type 0 where
  pub tid : ℕ
  pub vc : VectorClock
  pub inst : ℕ
  pub kind : RaceEventType

abbrev process : RaceEventType → Bool → VectorClock → ℕ → ℕ → Work DjitMeta → Work DjitMeta
process event_read = process_read
process event_write = process_write

-- The accesses in order, the oldest first.
unfoldable pub run : Bool → List Past → Work DjitMeta → Work DjitMeta
run track [] w = w
run track (p ∷ ps) w = run track ps (process p.kind track p.vc p.tid p.inst w)

-- Clocks are well formed, and a thread's own timestamp is not 0.
abbrev pub IsPast : List Past → Type 0
IsPast [] = Unit
IsPast (p ∷ ps) = IsClock 0 p.vc × (1 ≤ get_clock p.tid p.vc) × IsPast ps

abbrev last_if : Bool → ℕ → Past → ℕ → ℕ
last_if counts u p d = if counts && p.tid == u then get_clock u p.vc else d

abbrev is_write : RaceEventType → Bool
is_write event_read = false
is_write event_write = true

-- The timestamp of the last write of thread `u`, or `d` if it wrote nothing.
unfoldable pub last_write : ℕ → ℕ → List Past → ℕ
last_write u d [] = d
last_write u d (p ∷ ps) = last_write u (last_if (is_write p.kind) u p d) ps

unfoldable pub last_read : ℕ → ℕ → List Past → ℕ
last_read u d [] = d
last_read u d (p ∷ ps) = last_read u (last_if (not (is_write p.kind)) u p d) ps

read_clocks :
    (track : Bool) (vc : VectorClock) (t inst : ℕ) (w : Work DjitMeta)
    → ((process_read track vc t inst w).meta.writer_vc ≡ w.meta.writer_vc)
      × ((process_read track vc t inst w).meta.reader_vc
          ≡ set_clock t (get_clock t vc) w.meta.reader_vc)
unfolding process_read count_read
read_clocks track vc t inst w =
    let k =
      check_keeps (read_access t inst) vc w.meta.writer_vc event_write w.meta.writer_inst_table
        (count_read vc w) in
    (k.0, ap (set_clock t (get_clock t vc)) k.1)

write_clocks :
    (track : Bool) (vc : VectorClock) (t inst : ℕ) (w : Work DjitMeta)
    → ((process_write track vc t inst w).meta.writer_vc
        ≡ set_clock t (get_clock t vc) w.meta.writer_vc)
      × ((process_write track vc t inst w).meta.reader_vc ≡ w.meta.reader_vc)
unfolding process_write count_write
write_clocks track vc t inst w =
    let a = write_access t inst in
    let first =
      check a vc w.meta.writer_vc event_write w.meta.writer_inst_table (count_write vc w) in
    let k =
      check_keeps a vc w.meta.writer_vc event_write w.meta.writer_inst_table (count_write vc w) in
    let l = check_keeps a vc w.meta.reader_vc event_read w.meta.reader_inst_table first in
    (ap (set_clock t (get_clock t vc)) (l.0 ∙ k.0), l.1 ∙ k.1)

process-IsDjit :
    (kind : RaceEventType) (track : Bool) (vc : VectorClock) (t inst : ℕ) (w : Work DjitMeta)
    → 1 ≤ get_clock t vc
    → IsDjit w.meta
    → IsDjit (process kind track vc t inst w).meta
process-IsDjit event_read track vc t inst w p d =
    let (e, f) = read_clocks track vc t inst w in
    record {
      writer = rw e d.writer;
      reader = rw f (IsClock-set_clock 0 t _ w.meta.reader_vc (omega arith) p d.reader);
    }
process-IsDjit event_write track vc t inst w p d =
    let (e, f) = write_clocks track vc t inst w in
    record {
      writer = rw e (IsClock-set_clock 0 t _ w.meta.writer_vc (omega arith) p d.writer);
      reader = rw f d.reader;
    }

run-IsDjit :
    (track : Bool) (ps : List Past) (w : Work DjitMeta)
    → IsPast ps
    → IsDjit w.meta
    → IsDjit (run track ps w).meta
unfolding run
run-IsDjit track [] w h d = d
run-IsDjit track (p ∷ ps) w h d =
    run-IsDjit track ps (process p.kind track p.vc p.tid p.inst w) h.2
      (process-IsDjit p.kind track p.vc p.tid p.inst w h.1 d)

process-clocks :
    (kind : RaceEventType) (track : Bool) (vc : VectorClock) (t inst u : ℕ) (w : Work DjitMeta)
    → let k = (process kind track vc t inst w).meta in
      (get_clock u k.writer_vc
        ≡ (if is_write kind && t == u then get_clock u vc else get_clock u w.meta.writer_vc))
      × (get_clock u k.reader_vc ≡ (
          if not (is_write kind) && t == u then get_clock u vc else get_clock u w.meta.reader_vc))
process-clocks event_read track vc t inst u w =
    let (e, f) = read_clocks track vc t inst w in
    rw (e, f) (refl, ground (arith, get_clock-set_clock u t (get_clock t vc) w.meta.reader_vc))
process-clocks event_write track vc t inst u w =
    let (e, f) = write_clocks track vc t inst w in
    rw (e, f) (ground (arith, get_clock-set_clock u t (get_clock t vc) w.meta.writer_vc), refl)

-- The two clocks hold the timestamps of the last write and of the last read of every thread.
run-clocks :
    (track : Bool) (u : ℕ) (ps : List Past) (w : Work DjitMeta)
    → (get_clock u (run track ps w).meta.writer_vc ≡ last_write u (get_clock u w.meta.writer_vc) ps)
      × (get_clock u (run track ps w).meta.reader_vc
          ≡ last_read u (get_clock u w.meta.reader_vc) ps)
unfolding run last_write last_read
run-clocks track u [] w = (refl, refl)
run-clocks track u (p ∷ ps) w =
    let (e, f) = process-clocks p.kind track p.vc p.tid p.inst u w in
    let (g, h) = run-clocks track u ps (process p.kind track p.vc p.tid p.inst w) in
    (g ∙ ap (λ d. last_write u d ps) e, h ∙ ap (λ d. last_read u d ps) f)

abbrev pub fresh_work : ℕ → Counters → List Report → Work DjitMeta
fresh_work addr c rs = record { meta = new_djit_meta addr; counters = c; reports = rs }

new-IsDjit : (addr : ℕ) → IsDjit (new_djit_meta addr)
new-IsDjit addr = record { writer = tt; reader = tt }

last_writes :
    (track : Bool) (addr u : ℕ) (c : Counters) (rs : List Report) (ps : List Past)
    → get_clock u (run track ps (fresh_work addr c rs)).meta.writer_vc ≡ last_write u 0 ps
last_writes track addr u c rs ps =
    (run-clocks track u ps (fresh_work addr c rs)).0 ∙ ap (λ d. last_write u d ps) (get_clock-nil u)

last_reads :
    (track : Bool) (addr u : ℕ) (c : Counters) (rs : List Report) (ps : List Past)
    → get_clock u (run track ps (fresh_work addr c rs)).meta.reader_vc ≡ last_read u 0 ps
last_reads track addr u c rs ps =
    (run-clocks track u ps (fresh_work addr c rs)).1 ∙ ap (λ d. last_read u d ps) (get_clock-nil u)

-- After any history of accesses with well-formed clocks, in which a thread's own timestamp is not
-- 0, an access appends reports to the list, and nothing else happens to the list. Among what a
-- Djit read by t appends is a report against u exactly when u is another thread whose last write
-- the clock of t has not reached, and among what a Djit write by t appends is one exactly when u is
-- another thread whose last write or last read the clock of t has not reached.
pub names-run :
    (track : Bool) (addr t inst : ℕ) (c : Counters) (rs : List Report) (vc : VectorClock)
    (ps : List Past)
    → IsClock 0 vc
    → IsPast ps
    → let w = run track ps (fresh_work addr c rs) in
      Adds
        (λ u. unseen t vc u (last_write u 0 ps))
        w.reports
        (process_read track vc t inst w).reports
      × Adds
          (λ u. unseen t vc u (last_write u 0 ps) || unseen t vc u (last_read u 0 ps))
          w.reports
          (process_write track vc t inst w).reports
names-run track addr t inst c rs vc ps k h =
    let w = run track ps (fresh_work addr c rs) in
    let d = run-IsDjit track ps (fresh_work addr c rs) h (new-IsDjit addr) in
    (
      Adds-ext _ _ w.reports _ (λ u. ap (unseen t vc u) (last_writes track addr u c rs ps))
          (Adds-djit_read track vc t inst w k d),
      Adds-ext _ _ w.reports _
          (λ u. rw (last_writes track addr u c rs ps, last_reads track addr u c rs ps) refl)
          (Adds-djit_write track vc t inst w k d),
    )

pub names-write-run :
    (track : Bool) (addr t inst u : ℕ) (c : Counters) (rs : List Report) (vc : VectorClock)
    (ps : List Past)
    → IsClock 0 vc
    → IsPast ps
    → let w = run track ps (fresh_work addr c rs) in
      names u (process_write track vc t inst w).reports ≡ (
        names u w.reports
        || (unseen t vc u (last_write u 0 ps) || unseen t vc u (last_read u 0 ps)))
names-write-run track addr t inst u c rs vc ps k h =
    let w = run track ps (fresh_work addr c rs) in
    Adds-names _ w.reports _ (names-run track addr t inst c rs vc ps k h).1 u

-- ===== src/Eraser/Detects.antt =====
-- The races that src/pintool/eraser.cpp finds.
use native.Mathlib.Decide.{ℕ_discrete}
use data_race_detectors.Base.{
  ℕ, ◌≡◌, refl, ◌≢◌, ◌∙◌, Bool, true, not, ◌&&◌, ◌||◌, [], ◌∷◌, ◌==◌, Map, find, insert,
  find-insert, some, arith,
}
use data_race_detectors.Lockset.{Lockset, is_disjoint}
use data_race_detectors.Shadow.{
  RaceEventType, event_read, event_write, null, inst_at, Work, Access, read_access, write_access,
  race_with,
}
use data_race_detectors.Shadow.Reports.{names, names-append}
use data_race_detectors.Eraser.{
  Tlp, EraserMeta, check, check_readers, process_read, process_write, process,
}

names-check :
    (a : Access) (held : Lockset) (earlier : Tlp) (inst : ℕ) (kind : RaceEventType) (u : ℕ)
    (w : Work EraserMeta)
    → names u (check a held earlier inst kind w).reports ≡ (
        names u w.reports
        || (earlier.tid == u
            && (not (earlier.tid == a.tid)
                && is_disjoint earlier.locks held
                && not (inst == null))))
unfolding check
names-check a held earlier inst kind u w =
    ground
      (arith, names-append u w.reports (race_with w.meta.base.addr a earlier.tid inst kind ∷ []))

names-check_readers_mono :
    (a : Access) (held : Lockset) (table : Map ℕ) (u : ℕ) (m : Map Tlp) (w : Work EraserMeta)
    → names u w.reports ≡ true
    → names u (check_readers a held table m w).reports ≡ true
unfolding check_readers
names-check_readers_mono a held table u [] w h = h
names-check_readers_mono a held table u ((v, s) ∷ m) w h =
    names-check_readers_mono a held table u m _
      (ground (arith, names-check a held s (inst_at s.tid table) event_read u w))

names-check_readers :
    (a : Access) (held : Lockset) (table : Map ℕ) (u : ℕ) (m : Map Tlp) (r : Tlp)
    (w : Work EraserMeta)
    → find u m ≡ some r
    → r.tid ≡ u
    → u ≢ a.tid
    → is_disjoint r.locks held ≡ true
    → inst_at u table ≢ null
    → names u (check_readers a held table m w).reports ≡ true
unfolding check_readers find
names-check_readers a held table u [] r w e k ne d n = cc
names-check_readers a held table u ((v, s) ∷ m) r w e k ne d n = elim (ℕ_discrete v u) [
  | yes p ↦
      let same : s ≡ r = ground arith in
      names-check_readers_mono a held table u m _
        (ground (arith, names-check a held s (inst_at s.tid table) event_read u w))
  | no q ↦ names-check_readers a held table u m r _ (ground arith) k ne d n
]

inst_there : (u i : ℕ) (table : Map ℕ) → i ≢ null → inst_at u (insert u i table) ≢ null
unfolding inst_at
inst_there u i table n = ground (arith, find-insert u u i table)

names-check_last :
    (a : Access) (held s : Lockset) (u inst : ℕ) (kind : RaceEventType) (w : Work EraserMeta)
    → u ≢ a.tid
    → inst ≢ null
    → is_disjoint s held ≡ true
    → names u (check a held (record { tid = u; locks = s }) inst kind w).reports ≡ true
names-check_last a held s u inst kind w ne n d =
    names-check a held (record { tid = u; locks = s }) inst kind u w ∙ ground arith

-- An Eraser write followed by an access of another thread is reported when the instruction of the
-- write is not NULL and the two held no common lock.
pub process-process_write :
    (kind : RaceEventType) (track : Bool) (s t : Lockset) (u v i j : ℕ) (w : Work EraserMeta)
    → u ≢ v
    → i ≢ null
    → is_disjoint s t ≡ true
    → names u (process kind track t v j (process_write track s u i w)).reports ≡ true
unfolding process_read process_write
process-process_write event_read track s t u v i j w ne n d =
    names-check_last (read_access v j) t s u i event_write _ ne n d
process-process_write event_write track s t u v i j w ne n d =
    names-check_readers_mono (write_access v j) t _ u _ _
      (names-check_last (write_access v j) t s u i event_write _ ne n d)

-- An Eraser read followed by a write of another thread is reported when the instruction of the
-- read is not NULL and the two held no common lock.
pub process_write-process_read :
    (track : Bool) (s t : Lockset) (u v i j : ℕ) (w : Work EraserMeta)
    → u ≢ v
    → i ≢ null
    → is_disjoint s t ≡ true
    → names u (process_write track t v j (process_read track s u i w)).reports ≡ true
unfolding process_read process_write
process_write-process_read track s t u v i j w ne n d =
    let k =
      (check (read_access u i) s w.meta.writer_lockset w.meta.writer_inst event_write w).meta in
    let r : Tlp = record { tid = u; locks = s } in
    names-check_readers (write_access v j) t (insert u i k.reader_inst_table) u
      (insert u r k.reader_lockset) r _ (find-insert u u r k.reader_lockset ∙ ground arith) refl ne
      d (inst_there u i k.reader_inst_table n)

-- Let two threads access a unit one after the other under no common lock, and the instruction of the
-- first access be not NULL. An Eraser write is then reported at an access of the other thread, and
-- an Eraser read at a write of the other thread.
pub eraser_detects :
    (kind : RaceEventType) (track : Bool) (s t : Lockset) (u v i j : ℕ) (w : Work EraserMeta)
    → u ≢ v
    → i ≢ null
    → is_disjoint s t ≡ true
    → (names u (process kind track t v j (process_write track s u i w)).reports ≡ true)
      × (names u (process_write track t v j (process_read track s u i w)).reports ≡ true)
eraser_detects kind track s t u v i j w ne n d = (
  process-process_write kind track s t u v i j w ne n d,
  process_write-process_read track s t u v i j w ne n d,
)

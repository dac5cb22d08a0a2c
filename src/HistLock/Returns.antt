-- ===== src/HistLock/Returns.antt =====
-- The accesses of src/pintool/histlock.cpp return on histories that nothing has left.
use data_race_detectors.Base.{
  ℕ, ◌<◌, ◌≡◌, refl, sym, subst, ◌∙◌, inl, inr, Bool, Option, some, Bool-cases,
}
use data_race_detectors.Clock.{VectorClock}
use data_race_detectors.Lockset.{Lockset}
use data_race_detectors.Shadow.{event_read, event_write, Work, read_access, write_access}
use data_race_detectors.AccuLock.{bump_wr, bump_ww, bump_rw}
use data_race_detectors.HistLock.{
  History, HistLockMeta, window_size, length, touch, check_all, current, skip, record_read,
  record_write, skip_read, skip_write, process_read, process_write,
}
use data_race_detectors.HistLock.Window.{check_all_keeps}
use data_race_detectors.HistLock.Linked.{IsHistory, touch-IsHistory}
use data_race_detectors.HistLock.Pushed.{push_total}

abbrev pub IsMeta : HistLockMeta → Type 0
IsMeta m = IsHistory m.reader × IsHistory m.writer

abbrev pub HasRoom : HistLockMeta → Type 0
HasRoom m = (length m.reader.elpi_list < window_size) × (length m.writer.elpi_list < window_size)

-- The access returns, and keeps the invariant if both histories have room.
abbrev pub Returns : HistLockMeta → Option (Work HistLockMeta) → Type 0
Returns m o = (w : Work HistLockMeta) × (o ≡ some w) × (HasRoom m → IsMeta w.meta)

module _ (track : Bool) (vc : VectorClock) (held : Lockset) (site t inst : ℕ)
    (w : Work HistLockMeta) (i : IsMeta w.meta) where
  read-Returns : Returns w.meta (process_read track vc held site t inst w)
  unfolding process_read record_read
  read-Returns =
      let m = w.meta in
      let v = record w { meta = record m { reader = touch t m.reader } } in
      let a = read_access t inst in
      let checked = check_all bump_wr a vc held event_write m.writer.elpi_list v in
      let (x, y) = check_all_keeps bump_wr a vc held event_write m.writer.elpi_list v in
      let touched = touch-IsHistory t m.reader (i.0) in
      elim (Bool-cases (skip_read vc m)) [
        | inl z ↦ rw z (skip v, refl, λ room. (touched, i.1))
        | inr n ↦
            let (r, e, valid) =
              push_total site t (current vc held t) inst checked.meta.reader (rw x touched) in
            rw (n, e)
              (
                record_read track t inst checked r,
                refl,
                λ room. (
                  valid
                      (subst (λ (h : History). length h.elpi_list < window_size) (sym x) (room.0)),
                  rw y (i.1),
                ),
              )
      ]

  write-Returns : Returns w.meta (process_write track vc held site t inst w)
  unfolding process_write record_write
  write-Returns =
      let m = w.meta in
      let a = write_access t inst in
      let v = record w { meta = record m { writer = touch t m.writer } } in
      let first = check_all bump_ww a vc held event_write m.writer.elpi_list v in
      let (x, y) = check_all_keeps bump_ww a vc held event_write m.writer.elpi_list v in
      let checked = check_all bump_rw a vc held event_read m.reader.elpi_list first in
      let (x', y') = check_all_keeps bump_rw a vc held event_read m.reader.elpi_list first in
      let touched = touch-IsHistory t m.writer (i.1) in
      elim (Bool-cases (skip_write vc m)) [
        | inl z ↦ rw z (skip v, refl, λ room. (i.0, touched))
        | inr n ↦
            let (r, e, valid) =
              push_total site t (current vc held t) inst checked.meta.writer
                (rw (y' ∙ y) touched) in
            rw (n, e)
              (
                record_write track t inst checked r,
                refl,
                λ room. (
                  rw (x' ∙ x) (i.0),
                  valid (
                      subst (λ (h : History). length h.elpi_list < window_size) (sym (y' ∙ y))
                        (room.1)),
                ),
              )
      ]

-- When every node that a thread would erase is still in its list, and both histories have room for
-- one more access, a read and a write of any thread in any call site return, and leave the
-- histories so that every node that a thread would erase is in its list.
pub accesses-Return :
    (track : Bool) (vc : VectorClock) (held : Lockset) (site t inst : ℕ) (w : Work HistLockMeta)
    → IsMeta w.meta
    → HasRoom w.meta
    → ((w1 : Work HistLockMeta) × (process_read track vc held site t inst w ≡ some w1)
        × IsMeta w1.meta)
      × ((w2 : Work HistLockMeta) × (process_write track vc held site t inst w ≡ some w2)
          × IsMeta w2.meta)
accesses-Return track vc held site t inst w i room =
    let (w1, e1, k1) = read-Returns track vc held site t inst w i in
    let (w2, e2, k2) = write-Returns track vc held site t inst w i in
    ((w1, e1, k1 room), (w2, e2, k2 room))

-- ===== src/HistLock/Window.antt =====
-- The histories of src/pintool/histlock.cpp stay within the window, and their nodes keep their
-- positions apart.
use data_race_detectors.Base.{
  ℕ, suc, ◌+◌, ◌≤◌, ◌≡◌, refl, ap, subst, ◌∙◌, inl, inr, Bool, not, Option, some, List, [], ◌∷◌,
  ◌++◌, ◌==◌, if◌then◌else◌, Bool-cases, Option-cases, arith,
}
use data_race_detectors.Clock.{VectorClock}
use data_race_detectors.Lockset.{Lockset}
use data_race_detectors.Shadow.{
  Counters, RaceEventType, event_read, event_write, Work, Access, read_access, write_access,
}
use data_race_detectors.AccuLock.{Elp, bump_wr, bump_ww, bump_rw}
use data_race_detectors.HistLock.{
  Elpi, History, HistLockMeta, window_size, length, callsite_at, touch, erase_pos, erase_all,
  pop_old, push, check, check_all, current, record_read, record_write, skip_read, skip_write,
  process_read, process_write, process_access,
}

length-erase_pos : (p : ℕ) (es r : List Elpi) → erase_pos p es ≡ some r → length es ≡ suc (length r)
unfolding erase_pos
length-erase_pos p [] r h = cc
length-erase_pos p (e ∷ es) r h = elim (Bool-cases (e.pos == p)) [
  | inl y ↦ ground (arith, y, h)
  | inr n ↦ elim (Option-cases (erase_pos p es)) [
    | inl x ↦ absurd (ground (arith, n, x, h))
    | inr (q, x) ↦
        let s : e ∷ q ≡ r = ground (arith, n, x, h) in
        rw (← s) (omega (arith, length-erase_pos p es q x))
  ]
]

length-erase_all :
    (ps : List ℕ) (es r : List Elpi) → erase_all ps es ≡ some r → length r ≤ length es
unfolding erase_all
length-erase_all [] es r h = ground (arith, h)
length-erase_all (p ∷ ps) es r h = elim (Option-cases (erase_pos p es)) [
  | inl x ↦ absurd (ground (arith, x, h))
  | inr (q, x) ↦
      omega (arith, length-erase_pos p es q x, length-erase_all ps q r (ground (arith, x, h)))
]

length-pop_old : (es : List Elpi) → length es ≤ window_size + 1 → length (pop_old es) ≤ window_size
unfolding pop_old
length-pop_old [] h = omega arith
length-pop_old (e ∷ es) h = ground arith

pub length-push : (es : List Elpi) (e : Elpi) → length (es ++ e ∷ []) ≡ suc (length es)
length-push [] e = refl
length-push (x ∷ es) e = omega (arith, length-push es e)

-- What an access leaves in the list before it comes in itself.
abbrev pub kept : ℕ → ℕ → History → Option (List Elpi)
kept site t h =
    let c = callsite_at t h.callsite_map in
    if not (c.0 == site) then erase_all c.1 h.elpi_list else some h.elpi_list

pub push_parts :
    (site t : ℕ) (elp : Elp) (inst : ℕ) (h : History) (r : ℕ × History)
    → push site t elp inst h ≡ some r
    → (es : List Elpi) × (kept site t h ≡ some es)
      × (r.1.elpi_list ≡ pop_old (es ++ record { pos = h.next_pos; elp = elp; inst = inst } ∷ []))
unfolding push
push_parts site t elp inst h r e = elim (Option-cases (kept site t h)) [
  | inl x ↦ absurd (ground (arith, x, e))
  | inr (es, x) ↦ (es, x, ground (arith, x, e))
]

pub kept-length :
    (site t : ℕ) (h : History) (es : List Elpi)
    → kept site t h ≡ some es
    → length es ≤ length h.elpi_list
kept-length site t h es e = elim (Bool-cases ((callsite_at t h.callsite_map).0 == site)) [
  | inl y ↦ ground (arith, y, e)
  | inr n ↦ length-erase_all (callsite_at t h.callsite_map).1 h.elpi_list es (ground (arith, n, e))
]

push-window :
    (site t : ℕ) (elp : Elp) (inst : ℕ) (h : History) (r : ℕ × History)
    → length h.elpi_list ≤ window_size
    → push site t elp inst h ≡ some r
    → length r.1.elpi_list ≤ window_size
push-window site t elp inst h r b e =
    let (es, x, same) = push_parts site t elp inst h r e in
    let n : Elpi = record { pos = h.next_pos; elp = elp; inst = inst } in
    rw same
      (length-pop_old (es ++ n ∷ []) (omega (arith, length-push es n, kept-length site t h es x)))

check_keeps :
    (bump : Counters → Counters) (a : Access) (vc : VectorClock) (held : Lockset)
    (kind : RaceEventType) (e : Elpi) (w : Work HistLockMeta)
    → ((check bump a vc held kind e w).meta.reader ≡ w.meta.reader)
      × ((check bump a vc held kind e w).meta.writer ≡ w.meta.writer)
unfolding check
check_keeps bump a vc held kind e w = ground arith

-- Checking earlier accesses leaves the histories alone.
pub check_all_keeps :
    (bump : Counters → Counters) (a : Access) (vc : VectorClock) (held : Lockset)
    (kind : RaceEventType) (es : List Elpi) (w : Work HistLockMeta)
    → ((check_all bump a vc held kind es w).meta.reader ≡ w.meta.reader)
      × ((check_all bump a vc held kind es w).meta.writer ≡ w.meta.writer)
unfolding check_all
check_all_keeps bump a vc held kind [] w = (refl, refl)
check_all_keeps bump a vc held kind (e ∷ es) w =
    let (x, y) = check_all_keeps bump a vc held kind es (check bump a vc held kind e w) in
    let (p, q) = check_keeps bump a vc held kind e w in (x ∙ p, y ∙ q)

abbrev pub InWindow : HistLockMeta → Type 0
InWindow m = (length m.reader.elpi_list ≤ window_size) × (length m.writer.elpi_list ≤ window_size)

module _ (track : Bool) (vc : VectorClock) (held : Lockset) (site t inst : ℕ)
    (w w' : Work HistLockMeta) where
  read_InWindow :
      InWindow w.meta → process_read track vc held site t inst w ≡ some w' → InWindow w'.meta
  unfolding process_read record_read
  read_InWindow b h =
      let m = w.meta in
      let v = record w { meta = record m { reader = touch t m.reader } } in
      let checked =
        check_all bump_wr (read_access t inst) vc held event_write m.writer.elpi_list v in
      let (x, y) =
        check_all_keeps bump_wr (read_access t inst) vc held event_write m.writer.elpi_list v in
      elim (Bool-cases (skip_read vc m)) [
        | inl z ↦ ground (arith, z, h)
        | inr n ↦ elim (Option-cases (push site t (current vc held t) inst checked.meta.reader)) [
          | inl p ↦ absurd (ground (arith, n, p, h))
          | inr (r, p) ↦
              let e : record_read track t inst checked r ≡ w' = ground (arith, n, p, h) in
              let q =
                push-window site t (current vc held t) inst checked.meta.reader r (rw x (b.0)) p in
              let z : checked.meta.writer.elpi_list ≡ m.writer.elpi_list =
                ap (λ (k : History). k.elpi_list) y in
              subst (λ u. InWindow u.meta) e (q, rw z (b.1))
        ]
      ]

  write_InWindow :
      InWindow w.meta → process_write track vc held site t inst w ≡ some w' → InWindow w'.meta
  unfolding process_write record_write
  write_InWindow b h =
      let m = w.meta in
      let a = write_access t inst in
      let v = record w { meta = record m { writer = touch t m.writer } } in
      let first = check_all bump_ww a vc held event_write m.writer.elpi_list v in
      let (x, y) = check_all_keeps bump_ww a vc held event_write m.writer.elpi_list v in
      let checked = check_all bump_rw a vc held event_read m.reader.elpi_list first in
      let (x', y') = check_all_keeps bump_rw a vc held event_read m.reader.elpi_list first in
      elim (Bool-cases (skip_write vc m)) [
        | inl z ↦ ground (arith, z, h)
        | inr n ↦ elim (Option-cases (push site t (current vc held t) inst checked.meta.writer)) [
          | inl p ↦ absurd (ground (arith, n, p, h))
          | inr (r, p) ↦
              let e : record_write track t inst checked r ≡ w' = ground (arith, n, p, h) in
              let q =
                push-window site t (current vc held t) inst checked.meta.writer r
                  (rw (y' ∙ y) (b.1)) p in
              let z : checked.meta.reader.elpi_list ≡ m.reader.elpi_list =
                ap (λ (k : History). k.elpi_list) (x' ∙ x) in
              subst (λ u. InWindow u.meta) e (rw z (b.0), q)
        ]
      ]

-- When no history is longer than the window, none is after a read that returns, and none is after a
-- write that returns.
pub accesses-InWindow :
    (kind : RaceEventType) (track : Bool) (vc : VectorClock) (held : Lockset) (site t inst : ℕ)
    (w w' : Work HistLockMeta)
    → InWindow w.meta
    → process_access kind track vc held site t inst w ≡ some w'
    → InWindow w'.meta
accesses-InWindow event_read = read_InWindow
accesses-InWindow event_write = write_InWindow

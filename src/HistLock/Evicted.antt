-- ===== src/HistLock/Evicted.antt =====
-- A node that src/pintool/histlock.cpp drops from the front of its window stays among the nodes of its
-- call site, and is erased once more when the thread goes on in another.
use data_race_detectors.Base.{
  ==_iff, ℕ, suc, ◌≡◌, ap, sym, subst, ◌∙◌, inl, inr, Bool, true, false, none, some, List, [], ◌∷◌,
  ◌++◌, ◌==◌, Bool-cases, Option-cases, arith,
}
use data_race_detectors.Clock.{VectorClock}
use data_race_detectors.Lockset.{Lockset, is_exist}
use data_race_detectors.Shadow.{event_write, Work, read_access}
use data_race_detectors.AccuLock.{Elp, bump_wr}
use data_race_detectors.HistLock.{
  Elpi, History, HistLockMeta, window_size, length, callsite_at, touch, erase_pos, erase_all,
  pop_old, push, check_all, current, record_read, skip_read, process_read,
}
use data_race_detectors.HistLock.Window.{length-push, check_all_keeps}
use data_race_detectors.HistLock.Nodes.{has_pos, PosFrom, has_pos_below, has_pos-push}
use data_race_detectors.HistLock.Linked.{
  IsHistory, touch-IsHistory, nodes_of, own, pushed, push-some, callsite_at-insert, nodes_of-touch,
  nodes_of-pushed, is_exist-last,
}

erase_pos_missing :
    (p q : ℕ) (es r : List Elpi)
    → has_pos p es ≡ false
    → erase_pos q es ≡ some r
    → (has_pos p r ≡ false) × ((q == p) ≡ false)
unfolding erase_pos has_pos
erase_pos_missing p q [] r n h = cc
erase_pos_missing p q (e ∷ es) r n h = elim (Bool-cases (e.pos == q)) [
  | inl y ↦ ground (arith, y, n, h)
  | inr o ↦ elim (Option-cases (erase_pos q es)) [
    | inl x ↦ absurd (ground (arith, o, x, h))
    | inr (s, x) ↦
        let same : e ∷ s ≡ r = ground (arith, o, x, h) in
        let ih = erase_pos_missing p q es s (ground (arith, n)) x in
        (rw (← same) (ground (arith, n, ih.0)), ih.1)
  ]
]

-- Erasing a node that is gone fails.
erase_all_missing :
    (p : ℕ) (ps : List ℕ) (es : List Elpi)
    → is_exist p ps ≡ true
    → has_pos p es ≡ false
    → erase_all ps es ≡ none
unfolding erase_all is_exist
erase_all_missing p [] es m n = cc
erase_all_missing p (q ∷ ps) es m n = elim (Option-cases (erase_pos q es)) [
  | inl x ↦ ground (arith, x)
  | inr (r, x) ↦
      let (gone, o) = erase_pos_missing p q es r n x in
      let rest = erase_all_missing p ps r (ground (arith, o, m)) gone in ground (arith, x, rest)
]

push_missing :
    (p site t : ℕ) (elp : Elp) (inst : ℕ) (h : History)
    → ((callsite_at t h.callsite_map).0 == site) ≡ false
    → is_exist p (nodes_of t h) ≡ true
    → has_pos p h.elpi_list ≡ false
    → push site t elp inst h ≡ none
unfolding push
push_missing p site t elp inst h n m g =
    let e = erase_all_missing p (nodes_of t h) h.elpi_list m g in ground (arith, n, e)

pop_old_full :
    (e : Elpi) (es : List Elpi)
    → length (e ∷ es) ≡ window_size
    → (n : Elpi) → pop_old (e ∷ es ++ n ∷ []) ≡ es ++ n ∷ []
unfolding pop_old
pop_old_full e es l n = ground (arith, length-push es n)

-- The history after a full window has lost its first node, which its thread still refers to.
module _ (site t : ℕ) (elp : Elp) (inst : ℕ) (h : History) (e : Elpi) (es : List Elpi) where
  push_evicts :
      IsHistory h
      → h.elpi_list ≡ e ∷ es
      → length (e ∷ es) ≡ window_size
      → (callsite_at t h.callsite_map).0 ≡ site
      → is_exist e.pos (nodes_of t h) ≡ true
      → (r : ℕ × History) × (push site t elp inst h ≡ some r)
        × ((callsite_at t r.1.callsite_map).0 ≡ site)
        × (is_exist e.pos (nodes_of t r.1) ≡ true)
        × (has_pos e.pos r.1.elpi_list ≡ false)
  unfolding has_pos
  push_evicts i full l s m =
      let y = (==_iff (callsite_at t h.callsite_map).0 site).1 s in
      let n : Elpi = record { pos = h.next_pos; elp = elp; inst = inst } in
      let (r, p, q) = push-some site t elp inst h (e ∷ es) (rw y (ap some full)) in
      let z = pop_old_full e es l n in
      let low = i.low e.pos (rw full (ground arith)) in
      let placed = subst (PosFrom 0) full i.placed in
      let gone = has_pos_below e.pos (suc e.pos) es placed.1 (omega arith) in
      let x = has_pos-push e.pos es n in
      let k = record (pushed site t elp inst h (e ∷ es)) {
        elpi_list = pop_old (e ∷ es ++ n ∷ []);
      } in
      let c = callsite_at-insert t t (site, own site t h ++ h.next_pos ∷ []) h.callsite_map in
      let d = nodes_of-pushed t site t elp inst h (e ∷ es) in
      let w = is_exist-last e.pos h.next_pos (nodes_of t h) in
      let same_site : (callsite_at t k.callsite_map).0 ≡ site =
        ap (λ (v : ℕ × List ℕ). v.0) c ∙ ground arith in
      let there : is_exist e.pos (nodes_of t k) ≡ true = ground (arith, d, w, y, m) in
      let left : has_pos e.pos k.elpi_list ≡ false = rw z (ground (arith, x, gone, low)) in
      (
        r,
        p,
        subst (λ v. (callsite_at t v.callsite_map).0 ≡ site) (sym q) same_site,
        subst (λ v. is_exist e.pos (nodes_of t v) ≡ true) (sym q) there,
        subst (λ v. has_pos e.pos v.elpi_list ≡ false) (sym q) left,
      )

touched_site :
    (t : ℕ) (h : History)
    → (callsite_at t (touch t h).callsite_map).0 ≡ (callsite_at t h.callsite_map).0
touched_site t h =
    ap (λ (v : ℕ × List ℕ). v.0)
      (callsite_at-insert t t (callsite_at t h.callsite_map) h.callsite_map)
    ∙ ground arith

read_missing :
    (track : Bool) (vc : VectorClock) (held : Lockset) (p site site' t inst : ℕ)
    (w : Work HistLockMeta)
    → (callsite_at t w.meta.reader.callsite_map).0 ≡ site
    → is_exist p (nodes_of t w.meta.reader) ≡ true
    → has_pos p w.meta.reader.elpi_list ≡ false
    → (site == site') ≡ false
    → skip_read vc w.meta ≡ false
    → process_read track vc held site' t inst w ≡ none
unfolding process_read
read_missing track vc held p site site' t inst w s m g o n =
    let k = w.meta in
    let v = record w { meta = record k { reader = touch t k.reader } } in
    let a = read_access t inst in
    let checked = check_all bump_wr a vc held event_write k.writer.elpi_list v in
    let (x, y) = check_all_keeps bump_wr a vc held event_write k.writer.elpi_list v in
    let h = touch t k.reader in
    let s' : (callsite_at t h.callsite_map).0 ≡ site = touched_site t k.reader ∙ s in
    let m' : is_exist p (nodes_of t h) ≡ true = rw (nodes_of-touch t t k.reader) m in
    let o' : ((callsite_at t h.callsite_map).0 == site') ≡ false = rw s' o in
    let z : push site' t (current vc held t) inst checked.meta.reader ≡ none =
      rw x (push_missing p site' t (current vc held t) inst h o' m' g) in
    ground (arith, n, z)

after_full :
    (track : Bool) (vc : VectorClock) (held : Lockset) (site t inst : ℕ) (w w' : Work HistLockMeta)
    (e : Elpi) (es : List Elpi)
    → IsHistory w.meta.reader
    → w.meta.reader.elpi_list ≡ e ∷ es
    → length (e ∷ es) ≡ window_size
    → (callsite_at t w.meta.reader.callsite_map).0 ≡ site
    → is_exist e.pos (nodes_of t w.meta.reader) ≡ true
    → skip_read vc w.meta ≡ false
    → process_read track vc held site t inst w ≡ some w'
    → ((callsite_at t w'.meta.reader.callsite_map).0 ≡ site)
      × (is_exist e.pos (nodes_of t w'.meta.reader) ≡ true)
      × (has_pos e.pos w'.meta.reader.elpi_list ≡ false)
unfolding process_read record_read
after_full track vc held site t inst w w' e es i full l s m n done =
    let k = w.meta in
    let v = record w { meta = record k { reader = touch t k.reader } } in
    let a = read_access t inst in
    let checked = check_all bump_wr a vc held event_write k.writer.elpi_list v in
    let (x, y) = check_all_keeps bump_wr a vc held event_write k.writer.elpi_list v in
    let h = touch t k.reader in
    let s' : (callsite_at t h.callsite_map).0 ≡ site = touched_site t k.reader ∙ s in
    let m' : is_exist e.pos (nodes_of t h) ≡ true = rw (nodes_of-touch t t k.reader) m in
    let (r, p, q, there, gone) =
      push_evicts site t (current vc held t) inst h e es (touch-IsHistory t k.reader i) full l s'
        m' in
    let p' : push site t (current vc held t) inst checked.meta.reader ≡ some r = rw x p in
    let same : record_read track t inst checked r ≡ w' = ground (arith, n, p', done) in
    subst
      (λ u.
        ((callsite_at t u.meta.reader.callsite_map).0 ≡ site)
        × (is_exist e.pos (nodes_of t u.meta.reader) ≡ true)
        × (has_pos e.pos u.meta.reader.elpi_list ≡ false))
      same (q, there, gone)

-- A thread reads, not skipped, with a full window whose first node is one of its own call site, and in
-- that call site. Its next read that is not skipped, in another call site, erases the node that has
-- left the list.
pub read_evicted :
    (track : Bool) (vc vc' : VectorClock) (held held' : Lockset) (site site' t inst inst' : ℕ)
    (w w' : Work HistLockMeta) (e : Elpi) (es : List Elpi)
    → IsHistory w.meta.reader
    → w.meta.reader.elpi_list ≡ e ∷ es
    → length (e ∷ es) ≡ window_size
    → (callsite_at t w.meta.reader.callsite_map).0 ≡ site
    → is_exist e.pos (nodes_of t w.meta.reader) ≡ true
    → skip_read vc w.meta ≡ false
    → process_read track vc held site t inst w ≡ some w'
    → (site == site') ≡ false
    → skip_read vc' w'.meta ≡ false
    → process_read track vc' held' site' t inst' w' ≡ none
read_evicted track vc vc' held held' site site' t inst inst' w w' e es i full l s m n done other
      skip =
    let (q, there, gone) = after_full track vc held site t inst w w' e es i full l s m n done in
    read_missing track vc' held' e.pos site site' t inst' w' q there gone other skip

-- ===== src/Sync/Clocks.antt =====
-- A property of every clock that a `Sync` stores, and how the operations of
-- src/pintool/detector1.cpp keep it.
use data_race_detectors.Base.{
  ℕ, ◌≡◌, Option, none, some, [], ◌∷◌, ◌==◌, ltb, if_elim, Ensures, ==_iff, subst, Map, find,
  insert, erase,
}
use data_race_detectors.Clock.{VectorClock}
use data_race_detectors.Sync.{
  Sync, CondMeta, BarrierMeta, new_cond, new_barrier, or_new, get_mutex_meta, get_cond_meta,
  get_barrier_meta,
}

-- `P` holds of every entry.
abbrev pub Entries {ℓ κ} : {V : Type ℓ} → (ℕ → V → Type κ) → Map V → Type κ
Entries P [] = Unit
Entries P ((k, v) ∷ m) = P k v × Entries P m

module _ {ℓ κ} {V : Type ℓ} (P : ℕ → V → Type κ) where
  pub Entries-insert : (k : ℕ) (v : V) (m : Map V) → P k v → Entries P m → Entries P (insert k v m)
  unfolding insert
  Entries-insert k v [] p h = (p, tt)
  Entries-insert k v ((j, w) ∷ m) p h =
      if_elim (Entries P) (ltb k j) (λ _. (p, h))
        (λ _. if_elim (Entries P) (j == k) (λ _. (p, h.1)) (λ _. (h.0, Entries-insert k v m p h.1)))

  pub Entries-erase : (k : ℕ) (m : Map V) → Entries P m → Entries P (erase k m)
  unfolding erase
  Entries-erase k [] h = tt
  Entries-erase k ((j, w) ∷ m) h =
      let rest = Entries-erase k m h.1 in
      if_elim (Entries P) (j == k) (λ _. rest) (λ _. (h.0, rest))

  pub Entries-find : (k : ℕ) (m : Map V) → Entries P m → Ensures (P k) (find k m)
  unfolding find
  Entries-find k [] h = tt
  Entries-find k ((j, w) ∷ m) h =
      if_elim (Ensures (P k)) (j == k) (λ e. subst (λ i. P i w) ((==_iff j k).0 e) h.0)
        (λ _. Entries-find k m h.1)

  pub Entries-map :
      (Q : ℕ → V → Type κ)
      → ((k : ℕ) (v : V) → P k v → Q k v)
      → (m : Map V) → Entries P m
      → Entries Q m
  Entries-map Q f [] h = tt
  Entries-map Q f ((k, v) ∷ m) h = (f k v h.0, Entries-map Q f m h.1)

or_new_holds {ℓ κ} :
    {A : Type ℓ} (Q : A → Type κ) (a : A) → Q a → (o : Option A) → Ensures Q o → Q (or_new a o)
or_new_holds Q a q none e = q
or_new_holds Q a q (some b) e = e

module _ (P : VectorClock → Type 0) where
  abbrev pub CondClocks : CondMeta → Type 0
  CondClocks m = Entries (λ _. P) m.wait_table × Entries (λ _. P) m.signal_table

  abbrev pub BarrierClocks : BarrierMeta → Type 0
  BarrierClocks m =
      Entries (λ _ e. P e.0) m.barrier_wait_table1 × Entries (λ _ e. P e.0) m.barrier_wait_table2

  -- `P` holds of every stored clock.
  pub record AllClocks (s : Sync) : Type 0 where
    pub threads : Entries (λ _. P) s.curr_vc_map
    pub mutexes : Entries (λ _. P) s.mutex_meta_table
    pub conds : Entries (λ _. CondClocks) s.cond_meta_table
    pub barriers : Entries (λ _. BarrierClocks) s.barrier_meta_table

  pub mutex_clock : (a : ℕ) (s : Sync) → P [] → AllClocks s → P (get_mutex_meta a s)
  unfolding get_mutex_meta
  mutex_clock a s nil h =
      or_new_holds P [] nil (find a s.mutex_meta_table) (Entries-find _ a _ h.mutexes)

  pub cond_clocks : (a : ℕ) (s : Sync) → AllClocks s → CondClocks (get_cond_meta a s)
  unfolding get_cond_meta
  cond_clocks a s h =
      or_new_holds CondClocks new_cond (tt, tt) (find a s.cond_meta_table)
        (Entries-find _ a _ h.conds)

  pub barrier_clocks : (a : ℕ) (s : Sync) → AllClocks s → BarrierClocks (get_barrier_meta a s)
  unfolding get_barrier_meta
  barrier_clocks a s h =
      or_new_holds BarrierClocks new_barrier (tt, tt) (find a s.barrier_meta_table)
        (Entries-find _ a _ h.barriers)

  pub thread_clock :
      (t : ℕ) (s : Sync) {vc : VectorClock} → AllClocks s → find t s.curr_vc_map ≡ some vc → P vc
  thread_clock t s h e = subst (Ensures P) e (Entries-find _ t _ h.threads)

  pub set_thread :
      (t : ℕ) (vc : VectorClock) (s : Sync)
      → P vc
      → AllClocks s
      → AllClocks (record s { curr_vc_map = insert t vc s.curr_vc_map })
  set_thread t vc s p h = record {
    threads = Entries-insert _ t vc _ p h.threads;
    mutexes = h.mutexes;
    conds = h.conds;
    barriers = h.barriers;
  }

  pub set_mutex :
      (a : ℕ) (vc : VectorClock) (s : Sync)
      → P vc
      → AllClocks s
      → AllClocks (record s { mutex_meta_table = insert a vc s.mutex_meta_table })
  set_mutex a vc s p h = record {
    threads = h.threads;
    mutexes = Entries-insert _ a vc _ p h.mutexes;
    conds = h.conds;
    barriers = h.barriers;
  }

  pub set_cond :
      (a : ℕ) (m : CondMeta) (s : Sync)
      → CondClocks m
      → AllClocks s
      → AllClocks (record s { cond_meta_table = insert a m s.cond_meta_table })
  set_cond a m s p h = record {
    threads = h.threads;
    mutexes = h.mutexes;
    conds = Entries-insert _ a m _ p h.conds;
    barriers = h.barriers;
  }

  pub set_barrier :
      (a : ℕ) (m : BarrierMeta) (s : Sync)
      → BarrierClocks m
      → AllClocks s
      → AllClocks (record s { barrier_meta_table = insert a m s.barrier_meta_table })
  set_barrier a m s p h = record {
    threads = h.threads;
    mutexes = h.mutexes;
    conds = h.conds;
    barriers = Entries-insert _ a m _ p h.barriers;
  }

module _ (P Q : VectorClock → Type 0) (f : (vc : VectorClock) → P vc → Q vc) where
  pub AllClocks-map : (s : Sync) → AllClocks P s → AllClocks Q s
  AllClocks-map s h = record {
    threads = Entries-map _ _ (λ _. f) _ h.threads;
    mutexes = Entries-map _ _ (λ _. f) _ h.mutexes;
    conds =
        Entries-map _ _
          (λ _ m c. (
            Entries-map _ _ (λ _. f) m.wait_table c.0,
            Entries-map _ _ (λ _. f) m.signal_table c.1,
          ))
          _ h.conds;
    barriers =
        Entries-map _ _
          (λ _ m c. (
            Entries-map _ _ (λ _ e. f e.0) m.barrier_wait_table1 c.0,
            Entries-map _ _ (λ _ e. f e.0) m.barrier_wait_table2 c.1,
          ))
          _ h.barriers;
  }

module _ (P Q R : VectorClock → Type 0) (f : (vc : VectorClock) → P vc → Q vc → R vc) where
  zip-Entries :
      {V : Type 0} (clock : V → VectorClock) (m : Map V)
      → Entries (λ _ v. P (clock v)) m
      → Entries (λ _ v. Q (clock v)) m
      → Entries (λ _ v. R (clock v)) m
  zip-Entries clock [] p q = tt
  zip-Entries clock ((k, v) ∷ m) p q = (f (clock v) p.0 q.0, zip-Entries clock m p.1 q.1)

  zip_conds :
      (m : Map CondMeta)
      → Entries (λ _. CondClocks P) m
      → Entries (λ _. CondClocks Q) m
      → Entries (λ _. CondClocks R) m
  zip_conds [] p q = tt
  zip_conds ((k, c) ∷ m) p q = (
    (
      zip-Entries (λ v. v) c.wait_table p.0.0 q.0.0,
      zip-Entries (λ v. v) c.signal_table p.0.1 q.0.1,
    ),
    zip_conds m p.1 q.1,
  )

  zip_barriers :
      (m : Map BarrierMeta)
      → Entries (λ _. BarrierClocks P) m
      → Entries (λ _. BarrierClocks Q) m
      → Entries (λ _. BarrierClocks R) m
  zip_barriers [] p q = tt
  zip_barriers ((k, b) ∷ m) p q = (
    (
      zip-Entries (λ e. e.0) b.barrier_wait_table1 p.0.0 q.0.0,
      zip-Entries (λ e. e.0) b.barrier_wait_table2 p.0.1 q.0.1,
    ),
    zip_barriers m p.1 q.1,
  )

  pub AllClocks-zip : (s : Sync) → AllClocks P s → AllClocks Q s → AllClocks R s
  AllClocks-zip s p q = record {
    threads = zip-Entries (λ v. v) s.curr_vc_map p.threads q.threads;
    mutexes = zip-Entries (λ v. v) s.mutex_meta_table p.mutexes q.mutexes;
    conds = zip_conds s.cond_meta_table p.conds q.conds;
    barriers = zip_barriers s.barrier_meta_table p.barriers q.barriers;
  }

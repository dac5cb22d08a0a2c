-- ===== src/Detector/Frame.antt =====
-- What an access leaves alone in src/pintool/detector1.cpp.
use data_race_detectors.Base.{
  ℕ, ◌≡◌, refl, ◌∙◌, Option-cases, inl, inr, Bool, false, Option, some, List, [], ◌∷◌, if_elim,
  Ensures, Ensures-map, subst, find, find-insert, arith,
}
use data_race_detectors.Sync.{◌>>=◌, Ensures-bind, Sync}
use data_race_detectors.Lockset.{is_exist}
use data_race_detectors.Shadow.{Counters, Work}
use data_race_detectors.Memory.{units, visited_units}
use data_race_detectors.Detector.State.{Hooks, Detector, count}
use data_race_detectors.Detector.Accesses.{
  access_unit, access_units, skips, before_mem_read, before_mem_write,
}

module _ {M X : Type 0} where
  -- Only metas of the listed units, the counters and the reports may differ.
  pub record Framed (us : List ℕ) (d e : Detector M X) : Type 0 where
    pub sync : e.sync ≡ d.sync
    pub atomic_map : e.atomic_map ≡ d.atomic_map
    pub regions : e.regions ≡ d.regions
    pub racy_inst_set : e.racy_inst_set ≡ d.racy_inst_set
    pub extra : e.extra ≡ d.extra
    pub metas : (x : ℕ) → is_exist x us ≡ false → find x e.meta_table ≡ find x d.meta_table

  then_Framed :
      (u : ℕ) (us : List ℕ) (d e e' : Detector M X)
      → Framed (u ∷ us) d e
      → Framed us e e'
      → Framed (u ∷ us) d e'
  unfolding is_exist
  then_Framed u us d e e' f g = record {
    sync = g.sync ∙ f.sync;
    atomic_map = g.atomic_map ∙ f.atomic_map;
    regions = g.regions ∙ f.regions;
    racy_inst_set = g.racy_inst_set ∙ f.racy_inst_set;
    extra = g.extra ∙ f.extra;
    metas = λ x k. g.metas x (ground arith) ∙ f.metas x k;
  }

  still : (us : List ℕ) (d : Detector M X) → Framed us d d
  still us d = record {
    sync = refl;
    atomic_map = refl;
    regions = refl;
    racy_inst_set = refl;
    extra = refl;
    metas = λ x k. refl;
  }

  module _ (h : Hooks M X) (process : Bool → Sync → X → ℕ → ℕ → Work M → Option (Work M))
      (bump : Counters → Counters) (t inst : ℕ) where
    access_unit-Framed :
        (u : ℕ) (us : List ℕ) (d : Detector M X)
        → Ensures (Framed (u ∷ us) d) (access_unit h process bump t inst u d)
    unfolding access_unit is_exist
    access_unit-Framed u us d =
        Ensures-bind (Framed (u ∷ us) d) (process d.track_racy_inst d.sync d.extra t inst _) _
          (λ w e. record {
            sync = refl;
            atomic_map = refl;
            regions = refl;
            racy_inst_set = refl;
            extra = refl;
            metas = λ x k. ground (arith, find-insert x u w.meta d.meta_table);
          })

    pub access_units-Framed :
        (us : List ℕ) (d : Detector M X)
        → Ensures (Framed us d) (access_units h process bump t inst us d)
    unfolding access_units
    access_units-Framed [] d = still [] d
    access_units-Framed (u ∷ us) d =
        Ensures-bind (Framed (u ∷ us) d) (access_unit h process bump t inst u d) _ (λ e p.
          Ensures-map (Framed us e) (Framed (u ∷ us) d)
            (λ e' f.
              then_Framed u us d e e'
                (subst (Ensures (Framed (u ∷ us) d)) p (access_unit-Framed u us d)) f)
            _ (access_units-Framed us e))

    counted-Framed :
        (us : List ℕ) (d : Detector M X) (add : Counters → Counters)
        → Ensures
            (Framed us d)
            (access_units h process bump t inst us d >>= λ e. some (count add e))
    counted-Framed us d add =
        Ensures-bind (Framed us d) (access_units h process bump t inst us d) _ (λ e p.
          let f = subst (Ensures (Framed us d)) p (access_units-Framed us d) in
          record {
            sync = f.sync;
            atomic_map = f.atomic_map;
            regions = f.regions;
            racy_inst_set = f.racy_inst_set;
            extra = f.extra;
            metas = f.metas;
          })

units-Framed :
    {M X : Type 0} (addr size : ℕ) (d : Detector M X) (f : List ℕ → Option (Detector M X))
    → ((us : List ℕ) → Ensures (Framed us d) (f us))
    → Ensures (Framed (visited_units addr size d.unit_size) d) (units addr size d.unit_size >>= f)
units-Framed addr size d f each = elim (Option-cases (units addr size d.unit_size)) [
  | inl e ↦ rw (e, ◌>>=◌) tt
  | inr (us, e) ↦ rw (e, ◌>>=◌, visited_units) (each us)
]

-- A read or a write that returns has changed no clock, lock set, region, atomic flag or racy
-- instruction, and no metadata of a unit that it does not touch.
pub accesses-Framed :
    {M X : Type 0} (h : Hooks M X) (t inst addr size : ℕ) (d : Detector M X)
    → Ensures
        (Framed (visited_units addr size d.unit_size) d)
        (before_mem_read h t inst addr size d)
      × Ensures
          (Framed (visited_units addr size d.unit_size) d)
          (before_mem_write h t inst addr size d)
unfolding before_mem_read before_mem_write
accesses-Framed h t inst addr size d =
    let fr = Framed (visited_units addr size d.unit_size) d in
    let no = still (visited_units addr size d.unit_size) d in
    (
      if_elim (Ensures fr) (skips t addr d) (λ _. no)
          (λ _. units-Framed addr size d _ (λ us. counted-Framed h h.on_read _ t inst us d _)),
      if_elim (Ensures fr) (skips t addr d) (λ _. no)
          (λ _. units-Framed addr size d _ (λ us. counted-Framed h h.on_write _ t inst us d _)),
    )

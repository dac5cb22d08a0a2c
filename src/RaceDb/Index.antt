-- ===== src/RaceDb/Index.antt =====
-- A table of src/race/race.cc with the hash index into it, for static events and for static races.
use native.Mathlib.Decide.{ℕ_discrete}
use data_race_detectors.Base.{
  ==_iff, ℕ, ◌+◌, ◌≤◌, ◌≡◌, refl, ap, ◌↔◌, inl, inr, Bool, true, false, Option, none, some, List,
  [], ◌∷◌, ◌++◌, ◌==◌, if◌then◌else◌, Map, find, insert, find-insert, Bool-cases, Option-cases,
  arith,
}
use data_race_detectors.Sync.{or_new}
use data_race_detectors.RaceDb.{bucket, push_back, find_in}

module _ {V : Type 0} where
  find_in_ext : (p q : V → Bool) (vs : List V) → ((v : V) → p v ≡ q v) → find_in p vs ≡ find_in q vs
  unfolding find_in
  find_in_ext p q [] h = refl
  find_in_ext p q (v ∷ vs) h = rw (h v, find_in_ext p q vs h) refl

  pub find_in-matches : (p : V → Bool) (vs : List V) (v : V) → find_in p vs ≡ some v → p v ≡ true
  unfolding find_in
  find_in-matches p [] v h = cc
  find_in-matches p (w ∷ vs) v h = elim (Bool-cases (p w)) [
    | inl y ↦ ground (arith, y)
    | inr n ↦ find_in-matches p vs v (ground (arith, n))
  ]

  unextended :
      (b : Bool) (v : V) (o : Option V)
      → b ≡ false
      → o ≡ elim o [ none ↦ if b then some v else none | some w ↦ some w ]
  unextended b v none e = rw e refl
  unextended b v (some w) e = refl

  find_in-append :
      (p : V → Bool) (vs : List V) (v : V)
      → find_in p (vs ++ v ∷ [])
        ≡ elim (find_in p vs) [ none ↦ if p v then some v else none | some w ↦ some w ]
  unfolding find_in
  find_in-append p [] v = refl
  find_in-append p (w ∷ vs) v = ground (arith, find_in-append p vs v)

  pub bucket-push_back :
      (h k : ℕ) (v : V) (index : Map (List V))
      → bucket k (push_back h v index)
        ≡ (if h == k then bucket h index ++ v ∷ [] else bucket k index)
  unfolding bucket push_back
  bucket-push_back h k v index =
      ground (arith, find-insert k h (or_new [] (find h index) ++ v ∷ []) index)

-- What hashing and matching have to satisfy.
pub record IsKeyed {V : Type 0} (hash : V → ℕ) (match : V → V → Bool) : Type 0 where
  pub matches_self : (v : V) → match v v ≡ true
  pub same_hash : (v w : V) → match v w ≡ true → hash v ≡ hash w
  pub same_matches : (v w x : V) → match v w ≡ true → match v x ≡ match w x

module _ {V : Type 0} (hash id : V → ℕ) (match : V → V → Bool) where
  abbrev pub lookup : V → Map (List V) → Option V
  lookup q index = find_in (match q) (bucket (hash q) index)

  -- What the index finds is in the table under its id, the index finds everything in the table, and
  -- no id is above `curr`.
  pub record IsIndexed (curr : ℕ) (table : Map V) (index : Map (List V)) : Type 0 where
    pub sound : (q v : V) → lookup q index ≡ some v → find (id v) table ≡ some v
    pub complete :
        (k : ℕ) (v : V)
        → find k table ≡ some v
        → (id v ≡ k) × (k ≤ curr) × (lookup v index ≡ some v)

  -- Getting the object with the key of `q` has given `v`.
  pub record Stored (q : V) (curr : ℕ) (table : Map V) (v : V) (curr' : ℕ) (table' : Map V)
      (index' : Map (List V)) : Type 0 where
    pub valid : IsIndexed curr' table' index'
    pub there : find (id v) table' ≡ some v
    pub matched : match q v ≡ true
    pub grown : (k : ℕ) (w : V) → find k table ≡ some w → find k table' ≡ some w
    pub bound : curr' ≤ curr + 1

  module _ (keyed : IsKeyed hash match) where
    apart : (q v : V) → (hash v == hash q) ≡ false → match q v ≡ false
    apart q v n = elim (Bool-cases (match q v)) [
      | inl y ↦ absurd (ground (arith, keyed.same_hash q v y))
      | inr m ↦ m
    ]

    lookup-push_back :
        (q v : V) (index : Map (List V))
        → lookup q (push_back (hash v) v index)
          ≡ elim (lookup q index) [ none ↦ if match q v then some v else none | some w ↦ some w ]
    lookup-push_back q v index = elim (Bool-cases (hash v == hash q)) [
      | inl y ↦
          rw (bucket-push_back (hash v) (hash q) v index, y, (==_iff (hash v) (hash q)).0 y)
            (find_in-append (match q) (bucket (hash q) index) v)
      | inr n ↦
          rw (bucket-push_back (hash v) (hash q) v index, n)
            (unextended (match q v) v (lookup q index) (apart q v n))
    ]

    lookup_same :
        (v w : V) (index : Map (List V)) → match v w ≡ true → lookup v index ≡ lookup w index
    lookup_same v w index m =
        rw (keyed.same_hash v w m) (
          find_in_ext (match v) (match w) (bucket (hash w) index) (λ x. keyed.same_matches v w x m))

    -- Two stored objects that match are the same.
    pub unique :
        (curr : ℕ) (table : Map V) (index : Map (List V)) (j k : ℕ) (v w : V)
        → IsIndexed curr table index
        → find j table ≡ some v
        → find k table ≡ some w
        → match v w ≡ true
        → v ≡ w
    unique curr table index j k v w h f g m =
        let p = (h.complete j v f).2 in
        let q = (h.complete k w g).2 in let e = lookup_same v w index m in ground (arith, p, q, e)

    pub found :
        (curr : ℕ) (table : Map V) (index : Map (List V)) (q v : V)
        → IsIndexed curr table index
        → lookup q index ≡ some v
        → Stored q curr table v curr table index
    found curr table index q v h f = record {
      valid = h;
      there = h.sound q v f;
      matched = find_in-matches (match q) (bucket (hash q) index) v f;
      grown = λ k w g. g;
      bound = omega arith;
    }

    pub created :
        (curr : ℕ) (table : Map V) (index : Map (List V)) (q v : V)
        → IsIndexed curr table index
        → lookup q index ≡ none
        → match q v ≡ true
        → id v ≡ curr + 1
        → Stored q curr table v (curr + 1) (insert (curr + 1) v table) (push_back (hash v) v index)
    created curr table index q v h f m i = record {
      valid = record {
        sound = λ p w g. elim (Option-cases (lookup p index)) [
          | inl n ↦
              ground (arith, n, lookup-push_back p v index, find-insert (id w) (curr + 1) v table)
          | inr (x, y) ↦
              let there = h.sound p x y in
              let low = (h.complete (id x) x there).1 in
              ground (arith, y, lookup-push_back p v index, find-insert (id w) (curr + 1) v table)
        ];
        complete = λ k w g. elim (ℕ_discrete (curr + 1) k) [
          | yes e ↦
              let same : v ≡ w = ground (arith, find-insert k (curr + 1) v table) in
              ground
                (arith, lookup-push_back v v index, lookup_same q v index m, keyed.matches_self v)
          | no n ↦
              let (a, b, c) = h.complete k w (ground (arith, find-insert k (curr + 1) v table)) in
              (a, omega arith, ground (arith, lookup-push_back w v index))
        ];
      };
      there = ground (arith, find-insert (id v) (curr + 1) v table);
      matched = m;
      grown = λ k w g.
          let low = (h.complete k w g).1 in ground (arith, find-insert k (curr + 1) v table);
      bound = omega arith;
    }

    -- Two objects that are got one after the other are the same exactly when their keys match.
    pub same_id :
        (q r v w : V) (n n' n'' : ℕ) (t t' t'' : Map V) (i' i'' : Map (List V))
        → Stored q n t v n' t' i'
        → Stored r n' t' w n'' t'' i''
        → (id v ≡ id w) ↔ (match q r ≡ true)
    same_id q r v w n n' n'' t t' t'' i' i'' a b = (
      λ e.
          let first = b.grown (id v) v a.there in
          let same : v ≡ w = ground (arith, b.there) in
          let x = keyed.same_matches q v r a.matched in
          let y = keyed.same_matches r w r b.matched in
          let z = keyed.matches_self r in ground (arith, x, y, z, same),
      λ m.
          let x = keyed.same_matches q v w a.matched in
          let y = keyed.same_matches q r w m in
          let both : match v w ≡ true = ground (arith, x, y, b.matched) in
          ap id
            (unique n'' t'' i'' (id v) (id w) v w b.valid (b.grown (id v) v a.there) b.there both),
    )

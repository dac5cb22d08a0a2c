-- ===== src/Visited/Match.antt =====
-- What the comparison of two states in src/systematic/chess.cc decides.
use data_race_detectors.Base.{
  ℕ, ◌≤◌, ◌≡◌, refl, subst, ◌↔◌, inl, inr, Bool, Option, true, false, none, some, List, [], ◌∷◌,
  Map, find, insert, Bool-cases, Option-cases, arith,
}
use data_race_detectors.Sync.{◌>>=◌}
use data_race_detectors.RaceDb.{bucket}
use data_race_detectors.Program.{Action, Execution}
use data_race_detectors.Visited.{
  has_obj, hash, taken_before, hash_table, erase_same, match_all, por_state_match,
}
use data_race_detectors.Visited.Table.{
  occurs, table_occurs, same_self, has_obj-same, hash_of, hash-hash_of, all_hashable, Holds,
  hash_table-Holds, Erased, erase_same-Erased, table_occurs-erase,
}

abbrev Covers : List Action → Map (List Action) → Type 0
Covers bs table = (a : Action) → has_obj a ≡ true → occurs a bs ≤ table_occurs a table

module _ (b : Action) (bs : List Action) (table : Map (List Action)) where
  Covers-skip : has_obj b ≡ false → Covers bs table ↔ Covers (b ∷ bs) table
  unfolding occurs
  Covers-skip n = (
    λ c a o. ground (arith, c a o, has_obj-same a b),
    λ c a o. ground (arith, c a o, has_obj-same a b),
  )

  Covers-missing :
      has_obj b ≡ true → occurs b (bucket (hash_of b) table) ≡ 0 → ¬ Covers (b ∷ bs) table
  unfolding occurs
  Covers-missing y z c = ground (arith, c b y, same_self b)

  Covers-erase :
      (rest : List Action)
      → erase_same b (bucket (hash_of b) table) ≡ some rest
      → Covers bs (insert (hash_of b) rest table) ↔ Covers (b ∷ bs) table
  unfolding occurs
  Covers-erase rest e = (
    λ c a o. ground (arith, c a o, table_occurs-erase a b rest table e),
    λ c a o. ground (arith, c a o, table_occurs-erase a b rest table e),
  )

↔-trans {ℓ κ μ} : {A : Type ℓ} {B : Type κ} {C : Type μ} → A ↔ B → B ↔ C → A ↔ C
↔-trans f g = (λ a. g.0 (f.0 a), λ c. f.1 (g.1 c))

-- The code returns, and its answer is whether the statement holds.
abbrev pub Decides : Option Bool → Type 0 → Type 0
Decides o p = (b : Bool) × (o ≡ some b) × ((b ≡ true) ↔ p)

Decides-iff : (o : Option Bool) (p q : Type 0) → p ↔ q → Decides o p → Decides o q
Decides-iff o p q f (b, e, g) = (b, e, ↔-trans g f)

Decides-no : (o : Option Bool) (p : Type 0) → o ≡ some false → ¬ p → Decides o p
Decides-no o p e n = (false, e, (λ h. cc, λ h. absurd (n h)))

module _ (b : Action) (bs : List Action) (table : Map (List Action)) where
  match_none :
      has_obj b ≡ true
      → hash b ≡ some (hash_of b)
      → find (hash_of b) table ≡ none
      → (match_all (b ∷ bs) table ≡ some false) × (occurs b (bucket (hash_of b) table) ≡ 0)
  unfolding match_all bucket occurs
  match_none y e f = (rw (y, e, f, match_all, ◌>>=◌) refl, rw f refl)

  match_bucket :
      (old : List Action)
      → has_obj b ≡ true
      → hash b ≡ some (hash_of b)
      → find (hash_of b) table ≡ some old
      → (bucket (hash_of b) table ≡ old)
        × (match_all (b ∷ bs) table ≡ elim (erase_same b old) [
          | none ↦ some false
          | some rest ↦ match_all bs (insert (hash_of b) rest table)
        ])
  unfolding match_all bucket
  match_bucket old y e f = (rw f refl, rw (y, e, f, match_all, ◌>>=◌) refl)

  match_transparent : has_obj b ≡ false → match_all (b ∷ bs) table ≡ match_all bs table
  unfolding match_all
  match_transparent n = rw (n, match_all) refl

match_all_iff :
    (bs : List Action) (table : Map (List Action))
    → all_hashable bs ≡ true
    → Decides (match_all bs table) (Covers bs table)
match_all_iff [] table s =
    (true, unfold match_all in refl, (λ h a o. unfold occurs in (omega arith), λ c. refl))
match_all_iff (b ∷ bs) table s =
    let s' : all_hashable bs ≡ true = ground (arith, s) in
    elim (Bool-cases (has_obj b)) [
      | inl y ↦
          let v = hash-hash_of b y (ground (arith, s)) in
          elim (Option-cases (find (hash_of b) table)) [
            | inl f ↦
                let (m, z) = match_none b bs table y v f in
                Decides-no _ _ m (Covers-missing b bs table y z)
            | inr (old, f) ↦
                let (same_bucket, m) = match_bucket b bs table old y v f in
                elim (Option-cases (erase_same b old)) [
                  | inl e ↦
                      let z : occurs b (bucket (hash_of b) table) ≡ 0 =
                        rw same_bucket (subst (Erased b old) e (erase_same-Erased b old)) in
                      Decides-no _ _ (ground (arith, m, e)) (Covers-missing b bs table y z)
                  | inr (rest, e) ↦
                      let e' : erase_same b (bucket (hash_of b) table) ≡ some rest =
                        rw same_bucket e in
                      let step : match_all (b ∷ bs) table
                          ≡ match_all bs (insert (hash_of b) rest table) =
                        rw e at m in
                      rw step (
                        Decides-iff _ _ _ (Covers-erase b bs table rest e')
                          (match_all_iff bs (insert (hash_of b) rest table) s'))
                ]
          ]
      | inr n ↦
          rw (match_transparent b bs table n)
            (Decides-iff _ _ _ (Covers-skip b bs table n) (match_all_iff bs table s'))
    ]

table_occurs_empty : (a : Action) → table_occurs a [] ≡ 0
unfolding bucket find occurs
table_occurs_empty a = refl

Covers-Holds :
    (bs visited : List Action) (t : Map (List Action))
    → Holds visited [] t
    → Covers bs t ↔ ((a : Action) → has_obj a ≡ true → occurs a bs ≤ occurs a visited)
Covers-Holds bs visited t h = (
  λ c a o. let x = c a o in let y = h a o in let z = table_occurs_empty a in omega arith,
  λ c a o. let x = c a o in let y = h a o in let z = table_occurs_empty a in omega arith,
)

answer :
    (i : ℕ) (action : Action) (exec : Execution) (j : ℕ) (vs_exec : Execution)
    (earlier visited : List Action) (t : Map (List Action))
    → taken_before i exec ≡ some earlier
    → taken_before j vs_exec ≡ some visited
    → hash_table visited [] ≡ some t
    → por_state_match i action exec j vs_exec ≡ match_all (action ∷ earlier) t
unfolding por_state_match
answer i action exec j vs_exec earlier visited t e v h = rw (e, v, h, por_state_match, ◌>>=◌) refl

-- Let `visited` be the actions taken before a state of an earlier run, `earlier` those taken before
-- the current state, all of them be there, and each of them that has an object have an instruction,
-- as `action` does. Then the comparison of the current state after `action` with the visited one
-- returns, and its answer is that they match exactly when every action on an object occurs in
-- `visited` at least as often as among `action` and `earlier`, by thread, object, operation,
-- instruction and counters.
pub por_state_match_iff :
    (i : ℕ) (action : Action) (exec : Execution) (j : ℕ) (vs_exec : Execution)
    (earlier visited : List Action)
    → taken_before i exec ≡ some earlier
    → taken_before j vs_exec ≡ some visited
    → all_hashable (action ∷ earlier) ≡ true
    → all_hashable visited ≡ true
    → Decides
        (por_state_match i action exec j vs_exec)
        ((a : Action) → has_obj a ≡ true → occurs a (action ∷ earlier) ≤ occurs a visited)
por_state_match_iff i action exec j vs_exec earlier visited e v s s' =
    let (t, h, holds) = hash_table-Holds visited [] s' in
    rw (answer i action exec j vs_exec earlier visited t e v h) (
      Decides-iff _ _ _ (Covers-Holds (action ∷ earlier) visited t holds)
        (match_all_iff (action ∷ earlier) t s))

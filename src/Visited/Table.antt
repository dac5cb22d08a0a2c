-- ===== src/Visited/Table.antt =====
-- How often an action stands in the hash table with which src/systematic/chess.cc compares states.
use data_race_detectors.Base.{
  ==_iff, ℕ, ◌+◌, ◌≡◌, refl, sym, ap, subst, ◌∙◌, ◌↔◌, inl, inr, Bool, true, false, not, ◌&&◌, ◌||◌,
  Option-cases, Option, none, some, List, [], ◌∷◌, ◌++◌, ◌==◌, if◌then◌else◌, Map, insert,
  find-insert, Bool-cases, arith,
}
use data_race_detectors.Sync.{◌>>=◌}
use data_race_detectors.RaceDb.{push_back, bucket}
use data_race_detectors.RaceDb.Index.{bucket-push_back}
use data_race_detectors.Program.{Action}
use data_race_detectors.Search.{op_code}
use data_race_detectors.Visited.{has_obj, hash_sum, hash, same, hash_table, erase_same}
use data_race_detectors.Search.Diverge.{same_pointer_iff}

-- What the comparison looks at.
abbrev Key : Type 0
Key = ℕ × Option ℕ × ℕ × Option ℕ × ℕ × ℕ

key : Action → Key
key a = (a.thd, a.obj, op_code a.op, a.inst, a.tc, a.oc)

same_iff : (a b : Action) → (same a b ≡ true) ↔ (key a ≡ key b)
unfolding same key
same_iff a b = ground (arith, same_pointer_iff a.obj b.obj, same_pointer_iff a.inst b.inst)

pub same_self : (a : Action) → same a a ≡ true
same_self a = (same_iff a a).1 refl

bool_ext : (b c : Bool) → (b ≡ true → c ≡ true) → (c ≡ true → b ≡ true) → b ≡ c
bool_ext true true f g = refl
bool_ext false false f g = refl
bool_ext true false f g = sym (f refl)
bool_ext false true f g = g refl

same_comm : (a b : Action) → same a b ≡ same b a
same_comm a b =
    bool_ext (same a b) (same b a) (λ h. (same_iff b a).1 (sym ((same_iff a b).0 h)))
      (λ h. (same_iff a b).1 (sym ((same_iff b a).0 h)))

same_trans : (a b c : Action) → same a b ≡ true → same a c ≡ same b c
same_trans a b c h =
    let e = (same_iff a b).0 h in
    bool_ext (same a c) (same b c) (λ k. (same_iff b c).1 (sym e ∙ (same_iff a c).0 k))
      (λ k. (same_iff a c).1 (e ∙ (same_iff b c).0 k))

abbrev or_zero : Option ℕ → ℕ
or_zero none = 0
or_zero (some x) = x

-- What `Hash` gives when the object and the instruction are there.
unfoldable pub hash_of : Action → ℕ
hash_of a = hash_sum (or_zero a.obj) (or_zero a.inst) a

-- An action on an object has an instruction.
abbrev pub hashable : Action → Bool
hashable a = not (has_obj a) || elim (a.inst) [ none ↦ false | some i ↦ true ]

abbrev pub all_hashable : List Action → Bool
all_hashable [] = true
all_hashable (a ∷ others) = hashable a && all_hashable others

pub hash-hash_of : (a : Action) → has_obj a ≡ true → hashable a ≡ true → hash a ≡ some (hash_of a)
unfolding hash hash_of
hash-hash_of a o h = elim (Option-cases a.obj) [
  | inl e ↦ absurd (ground (arith, e, o))
  | inr (x, e) ↦ elim (Option-cases a.inst) [
    | inl f ↦ absurd (ground (arith, o, f, h))
    | inr (y, f) ↦ rw (e, f) refl
  ]
]

same-hash_of : (a b : Action) → same a b ≡ true → hash_of a ≡ hash_of b
unfolding hash_of hash_sum key
same-hash_of a b h = ground (arith, (same_iff a b).0 h)

pub has_obj-same : (a b : Action) → same a b ≡ true → has_obj a ≡ has_obj b
unfolding key
has_obj-same a b h = ground (arith, (same_iff a b).0 h)

-- How often an action occurs in a list, by what the comparison looks at.
unfoldable pub occurs : Action → List Action → ℕ
occurs a [] = 0
occurs a (b ∷ bs) = let rest = occurs a bs in if same a b then rest + 1 else rest

abbrev pub table_occurs : Action → Map (List Action) → ℕ
table_occurs a table = occurs a (bucket (hash_of a) table)

occurs-append :
    (a : Action) (bs : List Action) (b : Action)
    → occurs a (bs ++ b ∷ []) ≡ (if same a b then occurs a bs + 1 else occurs a bs)
unfolding occurs
occurs-append a [] b = refl
occurs-append a (c ∷ bs) b = ground (arith, occurs-append a bs b)

different_hash : (a b : Action) → (hash_of b == hash_of a) ≡ false → same a b ≡ false
different_hash a b n = elim (Bool-cases (same a b)) [
  | inl y ↦ absurd (ground (arith, same-hash_of a b y, n))
  | inr m ↦ m
]

table_occurs-push_back :
    (a b : Action) (table : Map (List Action))
    → table_occurs a (push_back (hash_of b) b table)
      ≡ (if same a b then table_occurs a table + 1 else table_occurs a table)
table_occurs-push_back a b table = elim (Bool-cases (hash_of b == hash_of a)) [
  | inl y ↦
      let e = (==_iff (hash_of b) (hash_of a)).0 y in
      rw (bucket-push_back (hash_of b) (hash_of a) b table, y, e)
        (occurs-append a (bucket (hash_of a) table) b)
  | inr n ↦ rw (bucket-push_back (hash_of b) (hash_of a) b table, n, different_hash a b n) refl
]

-- The table `t` holds what `table` held, and the actions of the list.
abbrev pub Holds : List Action → Map (List Action) → Map (List Action) → Type 0
Holds bs table t =
    (a : Action) → has_obj a ≡ true → table_occurs a t ≡ occurs a bs + table_occurs a table

Holds-push :
    (b : Action) (bs : List Action) (table t : Map (List Action))
    → has_obj b ≡ true
    → Holds bs (push_back (hash_of b) b table) t
    → Holds (b ∷ bs) table t
unfolding occurs
Holds-push b bs table t y h a o = ground (arith, h a o, table_occurs-push_back a b table)

Holds-skip :
    (b : Action) (bs : List Action) (table t : Map (List Action))
    → has_obj b ≡ false
    → Holds bs table t
    → Holds (b ∷ bs) table t
unfolding occurs
Holds-skip b bs table t n h a o = ground (arith, h a o, has_obj-same a b)

pub hash_table-Holds :
    (bs : List Action) (table : Map (List Action))
    → all_hashable bs ≡ true
    → (t : Map (List Action)) × (hash_table bs table ≡ some t) × Holds bs table t
unfolding hash_table
hash_table-Holds [] table h = (table, refl, λ a o. unfold occurs in (omega arith))
hash_table-Holds (b ∷ bs) table h = elim (Bool-cases (has_obj b)) [
  | inl y ↦
      let e = hash-hash_of b y (ground (arith, h)) in
      let (t, r, holds) = hash_table-Holds bs (push_back (hash_of b) b table) (ground (arith, h)) in
      (t, rw (y, e, ◌>>=◌) r, Holds-push b bs table t y holds)
  | inr n ↦
      let (t, r, holds) = hash_table-Holds bs table (ground (arith, h)) in
      (t, rw (n, ◌>>=◌) r, Holds-skip b bs table t n holds)
]

occurs-same : (a b : Action) (bs : List Action) → same a b ≡ true → occurs a bs ≡ occurs b bs
unfolding occurs
occurs-same a b [] h = refl
occurs-same a b (c ∷ bs) h = ground (arith, same_trans a b c h, occurs-same a b bs h)

-- Nothing was erased, so the action does not occur; or it occurs once less.
abbrev pub Erased : Action → List Action → Option (List Action) → Type 0
Erased b bs none = occurs b bs ≡ 0
Erased b bs (some rest) =
    (a : Action) → occurs a bs ≡ (if same a b then occurs a rest + 1 else occurs a rest)

Erased-keep :
    (b c : Action) (bs : List Action) (o : Option (List Action))
    → same b c ≡ false
    → Erased b bs o
    → Erased b (c ∷ bs) (elim o [ none ↦ none | some r ↦ some (c ∷ r) ])
unfolding occurs
Erased-keep b c bs none n h = ground (arith, n, h)
Erased-keep b c bs (some r) n h = λ a. ground (arith, h a)

pub erase_same-Erased : (b : Action) (bs : List Action) → Erased b bs (erase_same b bs)
unfolding erase_same occurs
erase_same-Erased b [] = refl
erase_same-Erased b (c ∷ bs) = elim (Bool-cases (same b c)) [
  | inl y ↦ rw y (λ a. ground (arith, same_trans b c a y, same_comm a b, same_comm a c))
  | inr n ↦ rw n (Erased-keep b c bs (erase_same b bs) n (erase_same-Erased b bs))
]

bucket-insert :
    (h k : ℕ) (bs : List Action) (table : Map (List Action))
    → bucket k (insert h bs table) ≡ (if h == k then bs else bucket k table)
unfolding bucket
bucket-insert h k bs table = ground (arith, find-insert k h bs table)

-- Erasing an action from its bucket takes it out of the table once.
pub table_occurs-erase :
    (a b : Action) (rest : List Action) (table : Map (List Action))
    → erase_same b (bucket (hash_of b) table) ≡ some rest
    → table_occurs a table ≡ (
        if same a b
        then table_occurs a (insert (hash_of b) rest table) + 1
        else table_occurs a (insert (hash_of b) rest table))
table_occurs-erase a b rest table e =
    let h : Erased b (bucket (hash_of b) table) (some rest) =
      subst (Erased b (bucket (hash_of b) table)) e
        (erase_same-Erased b (bucket (hash_of b) table)) in
    elim (Bool-cases (hash_of b == hash_of a)) [
      | inl y ↦
          let k = (==_iff (hash_of b) (hash_of a)).0 y in
          let x = h a in
          rw (bucket-insert (hash_of b) (hash_of a) rest table, y)
            (ground (arith, x, ap (λ n. bucket n table) k))
      | inr n ↦ rw (bucket-insert (hash_of b) (hash_of a) rest table, n, different_hash a b n) refl
    ]

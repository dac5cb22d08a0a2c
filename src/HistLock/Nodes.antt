-- ===== src/HistLock/Nodes.antt =====
-- The nodes of a list of src/pintool/histlock.cpp by their positions, and what erasing them leaves.
use data_race_detectors.Base.{
  ==_iff, ℕ, suc, ◌≤◌, ◌<◌, ◌≡◌, refl, sym, subst, inl, inr, Bool, true, false, not, ◌&&◌, ◌||◌,
  some, List, [], ◌∷◌, ◌++◌, ◌==◌, if◌then◌else◌, Bool-cases, arith,
}
use data_race_detectors.Lockset.{Lockset, Rising, is_exist}
use data_race_detectors.Lockset.Laws.{is_exist_below}
use data_race_detectors.HistLock.{Elpi, erase_pos, erase_all}

unfoldable pub has_pos : ℕ → List Elpi → Bool
has_pos p [] = false
has_pos p (e ∷ es) = let rest = has_pos p es in if e.pos == p then true else rest

-- The positions rise from `lo`.
abbrev pub PosFrom : ℕ → List Elpi → Type 0
PosFrom lo [] = Unit
PosFrom lo (e ∷ es) = (lo ≤ e.pos) × PosFrom (suc e.pos) es

pub PosFrom-mono : (lo hi : ℕ) (es : List Elpi) → lo ≤ hi → PosFrom hi es → PosFrom lo es
PosFrom-mono lo hi [] h f = tt
PosFrom-mono lo hi (e ∷ es) h f = (omega arith, f.1)

pub has_pos_below : (p lo : ℕ) (es : List Elpi) → PosFrom lo es → p < lo → has_pos p es ≡ false
unfolding has_pos
has_pos_below p lo [] f h = refl
has_pos_below p lo (e ∷ es) f h = ground (arith, has_pos_below p (suc e.pos) es f.1)

pub has_pos-push :
    (p : ℕ) (es : List Elpi) (e : Elpi) → has_pos p (es ++ e ∷ []) ≡ (has_pos p es || e.pos == p)
unfolding has_pos
has_pos-push p [] e = ground arith
has_pos-push p (x ∷ es) e = ground (arith, has_pos-push p es e)

pub PosFrom-push :
    (lo : ℕ) (es : List Elpi) (e : Elpi)
    → lo ≤ e.pos
    → ((p : ℕ) → has_pos p es ≡ true → p < e.pos)
    → PosFrom lo es
    → PosFrom lo (es ++ e ∷ [])
unfolding has_pos
PosFrom-push lo [] e l h f = (l, tt)
PosFrom-push lo (x ∷ es) e l h f = (
  f.0,
  PosFrom-push (suc x.pos) es e (let y = h x.pos (ground arith) in omega arith)
      (λ p g. h p (ground arith)) f.1,
)

-- What erasing a position leaves.
pub record Erased (p lo : ℕ) (es r : List Elpi) : Type 0 where
  pub placed : PosFrom lo r
  pub others : (q : ℕ) → has_pos q r ≡ (has_pos q es && not (p == q))

pub erase_pos-Erased :
    (p lo : ℕ) (es : List Elpi)
    → PosFrom lo es
    → has_pos p es ≡ true
    → (r : List Elpi) × (erase_pos p es ≡ some r) × Erased p lo es r
unfolding erase_pos has_pos
erase_pos-Erased p lo [] f h = cc
erase_pos-Erased p lo (e ∷ es) f h = elim (Bool-cases (e.pos == p)) [
  | inl y ↦ (
    es,
    rw y refl,
    record {
      placed = PosFrom-mono lo (suc e.pos) es (omega arith) f.1;
      others = λ q. ground (arith, y, has_pos_below q (suc e.pos) es f.1);
    },
  )
  | inr n ↦
      let (r, x, er) = erase_pos-Erased p (suc e.pos) es f.1 (ground (arith, n, h)) in
      (
        e ∷ r,
        ground (arith, n, x),
        record { placed = (f.0, er.placed); others = λ q. ground (arith, er.others q, n) },
      )
]

-- What erasing all positions of a set leaves.
pub record AllErased (ps : Lockset) (lo : ℕ) (es r : List Elpi) : Type 0 where
  pub placed : PosFrom lo r
  pub others : (q : ℕ) → has_pos q r ≡ (has_pos q es && not (is_exist q ps))

-- The other positions of the set are still there.
still_there :
    (p q lo : ℕ) (ps : Lockset) (r es : List Elpi)
    → Erased p lo es r
    → is_exist q ps ≡ true
    → is_exist p ps ≡ false
    → has_pos q es ≡ true
    → has_pos q r ≡ true
still_there p q lo ps r es er m z y = elim (Bool-cases (p == q)) [
  | inl e ↦
      let s : p ≡ q = (==_iff p q).0 e in
      let m' : is_exist p ps ≡ true = subst (λ v. is_exist v ps ≡ true) (sym s) m in
      absurd (ground (arith, m', z))
  | inr n ↦ ground (arith, er.others q, n, y)
]

pub erase_all-AllErased :
    (k : ℕ) (ps : Lockset) (lo : ℕ) (es : List Elpi)
    → Rising k ps
    → PosFrom lo es
    → ((p : ℕ) → is_exist p ps ≡ true → has_pos p es ≡ true)
    → (r : List Elpi) × (erase_all ps es ≡ some r) × AllErased ps lo es r
unfolding erase_all is_exist
erase_all-AllErased k [] lo es i f h = (es, refl, record { placed = f; others = λ q. ground arith })
erase_all-AllErased k (p ∷ ps) lo es i f h =
    let (r, x, er) = erase_pos-Erased p lo es f (h p (ground arith)) in
    let all = λ (q : ℕ) (m : is_exist q ps ≡ true).
      let y = h q (ground arith) in
      let z = is_exist_below p (suc p) ps i.1 (omega arith) in
      still_there p q lo ps r es er m z y in
    let (r', x', er') = erase_all-AllErased (suc p) ps lo r i.1 er.placed all in
    (
      r',
      ground (arith, x, x'),
      record { placed = er'.placed; others = λ q. ground (arith, er'.others q, er.others q) },
    )

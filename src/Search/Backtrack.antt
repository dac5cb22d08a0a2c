-- ===== src/Search/Backtrack.antt =====
-- What the end of a run leaves of the stack in src/systematic/search.cc.
use mathlib.Core.List.{reverse, reverse-append, reverse-reverse}
use data_race_detectors.Base.{
  ℕ, ◌≡◌, refl, sym, ap, ◌∙◌, ◌⊎◌, inl, inr, ◌↔◌, true, false, List, [], ◌∷◌, ◌++◌, if◌then◌else◌,
  Bool-cases, arith,
}
use data_race_detectors.Lockset.{is_exist}
use data_race_detectors.Search.{
  SearchNode, SearchInfo, is_done, is_backtrack, all_done, finished, pop_finished, update_for_next,
}

all_done_sound :
    (ts : List ℕ) (n : SearchNode)
    → all_done ts n ≡ true
    → (t : ℕ) → is_exist t ts ≡ true
    → is_done t n ≡ true
unfolding all_done is_exist
all_done_sound [] n h t m = cc
all_done_sound (u ∷ ts) n h t m =
    ground (arith, λ (k : all_done ts n ≡ true). all_done_sound ts n k t)

all_done_complete :
    (ts : List ℕ) (n : SearchNode)
    → ((t : ℕ) → is_exist t ts ≡ true → is_done t n ≡ true)
    → all_done ts n ≡ true
unfolding all_done is_exist
all_done_complete [] n h = refl
all_done_complete (u ∷ ts) n h =
    ground (arith, h u, all_done_complete ts n (λ t m. h t (ground arith)))

-- A node is finished exactly when every thread to try was tried.
pub finished_iff :
    (n : SearchNode)
    → (finished n ≡ true) ↔ ((t : ℕ) → is_backtrack t n ≡ true → is_done t n ≡ true)
unfolding finished is_backtrack
finished_iff n = (all_done_sound n.backtrack n, all_done_complete n.backtrack n)

abbrev pub AllFinished : List SearchNode → Type 0
AllFinished [] = Unit
AllFinished (n ∷ ns) = (finished n ≡ true) × AllFinished ns

-- The stack is empty, or its top is a node that is not finished.
abbrev pub TopOpen : List SearchNode → Type 0
TopOpen ns =
    (ns ≡ [])
    ⊎ ((below : List SearchNode) × (n : SearchNode) × (ns ≡ below ++ n ∷ []) × (finished n ≡ false))

-- The same of a stack with its top first.
abbrev HeadOpen : List SearchNode → Type 0
HeadOpen [] = Unit
HeadOpen (n ∷ ns) = finished n ≡ false

pop_finished_parts :
    (ns : List SearchNode)
    → (popped : List SearchNode) × (ns ≡ popped ++ pop_finished ns)
      × AllFinished popped
      × HeadOpen (pop_finished ns)
unfolding pop_finished
pop_finished_parts [] = ([], refl, tt, tt)
pop_finished_parts (n ∷ ns) =
    let (popped, e, f, o) = pop_finished_parts ns in
    elim (Bool-cases (finished n)) [
      | inl y ↦ rw y (n ∷ popped, ap (◌∷◌ n) e, (y, f), o)
      | inr y ↦ rw y ([], refl, tt, y)
    ]

AllFinished-append :
    (ns ms : List SearchNode) → AllFinished ns → AllFinished ms → AllFinished (ns ++ ms)
AllFinished-append [] ms f g = g
AllFinished-append (n ∷ ns) ms f g = (f.0, AllFinished-append ns ms f.1 g)

AllFinished-reverse : (ns : List SearchNode) → AllFinished ns → AllFinished (reverse ns)
AllFinished-reverse [] f = tt
AllFinished-reverse (n ∷ ns) f =
    rw (reverse-append (n ∷ []) ns)
      (AllFinished-append (reverse ns) (n ∷ []) (AllFinished-reverse ns f.1) (f.0, tt))

TopOpen-reverse : (ns : List SearchNode) → HeadOpen ns → TopOpen (reverse ns)
TopOpen-reverse [] o = inl refl
TopOpen-reverse (n ∷ ns) o = inr (reverse ns, n, reverse-append (n ∷ []) ns, o)

-- The end of a run pops nodes that are finished from the top of the stack and leaves the rest as
-- it is; what is left is empty or has a node on top with a thread to try. A search that was not
-- done is then done exactly when the stack is empty.
pub update_for_next_lem :
    (info : SearchInfo)
    → info.done ≡ false
    → let next = update_for_next info in
      ((popped : List SearchNode) × (info.stack ≡ next.stack ++ popped) × AllFinished popped)
      × TopOpen next.stack
      × ((next.done ≡ true) ↔ (next.stack ≡ []))
unfolding update_for_next
update_for_next_lem info d =
    let (popped, e, f, o) = pop_finished_parts (reverse info.stack) in
    let kept = pop_finished (reverse info.stack) in
    (
      (
        reverse popped,
        sym (reverse-reverse info.stack) ∙ ap reverse e ∙ reverse-append popped kept,
        AllFinished-reverse popped f,
      ),
      TopOpen-reverse kept o,
      done_iff (reverse kept),
    )
  where
    done_iff :
        (ns : List SearchNode)
        → ((if data_race_detectors.Search.is_nil ns then true else info.done) ≡ true) ↔ (ns ≡ [])
    done_iff [] = ground arith
    done_iff (n ∷ ns) = (λ h. cc, λ e. cc)

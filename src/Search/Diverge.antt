-- ===== src/Search/Diverge.antt =====
-- The divergence check of src/systematic/search.cc, by which a run follows the schedule of the last.
use data_race_detectors.Base.{
  ℕ, suc, ◌≤◌, ◌<◌, ◌≡◌, refl, sym, ap, ◌∙◌, ◌↔◌, true, Option, none, some, [], ◌∷◌, ◌==◌,
  if◌then◌else◌, Map, find, From, From-mono, find_below, arith,
}
use native.Mathlib.Decide.{dec_lt}
use data_race_detectors.Program.{Operation, Action, State, length}
use data_race_detectors.Search.{
  ActionInfo, info_of, SearchNode, op_code, same_pointer, same_action, all_same, check_divergence,
  infos,
}
use data_race_detectors.Search.InOrder.{map_infos, infos_lem}

op_of : ℕ → Operation
op_of n =
    if n == 1
    then Operation.op_thread_start
    else if n == 2
    then Operation.op_thread_end
    else if n == 3
    then Operation.op_thread_create
    else if n == 4
    then Operation.op_thread_join
    else if n == 11
    then Operation.op_mutex_lock
    else if n == 12
    then Operation.op_mutex_unlock
    else if n == 13
    then Operation.op_mutex_trylock
    else if n == 21
    then Operation.op_cond_wait
    else if n == 22
    then Operation.op_cond_signal
    else if n == 23
    then Operation.op_cond_broadcast
    else if n == 24
    then Operation.op_cond_timedwait
    else if n == 31
    then Operation.op_barrier_init
    else if n == 32
    then Operation.op_barrier_wait
    else if n == 41
    then Operation.op_mem_read
    else if n == 42
    then Operation.op_mem_write
    else if n == 51
    then Operation.op_sleep
    else if n == 52
    then Operation.op_usleep
    else if n == 53
    then Operation.op_nanosleep
    else if n == 54
    then Operation.op_sched_yield
    else Operation.op_invalid

op_of-op_code : (o : Operation) → op_of (op_code o) ≡ o
unfolding op_of op_code
op_of-op_code Operation.op_invalid = refl
op_of-op_code Operation.op_thread_start = refl
op_of-op_code Operation.op_thread_end = refl
op_of-op_code Operation.op_thread_create = refl
op_of-op_code Operation.op_thread_join = refl
op_of-op_code Operation.op_mutex_lock = refl
op_of-op_code Operation.op_mutex_unlock = refl
op_of-op_code Operation.op_mutex_trylock = refl
op_of-op_code Operation.op_cond_wait = refl
op_of-op_code Operation.op_cond_signal = refl
op_of-op_code Operation.op_cond_broadcast = refl
op_of-op_code Operation.op_cond_timedwait = refl
op_of-op_code Operation.op_barrier_init = refl
op_of-op_code Operation.op_barrier_wait = refl
op_of-op_code Operation.op_mem_read = refl
op_of-op_code Operation.op_mem_write = refl
op_of-op_code Operation.op_sleep = refl
op_of-op_code Operation.op_usleep = refl
op_of-op_code Operation.op_nanosleep = refl
op_of-op_code Operation.op_sched_yield = refl

op_code-injective : (o q : Operation) → op_code o ≡ op_code q → o ≡ q
op_code-injective o q e =
    let x = op_of-op_code o in let y = op_of-op_code q in let z = ap op_of e in cc

pub same_pointer_iff : (o q : Option ℕ) → (same_pointer o q ≡ true) ↔ (o ≡ q)
same_pointer_iff none none = ground arith
same_pointer_iff none (some y) = ground arith
same_pointer_iff (some x) none = ground arith
same_pointer_iff (some x) (some y) = ground arith

same_action_iff : (i : ActionInfo) (a : Action) → (same_action i a ≡ true) ↔ (i ≡ info_of a)
unfolding same_action
same_action_iff i a = ground (
  arith,
  same_pointer_iff i.obj a.obj,
  same_pointer_iff i.inst a.inst,
  op_code-injective i.op a.op,
)

length_infos : (es : Map Action) → length (map_infos es) ≡ length es
length_infos [] = refl
length_infos ((t, a) ∷ es) = omega (arith, length_infos es)

-- Entries below the keys of the map do not matter.
all_same_drop :
    (m : Map ActionInfo) (u : ℕ) (a : Action) (es : Map Action)
    → From (suc u) m
    → all_same m ((u, a) ∷ es) ≡ all_same m es
unfolding all_same find
all_same_drop [] u a es f = refl
all_same_drop ((t, i) ∷ m) u a es f =
    ground (arith, all_same_drop m u a es (From-mono (suc u) (suc t) m (omega arith) f.1))

module _ (t u : ℕ) (i : ActionInfo) (a : Action) (m : Map ActionInfo) (es : Map Action) where
  -- The least key of the node is in the state.
  not_before : t < u → From (suc u) es → all_same ((t, i) ∷ m) ((u, a) ∷ es) ≡ true → ⊥
  unfolding all_same find
  not_before lt f h = ground (arith, find_below t (suc u) es f)

  same_head :
      t ≡ u
      → all_same ((t, i) ∷ m) ((u, a) ∷ es) ≡ true
      → (same_action i a ≡ true) × (all_same m ((u, a) ∷ es) ≡ true)
  unfolding all_same find
  same_head e h = ground (arith, h)

-- If every key of `m` is a key of `es`, `m` is not longer.
length-le :
    (lo k : ℕ) (m : Map ActionInfo) (es : Map Action)
    → From lo m
    → From k es
    → all_same m es ≡ true
    → length m ≤ length es
length-le lo k [] es f g h = omega arith
length-le lo k ((t, i) ∷ m) [] f g h = absurd (none_left t i m h)
  where
    none_left : (t : ℕ) (i : ActionInfo) (m : Map ActionInfo) → all_same ((t, i) ∷ m) [] ≡ true → ⊥
    none_left t i m h = unfold all_same find in (cc)
length-le lo k ((t, i) ∷ m) ((u, a) ∷ es) f g h = elim (dec_lt t u) [
  | yes lt ↦ absurd (not_before t u i a m es lt g.1 h)
  | no ge ↦ elim (dec_lt u t) [
    | yes gt ↦
        let f' : From (suc u) ((t, i) ∷ m) = (omega arith, f.1) in
        let d = all_same_drop ((t, i) ∷ m) u a es f' in
        let n = length-le (suc u) (suc u) ((t, i) ∷ m) es f' g.1 (ground (arith, d, h)) in
        omega arith
    | no le ↦
        let e : t ≡ u = omega arith in
        let d = all_same_drop m u a es (rw (← e) f.1) in
        let (p, q) = same_head t u i a m es e h in
        let n = length-le (suc t) (suc u) m es f.1 g.1 (ground (arith, d, q)) in omega arith
  ]
]

all_same_sound :
    (lo k : ℕ) (m : Map ActionInfo) (es : Map Action)
    → From lo m
    → From k es
    → length m ≡ length es
    → all_same m es ≡ true
    → m ≡ map_infos es
all_same_sound lo k [] [] f g l h = refl
all_same_sound lo k [] ((u, a) ∷ es) f g l h = absurd (omega arith)
all_same_sound lo k ((t, i) ∷ m) [] f g l h = absurd (omega arith)
all_same_sound lo k ((t, i) ∷ m) ((u, a) ∷ es) f g l h = elim (dec_lt t u) [
  | yes lt ↦ absurd (not_before t u i a m es lt g.1 h)
  | no ge ↦ elim (dec_lt u t) [
    | yes gt ↦
        let f' : From (suc u) ((t, i) ∷ m) = (omega arith, f.1) in
        let d = all_same_drop ((t, i) ∷ m) u a es f' in
        let n = length-le (suc u) (suc u) ((t, i) ∷ m) es f' g.1 (ground (arith, d, h)) in
        absurd (omega arith)
    | no le ↦
        let e : t ≡ u = omega arith in
        let d = all_same_drop m u a es (rw (← e) f.1) in
        let (p, q) = same_head t u i a m es e h in
        let x = all_same_sound (suc t) (suc u) m es f.1 g.1 (omega arith) (ground (arith, d, q)) in
        let y = (same_action_iff i a).0 p in cc
  ]
]

all_same_complete : (k : ℕ) (es : Map Action) → From k es → all_same (map_infos es) es ≡ true
unfolding all_same find
all_same_complete k [] f = refl
all_same_complete k ((u, a) ∷ es) f =
    let d = all_same_drop (map_infos es) u a es (From-infos (suc u) es f.1) in
    let ih = all_same_complete (suc u) es f.1 in
    let s = (same_action_iff (info_of a) a).1 refl in ground (arith, d, ih, s)
  where
    From-infos : (k : ℕ) (es : Map Action) → From k es → From k (map_infos es)
    From-infos k [] f = tt
    From-infos k ((u, a) ∷ es) f = (f.0, From-infos (suc u) es f.1)

-- The check lets a run go on exactly when the state has the same enabled threads as the node, each
-- with the same action: what the node stores is what a new node for the state would store.
pub check_divergence_iff :
    (n : SearchNode) (s : State)
    → From 0 n.enabled
    → From 0 s.enabled
    → (check_divergence n s ≡ true) ↔ (n.enabled ≡ infos s.enabled [])
unfolding check_divergence
check_divergence_iff n s f g = (
  λ h.
      all_same_sound 0 0 n.enabled s.enabled f g (ground arith) (ground arith)
      ∙ sym (infos_lem s.enabled g),
  λ e.
      let x : n.enabled ≡ map_infos s.enabled = e ∙ infos_lem s.enabled g in
      let y = all_same_complete 0 s.enabled g in
      let z = length_infos s.enabled in rw x (ground (arith, y, z)),
)

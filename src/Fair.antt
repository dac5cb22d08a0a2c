-- ===== src/Fair.antt =====
-- src/systematic/fair.h and fair.cc: the control of fairness in the systematic search. A thread that
-- yields gets a lower priority than the threads that it has kept waiting. A `ThreadSet` is a list in
-- rising order, as the sets of Lockset are.
pub mod Sets
pub mod Rank
pub mod Waiting
use data_race_detectors.Base.{
  ℕ, Bool, true, false, not, ◌&&◌, ◌||◌, Option, none, some, List, [], ◌∷◌, ◌++◌, ◌==◌,
  if◌then◌else◌, Map, find, insert, arith,
}
use data_race_detectors.Lockset.{add, remove, is_exist}
use data_race_detectors.Sync.{or_new, ◌>>=◌}
use data_race_detectors.Program.{Action, State, is_enabled}

abbrev pub ThreadSet : Type 0
ThreadSet = List ℕ

abbrev pub ThreadRelation : Type 0
ThreadRelation = List (ℕ × ℕ)

pub record FairControl : Type 0 where
  pub e : Map ThreadSet
  pub d : Map ThreadSet
  pub s : Map ThreadSet
  pub p : ThreadRelation

abbrev pub new_fair_control : FairControl
new_fair_control = record { e = []; d = []; s = []; p = [] }

-- The loop of `Enabled`: a pair (thd, x) with x enabled.
unfoldable pub blocked : ℕ → State → ThreadRelation → Bool
unfolding is_enabled
blocked thd curr [] = false
blocked thd curr ((a, b) ∷ p) =
    let rest = blocked thd curr p in if a == thd && is_enabled b curr then true else rest

unfoldable pub enabled : State → Action → FairControl → Bool
unfolding blocked
enabled curr action c = not (blocked action.thd curr c.p)

unfoldable pub drop_sink : ℕ → ThreadRelation → ThreadRelation
drop_sink t [] = []
drop_sink t ((a, b) ∷ p) = let rest = drop_sink t p in if b == t then rest else (a, b) ∷ rest

unfoldable pub keep_enabled : State → ThreadSet → ThreadSet
unfolding is_enabled
keep_enabled curr [] = []
keep_enabled curr (u ∷ us) =
    let rest = keep_enabled curr us in if not (is_enabled u curr) then rest else u ∷ rest

unfoldable pub update_e : State → Map ThreadSet → Map ThreadSet
unfolding keep_enabled
update_e curr [] = []
update_e curr ((u, eu) ∷ m) = (u, keep_enabled curr eu) ∷ update_e curr m

-- The threads that were enabled and are not any more.
unfoldable pub add_disabled : State → Map Action → ThreadSet → ThreadSet
unfolding add is_enabled
add_disabled curr [] du = du
add_disabled curr ((thd, a) ∷ m) du =
    add_disabled curr m (if not (is_enabled thd curr) then add thd du else du)

unfoldable pub update_d : ℕ → State → State → Map ThreadSet → Map ThreadSet
unfolding add_disabled
update_d t before curr [] = []
update_d t before curr ((u, du) ∷ m) =
    (u, if u == t then add_disabled curr before.enabled du else du) ∷ update_d t before curr m

unfoldable pub update_s : ℕ → Map ThreadSet → Map ThreadSet
unfolding add
update_s t [] = []
update_s t ((u, su) ∷ m) = (u, add t su) ∷ update_s t m

unfoldable pub add_all : ThreadSet → ThreadSet → ThreadSet
unfolding add
add_all [] h = h
add_all (u ∷ us) h = add_all us (add u h)

unfoldable pub remove_all : ThreadSet → ThreadSet → ThreadSet
unfolding remove
remove_all [] h = h
remove_all (u ∷ us) h = remove_all us (remove u h)

unfoldable pub related : ℕ → ℕ → ThreadRelation → Bool
related t h [] = false
related t h ((a, b) ∷ p) = let rest = related t h p in if a == t && b == h then true else rest

unfoldable pub add_edges : ℕ → ThreadSet → ThreadRelation → ThreadRelation
unfolding related
add_edges t [] p = p
add_edges t (h ∷ hs) p = add_edges t hs (if not (related t h p) then p ++ (t, h) ∷ [] else p)

unfoldable pub add_threads : Map Action → ThreadSet → ThreadSet
unfolding add
add_threads [] et = et
add_threads ((u, a) ∷ m) et = add_threads m (add u et)

-- What `Update` does at every transition of `t`.
unfoldable pub track : ℕ → State → State → FairControl → FairControl
unfolding drop_sink update_e update_d update_s
track t before curr c = record {
  e = update_e curr c.e;
  d = update_d t before curr c.d;
  s = update_s t c.s;
  p = drop_sink t c.p;
}

unfoldable pub set_at : ℕ → Map ThreadSet → ThreadSet
unfolding find
set_at t m = or_new [] (find t m)

-- The set H of the threads that `t` has kept waiting.
unfoldable pub kept_waiting : ℕ → FairControl → ThreadSet
unfolding set_at add_all remove_all
kept_waiting t c = remove_all (set_at t c.s) (add_all (set_at t c.d) (add_all (set_at t c.e) []))

-- What `Update` does when the transition of `t` is a yield.
unfoldable pub on_yield : ℕ → State → FairControl → FairControl
unfolding insert kept_waiting add_edges add_threads
on_yield t curr c = record {
  e = insert t (add_threads curr.enabled []) c.e;
  d = insert t [] c.d;
  s = insert t [] c.s;
  p = add_edges t (kept_waiting t c) c.p;
}

-- `Update`, with the state before as `Prev` gives it. `none` is a state with no taken action.
unfoldable pub update : Option State → State → FairControl → Option FairControl
unfolding track on_yield
update none curr c = some c
update (some before) curr c = before.taken >>= λ a.
    let c' = track a.thd before curr c in some (if a.yield then on_yield a.thd curr c' else c')

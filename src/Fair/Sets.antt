-- ===== src/Fair/Sets.antt =====
-- The sets that src/systematic/fair.cc keeps for each thread, by membership.
use data_race_detectors.Base.{
  ℕ, ◌≡◌, refl, subst, inl, inr, Bool-cases, Bool, true, false, not, ◌&&◌, ◌||◌, none, some, [],
  ◌∷◌, ◌==◌, if◌then◌else◌, Map, find, insert, find-insert, arith,
}
use data_race_detectors.Lockset.Laws.{is_exist-add, is_exist-remove}
use data_race_detectors.Lockset.{add, remove, is_exist}
use data_race_detectors.Program.{Action, State, is_enabled}
use data_race_detectors.Fair.{
  ThreadSet, FairControl, keep_enabled, update_e, update_d, update_s, add_all, remove_all,
  add_threads, set_at, kept_waiting, update, track, on_yield,
}

pub is_exist-add_all :
    (b : ℕ) (us h : ThreadSet) → is_exist b (add_all us h) ≡ (is_exist b us || is_exist b h)
unfolding add_all is_exist
is_exist-add_all b [] h = refl
is_exist-add_all b (u ∷ us) h = ground (arith, is_exist-add_all b us (add u h), is_exist-add b u h)

pub is_exist-remove_all :
    (b : ℕ) (us h : ThreadSet)
    → is_exist b (remove_all us h) ≡ (is_exist b h && not (is_exist b us))
unfolding remove_all is_exist
is_exist-remove_all b [] h = ground arith
is_exist-remove_all b (u ∷ us) h =
    ground (arith, is_exist-remove_all b us (remove u h), is_exist-remove b u h)

-- H holds what was enabled since the last yield or was disabled by `t`, less what has run.
pub is_exist-kept_waiting :
    (u t : ℕ) (c : FairControl)
    → is_exist u (kept_waiting t c) ≡ (
        (is_exist u (set_at t c.d) || is_exist u (set_at t c.e)) && not (is_exist u (set_at t c.s)))
unfolding kept_waiting is_exist
is_exist-kept_waiting u t c = ground (
  arith,
  is_exist-remove_all u (set_at t c.s) (add_all (set_at t c.d) (add_all (set_at t c.e) [])),
  is_exist-add_all u (set_at t c.d) (add_all (set_at t c.e) []),
  is_exist-add_all u (set_at t c.e) [],
)

abbrev is_key : ℕ → Map Action → Bool
is_key u m = elim (find u m) [ none ↦ false | some a ↦ true ]

is_exist-add_threads_key :
    (u : ℕ) (m : Map Action) (et : ThreadSet)
    → is_exist u (add_threads m et) ≡ (is_key u m || is_exist u et)
unfolding add_threads find
is_exist-add_threads_key u [] et = refl
is_exist-add_threads_key u ((v, a) ∷ m) et =
    ground (arith, is_exist-add_threads_key u m (add v et), is_exist-add u v et)

pub is_exist-add_threads :
    (u : ℕ) (curr : State) → is_exist u (add_threads curr.enabled []) ≡ is_enabled u curr
unfolding is_enabled is_exist
is_exist-add_threads u curr = ground (arith, is_exist-add_threads_key u curr.enabled [])

pub is_exist-keep_enabled :
    (u : ℕ) (curr : State) (us : ThreadSet)
    → is_exist u (keep_enabled curr us) ≡ (is_exist u us && is_enabled u curr)
unfolding keep_enabled is_exist
is_exist-keep_enabled u curr [] = refl
is_exist-keep_enabled u curr (v ∷ us) = ground (arith, is_exist-keep_enabled u curr us)

pub set_at-update_e :
    (t : ℕ) (curr : State) (m : Map ThreadSet)
    → set_at t (update_e curr m) ≡ keep_enabled curr (set_at t m)
unfolding set_at find update_e keep_enabled
set_at-update_e t curr [] = refl
set_at-update_e t curr ((u, eu) ∷ m) = ground (arith, set_at-update_e t curr m)

pub find-update_s :
    (t x : ℕ) (m : Map ThreadSet)
    → find t (update_s x m) ≡ elim (find t m) [ none ↦ none | some su ↦ some (add x su) ]
unfolding find update_s
find-update_s t x [] = refl
find-update_s t x ((u, su) ∷ m) = ground (arith, find-update_s t x m)

pub find-update_d-none :
    (t x : ℕ) (before curr : State) (m : Map ThreadSet)
    → find t m ≡ none
    → find t (update_d x before curr m) ≡ none
unfolding find update_d
find-update_d-none t x before curr [] h = refl
find-update_d-none t x before curr ((u, du) ∷ m) h =
    ground (arith, find-update_d-none t x before curr m)

pub find-update_e-none :
    (t : ℕ) (curr : State) (m : Map ThreadSet) → find t m ≡ none → find t (update_e curr m) ≡ none
unfolding find update_e
find-update_e-none t curr [] h = refl
find-update_e-none t curr ((u, eu) ∷ m) h = ground (arith, find-update_e-none t curr m)

pub set_at-insert :
    (t u : ℕ) (us : ThreadSet) (m : Map ThreadSet)
    → set_at t (insert u us m) ≡ (if u == t then us else set_at t m)
unfolding set_at
set_at-insert t u us m = ground (arith, find-insert t u us m)

-- What holds of both outcomes of `Update` after a transition holds of its result.
pub update-elim :
    (Q : FairControl → Type 0) (before curr : State) (a : Action) (c c' : FairControl)
    → before.taken ≡ some a
    → update (some before) curr c ≡ some c'
    → (a.yield ≡ false → Q (track a.thd before curr c))
    → (a.yield ≡ true → Q (on_yield a.thd curr (track a.thd before curr c)))
    → Q c'
unfolding update
update-elim Q before curr a c c' n e q y =
    let done : some (
          if a.yield
          then on_yield a.thd curr (track a.thd before curr c)
          else track a.thd before curr c)
        ≡ some c' =
      rw n at e in
    elim (Bool-cases a.yield) [
      | inl t ↦ subst Q (ground (arith, done, t)) (y t)
      | inr f ↦ subst Q (ground (arith, done, f)) (q f)
    ]

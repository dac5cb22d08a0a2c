-- ===== src/Objects/Valid.antt =====
-- The tables of src/systematic/program.cc agree with their hash tables, and give one uid to each
-- description of a thread or object.
use data_race_detectors.Base.{◌↔◌, ℕ, ◌+◌, ◌^◌, ◌<◌, ◌≡◌, refl, true, Option, none, some, arith}
use data_race_detectors.RaceDb.{u32}
use data_race_detectors.RaceDb.Index.{IsKeyed, IsIndexed, Stored, found, created, same_id}
use data_race_detectors.Objects.{
  Thread, main_thread, child, thread_uid, thread_as, Object, sobject, dobject, object_uid,
  object_as, Program, hash_thread, match_thread, hash_object, match_object, new_thread,
  lookup_thread, get_thread, new_object, lookup_object, get_object,
}

pub thread-IsKeyed : IsKeyed hash_thread match_thread
unfolding match_thread hash_thread
thread-IsKeyed = record { matches_self = self; same_hash = hashes; same_matches = same }
  where
    self : (v : Thread) → match_thread v v ≡ true
    self (main_thread u) = refl
    self (child u c i) = ground arith

    hashes : (v w : Thread) → match_thread v w ≡ true → hash_thread v ≡ hash_thread w
    hashes (main_thread u) (main_thread v) m = refl
    hashes (main_thread u) (child v d j) m = cc
    hashes (child u c i) (main_thread v) m = cc
    hashes (child u c i) (child v d j) m = ground arith

    same : (v w x : Thread) → match_thread v w ≡ true → match_thread v x ≡ match_thread w x
    same (main_thread u) (main_thread v) (main_thread x) m = refl
    same (main_thread u) (main_thread v) (child x e k) m = refl
    same (main_thread u) (child v d j) x m = cc
    same (child u c i) (main_thread v) x m = cc
    same (child u c i) (child v d j) (main_thread x) m = refl
    same (child u c i) (child v d j) (child x e k) m = ground arith

pub object-IsKeyed : IsKeyed hash_object match_object
unfolding match_object hash_object
object-IsKeyed = record { matches_self = self; same_hash = hashes; same_matches = same }
  where
    self : (v : Object) → match_object v v ≡ true
    self (sobject u i o) = ground arith
    self (dobject u c i k o) = ground arith

    hashes : (v w : Object) → match_object v w ≡ true → hash_object v ≡ hash_object w
    hashes (sobject u i o) (sobject v j q) m = ground arith
    hashes (sobject u i o) (dobject v d j l q) m = cc
    hashes (dobject u c i k o) (sobject v j q) m = cc
    hashes (dobject u c i k o) (dobject v d j l q) m = ground arith

    same : (v w x : Object) → match_object v w ≡ true → match_object v x ≡ match_object w x
    same (sobject u i o) (sobject v j q) (sobject x y z) m = ground arith
    same (sobject u i o) (sobject v j q) (dobject x e y l z) m = refl
    same (sobject u i o) (dobject v d j l q) x m = cc
    same (dobject u c i k o) (sobject v j q) x m = cc
    same (dobject u c i k o) (dobject v d j l q) (sobject x y z) m = refl
    same (dobject u c i k o) (dobject v d j l q) (dobject x e y w z) m = ground arith

pub record IsProgram (p : Program) : Type 0 where
  pub threads :
      IsIndexed hash_thread thread_uid match_thread p.curr_thd_uid p.thd_uid_table p.thd_hash_table
  pub objects :
      IsIndexed hash_object object_uid match_object p.curr_obj_uid p.obj_uid_table p.obj_hash_table

abbrev ThreadStored : Thread → Program → Thread × Program → Type 0
ThreadStored asked p r =
    Stored hash_thread thread_uid match_thread asked p.curr_thd_uid p.thd_uid_table r.0
      r.1.curr_thd_uid r.1.thd_uid_table r.1.thd_hash_table

abbrev ObjectStored : Object → Program → Object × Program → Type 0
ObjectStored asked p r =
    Stored hash_object object_uid match_object asked p.curr_obj_uid p.obj_uid_table r.0
      r.1.curr_obj_uid r.1.obj_uid_table r.1.obj_hash_table

u32_small : (n : ℕ) → n < 2 ^ 32 → u32 n ≡ n
unfolding u32
u32_small n h = ground arith

thread_as_same :
    (u : ℕ) (t : Thread)
    → (thread_uid (thread_as u t) ≡ u)
      × (match_thread t (thread_as u t) ≡ true)
      × (hash_thread (thread_as u t) ≡ hash_thread t)
unfolding match_thread hash_thread
thread_as_same u (main_thread v) = (refl, refl, refl)
thread_as_same u (child v c i) = (refl, ground arith, refl)

object_as_same :
    (u : ℕ) (o : Object)
    → (object_uid (object_as u o) ≡ u)
      × (match_object o (object_as u o) ≡ true)
      × (hash_object (object_as u o) ≡ hash_object o)
unfolding match_object hash_object
object_as_same u (sobject v i o) = (refl, ground arith, refl)
object_as_same u (dobject v c i k o) = (refl, ground arith, refl)

thread_chosen :
    (asked : Thread) (p : Program)
    → IsProgram p
    → p.curr_thd_uid + 1 < 2 ^ 32
    → (o : Option Thread) → lookup_thread asked p ≡ o
    → ThreadStored asked p (elim o [ none ↦ new_thread asked p | some t ↦ (t, p) ])
unfolding lookup_thread new_thread
thread_chosen asked p h room none n =
    let (a, b, c) = thread_as_same (p.curr_thd_uid + 1) asked in
    rw (u32_small (p.curr_thd_uid + 1) room, ← c)
      (created hash_thread thread_uid match_thread thread-IsKeyed p.curr_thd_uid p.thd_uid_table
        p.thd_hash_table asked (thread_as (p.curr_thd_uid + 1) asked) h.threads n b a)
thread_chosen asked p h room (some t) y =
    found hash_thread thread_uid match_thread thread-IsKeyed p.curr_thd_uid p.thd_uid_table
      p.thd_hash_table asked t h.threads y

object_chosen :
    (asked : Object) (p : Program)
    → IsProgram p
    → p.curr_obj_uid + 1 < 2 ^ 32
    → (o : Option Object) → lookup_object asked p ≡ o
    → ObjectStored asked p (elim o [ none ↦ new_object asked p | some t ↦ (t, p) ])
unfolding lookup_object new_object
object_chosen asked p h room none n =
    let (a, b, c) = object_as_same (p.curr_obj_uid + 1) asked in
    rw (u32_small (p.curr_obj_uid + 1) room, ← c)
      (created hash_object object_uid match_object object-IsKeyed p.curr_obj_uid p.obj_uid_table
        p.obj_hash_table asked (object_as (p.curr_obj_uid + 1) asked) h.objects n b a)
object_chosen asked p h room (some t) y =
    found hash_object object_uid match_object object-IsKeyed p.curr_obj_uid p.obj_uid_table
      p.obj_hash_table asked t h.objects y

thread_keeps :
    (asked : Thread) (p : Program) (o : Option Thread)
    → let r : Thread × Program = elim o [ none ↦ new_thread asked p | some t ↦ (t, p) ] in
      (r.1.curr_obj_uid ≡ p.curr_obj_uid)
      × (r.1.obj_uid_table ≡ p.obj_uid_table)
      × (r.1.obj_hash_table ≡ p.obj_hash_table)
unfolding new_thread
thread_keeps asked p none = (refl, refl, refl)
thread_keeps asked p (some t) = (refl, refl, refl)

object_keeps :
    (asked : Object) (p : Program) (o : Option Object)
    → let r : Object × Program = elim o [ none ↦ new_object asked p | some t ↦ (t, p) ] in
      (r.1.curr_thd_uid ≡ p.curr_thd_uid)
      × (r.1.thd_uid_table ≡ p.thd_uid_table)
      × (r.1.thd_hash_table ≡ p.thd_hash_table)
unfolding new_object
object_keeps asked p none = (refl, refl, refl)
object_keeps asked p (some t) = (refl, refl, refl)

get_thread-ThreadStored :
    (creator idx : ℕ) (p : Program)
    → IsProgram p
    → p.curr_thd_uid + 1 < 2 ^ 32
    → ThreadStored (child 0 creator idx) p (get_thread creator idx p)
unfolding get_thread
get_thread-ThreadStored creator idx p h room =
    thread_chosen (child 0 creator idx) p h room (lookup_thread (child 0 creator idx) p) refl

get_object-ObjectStored :
    (asked : Object) (p : Program)
    → IsProgram p
    → p.curr_obj_uid + 1 < 2 ^ 32
    → ObjectStored asked p (get_object asked p)
unfolding get_object
get_object-ObjectStored asked p h room = object_chosen asked p h room (lookup_object asked p) refl

pub get_thread-IsProgram :
    (creator idx : ℕ) (p : Program)
    → IsProgram p
    → p.curr_thd_uid + 1 < 2 ^ 32
    → IsProgram (get_thread creator idx p).1
unfolding get_thread
get_thread-IsProgram creator idx p h room =
    let (a, b, c) = thread_keeps (child 0 creator idx) p (lookup_thread (child 0 creator idx) p) in
    record {
      threads = (get_thread-ThreadStored creator idx p h room).valid;
      objects = rw (a, b, c) h.objects;
    }

pub get_object-IsProgram :
    (asked : Object) (p : Program)
    → IsProgram p
    → p.curr_obj_uid + 1 < 2 ^ 32
    → IsProgram (get_object asked p).1
unfolding get_object
get_object-IsProgram asked p h room =
    let (a, b, c) = object_keeps asked p (lookup_object asked p) in
    record {
      threads = rw (a, b, c) h.threads;
      objects = (get_object-ObjectStored asked p h room).valid;
    }

match_object_iff : (o q : Object) → (match_object o q ≡ true) ↔ (object_as 0 o ≡ object_as 0 q)
unfolding match_object
match_object_iff (sobject u i o) (sobject v j q) = ground arith
match_object_iff (sobject u i o) (dobject v d j l q) = (λ m. cc, λ e. cc)
match_object_iff (dobject u c i k o) (sobject v j q) = (λ m. cc, λ e. cc)
match_object_iff (dobject u c i k o) (dobject v d j l q) = ground arith

match_child_iff :
    (c i d j : ℕ) → (match_thread (child 0 c i) (child 0 d j) ≡ true) ↔ ((c ≡ d) × (i ≡ j))
unfolding match_thread
match_child_iff c i d j = ground arith

-- In a well-formed program with two uids left, two threads that are asked for one after the other
-- have the same uid exactly when they have the same creator and the same index, and two objects
-- exactly when they are the same kind of object with the same description.
pub get-same :
    (p : Program) (c i d j : ℕ) (o q : Object)
    → IsProgram p
    → p.curr_thd_uid + 2 < 2 ^ 32
    → p.curr_obj_uid + 2 < 2 ^ 32
    → let a = get_thread c i p in
      let b = get_object o p in
      ((thread_uid a.0 ≡ thread_uid (get_thread d j a.1).0) ↔ ((c ≡ d) × (i ≡ j)))
      × ((object_uid b.0 ≡ object_uid (get_object q b.1).0) ↔ (object_as 0 o ≡ object_as 0 q))
get-same p c i d j o q h room room' =
    let a = get_thread c i p in
    let s = get_thread-ThreadStored c i p h (omega arith) in
    let v = get_thread-IsProgram c i p h (omega arith) in
    let low = s.bound in
    let s' = get_thread-ThreadStored d j a.1 v (omega arith) in
    let e =
      same_id hash_thread thread_uid match_thread thread-IsKeyed (child 0 c i) (child 0 d j) a.0
        (get_thread d j a.1).0 _ _ _ _ _ _ _ _ s s' in
    let m = match_child_iff c i d j in
    let b = get_object o p in
    let t = get_object-ObjectStored o p h (omega arith) in
    let w = get_object-IsProgram o p h (omega arith) in
    let low' = t.bound in
    let t' = get_object-ObjectStored q b.1 w (omega arith) in
    let f =
      same_id hash_object object_uid match_object object-IsKeyed o q b.0 (get_object q b.1).0 _ _ _
        _ _ _ _ _ t t' in
    let n = match_object_iff o q in
    ((λ x. m.0 (e.0 x), λ x. e.1 (m.1 x)), (λ x. n.0 (f.0 x), λ x. f.1 (n.1 x)))

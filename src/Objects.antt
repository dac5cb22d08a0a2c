-- ===== src/Objects.antt =====
-- The class `Program` of src/systematic/program.h and program.cc, by which threads and objects are the
-- same from run to run: a thread is the nth that its creator has made, a static object is a place in
-- an image, a dynamic object a place in the nth allocation of an instruction by a thread. A
-- `Thread *` or `Object *` is its uid, an `Image *` or `Inst *` its id. Uids are `uint32`.
pub mod Valid
use data_race_detectors.Base.{
  ℕ, ◌+◌, Bool, true, false, ◌&&◌, Option, none, some, List, [], ◌∷◌, ◌==◌, if◌then◌else◌, Map,
  find, insert, u64, arith,
}
use data_race_detectors.RaceDb.{u32, bucket, push_back, find_in}

-- The main thread has no creator, and index 0.
pub data Thread : Type 0 where
  main_thread : (uid : ℕ) → Thread
  child : (uid creator creator_idx : ℕ) → Thread

abbrev pub thread_uid : Thread → ℕ
thread_uid (main_thread uid) = uid
thread_uid (child uid creator idx) = uid

pub data Object : Type 0 where
  sobject : (uid image offset : ℕ) → Object
  dobject : (uid creator creator_inst creator_idx offset : ℕ) → Object

abbrev pub object_uid : Object → ℕ
object_uid (sobject uid image offset) = uid
object_uid (dobject uid creator inst idx offset) = uid

pub record Program : Type 0 where
  pub curr_thd_uid : ℕ
  pub curr_obj_uid : ℕ
  pub thd_uid_table : Map Thread
  pub obj_uid_table : Map Object
  pub thd_hash_table : Map (List Thread)
  pub obj_hash_table : Map (List Object)

abbrev pub new_program : Program
new_program = record {
  curr_thd_uid = 0;
  curr_obj_uid = 0;
  thd_uid_table = [];
  obj_uid_table = [];
  thd_hash_table = [];
  obj_hash_table = [];
}

-- `Thread::Hash`
unfoldable pub hash_thread : Thread → ℕ
hash_thread (main_thread uid) = 0
hash_thread (child uid creator idx) = u64 (creator + idx)

-- `Thread::Match`
unfoldable pub match_thread : Thread → Thread → Bool
match_thread (main_thread u) (main_thread v) = true
match_thread (main_thread u) (child v creator idx) = false
match_thread (child u creator idx) (main_thread v) = false
match_thread (child u creator idx) (child v creator' idx') = creator == creator' && idx == idx'

-- `SObject::Hash` and `DObject::Hash`
unfoldable pub hash_object : Object → ℕ
hash_object (sobject uid image offset) = u64 (image + offset)
hash_object (dobject uid creator inst idx offset) = u64 (u64 (u64 (creator + inst) + idx) + offset)

-- `SObject::Match` and `DObject::Match`
unfoldable pub match_object : Object → Object → Bool
match_object (sobject u image offset) (sobject v image' offset') =
    image == image' && offset == offset'
match_object (sobject u image offset) (dobject v creator inst idx offset') = false
match_object (dobject u creator inst idx offset) (sobject v image offset') = false
match_object (dobject u creator inst idx offset) (dobject v creator' inst' idx' offset') =
    ((creator == creator' && inst == inst') && idx == idx') && offset == offset'

unfoldable pub find_thread : ℕ → Program → Option Thread
unfolding find
find_thread uid p = find uid p.thd_uid_table

unfoldable pub find_object : ℕ → Program → Option Object
unfolding find
find_object uid p = find uid p.obj_uid_table

abbrev pub thread_as : ℕ → Thread → Thread
thread_as u (main_thread uid) = main_thread u
thread_as u (child uid creator idx) = child u creator idx

-- The end of `GetMainThread` and `GetThread`: a new thread is put into both tables.
unfoldable pub new_thread : Thread → Program → Thread × Program
unfolding u32 hash_thread push_back bucket
new_thread asked p =
    let uid = u32 (p.curr_thd_uid + 1) in
    let t = thread_as uid asked in
    (
      t,
      record p {
        curr_thd_uid = uid;
        thd_uid_table = insert uid t p.thd_uid_table;
        thd_hash_table = push_back (hash_thread asked) t p.thd_hash_table;
      },
    )

unfoldable pub get_main_thread : Program → Thread × Program
unfolding find_thread new_thread
get_main_thread p = elim (find_thread 1 p) [ none ↦ new_thread (main_thread 0) p | some t ↦ (t, p) ]

unfoldable pub lookup_thread : Thread → Program → Option Thread
unfolding find_in match_thread hash_thread bucket
lookup_thread t p = find_in (match_thread t) (bucket (hash_thread t) p.thd_hash_table)

unfoldable pub get_thread : ℕ → ℕ → Program → Thread × Program
unfolding lookup_thread new_thread
get_thread creator idx p = elim (lookup_thread (child 0 creator idx) p) [
  | none ↦ new_thread (child 0 creator idx) p
  | some t ↦ (t, p)
]

unfoldable pub lookup_object : Object → Program → Option Object
unfolding find_in match_object hash_object bucket
lookup_object o p = find_in (match_object o) (bucket (hash_object o) p.obj_hash_table)

abbrev pub object_as : ℕ → Object → Object
object_as u (sobject uid image offset) = sobject u image offset
object_as u (dobject uid creator inst idx offset) = dobject u creator inst idx offset

unfoldable pub new_object : Object → Program → Object × Program
unfolding u32 hash_object push_back bucket
new_object asked p =
    let uid = u32 (p.curr_obj_uid + 1) in
    let o = object_as uid asked in
    (
      o,
      record p {
        curr_obj_uid = uid;
        obj_uid_table = insert uid o p.obj_uid_table;
        obj_hash_table = push_back (hash_object asked) o p.obj_hash_table;
      },
    )

-- The common body of `GetSObject` and `GetDObject`.
unfoldable pub get_object : Object → Program → Object × Program
unfolding lookup_object new_object
get_object asked p = elim (lookup_object asked p) [
  | none ↦ new_object asked p
  | some known ↦ (known, p)
]

unfoldable pub get_sobject : ℕ → ℕ → Program → Object × Program
get_sobject image offset p = get_object (sobject 0 image offset) p

unfoldable pub get_dobject : ℕ → ℕ → ℕ → ℕ → Program → Object × Program
get_dobject creator inst idx offset p = get_object (dobject 0 creator inst idx offset) p

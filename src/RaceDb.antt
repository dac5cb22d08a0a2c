-- ===== src/RaceDb.antt =====
-- src/race/race.h and race.cc: the races that were reported, each with the static race that it is an
-- instance of. A `StaticRaceEvent *` or `StaticRace *` is the object, and the identity of an object is
-- its id; `address` gives the address at which the object with an id was allocated, for the hash of
-- a race. Ids are `uint32`. `Load` and `Save` are left out.
pub mod Index
pub mod Valid
pub mod Made
pub mod Identity
use data_race_detectors.Base.{
  ℕ, ◌+◌, ◌%◌, ◌^◌, Bool, true, false, not, ◌&&◌, Option, none, some, List, [], ◌∷◌, ◌++◌, ◌==◌,
  if◌then◌else◌, Map, find, insert, u64, arith,
}
use data_race_detectors.Sync.{or_new}
use data_race_detectors.Lockset.{Lockset, add, is_exist}
use data_race_detectors.Shadow.{RaceEventType, event_read, event_write}

pub record StaticEvent : Type 0 where
  pub id : ℕ
  pub inst : ℕ
  pub kind : RaceEventType

-- `event_vec_` holds the ids of its events.
pub record StaticRace : Type 0 where
  pub id : ℕ
  pub event_vec : List ℕ

pub record RaceEvent : Type 0 where
  pub thd_id : ℕ
  pub static_event : ℕ

pub record Race : Type 0 where
  pub exec_id : ℕ
  pub addr : ℕ
  pub event_vec : List RaceEvent
  pub static_race : ℕ

pub record RaceDb : Type 0 where
  pub curr_static_event_id : ℕ
  pub curr_static_race_id : ℕ
  pub curr_exec_id : ℕ
  pub static_event_table : Map StaticEvent
  pub static_event_index : Map (List StaticEvent)
  pub static_race_table : Map StaticRace
  pub static_race_index : Map (List StaticRace)
  pub race_vec : List Race
  pub racy_inst_set : Lockset

abbrev pub new_race_db : RaceDb
new_race_db = record {
  curr_static_event_id = 0;
  curr_static_race_id = 0;
  curr_exec_id = 0;
  static_event_table = [];
  static_event_index = [];
  static_race_table = [];
  static_race_index = [];
  race_vec = [];
  racy_inst_set = [];
}

unfoldable pub u32 : ℕ → ℕ
u32 n = n % 2 ^ 32

-- The values of the enumeration in race.proto.
unfoldable pub type_code : RaceEventType → ℕ
type_code event_read = 1
type_code event_write = 2

unfoldable pub same_type : RaceEventType → RaceEventType → Bool
unfolding type_code
same_type p q = type_code p == type_code q

-- `StaticRaceEvent::Hash`
unfoldable pub hash_event : ℕ → RaceEventType → ℕ
hash_event inst kind = u64 (inst + type_code kind)

-- `StaticRaceEvent::Match`
unfoldable pub match_event : ℕ → RaceEventType → StaticEvent → Bool
match_event inst kind e = inst == e.inst && same_type kind e.kind

-- `StaticRace::Hash`
unfoldable pub hash_race : (ℕ → ℕ) → ℕ → List ℕ → ℕ
hash_race address acc [] = acc
hash_race address acc (e ∷ es) = hash_race address (u64 (acc + address e)) es

-- The sizes are compared first and then the elements; both stop at the first difference.
unfoldable pub same_ids : List ℕ → List ℕ → Bool
same_ids [] [] = true
same_ids [] (e ∷ es) = false
same_ids (d ∷ ds) [] = false
same_ids (d ∷ ds) (e ∷ es) = let rest = same_ids ds es in if d == e then rest else false

unfoldable pub match_race : List ℕ → StaticRace → Bool
match_race es r = same_ids es r.event_vec

module _ {V : Type 0} where
  -- `index[h]`
  unfoldable pub bucket : ℕ → Map (List V) → List V
  unfolding find
  bucket h index = or_new [] (find h index)

  unfoldable pub push_back : ℕ → V → Map (List V) → Map (List V)
  push_back h v index = insert h (bucket h index ++ v ∷ []) index

  -- The loop over a bucket.
  unfoldable pub find_in : (V → Bool) → List V → Option V
  find_in match [] = none
  find_in match (v ∷ vs) = let rest = find_in match vs in if match v then some v else rest

unfoldable pub find_static_event : ℕ → RaceEventType → RaceDb → Option StaticEvent
find_static_event inst kind db =
    find_in (match_event inst kind) (bucket (hash_event inst kind) db.static_event_index)

unfoldable pub find_static_event_by_id : ℕ → RaceDb → Option StaticEvent
unfolding find
find_static_event_by_id id db = find id db.static_event_table

unfoldable pub create_static_event : ℕ → RaceEventType → RaceDb → StaticEvent × RaceDb
create_static_event inst kind db =
    let id = u32 (db.curr_static_event_id + 1) in
    let e : StaticEvent = record { id = id; inst = inst; kind = kind } in
    (
      e,
      record db {
        curr_static_event_id = id;
        static_event_table = insert id e db.static_event_table;
        static_event_index = push_back (hash_event inst kind) e db.static_event_index;
      },
    )

unfoldable pub get_static_event : ℕ → RaceEventType → RaceDb → StaticEvent × RaceDb
get_static_event inst kind db = elim (find_static_event inst kind db) [
  | none ↦ create_static_event inst kind db
  | some e ↦ (e, db)
]

unfoldable pub find_static_race : (ℕ → ℕ) → ℕ → ℕ → RaceDb → Option StaticRace
find_static_race address e0 e1 db =
    let es = e0 ∷ e1 ∷ [] in
    find_in (match_race es) (bucket (hash_race address 0 es) db.static_race_index)

unfoldable pub find_static_race_by_id : ℕ → RaceDb → Option StaticRace
unfolding find
find_static_race_by_id id db = find id db.static_race_table

unfoldable pub create_static_race : (ℕ → ℕ) → ℕ → ℕ → RaceDb → StaticRace × RaceDb
create_static_race address e0 e1 db =
    let id = u32 (db.curr_static_race_id + 1) in
    let es = e0 ∷ e1 ∷ [] in
    let r : StaticRace = record { id = id; event_vec = es } in
    (
      r,
      record db {
        curr_static_race_id = id;
        static_race_table = insert id r db.static_race_table;
        static_race_index = push_back (hash_race address 0 es) r db.static_race_index;
      },
    )

unfoldable pub get_static_race : (ℕ → ℕ) → ℕ → ℕ → RaceDb → StaticRace × RaceDb
get_static_race address e0 e1 db = elim (find_static_race address e0 e1 db) [
  | none ↦ create_static_race address e0 e1 db
  | some r ↦ (r, db)
]

unfoldable pub create_race :
    (ℕ → ℕ)
    → (addr t0 i0 : ℕ) → RaceEventType
    → (t1 i1 : ℕ) → RaceEventType
    → RaceDb
    → Race × RaceDb
create_race address addr t0 i0 p0 t1 i1 p1 db =
    let first = get_static_event i0 p0 db in
    let second = get_static_event i1 p1 first.1 in
    let static_race = get_static_race address first.0.id second.0.id second.1 in
    let race : Race = record {
      exec_id = db.curr_exec_id;
      addr = addr;
      event_vec =
          record { thd_id = t0; static_event = first.0.id }
          ∷ record { thd_id = t1; static_event = second.0.id }
          ∷ [];
      static_race = static_race.0.id;
    } in
    let last = static_race.1 in (race, record last { race_vec = last.race_vec ++ race ∷ [] })

unfoldable pub set_racy_inst : ℕ → RaceDb → RaceDb
set_racy_inst inst db = record db { racy_inst_set = add inst db.racy_inst_set }

unfoldable pub racy_inst : ℕ → RaceDb → Bool
racy_inst inst db = is_exist inst db.racy_inst_set

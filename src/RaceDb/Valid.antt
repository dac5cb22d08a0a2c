-- ===== src/RaceDb/Valid.antt =====
-- The invariant of the database of src/race/race.cc.
use data_race_detectors.Base.{
  ◌↔◌, ℕ, ◌+◌, ◌^◌, ◌<◌, ◌≡◌, refl, Bool, true, Option, none, some, List, [], ◌∷◌, arith,
}
use data_race_detectors.Shadow.{RaceEventType, event_read, event_write}
use data_race_detectors.RaceDb.{
  StaticEvent, StaticRace, RaceDb, u32, type_code, same_type, hash_event, match_event, hash_race,
  same_ids, match_race, find_static_event, create_static_event, get_static_event, find_static_race,
  create_static_race, get_static_race,
}
use data_race_detectors.RaceDb.Index.{IsKeyed, IsIndexed, Stored, found, created}

abbrev pub event_hash : StaticEvent → ℕ
event_hash e = hash_event e.inst e.kind

abbrev pub event_match : StaticEvent → StaticEvent → Bool
event_match e f = match_event e.inst e.kind f

abbrev pub race_hash : (ℕ → ℕ) → StaticRace → ℕ
race_hash address r = hash_race address 0 r.event_vec

abbrev pub race_match : StaticRace → StaticRace → Bool
race_match r s = match_race r.event_vec s

same_type_iff : (p q : RaceEventType) → (same_type p q ≡ true) ↔ (p ≡ q)
unfolding same_type type_code
same_type_iff event_read event_read = ground arith
same_type_iff event_read event_write = ground arith
same_type_iff event_write event_read = ground arith
same_type_iff event_write event_write = ground arith

pub event_match_iff :
    (e f : StaticEvent) → (event_match e f ≡ true) ↔ ((e.inst ≡ f.inst) × (e.kind ≡ f.kind))
unfolding match_event
event_match_iff e f = ground (arith, same_type_iff e.kind f.kind)

same_ids_iff : (ds es : List ℕ) → (same_ids ds es ≡ true) ↔ (ds ≡ es)
unfolding same_ids
same_ids_iff [] [] = ground arith
same_ids_iff [] (e ∷ es) = ground arith
same_ids_iff (d ∷ ds) [] = ground arith
same_ids_iff (d ∷ ds) (e ∷ es) = ground (arith, same_ids_iff ds es)

pub race_match_iff : (r s : StaticRace) → (race_match r s ≡ true) ↔ (r.event_vec ≡ s.event_vec)
unfolding match_race
race_match_iff r s = same_ids_iff r.event_vec s.event_vec

pub event-IsKeyed : IsKeyed event_hash event_match
unfolding match_event
event-IsKeyed = record {
  matches_self = λ e. (event_match_iff e e).1 (refl, refl);
  same_hash = λ e f m. let (p, q) = (event_match_iff e f).0 m in rw (p, q) refl;
  same_matches = λ e f g m. let (p, q) = (event_match_iff e f).0 m in rw (p, q) refl;
}

pub race-IsKeyed : (address : ℕ → ℕ) → IsKeyed (race_hash address) race_match
race-IsKeyed address = record {
  matches_self = λ r. (race_match_iff r r).1 refl;
  same_hash = λ r s m. rw ((race_match_iff r s).0 m) refl;
  same_matches = λ r s x m. rw ((race_match_iff r s).0 m) refl;
}

abbrev pub asked_event : ℕ → RaceEventType → StaticEvent
asked_event inst kind = record { id = 0; inst = inst; kind = kind }

abbrev pub asked_race : ℕ → ℕ → StaticRace
asked_race e0 e1 = record { id = 0; event_vec = e0 ∷ e1 ∷ [] }

module _ (address : ℕ → ℕ) where
  -- Both tables agree with their indices.
  pub record IsRaceDb (db : RaceDb) : Type 0 where
    pub events :
        IsIndexed event_hash
          (λ e. e.id)
          event_match
          db.curr_static_event_id
          db.static_event_table
          db.static_event_index
    pub races :
        IsIndexed
          (race_hash address)
          (λ r. r.id)
          race_match
          db.curr_static_race_id
          db.static_race_table
          db.static_race_index

  abbrev pub EventStored : StaticEvent → RaceDb → StaticEvent → RaceDb → Type 0
  EventStored q db e db' =
      Stored event_hash (λ f. f.id) event_match q db.curr_static_event_id db.static_event_table e
        db'.curr_static_event_id db'.static_event_table db'.static_event_index

  abbrev pub RaceStored : StaticRace → RaceDb → StaticRace → RaceDb → Type 0
  RaceStored q db r db' =
      Stored (race_hash address) (λ s. s.id) race_match q db.curr_static_race_id
        db.static_race_table r db'.curr_static_race_id db'.static_race_table db'.static_race_index

  u32_small : (n : ℕ) → n < 2 ^ 32 → u32 n ≡ n
  unfolding u32
  u32_small n h = ground arith

  event_chosen :
      (inst : ℕ) (kind : RaceEventType) (db : RaceDb)
      → IsRaceDb db
      → db.curr_static_event_id + 1 < 2 ^ 32
      → (o : Option StaticEvent) → find_static_event inst kind db ≡ o
      → let r : StaticEvent × RaceDb = elim o [
        | none ↦ create_static_event inst kind db
        | some e ↦ (e, db)
      ] in
        EventStored (asked_event inst kind) db r.0 r.1
  unfolding find_static_event create_static_event
  event_chosen inst kind db h room none n = rw (u32_small (db.curr_static_event_id + 1) room) (
      created event_hash (λ e. e.id) event_match event-IsKeyed db.curr_static_event_id
        db.static_event_table db.static_event_index (asked_event inst kind)
        (record { id = db.curr_static_event_id + 1; inst = inst; kind = kind }) (h.events) n
        ((event_match_iff (asked_event inst kind) _).1 (refl, refl)) refl)
  event_chosen inst kind db h room (some e) y =
      found event_hash (λ f. f.id) event_match event-IsKeyed db.curr_static_event_id
        db.static_event_table db.static_event_index (asked_event inst kind) e (h.events) y

  pub get_static_event-EventStored :
      (inst : ℕ) (kind : RaceEventType) (db : RaceDb)
      → IsRaceDb db
      → db.curr_static_event_id + 1 < 2 ^ 32
      → let r = get_static_event inst kind db in EventStored (asked_event inst kind) db r.0 r.1
  unfolding get_static_event
  get_static_event-EventStored inst kind db h room =
      event_chosen inst kind db h room (find_static_event inst kind db) refl

  race_chosen :
      (e0 e1 : ℕ) (db : RaceDb)
      → IsRaceDb db
      → db.curr_static_race_id + 1 < 2 ^ 32
      → (o : Option StaticRace) → find_static_race address e0 e1 db ≡ o
      → let r : StaticRace × RaceDb = elim o [
        | none ↦ create_static_race address e0 e1 db
        | some r ↦ (r, db)
      ] in
        RaceStored (asked_race e0 e1) db r.0 r.1
  unfolding find_static_race create_static_race
  race_chosen e0 e1 db h room none n = rw (u32_small (db.curr_static_race_id + 1) room) (
      created (race_hash address) (λ r. r.id) race_match (race-IsKeyed address)
        db.curr_static_race_id db.static_race_table db.static_race_index (asked_race e0 e1)
        (record { id = db.curr_static_race_id + 1; event_vec = e0 ∷ e1 ∷ [] }) (h.races) n
        ((race_match_iff (asked_race e0 e1) _).1 refl) refl)
  race_chosen e0 e1 db h room (some r) y =
      found (race_hash address) (λ s. s.id) race_match (race-IsKeyed address) db.curr_static_race_id
        db.static_race_table db.static_race_index (asked_race e0 e1) r (h.races) y

  pub get_static_race-RaceStored :
      (e0 e1 : ℕ) (db : RaceDb)
      → IsRaceDb db
      → db.curr_static_race_id + 1 < 2 ^ 32
      → let r = get_static_race address e0 e1 db in RaceStored (asked_race e0 e1) db r.0 r.1
  unfolding get_static_race
  get_static_race-RaceStored e0 e1 db h room =
      race_chosen e0 e1 db h room (find_static_race address e0 e1 db) refl

  event_keeps :
      (inst : ℕ) (kind : RaceEventType) (db : RaceDb) (o : Option StaticEvent)
      → let r : StaticEvent × RaceDb = elim o [
        | none ↦ create_static_event inst kind db
        | some e ↦ (e, db)
      ] in
        let db' = r.1 in
        (db'.curr_static_race_id ≡ db.curr_static_race_id)
        × (db'.static_race_table ≡ db.static_race_table)
        × (db'.static_race_index ≡ db.static_race_index)
  unfolding create_static_event
  event_keeps inst kind db none = (refl, refl, refl)
  event_keeps inst kind db (some e) = (refl, refl, refl)

  race_keeps :
      (e0 e1 : ℕ) (db : RaceDb) (o : Option StaticRace)
      → let r : StaticRace × RaceDb = elim o [
        | none ↦ create_static_race address e0 e1 db
        | some e ↦ (e, db)
      ] in
        let db' = r.1 in
        (db'.curr_static_event_id ≡ db.curr_static_event_id)
        × (db'.static_event_table ≡ db.static_event_table)
        × (db'.static_event_index ≡ db.static_event_index)
  unfolding create_static_race
  race_keeps e0 e1 db none = (refl, refl, refl)
  race_keeps e0 e1 db (some e) = (refl, refl, refl)

  -- Getting an event leaves the static races alone.
  pub get_static_event-races :
      (inst : ℕ) (kind : RaceEventType) (db : RaceDb)
      → let db' = (get_static_event inst kind db).1 in
        (db'.curr_static_race_id ≡ db.curr_static_race_id)
        × (db'.static_race_table ≡ db.static_race_table)
        × (db'.static_race_index ≡ db.static_race_index)
  unfolding get_static_event
  get_static_event-races inst kind db = event_keeps inst kind db (find_static_event inst kind db)

  pub get_static_race-events :
      (e0 e1 : ℕ) (db : RaceDb)
      → let db' = (get_static_race address e0 e1 db).1 in
        (db'.curr_static_event_id ≡ db.curr_static_event_id)
        × (db'.static_event_table ≡ db.static_event_table)
        × (db'.static_event_index ≡ db.static_event_index)
  unfolding get_static_race
  get_static_race-events e0 e1 db = race_keeps e0 e1 db (find_static_race address e0 e1 db)

  pub get_static_event-IsRaceDb :
      (inst : ℕ) (kind : RaceEventType) (db : RaceDb)
      → IsRaceDb db
      → db.curr_static_event_id + 1 < 2 ^ 32
      → IsRaceDb (get_static_event inst kind db).1
  get_static_event-IsRaceDb inst kind db h room =
      let (a, b, c) = get_static_event-races inst kind db in
      record {
        events = (get_static_event-EventStored inst kind db h room).valid;
        races = rw (a, b, c) (h.races);
      }

  pub get_static_race-IsRaceDb :
      (e0 e1 : ℕ) (db : RaceDb)
      → IsRaceDb db
      → db.curr_static_race_id + 1 < 2 ^ 32
      → IsRaceDb (get_static_race address e0 e1 db).1
  get_static_race-IsRaceDb e0 e1 db h room =
      let (a, b, c) = get_static_race-events e0 e1 db in
      record {
        events = rw (a, b, c) (h.events);
        races = (get_static_race-RaceStored e0 e1 db h room).valid;
      }

-- ===== src/RaceDb/Made.antt =====
-- What `CreateRace` of src/race/race.cc leaves in the database.
use data_race_detectors.Base.{ℕ, ◌+◌, ◌^◌, ◌≤◌, ◌<◌, ◌≡◌, sym, some, List, [], ◌∷◌, find, arith}
use data_race_detectors.Shadow.{RaceEventType}
use data_race_detectors.RaceDb.{
  StaticEvent, StaticRace, RaceDb, Race, get_static_event, get_static_race, create_race,
}
use data_race_detectors.RaceDb.Valid.{
  IsRaceDb, event_match_iff, race_match_iff, asked_event, asked_race, get_static_event-EventStored,
  get_static_event-races, get_static_event-IsRaceDb, get_static_race-RaceStored,
  get_static_race-events, get_static_race-IsRaceDb,
}

-- An event with this instruction and type is stored under its id.
pub record EventAt (inst : ℕ) (kind : RaceEventType) (id : ℕ) (db : RaceDb) : Type 0 where
  pub event : StaticEvent
  pub there : find id db.static_event_table ≡ some event
  pub same_inst : event.inst ≡ inst
  pub same_kind : event.kind ≡ kind

pub record RaceAt (ids : List ℕ) (id : ℕ) (db : RaceDb) : Type 0 where
  pub static_race : StaticRace
  pub there : find id db.static_race_table ≡ some static_race
  pub same_events : static_race.event_vec ≡ ids

-- Everything stored in `db` is stored in `db'`.
pub record Kept (db db' : RaceDb) : Type 0 where
  pub events :
      (k : ℕ) (e : StaticEvent)
      → find k db.static_event_table ≡ some e
      → find k db'.static_event_table ≡ some e
  pub races :
      (k : ℕ) (r : StaticRace)
      → find k db.static_race_table ≡ some r
      → find k db'.static_race_table ≡ some r

pub Kept-then : (a b c : RaceDb) → Kept a b → Kept b c → Kept a c
Kept-then a b c f g = record {
  events = λ k e h. g.events k e (f.events k e h);
  races = λ k r h. g.races k r (f.races k r h);
}

pub EventAt-Kept :
    (inst : ℕ) (kind : RaceEventType) (id : ℕ) (a b : RaceDb)
    → Kept a b
    → EventAt inst kind id a
    → EventAt inst kind id b
EventAt-Kept inst kind id a b f e = record {
  event = e.event;
  there = f.events id (e.event) (e.there);
  same_inst = e.same_inst;
  same_kind = e.same_kind;
}

pub RaceAt-Kept :
    (ids : List ℕ) (id : ℕ) (a b : RaceDb) → Kept a b → RaceAt ids id a → RaceAt ids id b
RaceAt-Kept ids id a b f r = record {
  static_race = r.static_race;
  there = f.races id (r.static_race) (r.there);
  same_events = r.same_events;
}

-- The ids left for two more events and one more race.
abbrev pub Room : RaceDb → Type 0
Room db = (db.curr_static_event_id + 2 < 2 ^ 32) × (db.curr_static_race_id + 1 < 2 ^ 32)

module _ (address : ℕ → ℕ) where
  event_step :
      (inst : ℕ) (kind : RaceEventType) (db : RaceDb)
      → IsRaceDb address db
      → db.curr_static_event_id + 1 < 2 ^ 32
      → let r = get_static_event inst kind db in
        EventAt inst kind r.0.id r.1
        × Kept db r.1
        × (r.1.curr_static_event_id ≤ db.curr_static_event_id + 1)
  event_step inst kind db h room =
      let s = get_static_event-EventStored address inst kind db h room in
      let (p, q) = (event_match_iff (asked_event inst kind) _).0 s.matched in
      let (a, b, c) = get_static_event-races address inst kind db in
      (
        record {
          event = (get_static_event inst kind db).0;
          there = s.there;
          same_inst = sym p;
          same_kind = sym q;
        },
        record { events = s.grown; races = λ k r f. rw b f },
        s.bound,
      )

  race_step :
      (e0 e1 : ℕ) (db : RaceDb)
      → IsRaceDb address db
      → db.curr_static_race_id + 1 < 2 ^ 32
      → let r = get_static_race address e0 e1 db in
        RaceAt (e0 ∷ e1 ∷ []) r.0.id r.1
        × Kept db r.1
        × (r.1.curr_static_race_id ≤ db.curr_static_race_id + 1)
  race_step e0 e1 db h room =
      let s = get_static_race-RaceStored address e0 e1 db h room in
      let (a, b, c) = get_static_race-events address e0 e1 db in
      (
        record {
          static_race = (get_static_race address e0 e1 db).0;
          there = s.there;
          same_events = sym ((race_match_iff (asked_race e0 e1) _).0 s.matched);
        },
        record { events = λ k e f. rw b f; races = s.grown },
        s.bound,
      )

  -- What a race of two accesses with these instructions and types refers to in the database.
  pub record RaceMade (i0 : ℕ) (p0 : RaceEventType) (i1 : ℕ) (p1 : RaceEventType) (db : RaceDb)
      (race : Race) (db' : RaceDb) : Type 0 where
    pub valid : IsRaceDb address db'
    pub first : ℕ
    pub second : ℕ
    pub first_at : EventAt i0 p0 first db'
    pub second_at : EventAt i1 p1 second db'
    pub race_at : RaceAt (first ∷ second ∷ []) race.static_race db'
    pub kept : Kept db db'
    pub event_bound : db'.curr_static_event_id ≤ db.curr_static_event_id + 2
    pub race_bound : db'.curr_static_race_id ≤ db.curr_static_race_id + 1

  pub create_race-RaceMade :
      (addr t0 i0 : ℕ) (p0 : RaceEventType) (t1 i1 : ℕ) (p1 : RaceEventType) (db : RaceDb)
      → IsRaceDb address db
      → Room db
      → let r = create_race address addr t0 i0 p0 t1 i1 p1 db in RaceMade i0 p0 i1 p1 db r.0 r.1
  unfolding create_race
  create_race-RaceMade addr t0 i0 p0 t1 i1 p1 db h room =
      let a = get_static_event i0 p0 db in
      let (a_at, a_kept, a_bound) = event_step i0 p0 db h (omega arith) in
      let a_valid = get_static_event-IsRaceDb address i0 p0 db h (omega arith) in
      let b = get_static_event i1 p1 a.1 in
      let (b_at, b_kept, b_bound) = event_step i1 p1 a.1 a_valid (omega arith) in
      let b_valid = get_static_event-IsRaceDb address i1 p1 a.1 a_valid (omega arith) in
      let a_races = (get_static_event-races address i0 p0 db).0 in
      let b_races = (get_static_event-races address i1 p1 a.1).0 in
      let room' : b.1.curr_static_race_id + 1 < 2 ^ 32 = omega arith in
      let c = get_static_race address a.0.id b.0.id b.1 in
      let (c_at, c_kept, c_bound) = race_step a.0.id b.0.id b.1 b_valid room' in
      let c_valid = get_static_race-IsRaceDb address a.0.id b.0.id b.1 b_valid room' in
      let c_events = (get_static_race-events address a.0.id b.0.id b.1).0 in
      let ac = Kept-then a.1 b.1 c.1 b_kept c_kept in
      let kept = Kept-then db a.1 c.1 a_kept ac in
      let first = EventAt-Kept i0 p0 a.0.id a.1 c.1 ac a_at in
      let second = EventAt-Kept i1 p1 b.0.id b.1 c.1 c_kept b_at in
      record {
        valid = record { events = c_valid.events; races = c_valid.races };
        first = a.0.id;
        second = b.0.id;
        first_at = record {
          event = first.event;
          there = first.there;
          same_inst = first.same_inst;
          same_kind = first.same_kind;
        };
        second_at = record {
          event = second.event;
          there = second.there;
          same_inst = second.same_inst;
          same_kind = second.same_kind;
        };
        race_at = record {
          static_race = c_at.static_race;
          there = c_at.there;
          same_events = c_at.same_events;
        };
        kept = record { events = kept.events; races = kept.races };
        event_bound = omega arith;
        race_bound = omega arith;
      }

  -- Creating a race keeps the database well formed, when its ids are not about to wrap: what a
  -- lookup by content finds is stored under its id, and everything stored is found by its content.
  pub create_race-IsRaceDb :
      (addr t0 i0 : ℕ) (p0 : RaceEventType) (t1 i1 : ℕ) (p1 : RaceEventType) (db : RaceDb)
      → IsRaceDb address db
      → Room db
      → IsRaceDb address (create_race address addr t0 i0 p0 t1 i1 p1 db).1
  create_race-IsRaceDb addr t0 i0 p0 t1 i1 p1 db h room =
      (create_race-RaceMade addr t0 i0 p0 t1 i1 p1 db h room).valid

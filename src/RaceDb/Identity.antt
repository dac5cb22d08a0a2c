-- ===== src/RaceDb/Identity.antt =====
-- When two races that were reported to src/race/race.cc are the same static race.
use data_race_detectors.Base.{ℕ, ◌↔◌, ◌+◌, ◌^◌, ◌<◌, ◌≡◌, sym, ap, ◌∙◌, List, [], ◌∷◌, arith}
use data_race_detectors.Shadow.{RaceEventType}
use data_race_detectors.RaceDb.{RaceDb, create_race}
use data_race_detectors.RaceDb.Index.{unique}
use data_race_detectors.RaceDb.Valid.{
  IsRaceDb, event_hash, event_match, race_hash, race_match, event_match_iff, race_match_iff,
  event-IsKeyed, race-IsKeyed,
}
use data_race_detectors.RaceDb.Made.{
  EventAt, RaceAt, EventAt-Kept, RaceAt-Kept, Room, create_race-RaceMade,
}

pair_ids : (a b c d : ℕ) → Path (List ℕ) (a ∷ b ∷ []) (c ∷ d ∷ []) ↔ ((a ≡ c) × (b ≡ d))
pair_ids a b c d = ground arith

module _ (address : ℕ → ℕ) where
  -- The id of a stored event stands for its instruction and type.
  event_ids :
      (i : ℕ) (p : RaceEventType) (j : ℕ) (q : RaceEventType) (a b : ℕ) (db : RaceDb)
      → IsRaceDb address db
      → EventAt i p a db
      → EventAt j q b db
      → (a ≡ b) ↔ ((i ≡ j) × (p ≡ q))
  event_ids i p j q a b db h e f = (
    λ k. let same : e.event ≡ f.event = cc in (cc, cc),
    λ (k, l).
        let same =
          unique event_hash (λ e. e.id) event_match event-IsKeyed db.curr_static_event_id
            db.static_event_table db.static_event_index a b e.event f.event (h.events) e.there
            f.there ((event_match_iff e.event f.event).1 (cc, cc)) in
        let x = (h.events.complete a e.event e.there).0 in
        let y = (h.events.complete b f.event f.there).0 in sym x ∙ ap (λ e. e.id) same ∙ y,
  )

  race_ids :
      (ds es : List ℕ) (a b : ℕ) (db : RaceDb)
      → IsRaceDb address db
      → RaceAt ds a db
      → RaceAt es b db
      → (a ≡ b) ↔ (ds ≡ es)
  race_ids ds es a b db h e f = (
    λ k. let same : e.static_race ≡ f.static_race = cc in cc,
    λ k.
        let same =
          unique (race_hash address) (λ r. r.id) race_match (race-IsKeyed address)
            db.curr_static_race_id db.static_race_table db.static_race_index a b e.static_race
            f.static_race (h.races) e.there f.there
            ((race_match_iff e.static_race f.static_race).1 cc) in
        let x = (h.races.complete a e.static_race e.there).0 in
        let y = (h.races.complete b f.static_race f.there).0 in sym x ∙ ap (λ r. r.id) same ∙ y,
  )

-- In a well-formed database with ids left for four events and two races, two reports one after the
-- other refer to the same static race exactly when their instructions and access types agree,
-- those of the first access with the first and of the second with the second; the addresses and
-- the threads do not matter.
pub create_race-same :
    (address : ℕ → ℕ) (addr t0 i0 : ℕ) (p0 : RaceEventType) (t1 i1 : ℕ) (p1 : RaceEventType)
    (addr' t0' j0 : ℕ) (q0 : RaceEventType) (t1' j1 : ℕ) (q1 : RaceEventType) (db : RaceDb)
    → IsRaceDb address db
    → db.curr_static_event_id + 4 < 2 ^ 32
    → db.curr_static_race_id + 2 < 2 ^ 32
    → let a = create_race address addr t0 i0 p0 t1 i1 p1 db in
      let b = create_race address addr' t0' j0 q0 t1' j1 q1 a.1 in
      (a.0.static_race ≡ b.0.static_race) ↔ (((i0 ≡ j0) × (p0 ≡ q0)) × ((i1 ≡ j1) × (p1 ≡ q1)))
create_race-same address addr t0 i0 p0 t1 i1 p1 addr' t0' j0 q0 t1' j1 q1 db h room room' =
    let a = create_race address addr t0 i0 p0 t1 i1 p1 db in
    let m = create_race-RaceMade address addr t0 i0 p0 t1 i1 p1 db h (omega arith, omega arith) in
    let bounds : Room a.1 =
      (let x = m.event_bound in omega arith, let y = m.race_bound in omega arith) in
    let b = create_race address addr' t0' j0 q0 t1' j1 q1 a.1 in
    let n = create_race-RaceMade address addr' t0' j0 q0 t1' j1 q1 a.1 m.valid bounds in
    let first = EventAt-Kept i0 p0 m.first a.1 b.1 n.kept m.first_at in
    let second = EventAt-Kept i1 p1 m.second a.1 b.1 n.kept m.second_at in
    let race = RaceAt-Kept (m.first ∷ m.second ∷ []) a.0.static_race a.1 b.1 n.kept m.race_at in
    let x = event_ids address i0 p0 j0 q0 m.first n.first b.1 n.valid first n.first_at in
    let y = event_ids address i1 p1 j1 q1 m.second n.second b.1 n.valid second n.second_at in
    let z =
      race_ids address (m.first ∷ m.second ∷ []) (n.first ∷ n.second ∷ []) a.0.static_race
        b.0.static_race b.1 n.valid race n.race_at in
    let p = pair_ids m.first m.second n.first n.second in
    (λ k. let e = z.0 k in (x.0 (p.0 e).0, y.0 (p.0 e).1), λ k. z.1 (p.1 (x.1 k.0, y.1 k.1)))

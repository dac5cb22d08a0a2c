-- ===== src/Examples/Database.antt =====
-- The race database of src/race/race.cc on a report and its repetition.
use data_race_detectors.Base.{ℕ, ◌↔◌, ◌+◌, ◌≡◌, find, arith}
use data_race_detectors.Shadow.{event_read, event_write}
use data_race_detectors.RaceDb.{new_race_db, create_race, bucket, find_in}
use data_race_detectors.RaceDb.Valid.{IsRaceDb}
use data_race_detectors.RaceDb.Made.{create_race-IsRaceDb}
use data_race_detectors.RaceDb.Identity.{create_race-same}

-- The addresses that the allocator gives out.
abbrev address : ℕ → ℕ
address id = 4096 + id

new_race_db-IsRaceDb : IsRaceDb address new_race_db
unfolding bucket find_in find
new_race_db-IsRaceDb = record {
  events = record { sound = λ q v f. cc; complete = λ k v f. cc };
  races = record { sound = λ q v f. cc; complete = λ k v f. cc };
}

create_race-IsRaceDb_example :
    IsRaceDb address (create_race address 64 1 10 event_write 2 11 event_read new_race_db).1
create_race-IsRaceDb_example =
    create_race-IsRaceDb address 64 1 10 event_write 2 11 event_read new_race_db
      new_race_db-IsRaceDb (omega arith, omega arith)

-- The two instructions.
abbrev writer : ℕ
writer = 10

abbrev reader : ℕ
reader = 11

create_race-same_example :
    let a = create_race address 64 1 writer event_write 2 reader event_read new_race_db in
    let b = create_race address 68 3 writer event_write 1 reader event_read a.1 in
    (a.0.static_race ≡ b.0.static_race) ↔ (
      ((writer ≡ writer) × (event_write ≡ event_write))
      × ((reader ≡ reader) × (event_read ≡ event_read)))
create_race-same_example =
    create_race-same address 64 1 writer event_write 2 reader event_read 68 3 writer event_write 1
      reader event_read new_race_db new_race_db-IsRaceDb (omega arith) (omega arith)

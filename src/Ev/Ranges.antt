-- ===== src/Ev/Ranges.antt =====
-- What a report of the battery does to the range (apps/api/src/ev/ev.service.ts, updateBatteryState and
-- rangeEligible).
use kruze.Base.{ℕ, ◌+◌, ◌*◌, ◌≡◌, refl, ◌≢◌, inl, inr, true, some, List, leb, arith, Option-cases}
use kruze.Base.Rows.{find_unique, find_unique-update_row}
use kruze.Base.Effects.{ok}
use kruze.Domain.{AuthenticatedUser}
use kruze.Ev.{
  Vehicle, BatteryState, Db, Input, vehicle_key, battery_key, assert_vehicle_access, new_state,
  updated_state, upsert_state, update_battery_state, range_eligible, available_range_km,
}

find_upserted :
    (id other : ℕ) (input : Input) (now : ℕ) (rows : List BatteryState)
    → id ≢ other
    → find_unique battery_key other (upsert_state id input now rows)
      ≡ find_unique battery_key other rows
unfolding upsert_state new_state updated_state
find_upserted id other input now rows apart =
    elim (Option-cases (find_unique battery_key id rows)) [
      | inl nobody ↦ ground (arith, nobody, apart)
      | inr (b, found) ↦ ground (
        arith,
        found,
        apart,
        find_unique-update_row battery_key id other (updated_state input now) rows (λ r. refl),
      )
    ]

reported :
    (id km : ℕ) (input : Input) (now : ℕ) (rows : List BatteryState)
    → input.estimated_range_km ≡ some km
    → (b : BatteryState) × (find_unique battery_key id (upsert_state id input now rows) ≡ some b)
      × (b.estimated_range_km ≡ some km)
unfolding upsert_state new_state updated_state
reported id km input now rows given = elim (Option-cases (find_unique battery_key id rows)) [
  | inl nobody ↦ (new_state id input now, ground (arith, nobody), given)
  | inr (b, found) ↦ (
    updated_state input now b,
    ground (
      arith,
      found,
      find_unique-update_row battery_key id id (updated_state input now) rows (λ r. refl),
    ),
    ground (arith, given),
  )
]

electric_found :
    (actor : AuthenticatedUser) (id : ℕ) (input : Input) (now : ℕ) (db : Db)
    → (update_battery_state actor id input now db).1 ≡ ok tt
    → (v : Vehicle) × (find_unique vehicle_key id db.vehicles ≡ some v)
      × (v.is_electric ≡ true)
      × ((update_battery_state actor id input now db).0
          ≡ record db { battery_states = upsert_state id input now db.battery_states })
unfolding update_battery_state assert_vehicle_access
electric_found actor id input now db done =
    elim (Option-cases (find_unique vehicle_key id db.vehicles)) [
      | inl missing ↦ absurd (ground arith)
      | inr (v, found) ↦ (v, found, ground arith, ground arith)
    ]

same_state :
    (other required buffer_percent : ℕ) (db : Db) (rows : List BatteryState)
    → find_unique battery_key other rows ≡ find_unique battery_key other db.battery_states
    → range_eligible other required buffer_percent (record db { battery_states = rows })
      ≡ range_eligible other required buffer_percent db
unfolding range_eligible
same_state other required buffer_percent db rows e =
    elim (Option-cases (find_unique vehicle_key other db.vehicles)) [
      | inl missing ↦ rw (missing, range_eligible) refl
      | inr (v, found) ↦ rw (found, e, range_eligible) refl
    ]

-- Once a vehicle's vendor has reported a battery with an estimated range, a distance is in range exactly
-- if the estimate covers it with the buffer, whatever the battery's earlier state or the vehicle's own
-- figure; what any other vehicle reaches does not change.
pub range_reported :
    (actor : AuthenticatedUser) (id km : ℕ) (input : Input) (now : ℕ) (db : Db)
    → (update_battery_state actor id input now db).1 ≡ ok tt
    → input.estimated_range_km ≡ some km
    → (other : ℕ) → id ≢ other
    → (required buffer_percent : ℕ)
    → (range_eligible id required buffer_percent (update_battery_state actor id input now db).0
        ≡ leb (required * (100 + buffer_percent)) (km * 100))
      × (range_eligible other required buffer_percent (update_battery_state actor id input now db).0
          ≡ range_eligible other required buffer_percent db)
unfolding range_eligible available_range_km
range_reported actor id km input now db done given other apart required buffer_percent =
    let (v, found, electric, result) = electric_found actor id input now db done in
    let (b, there, range) = reported id km input now db.battery_states given in
    rw result (
      rw (found, electric, there, range, range_eligible) refl,
      same_state other required buffer_percent db _
          (find_upserted id other input now db.battery_states apart),
    )

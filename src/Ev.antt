-- ===== src/Ev.antt =====
-- apps/api/src/ev/ev.service.ts: the battery state of electric vehicles, charging sessions, and whether
-- the range is enough for a distance. Kilometres and percents are whole numbers and the comparison is
-- exact. Energy, cost and place of a session are left out.
pub mod Ranges
mod Samples
use kruze.Base.{
  ℕ, suc, ◌+◌, ◌*◌, Bool, true, not, Option, none, some, List, [], ◌∷◌, leb, or_else, is_some,
  if◌then◌else◌,
}
use kruze.Base.Rows.{find_unique, update_row}
use kruze.Base.Effects.{
  bad_request, forbidden, not_found, M, return, gets, or_throw, modify, require, ◌>>=◌, ◌>>◌,
}
use kruze.Domain.{AuthenticatedUser}
use kruze.Maintenance.{Link, linked}

pub record Vehicle : Type 0 where
  pub id : ℕ
  pub is_electric : Bool
  pub range_km : Option ℕ

pub record BatteryState : Type 0 where
  pub vehicle_id : ℕ
  pub soc_percent : ℕ
  pub estimated_range_km : Option ℕ
  pub charging_status : ℕ
  pub recorded_at : ℕ

pub record ChargingSession : Type 0 where
  pub vehicle_id : ℕ
  pub started_at : ℕ
  pub ended_at : Option ℕ
  pub start_soc_percent : Option ℕ
  pub end_soc_percent : Option ℕ

pub record Db : Type 0 where
  pub vehicles : List Vehicle
  pub vehicle_vendors : List Link
  pub battery_states : List BatteryState
  pub sessions : List ChargingSession

abbrev pub vehicle_key : Vehicle → ℕ
vehicle_key v = v.id

abbrev pub battery_key : BatteryState → ℕ
battery_key b = b.vehicle_id

unfoldable pub assert_vehicle_access : AuthenticatedUser → ℕ → M Db Vehicle
assert_vehicle_access actor id = do
  found ← gets (λ db. find_unique vehicle_key id db.vehicles)
  vehicle ← or_throw found not_found
  relationship ← gets (λ db. linked id actor.organisation_id db.vehicle_vendors)
  require relationship forbidden
  return vehicle

-- the charging status "IDLE"
abbrev pub idle : ℕ
idle = 0

pub record Input : Type 0 where
  pub soc_percent : ℕ
  pub estimated_range_km : Option ℕ
  pub charging_status : Option ℕ

unfoldable pub new_state : ℕ → Input → ℕ → BatteryState
new_state vehicle input now = record {
  vehicle_id = vehicle;
  soc_percent = input.soc_percent;
  estimated_range_km = input.estimated_range_km;
  charging_status = or_else input.charging_status idle;
  recorded_at = now;
}

-- `estimatedRangeKm: undefined` leaves the column as it is.
abbrev pub kept_or : Option ℕ → Option ℕ → Option ℕ
kept_or (some km) old = some km
kept_or none old = old

unfoldable pub updated_state : Input → ℕ → BatteryState → BatteryState
updated_state input now b = record b {
  soc_percent = input.soc_percent;
  estimated_range_km = kept_or input.estimated_range_km b.estimated_range_km;
  charging_status = or_else input.charging_status idle;
  recorded_at = now;
}

-- `upsert`
unfoldable pub upsert_state : ℕ → Input → ℕ → List BatteryState → List BatteryState
upsert_state vehicle input now rows =
    if is_some (find_unique battery_key vehicle rows)
    then update_row battery_key vehicle (updated_state input now) rows
    else new_state vehicle input now ∷ rows

unfoldable pub update_battery_state : AuthenticatedUser → ℕ → Input → ℕ → M Db (Unit {0})
update_battery_state actor id input now = do
  vehicle ← assert_vehicle_access actor id
  require vehicle.is_electric bad_request
  modify (λ db. record db { battery_states = upsert_state id input now db.battery_states })

unfoldable pub get_battery_state : AuthenticatedUser → ℕ → M Db (Option BatteryState)
get_battery_state actor id = do
  vehicle ← assert_vehicle_access actor id
  gets (λ db. find_unique battery_key id db.battery_states)

pub record SessionInput : Type 0 where
  pub started_at : ℕ
  pub ended_at : Option ℕ
  pub start_soc_percent : Option ℕ
  pub end_soc_percent : Option ℕ

unfoldable pub new_session : ℕ → SessionInput → ChargingSession
new_session vehicle input = record {
  vehicle_id = vehicle;
  started_at = input.started_at;
  ended_at = input.ended_at;
  start_soc_percent = input.start_soc_percent;
  end_soc_percent = input.end_soc_percent;
}

unfoldable pub log_charging_session : AuthenticatedUser → ℕ → SessionInput → M Db ChargingSession
log_charging_session actor id input = do
  vehicle ← assert_vehicle_access actor id
  modify (λ db. record db { sessions = new_session id input ∷ db.sessions })
  return (new_session id input)

-- `state?.estimatedRangeKm ?? vehicle.rangeKm ?? 0`
unfoldable pub available_range_km : Option BatteryState → Vehicle → ℕ
available_range_km none v = or_else v.range_km 0
available_range_km (some b) v = or_else b.estimated_range_km (or_else v.range_km 0)

unfoldable pub range_eligible : ℕ → ℕ → ℕ → Db → Bool
range_eligible id required buffer_percent db = elim (find_unique vehicle_key id db.vehicles) [
  | none ↦ true
  | some v ↦
      if not v.is_electric
      then true
      else leb (required * (100 + buffer_percent))
          (available_range_km (find_unique battery_key id db.battery_states) v * 100)
]

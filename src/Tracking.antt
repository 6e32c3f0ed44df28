-- ===== src/Tracking.antt =====
-- apps/api/src/tracking/tracking.service.ts: points on the map that drivers and vehicles send. `dist`
-- stands for haversineDistanceMeters, rounded up to whole metres, which changes no comparison with whole
-- metres. Speeds are in millimetres per second; accuracy and source are left out.
pub mod Recorded
mod Samples
use kruze.Base.{
  ℕ, suc, ◌+◌, ◌*◌, Bool, true, false, not, ◌&&◌, ◌||◌, Option, none, some, List, [], ◌∷◌, leb, ltb,
  ◌==◌, is_id, is_some, or_else, find?, keep, any, all, length, if◌then◌else◌,
}
use kruze.Base.Rows.{find_unique}
use kruze.Base.Effects.{
  bad_request, forbidden, not_found, record_missing, ok, M, return, gets, or_throw, modify, require,
  ◌>>=◌, ◌>>◌,
}
use kruze.Domain.{AuthenticatedUser}
use kruze.Maintenance.{Link, linked}
use kruze.Trip.Machine.{TripStatus}
use kruze.Trip.Store.{Trip, trip_id_of, is_party}

pub record Place : Type 0 where
  pub latitude : ℕ
  pub longitude : ℕ

pub record LocationEvent : Type 0 where
  pub id : ℕ
  pub trip_id : Option ℕ
  pub driver_id : Option ℕ
  pub vehicle_id : Option ℕ
  pub place : Place
  pub speed : Option ℕ
  pub recorded_at : ℕ

pub record Stop : Type 0 where
  pub trip_id : ℕ
  pub place : Place

pub record Geofence : Type 0 where
  pub id : ℕ
  pub center : Place
  pub radius_meters : ℕ
  pub corporate_org_id : Option ℕ

-- a "trip.location" message, for the trip's two organisations
pub record Sent : Type 0 where
  pub trip_id : ℕ
  pub corporate_org_id : ℕ
  pub vendor_org_id : Option ℕ
  pub place : Place

pub record Db : Type 0 where
  pub trips : List Trip
  pub stops : List Stop
  pub vehicle_vendors : List Link
  pub driver_vendors : List Link
  pub geofences : List Geofence
  pub location_events : List LocationEvent
  pub outbox : List Sent
  pub next_id : ℕ

abbrev pub geofence_key : Geofence → ℕ
geofence_key g = g.id

abbrev pub future_tolerance_ms : ℕ
future_tolerance_ms = 60000

unfoldable pub assert_trip_access : AuthenticatedUser → ℕ → M Db Trip
assert_trip_access actor id = do
  found ← gets (λ db. find_unique trip_id_of id db.trips)
  trip ← or_throw found not_found
  require (is_party actor trip) forbidden
  return trip

unfoldable pub assert_vehicle_access : AuthenticatedUser → ℕ → M Db (Unit {0})
assert_vehicle_access actor id = do
  relationship ← gets (λ db. linked id actor.organisation_id db.vehicle_vendors)
  require relationship forbidden

unfoldable pub assert_driver_access : AuthenticatedUser → ℕ → M Db (Unit {0})
assert_driver_access actor id = do
  relationship ← gets (λ db. linked id actor.organisation_id db.driver_vendors)
  require relationship forbidden

pub record Input : Type 0 where
  pub trip_id : Option ℕ
  pub driver_id : Option ℕ
  pub vehicle_id : Option ℕ
  pub place : Place
  pub speed : Option ℕ
  pub recorded_at : ℕ

-- `if (input.tripId) trip = …`
unfoldable pub accessible_trip : AuthenticatedUser → Option ℕ → M Db (Option Trip)
accessible_trip actor none = return none
accessible_trip actor (some id) = do trip ← assert_trip_access actor id; return (some trip)

unfoldable pub accessible_vehicle : AuthenticatedUser → Option ℕ → M Db (Unit {0})
accessible_vehicle actor none = return tt
accessible_vehicle actor (some id) = assert_vehicle_access actor id

unfoldable pub accessible_driver : AuthenticatedUser → Option ℕ → M Db (Unit {0})
accessible_driver actor none = return tt
accessible_driver actor (some id) = assert_driver_access actor id

unfoldable pub new_event : Input → ℕ → LocationEvent
new_event input id = record {
  id = id;
  trip_id = input.trip_id;
  driver_id = input.driver_id;
  vehicle_id = input.vehicle_id;
  place = input.place;
  speed = input.speed;
  recorded_at = input.recorded_at;
}

unfoldable pub send : Input → Option Trip → List Sent → List Sent
send input none sent = sent
send input (some t) sent =
    record {
      trip_id = t.id;
      corporate_org_id = t.corporate_org_id;
      vendor_org_id = t.vendor_org_id;
      place = input.place;
    }
    ∷ sent

unfoldable pub ingest : AuthenticatedUser → Input → ℕ → M Db LocationEvent
ingest actor input now = do
  require (is_some input.trip_id || is_some input.vehicle_id || is_some input.driver_id) bad_request
  trip ← accessible_trip actor input.trip_id
  accessible_vehicle actor input.vehicle_id
  accessible_driver actor input.driver_id
  require (not (ltb (now + future_tolerance_ms) input.recorded_at)) bad_request
  event ← gets (λ db. new_event input db.next_id)
  modify (λ db. record db {
    location_events = event ∷ db.location_events;
    outbox = send input trip db.outbox;
    next_id = suc db.next_id;
  })
  return event

-- `orderBy: { recordedAt: "desc" }`, then the first
unfoldable pub latest : List LocationEvent → Option LocationEvent
latest [] = none
latest (e ∷ es) = elim (latest es) [
  | none ↦ some e
  | some f ↦ if ltb e.recorded_at f.recorded_at then some f else some e
]

abbrev pub of_trip : ℕ → LocationEvent → Bool
of_trip id e = is_id e.trip_id id

unfoldable pub latest_for_vehicle : AuthenticatedUser → ℕ → M Db (Option LocationEvent)
latest_for_vehicle actor id = do
  assert_vehicle_access actor id
  gets (λ db. latest (keep (λ e. is_id e.vehicle_id id) db.location_events))

unfoldable pub latest_for_trip : AuthenticatedUser → ℕ → M Db (Option LocationEvent)
latest_for_trip actor id = do
  trip ← assert_trip_access actor id
  gets (λ db. latest (keep (of_trip id) db.location_events))

unfoldable pub create_geofence : Place → ℕ → Option ℕ → M Db Geofence
create_geofence center radius corporate db =
    let g : Geofence = record {
      id = db.next_id;
      center = center;
      radius_meters = radius;
      corporate_org_id = corporate;
    } in
    (record db { geofences = g ∷ db.geofences; next_id = suc db.next_id }, ok g)

module _ (dist : Place → Place → ℕ) where
  unfoldable pub check_arrival : ℕ → Place → M Db (Bool × ℕ)
  check_arrival id point = do
    found ← gets (λ db. find_unique geofence_key id db.geofences)
    geofence ← or_throw found record_missing
    return (leb (dist geofence.center point) geofence.radius_meters, dist geofence.center point)

-- ===== src/Tracking/Recorded.antt =====
-- Which points are recorded, and what the last known point of a trip is then
-- (apps/api/src/tracking/tracking.service.ts, ingest and latestForTrip).
use kruze.Base.{
  ℕ, suc, ◌+◌, ◌≤◌, ◌≡◌, Bool, true, false, ◌||◌, Option, none, some, List, ◌∷◌, Memᴰ, keep,
  is_some, ltb,
}
use kruze.Base.Rows.{find_unique}
use kruze.Base.Effects.{Error, Result, ok, err}
use kruze.Domain.{AuthenticatedUser}
use kruze.Maintenance.{linked}
use kruze.Trip.Store.{Trip, trip_id_of, is_party}
use kruze.Tracking.{
  LocationEvent, Db, Input, future_tolerance_ms, new_event, send, of_trip, latest_for_trip,
}

-- What a point may name: a trip of which the actor's organisation is a party …
pub data TripOk (actor : AuthenticatedUser) (db : Db) : Option ℕ → Option Trip → Type 0 where
  unnamed : TripOk actor db none none
  party :
      (id : ℕ) (t : Trip)
      → find_unique trip_id_of id db.trips ≡ some t
      → is_party actor t ≡ true
      → TripOk actor db (some id) (some t)

-- … and a resource that is linked to it.
abbrev pub may_name : (ℕ → Bool) → Option ℕ → Bool
may_name p none = true
may_name p (some id) = p id

pub record Admissible (actor : AuthenticatedUser) (input : Input) (now : ℕ) (db : Db) : Type 0 where
  pub named : (is_some input.trip_id || is_some input.vehicle_id || is_some input.driver_id) ≡ true
  pub trip : Option Trip
  pub trip_ok : TripOk actor db input.trip_id trip
  pub vehicle_ok :
      may_name (λ id. linked id actor.organisation_id db.vehicle_vendors) input.vehicle_id ≡ true
  pub driver_ok :
      may_name (λ id. linked id actor.organisation_id db.driver_vendors) input.driver_id ≡ true
  pub not_future : ltb (now + future_tolerance_ms) input.recorded_at ≡ false

-- a latest point of a list
pub record Latest (es : List LocationEvent) (f : LocationEvent) : Type 0 where
  pub among : Memᴰ f es
  pub newest : (e : LocationEvent) → Memᴰ e es → e.recorded_at ≤ f.recorded_at

-- The sender may read the trip's last point, which is no older than the one that was sent.
pub data Readable (actor : AuthenticatedUser) (at : ℕ) (db : Db) : Option ℕ → Type 0 where
  no_trip : Readable actor at db none
  last :
      (id : ℕ) (f : LocationEvent)
      → (latest_for_trip actor id db).1 ≡ ok (some f)
      → Latest (keep (of_trip id) db.location_events) f
      → at ≤ f.recorded_at
      → Readable actor at db (some id)

pub record Recorded (actor : AuthenticatedUser) (input : Input) (now : ℕ) (db : Db)
    (r : Db × Result LocationEvent) : Type 0 where
  pub admissible : Admissible actor input now db
  pub returned : r.1 ≡ ok (new_event input db.next_id)
  pub stored : r.0.location_events ≡ new_event input db.next_id ∷ db.location_events
  pub sent : r.0.outbox ≡ send input admissible.trip db.outbox
  pub readable : Readable actor input.recorded_at r.0 input.trip_id

pub record Refused (actor : AuthenticatedUser) (input : Input) (now : ℕ) (db : Db)
    (r : Db × Result LocationEvent) : Type 0 where
  pub error : Error
  pub unchanged : r ≡ (db, err error)
  pub reason : ¬ Admissible actor input now db

abbrev after : Input → Option Trip → Db → Db
after input trip db = record db {
  location_events = new_event input db.next_id ∷ db.location_events;
  outbox = send input trip db.outbox;
  next_id = suc db.next_id;
}

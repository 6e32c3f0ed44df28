-- ===== src/Incident.antt =====
-- apps/api/src/incident/incident.service.ts: incidents, and the SOS state of a trip. Texts and locations
-- are left out.
pub mod Reported
pub mod Operations
pub mod Replaced
mod Samples
use kruze.Base.{
  ℕ, suc, Bool, true, false, not, ◌&&◌, ◌||◌, Option, none, some, List, [], ◌∷◌, ◌==◌, is_id,
  or_else, is_some, keep,
}
use kruze.Base.Rows.{find_unique, update_row}
use kruze.Base.Effects.{
  not_found, forbidden, record_missing, M, return, gets, or_throw, modify, require, ◌>>=◌, ◌>>◌,
  Transactions,
}
use kruze.Domain.{AuthenticatedUser, is_super_admin}
use kruze.Trip.Machine.{TripStatus, can_transition}
use kruze.Trip.Store
use kruze.Trip.Store.{Trip, Message, trip_id_of, is_party}
use kruze.Trip.Service

pub data Category : Type 0 where
  accident sos breakdown misconduct complaint route_deviation vehicle_issue : Category
  safety_violation no_show : Category

pub data Severity : Type 0 where
  low medium high critical : Severity

pub data IncidentStatus : Type 0 where
  opened investigating action_taken closed : IncidentStatus

pub record Incident : Type 0 where
  pub id : ℕ
  pub trip_id : Option ℕ
  pub category : Category
  pub severity : Severity
  pub reported_by_user_id : Option ℕ
  pub status : IncidentStatus
  pub corrective_action : Option ℕ
  pub closed_by_user_id : Option ℕ
  pub closed_at : Option ℕ

pub record Db : Type 0 where
  pub trip : Store.Db
  pub incidents : List Incident
  pub next_id : ℕ

pub record ReportInput : Type 0 where
  pub trip_id : Option ℕ
  pub category : Category
  pub severity : Option Severity

abbrev pub incident_key : Incident → ℕ
incident_key i = i.id

abbrev pub is_sos : Category → Bool
is_sos sos = true
is_sos _ = false

abbrev pub is_closed : IncidentStatus → Bool
is_closed closed = true
is_closed _ = false

unfoldable pub trip_of : Option ℕ → Db → Option Trip
trip_of none db = none
trip_of (some id) db = find_unique trip_id_of id db.trip.trips

-- A handler of TripService, run on its tables.
abbrev pub on_trip : {A : Type 0} → M Store.Db A → M Db A
on_trip m db = (record db { trip = (m db.trip).0 }, (m db.trip).1)

unfoldable pub new_incident : AuthenticatedUser → ReportInput → ℕ → Incident
new_incident actor input id = record {
  id = id;
  trip_id = input.trip_id;
  category = input.category;
  severity = or_else input.severity Severity.medium;
  reported_by_user_id = some actor.user_id;
  status = opened;
  corrective_action = none;
  closed_by_user_id = none;
  closed_at = none;
}

unfoldable pub publish_for : Option Trip → Message → Db → Db
publish_for none m db = db
publish_for (some t) m db = record db { trip = Store.publish m db.trip }

-- the transition to SOS_ACTIVE of a trip in a state that allows it; its exception is not caught
unfoldable pub raise_sos :
    Transactions Store.Db → AuthenticatedUser → Option Trip → ℕ → M Db (Unit {0})
raise_sos tx actor none now = return tt
raise_sos tx actor (some t) now = elim (can_transition t.status TripStatus.sos_active) [
  | true ↦ do
    updated ← on_trip (Service.transition tx actor t.id TripStatus.sos_active now)
    return tt
  | false ↦ return tt
]

-- `if (input.category === "SOS" && input.tripId)`, without the notification
unfoldable pub alert :
    Transactions Store.Db → AuthenticatedUser → ReportInput → Option Trip → ℕ → M Db (Unit {0})
alert tx actor input trip now = elim (is_sos input.category && is_some input.trip_id) [
  | true ↦ raise_sos tx actor trip now
  | false ↦ return tt
]

unfoldable pub report : Transactions Store.Db → AuthenticatedUser → ReportInput → ℕ → M Db Incident
report tx actor input now = do
  incident ← gets (λ db. new_incident actor input db.next_id)
  modify (λ db. record db { incidents = incident ∷ db.incidents; next_id = suc db.next_id })
  trip ← gets (trip_of input.trip_id)
  modify (publish_for trip (Message.incident_created incident.id))
  alert tx actor input trip now
  return incident

-- `update` of a row that must be there
unfoldable pub update_status : ℕ → IncidentStatus → M Db (Unit {0})
update_status id status = do
  found ← gets (λ db. find_unique incident_key id db.incidents)
  incident ← or_throw found record_missing
  modify (λ db. record db {
    incidents = update_row incident_key id (λ i. record i { status = status }) db.incidents;
  })

unfoldable pub can_access : AuthenticatedUser → Incident → Option Trip → Bool
can_access actor incident none =
    is_super_admin actor.role || is_id incident.reported_by_user_id actor.user_id
can_access actor incident (some t) = is_super_admin actor.role || is_party actor t

abbrev pub closed_row : AuthenticatedUser → ℕ → ℕ → Incident → Incident
closed_row actor action now i = record i {
  status = closed;
  corrective_action = some action;
  closed_by_user_id = some actor.user_id;
  closed_at = some now;
}

unfoldable pub close : AuthenticatedUser → ℕ → ℕ → ℕ → M Db (Unit {0})
close actor id action now = do
  found ← gets (λ db. find_unique incident_key id db.incidents)
  incident ← or_throw found not_found
  trip ← gets (trip_of incident.trip_id)
  require (can_access actor incident trip) not_found
  require (not (is_closed incident.status)) forbidden
  modify (λ db. record db {
    incidents = update_row incident_key id (closed_row actor action now) db.incidents;
  })
  modify (publish_for trip (Message.incident_closed id))

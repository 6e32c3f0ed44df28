-- ===== src/Trip/Store.antt =====
-- The rows that the trip handlers read and write (apps/api/prisma/schema.prisma: Trip, TripEmployee,
-- TripAssignment, TripEvent, the employees' organisation) and the messages handed to Kafka.
-- Identifiers that the database generates come from `next_id`; lists are newest first.
use kruze.Base.{ℕ, Bool, true, false, Option, List, is_id, ◌==◌, ◌||◌, ◌∷◌}
use kruze.Base.Effects.{M}
use kruze.Domain.{AuthenticatedUser}
use kruze.Compliance
use kruze.Trip.Machine.{TripStatus}

pub data RouteAcceptance : Type 0 where
  pending accepted rejected : RouteAcceptance

pub record Trip : Type 0 where
  pub id : ℕ
  pub global_trip_no : ℕ
  pub plan_id : Option ℕ
  pub corporate_org_id : ℕ
  pub vendor_org_id : Option ℕ
  pub contract_id : Option ℕ
  pub shift_id : ℕ
  pub scheduled_start_at : ℕ
  pub scheduled_end_at : Option ℕ
  pub actual_start_at : Option ℕ
  pub actual_end_at : Option ℕ
  pub status : TripStatus
  pub version : ℕ
  pub route_acceptance : RouteAcceptance
  pub reoptimization_requested : Bool

pub data TripEmployeeStatus : Type 0 where
  planned notified vehicle_arriving pickup_verified onboard drop_verified : TripEmployeeStatus
  completed cancelled no_show missed overridden : TripEmployeeStatus

pub record TripEmployee : Type 0 where
  pub id : ℕ
  pub trip_id : ℕ
  pub employee_id : ℕ
  pub status : TripEmployeeStatus
  pub pickup_verified_at : Option ℕ
  pub drop_verified_at : Option ℕ

pub data AssignmentSource : Type 0 where
  auto manual replacement : AssignmentSource

pub data AssignmentStatus : Type 0 where
  active superseded cancelled : AssignmentStatus

pub record Assignment : Type 0 where
  pub id : ℕ
  pub trip_id : ℕ
  pub driver_id : Option ℕ
  pub vehicle_id : Option ℕ
  pub guard_id : Option ℕ
  pub status : AssignmentStatus
  pub source : AssignmentSource

pub data EventType : Type 0 where
  trip_created resources_assigned employee_no_show : EventType
  -- `TRIP_${toStatus}`
  trip_status : TripStatus → EventType
  -- `OTP_${purpose}_…`, true for PICKUP
  otp_generated otp_verified otp_overridden : Bool → EventType

pub record TripEvent : Type 0 where
  pub trip_id : ℕ
  pub type : EventType
  pub actor_user_id : Option ℕ

pub record Employee : Type 0 where
  pub id : ℕ
  pub corporate_org_id : ℕ
  pub user_id : Option ℕ

-- `kafka.publish(topic, key, type, orgs, payload)`
pub data Message : Type 0 where
  trip_status : ℕ → TripStatus → Message
  trip_assignment : ℕ → Option ℕ → Option ℕ → Option ℕ → Message
  incident_created incident_closed : ℕ → Message

pub record Db : Type 0 where
  pub compliance : Compliance.Db
  pub employees : List Employee
  pub trips : List Trip
  pub trip_employees : List TripEmployee
  pub assignments : List Assignment
  pub events : List TripEvent
  pub outbox : List Message
  pub next_id : ℕ

abbrev pub trip_id_of : Trip → ℕ
trip_id_of t = t.id

abbrev pub is_active : AssignmentStatus → Bool
is_active active = true
is_active _ = false

-- the negation of `trip.corporateOrgId !== org && trip.vendorOrgId !== org`
abbrev pub is_party : AuthenticatedUser → Trip → Bool
is_party actor t =
    t.corporate_org_id == actor.organisation_id || is_id t.vendor_org_id actor.organisation_id

abbrev pub log_event : TripEvent → Db → Db
log_event e db = record db { events = e ∷ db.events }

abbrev pub publish : Message → Db → Db
publish m db = record db { outbox = m ∷ db.outbox }

-- A handler of ComplianceService, run on its tables.
abbrev pub on_compliance : {A : Type 0} → M Compliance.Db A → M Db A
on_compliance m db = (record db { compliance = (m db.compliance).0 }, (m db.compliance).1)

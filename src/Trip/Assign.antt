-- ===== src/Trip/Assign.antt =====
-- apps/api/src/trip/trip.service.ts, `assign` and its two private checks. The checks read outside
-- the transaction; `write_assignment` is the transaction's body, from the trip that was read.
use kruze.Base.{
  ℕ, suc, ◌+◌, Bool, true, false, not, ◌&&◌, Option, none, some, List, ◌∷◌, ltb, ◌==◌, is_id,
  or_else, any,
}
use kruze.Base.Rows.{find_unique, update_where}
use kruze.Base.Effects.{
  bad_request, not_found, conflict, ok, M, return, gets, modify, require, ◌>>=◌, ◌>>◌, Transactions,
  transaction,
}
use kruze.Domain.{AuthenticatedUser}
use kruze.Compliance.{SubjectType, is_eligible}
use kruze.Trip.Machine.{TripStatus, can_transition}
use kruze.Trip.Store.{
  Trip, Assignment, AssignmentSource, AssignmentStatus, EventType, Message, Db, trip_id_of,
  is_active, is_party, log_event, publish, on_compliance,
}
use kruze.Trip.Service.{update_versioned, find_trip}

abbrev pub default_trip_window_ms : ℕ
default_trip_window_ms = 7200000

pub record AssignInput : Type 0 where
  pub driver_id : Option ℕ
  pub vehicle_id : Option ℕ
  pub guard_id : Option ℕ
  pub source : Option AssignmentSource

pub data Field : Type 0 where
  driver_id vehicle_id guard_id : Field

abbrev pub subject : Field → SubjectType
subject driver_id = SubjectType.driver
subject vehicle_id = SubjectType.vehicle
subject guard_id = SubjectType.guard

abbrev pub resource : Field → Assignment → Option ℕ
resource driver_id a = a.driver_id
resource vehicle_id a = a.vehicle_id
resource guard_id a = a.guard_id

-- `status: { notIn: ["CANCELLED", "COMPLETED", "FAILED", "NO_SHOW"] }`
abbrev pub is_live : TripStatus → Bool
is_live TripStatus.cancelled = false
is_live TripStatus.completed = false
is_live TripStatus.failed = false
is_live TripStatus.no_show = false
is_live _ = true

-- `OR: [{ scheduledEndAt: null }, { scheduledEndAt: { gt: start } }]`
abbrev pub ends_after : Option ℕ → ℕ → Bool
ends_after none start = true
ends_after (some e) start = ltb start e

abbrev pub window_end : Trip → ℕ
window_end t = or_else t.scheduled_end_at (t.scheduled_start_at + default_trip_window_ms)

-- the condition on `trip` in the query; an assignment's trip is found by its key
unfoldable pub clashes : ℕ → ℕ → Option Trip → Bool
clashes start end none = false
clashes start end (some t) =
    is_live t.status && ltb t.scheduled_start_at end && ends_after t.scheduled_end_at start

unfoldable pub conflicting : List Trip → Field → ℕ → ℕ → ℕ → ℕ → Assignment → Bool
unfolding clashes
conflicting trips field resource_id excluding start end a =
    is_id (resource field a) resource_id
    && is_active a.status
    && not (a.trip_id == excluding)
    && clashes start end (find_unique trip_id_of a.trip_id trips)

unfoldable pub assert_eligible : SubjectType → ℕ → Trip → ℕ → M Db (Unit {0})
assert_eligible type id trip now = do
  eligible ← on_compliance (
      is_eligible type id
        (record {
          vendor_org_id = trip.vendor_org_id;
          corporate_org_id = some trip.corporate_org_id;
        })
        now)
  require eligible conflict

unfoldable pub assert_no_conflict : Field → ℕ → ℕ → ℕ → ℕ → M Db (Unit {0})
unfolding conflicting
assert_no_conflict field resource_id excluding start end = do
  busy ←
      gets (λ db. any (conflicting db.trips field resource_id excluding start end) db.assignments)
  require (not busy) conflict

-- one of the three `if (input.…Id) { … }`
unfoldable pub check_resource : Field → Option ℕ → Trip → ℕ → M Db (Unit {0})
check_resource field none trip now = return tt
check_resource field (some id) trip now = do
  assert_eligible (subject field) id trip now
  assert_no_conflict field id trip.id trip.scheduled_start_at (window_end trip)

unfoldable pub check_resources : AssignInput → Trip → ℕ → M Db (Unit {0})
check_resources input trip now = do
  check_resource driver_id input.driver_id trip now
  check_resource vehicle_id input.vehicle_id trip now
  check_resource guard_id input.guard_id trip now

unfoldable pub new_assignment : ℕ → AssignInput → ℕ → Assignment
new_assignment id input trip_id = record {
  id = id;
  trip_id = trip_id;
  driver_id = input.driver_id;
  vehicle_id = input.vehicle_id;
  guard_id = input.guard_id;
  status = AssignmentStatus.active;
  source = or_else input.source AssignmentSource.manual;
}

unfoldable pub supersede : ℕ → List Assignment → List Assignment
supersede trip_id =
    update_where (λ a. a.trip_id == trip_id && is_active a.status)
      (λ a. record a { status = AssignmentStatus.superseded })

-- `updateMany` to SUPERSEDED, then `create`
unfoldable pub insert_assignment : AssignInput → ℕ → M Db Assignment
unfolding new_assignment supersede
insert_assignment input trip_id db =
    let assignment = new_assignment db.next_id input trip_id in
    (
      record db {
        assignments = assignment ∷ supersede trip_id db.assignments;
        next_id = suc db.next_id;
      },
      ok assignment,
    )

-- `if (canTransition(trip.status, "RESOURCES_ASSIGNED")) …`
unfoldable pub mark_assigned : Trip → M Db (Unit {0})
unfolding update_versioned
mark_assigned trip = elim (can_transition trip.status TripStatus.resources_assigned) [
  | true ↦ do
    updated ←
        update_versioned trip.id trip.version
          (λ t. record t { status = TripStatus.resources_assigned; version = t.version + 1 })
    return tt
  | false ↦ return tt
]

unfoldable pub write_assignment : AuthenticatedUser → AssignInput → Trip → M Db Assignment
unfolding insert_assignment
write_assignment actor input trip = do
  assignment ← insert_assignment input trip.id
  mark_assigned trip
  modify (
      log_event (record {
        trip_id = trip.id;
        type = EventType.resources_assigned;
        actor_user_id = some actor.user_id;
      }))
  return assignment

-- the transaction, then the message once it has committed
unfoldable pub finish_assign :
    Transactions Db → AuthenticatedUser → ℕ → AssignInput → Trip → M Db Assignment
finish_assign tx actor trip_id input trip = do
  assignment ← transaction tx (write_assignment actor input trip)
  modify (
      publish (
        Message.trip_assignment trip_id assignment.driver_id assignment.vehicle_id
          assignment.guard_id))
  return assignment

unfoldable pub assign : Transactions Db → AuthenticatedUser → ℕ → AssignInput → ℕ → M Db Assignment
unfolding find_trip
assign tx actor trip_id input now = do
  trip ← find_trip trip_id not_found
  require (is_party actor trip) bad_request
  check_resources input trip now
  finish_assign tx actor trip_id input trip

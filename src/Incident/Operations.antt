-- ===== src/Incident/Operations.antt =====
-- apps/api/src/incident/operations.service.ts: no-shows, breakdowns and replacements. The notifications
-- are left out.
use kruze.Base.{
  ℕ, suc, Bool, true, false, not, ◌&&◌, Option, none, some, List, [], ◌∷◌, ◌==◌, is_id, any, keep,
  take,
}
use kruze.Base.Rows.{find_unique, update_row}
use kruze.Base.Effects.{
  bad_request, not_found, forbidden, type_error, ok, M, return, gets, or_throw, modify, require,
  ◌>>=◌, ◌>>◌, Transactions,
}
use kruze.Domain.{AuthenticatedUser}
use kruze.Compliance.{SubjectType, is_eligible}
use kruze.Maintenance.{Link, linked}
use kruze.Trip.Machine.{TripStatus, same_status}
use kruze.Trip.Store
use kruze.Trip.Store.{
  Trip, TripEmployee, TripEmployeeStatus, Assignment, AssignmentSource, EventType, trip_id_of,
  is_active, is_party, log_event, on_compliance,
}
use kruze.Trip.Service.{transition}
use kruze.Trip.Assign.{AssignInput, assign, is_live}
use kruze.Planning.Search.{Candidate}
use kruze.Incident.{Category, Severity, IncidentStatus, Incident, Db, on_trip}

abbrev passenger_key : TripEmployee → ℕ
passenger_key p = p.id

unfoldable pub filed : AuthenticatedUser → ℕ → Category → Severity → ℕ → Incident
filed actor trip_id category severity id = record {
  id = id;
  trip_id = some trip_id;
  category = category;
  severity = severity;
  reported_by_user_id = some actor.user_id;
  status = IncidentStatus.opened;
  corrective_action = none;
  closed_by_user_id = none;
  closed_at = none;
}

-- `prisma.incident.create`
unfoldable pub file : AuthenticatedUser → ℕ → Category → Severity → M Db Incident
unfolding filed
file actor trip_id category severity db =
    let incident = filed actor trip_id category severity db.next_id in
    (record db { incidents = incident ∷ db.incidents; next_id = suc db.next_id }, ok incident)

unfoldable pub mark_no_show : AuthenticatedUser → ℕ → M Db Incident
mark_no_show actor id = do
  found ← gets (λ db. find_unique passenger_key id db.trip.trip_employees)
  passenger ← or_throw found not_found
  row ← gets (λ db. find_unique trip_id_of passenger.trip_id db.trip.trips)
  trip ← or_throw row type_error
  require (is_party actor trip) forbidden
  modify (λ db. record db {
    trip = record db.trip {
      trip_employees =
          update_row passenger_key id (λ p. record p { status = TripEmployeeStatus.no_show })
            db.trip.trip_employees;
    };
  })
  incident ← file actor passenger.trip_id Category.no_show Severity.low
  modify (λ db. record db {
    trip =
        log_event
          (record {
            trip_id = passenger.trip_id;
            type = EventType.employee_no_show;
            actor_user_id = some actor.user_id;
          })
          db.trip;
  })
  return incident

unfoldable pub report_breakdown :
    Transactions Store.Db → AuthenticatedUser → ℕ → ℕ → M Db (Trip × Incident)
report_breakdown tx actor trip_id now = do
  trip ← on_trip (transition tx actor trip_id TripStatus.breakdown now)
  incident ← file actor trip_id Category.breakdown Severity.high
  return (trip, incident)

abbrev on_live : Option Trip → Bool
on_live none = false
on_live (some t) = is_live t.status

-- the query of `busy`, which looks at no window of time
unfoldable pub committed : ℕ → Store.Db → Bool
committed vehicle db =
    any
      (λ a.
        is_id a.vehicle_id vehicle
        && is_active a.status
        && on_live (find_unique trip_id_of a.trip_id db.trips))
      db.assignments

-- the loop of `findReplacementVehicle`
unfoldable pub first_replacement : ℕ → ℕ → ℕ → List Candidate → M Store.Db (Option Candidate)
first_replacement vendor corporate now [] = return none
first_replacement vendor corporate now (c ∷ cs) = do
  eligible ← on_compliance (
      is_eligible SubjectType.vehicle c.id
        (record { vendor_org_id = some vendor; corporate_org_id = some corporate }) now)
  busy ← gets (committed c.id)
  elim (eligible && not busy) [
    | true ↦ return (some c)
    | false ↦ first_replacement vendor corporate now cs
  ]

unfoldable pub find_replacement_vehicle :
    List Candidate → List Link → ℕ → ℕ → ℕ → ℕ → M Store.Db (Option Candidate)
find_replacement_vehicle vehicles links vendor exclude corporate now =
    first_replacement vendor corporate now
      (take 20 (keep (λ c. not (c.id == exclude) && c.active && linked c.id vendor links) vehicles))

unfoldable pub replacement_input : Option ℕ → Option ℕ → AssignInput
replacement_input driver vehicle = record {
  driver_id = driver;
  vehicle_id = vehicle;
  guard_id = none;
  source = some AssignmentSource.replacement;
}

unfoldable pub replace :
    Transactions Store.Db → AuthenticatedUser → ℕ → Option ℕ → Option ℕ → ℕ → M Db Assignment
replace tx actor trip_id driver vehicle now = do
  found ← gets (λ db. find_unique trip_id_of trip_id db.trip.trips)
  trip ← or_throw found not_found
  require (same_status trip.status TripStatus.breakdown) bad_request
  moved ← on_trip (transition tx actor trip_id TripStatus.reassigning now)
  assignment ← on_trip (assign tx actor trip_id (replacement_input driver vehicle) now)
  return assignment

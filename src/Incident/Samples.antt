-- ===== src/Incident/Samples.antt =====
-- Samples: an SOS on a running trip (apps/api/src/incident/incident.service.ts).
use kruze.Base.{map, ◌⊎◌, ◌≡◌, refl, false, none, some, [], ◌∷◌}
use kruze.Base.Effects.{ok}
use kruze.Base.Fixtures.{restoring}
use kruze.Domain.{PlatformRole, AuthenticatedUser}
use kruze.Trip.Machine.{TripStatus}
use kruze.Incident.Operations.{replace}
use kruze.Incident.Replaced.{Replaced, Stranded, replace-outcome}
use kruze.Trip.Store.{AssignmentStatus, AssignmentSource, Trip, RouteAcceptance}
use kruze.Trip.Service.{advance}
use kruze.Incident.{
  Category, IncidentStatus, Severity, Incident, Db, ReportInput, incident_key, is_closed, trip_of,
  new_incident, report, can_access, closed_row, close,
}

abbrev vendor_driver : AuthenticatedUser
vendor_driver = record { user_id = 1; organisation_id = 20; role = PlatformRole.driver }

abbrev control_room : AuthenticatedUser
control_room = record {
  user_id = 2;
  organisation_id = 10;
  role = PlatformRole.corporate_transport_admin;
}

abbrev running_trip : Trip
running_trip = record {
  id = 1;
  global_trip_no = 1;
  plan_id = none;
  corporate_org_id = 10;
  vendor_org_id = some 20;
  contract_id = none;
  shift_id = 5;
  scheduled_start_at = 500;
  scheduled_end_at = none;
  actual_start_at = none;
  actual_end_at = none;
  status = TripStatus.running;
  version = 1;
  route_acceptance = RouteAcceptance.pending;
  reoptimization_requested = false;
}

abbrev sos_report : ReportInput
sos_report = record { trip_id = some 1; category = Category.sos; severity = some Severity.high }

abbrev open_incident : Incident
open_incident = record {
  id = 4;
  trip_id = some 1;
  category = Category.accident;
  severity = Severity.medium;
  reported_by_user_id = some 1;
  status = IncidentStatus.opened;
  corrective_action = none;
  closed_by_user_id = none;
  closed_at = none;
}

abbrev on_the_road : Db
on_the_road = record {
  trip = record {
    compliance = record { rules = []; documents = []; evaluations = [] };
    employees = [];
    trips = running_trip ∷ [];
    trip_employees = [];
    assignments = [];
    events = [];
    outbox = [];
    next_id = 9;
  };
  incidents = open_incident ∷ [];
  next_id = 5;
}

names_trip : trip_of sos_report.trip_id on_the_road ≡ some running_trip
unfolding trip_of
names_trip = refl

closes : (close control_room 4 77 700 on_the_road).1 ≡ ok tt
unfolding close can_access trip_of
closes = refl

-- The vehicle of a trip with a driver and a guard breaks down; the replacement names a vehicle alone.
abbrev broken_trip : Trip
broken_trip = record running_trip { status = TripStatus.breakdown }

abbrev stopped : Db
stopped = record {
  trip = record {
    compliance = record { rules = []; documents = []; evaluations = [] };
    employees = [];
    trips = broken_trip ∷ [];
    trip_employees = [];
    assignments =
        record {
          id = 3;
          trip_id = 1;
          driver_id = some 7;
          vehicle_id = some 8;
          guard_id = some 9;
          status = AssignmentStatus.active;
          source = AssignmentSource.manual;
        }
        ∷ [];
    events = [];
    outbox = [];
    next_id = 5;
  };
  incidents = [];
  next_id = 5;
}

replace-outcome_example :
    Replaced none
      (some 18)
      stopped
      broken_trip
      (replace restoring control_room 1 none (some 18) 900 stopped)
    ⊎ Stranded restoring control_room 900 stopped broken_trip
        (replace restoring control_room 1 none (some 18) 900 stopped)
replace-outcome_example =
    replace-outcome restoring control_room 900 stopped broken_trip none (some 18) refl refl refl

guard_lost :
    map
      (λ a. a.guard_id)
      (replace restoring control_room 1 none (some 18) 900 stopped).0.trip.assignments
    ≡ none ∷ some 9 ∷ []
unfolding replace kruze.Trip.Service.transition kruze.Trip.Service.try_transition
    kruze.Trip.Machine.can_transition kruze.Trip.Assign.assign kruze.Trip.Assign.check_resources
    kruze.Trip.Assign.check_resource kruze.Incident.Operations.replacement_input
    kruze.Trip.Assign.assert_eligible kruze.Compliance.is_eligible kruze.Compliance.evaluate
    kruze.Trip.Assign.assert_no_conflict kruze.Trip.Assign.finish_assign
    kruze.Trip.Assign.write_assignment kruze.Trip.Assign.mark_assigned
guard_lost = refl

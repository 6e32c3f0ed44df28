-- ===== src/Trip/Samples.antt =====
-- Samples: two trips of one corporate, of which one has a vehicle and a driver
-- (apps/api/src/trip/trip.service.ts).
use kruze.Base.{ℕ, ◌≡◌, refl, sym, ap, ◌∙◌, arith, false, none, some, List, [], ◌∷◌, Memᴰ}
use kruze.Base.Effects.{Error, bad_request, ok, err, record_missing}
use kruze.Base.Fixtures.{restoring}
use kruze.Domain.{PlatformRole, AuthenticatedUser}
use kruze.Trip.Machine.{TripStatus, transitions, can_transition}
use kruze.Base.{all, true}
use kruze.Trip.Store.{
  is_active, Trip, RouteAcceptance, AssignmentSource, AssignmentStatus, Assignment, Db,
}
use kruze.Trip.Service.{
  advance, update_versioned, find_trip, commit_transition, try_transition, transition,
}
use mathlib.Core.List.{map}
use kruze.Trip.Assign.{
  check_resources, finish_assign, AssignInput, Field, driver_id, vehicle_id, guard_id, assign,
}
use kruze.Trip.Booked.{Booked}
use kruze.Trip.Lifecycle.{Transitioned, transition-Transitioned}
use kruze.Trip.Versions.{commit_transition_once}
use kruze.Trip.History.{Call, run, run-Booked}

abbrev manager : AuthenticatedUser
manager = record {
  user_id = 1;
  organisation_id = 10;
  role = PlatformRole.corporate_transport_manager;
}

abbrev trip_at : ℕ → ℕ → TripStatus → Trip
trip_at id start status = record {
  id = id;
  global_trip_no = id;
  plan_id = none;
  corporate_org_id = 10;
  vendor_org_id = some 20;
  contract_id = none;
  shift_id = 5;
  scheduled_start_at = start;
  scheduled_end_at = none;
  actual_start_at = none;
  actual_end_at = none;
  status = status;
  version = 1;
  route_acceptance = RouteAcceptance.pending;
  reoptimization_requested = false;
}

abbrev booked_vehicle : Assignment
booked_vehicle = record {
  id = 3;
  trip_id = 1;
  driver_id = some 7;
  vehicle_id = some 8;
  guard_id = none;
  status = AssignmentStatus.active;
  source = AssignmentSource.manual;
}

abbrev two_trips : Db
two_trips = record {
  compliance = record { rules = []; documents = []; evaluations = [] };
  employees = [];
  trips = trip_at 2 1000 TripStatus.scheduled ∷ trip_at 1 500 TripStatus.running ∷ [];
  trip_employees = [];
  assignments = booked_vehicle ∷ [];
  events = [];
  outbox = [];
  next_id = 4;
}

abbrev same_vehicle : AssignInput
same_vehicle = record { driver_id = some 9; vehicle_id = some 8; guard_id = none; source = none }

only_member : {x y : Assignment} → Memᴰ x (y ∷ []) → x ≡ y
only_member (Memᴰ.head e) = e
only_member (Memᴰ.tail m) = elim m [ ]

two_trips-Booked : Booked two_trips
two_trips-Booked = record {
  trips_below = (ground arith, (ground arith, tt));
  assignments_below = (ground arith, tt);
  no_clash = λ field a b m n clash.
      clash.apart (ap (λ x. x.trip_id) (only_member m ∙ sym (only_member n)));
}

abbrev day_of_calls : List (AuthenticatedUser × ℕ × Call)
day_of_calls =
    (manager, 100, Call.assigns 2 same_vehicle)
    ∷ (manager, 200, Call.transitions 1 TripStatus.completed)
    ∷ (manager, 300, Call.assigns 2 same_vehicle)
    ∷ []

run-Booked_example : Booked (run restoring two_trips day_of_calls)
run-Booked_example = run-Booked restoring two_trips day_of_calls two_trips-Booked

-- the vehicle is on trip 1 until that trip is completed
busy_vehicle_refused :
    (assign restoring manager 2 same_vehicle 100 two_trips).1 ≡ err Error.conflict
unfolding assign kruze.Trip.Assign.check_resources kruze.Trip.Assign.check_resource
    kruze.Trip.Assign.assert_eligible kruze.Compliance.is_eligible kruze.Compliance.evaluate
    kruze.Trip.Assign.assert_no_conflict
busy_vehicle_refused = refl

abbrev finished_trip : Trip
finished_trip = record (trip_at 1 500 TripStatus.running) {
  status = TripStatus.completed;
  version = 2;
  actual_end_at = some 900;
}

completes : (transition restoring manager 1 TripStatus.completed 900 two_trips).1 ≡ ok finished_trip
unfolding transition try_transition find_trip commit_transition update_versioned advance
    can_transition transitions
completes = refl

transition-Transitioned_example :
    (t : Trip) × Transitioned manager TripStatus.completed 900 two_trips
      (transition restoring manager 1 TripStatus.completed 900 two_trips).0
      1
      t
      finished_trip
transition-Transitioned_example =
    transition-Transitioned restoring manager 1 TripStatus.completed 900 two_trips completes

refused_transition :
    (transition restoring manager 1 TripStatus.scheduled 900 two_trips).1 ≡ err bad_request
unfolding transition try_transition can_transition transitions
refused_transition = refl

commits :
    (commit_transition manager
      (trip_at 1 500 TripStatus.running)
      TripStatus.completed
      900
      two_trips).1
    ≡ ok finished_trip
unfolding commit_transition update_versioned advance
commits = refl

commit_transition_once_example :
    commit_transition manager
      (trip_at 1 500 TripStatus.running)
      TripStatus.cancelled
      950
      (commit_transition manager
        (trip_at 1 500 TripStatus.running)
        TripStatus.completed
        900
        two_trips).0
    ≡ (
      (commit_transition manager
          (trip_at 1 500 TripStatus.running)
          TripStatus.completed
          900
          two_trips).0,
      err record_missing,
    )
commit_transition_once_example =
    commit_transition_once manager manager (trip_at 1 500 TripStatus.running) TripStatus.completed
      TripStatus.cancelled 900 950 two_trips ((ground arith, tt), (tt, tt)) commits

-- Two calls of `assign` for one vehicle on two trips that overlap, both of which check before either
-- writes.
abbrev free_vehicle : Db
free_vehicle = record two_trips {
  trips = trip_at 2 1000 TripStatus.scheduled ∷ trip_at 1 500 TripStatus.scheduled ∷ [];
  assignments = [];
}

both_checks_pass :
    ((check_resources same_vehicle (trip_at 1 500 TripStatus.scheduled) 100 free_vehicle).1 ≡ ok tt)
    × ((check_resources same_vehicle (trip_at 2 1000 TripStatus.scheduled) 100 free_vehicle).1
        ≡ ok tt)
unfolding check_resources kruze.Trip.Assign.check_resource kruze.Trip.Assign.assert_eligible
    kruze.Compliance.is_eligible kruze.Compliance.evaluate kruze.Trip.Assign.assert_no_conflict
both_checks_pass = (refl, refl)

abbrev both_written : Db
both_written =
    (finish_assign restoring manager 2 same_vehicle (trip_at 2 1000 TripStatus.scheduled)
      (finish_assign restoring manager 1 same_vehicle (trip_at 1 500 TripStatus.scheduled)
        free_vehicle).0).0

double_booked :
    (map (λ a. a.trip_id) both_written.assignments ≡ 2 ∷ 1 ∷ [])
    × (map (λ a. a.vehicle_id) both_written.assignments ≡ some 8 ∷ some 8 ∷ [])
    × (all (λ a. is_active a.status) both_written.assignments ≡ true)
unfolding finish_assign kruze.Trip.Assign.write_assignment kruze.Trip.Assign.mark_assigned
    can_transition
double_booked = (refl, refl, refl)

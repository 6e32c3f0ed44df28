-- ===== src/Planning/Trial.antt =====
-- Samples: two employees, two vendors with a vehicle and a driver each, of whom the second has a guard
-- (apps/api/src/planning/planning.service.ts).
use kruze.Base.{true, ℕ, ◌<◌, ◌≡◌, refl, ◌⊎◌, Option, none, some, List, [], ◌∷◌, map, arith}
use kruze.Base.Effects.{Error, err}
use kruze.Base.Fixtures.{restoring}
use kruze.Domain.{PlatformRole, AuthenticatedUser}
use kruze.Maintenance.{Link}
use kruze.Relationship.{Relationship, RelationshipStatus, RelationshipType}
use kruze.Roster.Store as Rosters
use kruze.Safety
use kruze.Trip.Store
use kruze.Trip.Machine.{TripStatus}
use kruze.Trip.Granted.{Enrolled}
use kruze.Planning.Search.{Candidate}
use kruze.Planning.Plans.{Person, PlanStatus, Db}
use kruze.Planning.Group.{Outcome, plan_group}
use kruze.Planning.Booked.{employee_ids}
use kruze.Planning.Planned.{Served, Unserved, plan_group-outcome}
use kruze.Planning.Generate.{generate}
use kruze.Planning.Publish.{open_exceptions, publish}
use kruze.Planning.Published.{Sound}
use kruze.Planning.Days.{Call, run, run-Sound, exceptions_stay}

abbrev manager : AuthenticatedUser
manager = record {
  user_id = 1;
  organisation_id = 10;
  role = PlatformRole.corporate_transport_manager;
}

abbrev resource : ℕ → Candidate
resource id = record { id = id; label = id; capacity = some 4; active = true }

abbrev link : ℕ → ℕ → Link
link id vendor = record { resource_id = id; vendor_org_id = vendor; active = true }

abbrev partner : ℕ → Relationship
partner vendor = record {
  id = vendor;
  source_org_id = 10;
  target_org_id = vendor;
  type = RelationshipType.corporate_vendor;
  status = RelationshipStatus.active;
  created_by_user_id = 1;
  approved_by_user_id = some 1;
  starts_at = none;
  ends_at = none;
}

abbrev booking : ℕ → Rosters.Entry
booking employee = record {
  id = employee;
  employee_id = employee;
  shift_id = 5;
  date = 3;
  status = Rosters.EntryStatus.opted_in;
  publish_status = Rosters.PublishStatus.published;
  source = Rosters.Source.admin;
  version = 1;
}

abbrev person : ℕ → Person
person id = record { employee_id = id; gender = none; latitude = none; longitude = none }

abbrev staff : ℕ → Store.Employee
staff id = record { id = id; corporate_org_id = 10; user_id = none }

-- A guard is mandatory after 20 h UTC; the shift starts at 22 h.
abbrev night_shift : Db
night_shift = record {
  search = record {
    trip = record {
      compliance = record { rules = []; documents = []; evaluations = [] };
      employees = staff 1 ∷ staff 2 ∷ [];
      trips = [];
      trip_employees = [];
      assignments = [];
      events = [];
      outbox = [];
      next_id = 100;
    };
    maintenance = record {
      records = [];
      vehicle_vendors = link 31 20 ∷ link 32 21 ∷ [];
      next_id = 1;
    };
    vehicles = resource 31 ∷ resource 32 ∷ [];
    drivers = resource 41 ∷ resource 42 ∷ [];
    guards = resource 52 ∷ [];
    driver_vendors = link 41 20 ∷ link 42 21 ∷ [];
    guard_vendors = link 52 21 ∷ [];
  };
  safety = record {
    policies = record { id = 1; corporate_org_id = 10; active = true; version = 1 } ∷ [];
    rules =
        record {
          id = 1;
          policy_id = 1;
          type = Safety.RuleType.guard_required (some 20);
          mandatory = true;
        }
        ∷ [];
    events = [];
    next_id = 2;
  };
  roster = record {
    employees = [];
    shifts =
        record {
          id = 5;
          corporate_org_id = 10;
          start_minutes = 1320;
          cutoff_minutes_before_start = 60;
          active = true;
        }
        ∷ [];
    entries = booking 1 ∷ booking 2 ∷ [];
    next_id = 10;
  };
  people = person 1 ∷ person 2 ∷ [];
  relationships = partner 20 ∷ partner 21 ∷ [];
  plans = [];
  exceptions = [];
  decisions = [];
  next_id = 1;
}

abbrev flat : Person → Person → ℕ
flat p q = 0

abbrev unreachable : List Person → ℕ → Option (List (List ℕ))
unreachable points size = none

abbrev at : ℕ
at = 338400000

night_shift-Sound : Sound night_shift
night_shift-Sound = record { below = tt; distinct = tt; one = λ p q m n ps qs day. elim m [ ] }

two-Enrolled : Enrolled manager (employee_ids (person 1 ∷ person 2 ∷ [])) night_shift.search.trip
two-Enrolled = record { counted = refl; own = refl }

plan_group-outcome_example :
    Served restoring manager 7 5 at 1000 (person 1 ∷ person 2 ∷ []) night_shift (20 ∷ 21 ∷ []) (
      plan_group restoring manager 7 5 at 1000
        (person 1 ∷ person 2 ∷ [])
        (20 ∷ 21 ∷ [])
        night_shift)
    ⊎ Unserved restoring manager 7 5 at 1000 (person 1 ∷ person 2 ∷ []) night_shift (20 ∷ 21 ∷ []) (
        plan_group restoring manager 7 5 at 1000
          (person 1 ∷ person 2 ∷ [])
          (20 ∷ 21 ∷ [])
          night_shift)
plan_group-outcome_example =
    plan_group-outcome restoring manager 7 5 at 1000 (person 1 ∷ person 2 ∷ []) night_shift
      two-Enrolled (20 ∷ 21 ∷ [])

abbrev calls : List (AuthenticatedUser × ℕ × Call)
calls =
    (manager, 1000, Call.generates 5 3)
    ∷ (manager, 2000, Call.publishes 1)
    ∷ (manager, 3000, Call.generates 5 3)
    ∷ []

run-Sound_example : Sound (run flat unreachable restoring night_shift calls)
run-Sound_example = run-Sound flat unreachable restoring night_shift calls night_shift-Sound

-- The second vendor's guard serves the group: the plan is READY, with the exception of the first vendor.
abbrev planned : Db
planned = (generate flat unreachable restoring manager 1000 5 3 night_shift).0

planned_night :
    (map (λ p. p.status) planned.plans ≡ PlanStatus.ready ∷ [])
    × (map (λ t. t.status) planned.search.trip.trips ≡ TripStatus.created ∷ [])
    × (map (λ a. a.guard_id) planned.search.trip.assignments ≡ some 52 ∷ [])
    × (open_exceptions 1 planned.exceptions ≡ 1)
unfolding generate kruze.Roster.Shifts.get_shift kruze.Planning.Generate.make_plan
    kruze.Planning.Generate.newest_plan kruze.Planning.Generate.insert_plan
    kruze.Planning.Generate.fill_plan kruze.Planning.Generate.fill_groups
    kruze.Planning.Generate.plan_groups kruze.Planning.Generate.group_and_route
    kruze.Planning.Generate.demand_point kruze.Planning.Generate.eligible_vendor_org_ids
    kruze.Planning.Generate.ordered kruze.Planning.Generate.count
    kruze.Planning.Generate.finished_plan kruze.Planning.Generate.supersede_previous open_exceptions
    kruze.Roster.Service.list_demand kruze.GeoRouting.Clusters.cluster_by_proximity
    kruze.GeoRouting.Clusters.chunk kruze.GeoRouting.Route.order_route_by_distance plan_group
    kruze.Planning.Group.find_crew kruze.Planning.Group.find_driver
    kruze.Planning.Group.check_safety kruze.Planning.Group.find_guard
    kruze.Planning.Group.route_input kruze.Planning.Group.demands_guard
    kruze.Planning.Group.book_crew kruze.Planning.Group.crew_input kruze.Planning.Group.trip_input
    kruze.Planning.Group.record_decision_log kruze.Planning.Search.find_eligible_vehicle
    kruze.Planning.Search.find_eligible_driver kruze.Planning.Search.find_eligible_guard
    kruze.Planning.Search.find_eligible kruze.Planning.Search.search
    kruze.Planning.Search.candidates kruze.Planning.Search.check_candidate
    kruze.Planning.Search.check_capacity kruze.Planning.Search.check_compliance
    kruze.Planning.Search.check_maintenance kruze.Planning.Search.check_busy
    kruze.Planning.Search.is_busy kruze.Planning.Search.on_compliance
    kruze.Planning.Plans.raise_exception kruze.Maintenance.is_deployment_blocked
    kruze.Compliance.evaluate kruze.Compliance.is_eligible kruze.Safety.evaluate_route
    kruze.Safety.active_rules kruze.Safety.newest kruze.Safety.violations_of kruze.Safety.broken
    kruze.Trip.Service.create kruze.Trip.Service.save_trip kruze.Trip.Assign.assign
    kruze.Trip.Assign.check_resources kruze.Trip.Assign.check_resource
    kruze.Trip.Assign.assert_eligible kruze.Trip.Assign.assert_no_conflict
    kruze.Trip.Assign.finish_assign kruze.Trip.Assign.write_assignment
    kruze.Trip.Assign.mark_assigned kruze.Trip.Machine.can_transition kruze.Maintenance.linked
planned_night = (refl, refl, refl, refl)

one_open : 0 < open_exceptions 1 planned.exceptions
one_open = let (plan, trip, guard, raised) = planned_night in omega (arith, raised)

exceptions_stay_example :
    (e : Error) × (publish restoring manager 4000 1 (run flat unreachable restoring planned calls)
      ≡ (run flat unreachable restoring planned calls, err e))
exceptions_stay_example =
    exceptions_stay flat unreachable restoring 1 planned calls manager 4000 one_open

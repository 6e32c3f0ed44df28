-- ===== src/Planning/Group.antt =====
-- apps/api/src/planning/planning.service.ts: planGroup and recordDecisionLog. `at` is the start of the
-- shift on the day of the plan and `now` the clock. A group is given in the order of its route.
use kruze.Base.{
  ℕ, ◌/◌, ◌%◌, Bool, true, false, not, ◌&&◌, Option, none, some, List, [], ◌∷◌, ◌++◌, map, ◌==◌,
  find?, keep, length, is_some,
}
use kruze.Base.Effects.{M, return, modify, ◌>>=◌, ◌>>◌, Transactions}
use kruze.Domain.{AuthenticatedUser}
use kruze.Safety.{RuleType, RouteEmployee, RouteInput, Violation, evaluate_route}
use kruze.Trip.Store
use kruze.Trip.Store.{AssignmentSource}
use kruze.Trip.Service.{CreateInput, create}
use kruze.Trip.Assign.{Field, driver_id, vehicle_id, guard_id, AssignInput, assign}
use kruze.Planning.Search.{
  Candidate, CandidateEvaluation, find_eligible_vehicle, find_eligible_driver, find_eligible_guard,
}
use kruze.Planning.Plans.{
  Person, ExceptionType, Selected, evaluated, by_default, DecisionLog, Db, on_search, on_safety,
  on_trips, raise_exception,
}

-- `getUTCHours()`
abbrev pub hour_of : ℕ → ℕ
hour_of at = at / 3600000 % 24

-- `group.map((g, idx) => ({ …, isFinalPassenger: idx === group.length - 1 }))`
unfoldable pub route_employees : List Person → List RouteEmployee
route_employees [] = []
route_employees (p ∷ []) =
    record { employee_id = p.employee_id; gender = p.gender; is_final_passenger = true } ∷ []
route_employees (p ∷ q ∷ ps) =
    record { employee_id = p.employee_id; gender = p.gender; is_final_passenger = false }
    ∷ route_employees (q ∷ ps)

unfoldable pub route_input : ℕ → ℕ → List Person → RouteInput
route_input corporate at group = record {
  corporate_org_id = corporate;
  drop_hour = hour_of at;
  employees = route_employees group;
  has_guard_assigned = false;
  ride_time_minutes = 30;
}

-- `v.ruleType === "GUARD_REQUIRED" && v.mandatory`
unfoldable pub demands_guard : Violation → Bool
demands_guard v = elim v.type [ RuleType.guard_required _ ↦ v.mandatory | _ ↦ false ]

abbrev pub same_field : Field → Field → Bool
same_field driver_id driver_id = true
same_field vehicle_id vehicle_id = true
same_field guard_id guard_id = true
same_field _ _ = false

-- `evaluations.find((e) => e.type === … && e.id === … && !e.rejected) ?? { … }`
unfoldable pub selected : Field → ℕ → List CandidateEvaluation → Selected
selected field id evaluations =
    elim (find? (λ e. same_field e.type field && e.id == id && not e.rejected) evaluations) [
      | none ↦ by_default field id
      | some e ↦ evaluated e
    ]

abbrev pub optionally : {A B : Type 0} → (A → B) → Option A → Option B
optionally f none = none
optionally f (some a) = some (f a)

-- What a vendor of the loop had, up to the `continue` or the trip: the evaluations so far, and the
-- identifiers of the guard, if one is needed, when all is found.
pub record Crew : Type 0 where
  pub vehicle : Candidate
  pub driver : Candidate
  pub guard : Option ℕ
  pub evaluations : List CandidateEvaluation

abbrev pub decision_log : ℕ → ℕ → Crew → DecisionLog
decision_log trip_id corporate crew = record {
  trip_id = trip_id;
  corporate_org_id = corporate;
  candidate_resources = crew.evaluations;
  rejected_resources = keep (λ e. e.rejected) crew.evaluations;
  driver = selected driver_id crew.driver.id crew.evaluations;
  vehicle = selected vehicle_id crew.vehicle.id crew.evaluations;
  guard = optionally (λ id. selected guard_id id crew.evaluations) crew.guard;
}

-- `recordDecisionLog`
unfoldable pub record_decision_log : ℕ → ℕ → Crew → M Db (Unit {0})
record_decision_log trip_id corporate crew =
    modify (λ db. record db { decisions = decision_log trip_id corporate crew ∷ db.decisions })

-- the outcome of a group: its trip and whether it has a guard
abbrev pub Outcome : Type 0
Outcome = Option (ℕ × Bool)

module _ (actor : AuthenticatedUser) (plan_id at now : ℕ) (group : List Person) where
  -- from the search for a guard on; `evaluations` are those of the vehicle and the driver
  unfoldable pub find_guard :
      ℕ → Candidate → Candidate → List CandidateEvaluation → M Db (Option Crew)
  find_guard vendor vehicle driver evaluations = do
    search ← on_search (find_eligible_guard vendor actor.organisation_id at now)
    elim search.picked [
      | none ↦ do raise_exception plan_id ExceptionType.no_guard_available; return none
      | some guard ↦ return (
          some (record {
            vehicle = vehicle;
            driver = driver;
            guard = some guard.id;
            evaluations = evaluations ++ search.evaluations;
          }))
    ]

  -- the safety check of the group without a guard, and what it leads to
  unfoldable pub check_safety :
      ℕ → Candidate → Candidate → List CandidateEvaluation → M Db (Option Crew)
  check_safety vendor vehicle driver evaluations = do
    safety ← on_safety (evaluate_route (route_input actor.organisation_id at group))
    elim (is_some (find? demands_guard safety.violations)) [
      | true ↦ find_guard vendor vehicle driver evaluations
      | false ↦ elim safety.passed [
        | false ↦ do raise_exception plan_id ExceptionType.safety_rule_impossible; return none
        | true ↦ return (
            some (record {
              vehicle = vehicle;
              driver = driver;
              guard = none;
              evaluations = evaluations;
            }))
      ]
    ]

  unfoldable pub find_driver : ℕ → Candidate → List CandidateEvaluation → M Db (Option Crew)
  find_driver vendor vehicle evaluations = do
    search ← on_search (find_eligible_driver vendor actor.organisation_id at now)
    elim search.picked [
      | none ↦ return none
      | some driver ↦ check_safety vendor vehicle driver (evaluations ++ search.evaluations)
    ]

  -- The loop's body for one vendor, up to `trips.create`; `none` at a `continue`.
  unfoldable pub find_crew : ℕ → M Db (Option Crew)
  find_crew vendor = do
    search ← on_search (find_eligible_vehicle vendor (length group) actor.organisation_id at now)
    elim search.picked [
      | none ↦ return none
      | some vehicle ↦ find_driver vendor vehicle search.evaluations
    ]

unfoldable pub crew_input : Crew → AssignInput
crew_input crew = record {
  driver_id = some crew.driver.id;
  vehicle_id = some crew.vehicle.id;
  guard_id = crew.guard;
  source = some AssignmentSource.auto;
}

unfoldable pub trip_input : ℕ → ℕ → ℕ → List Person → ℕ → CreateInput
trip_input plan_id shift_id at group vendor = record {
  shift_id = shift_id;
  scheduled_start_at = at;
  scheduled_end_at = none;
  vendor_org_id = some vendor;
  contract_id = none;
  plan_id = some plan_id;
  employee_ids = map (λ p. p.employee_id) group;
}

module _ (tx : Transactions Store.Db) (actor : AuthenticatedUser) (plan_id shift_id at now : ℕ)
    (group : List Person) where
  -- from `trips.create` to the `return`
  unfoldable pub book_crew : ℕ → Crew → M Db Outcome
  book_crew vendor crew = do
    trip ← on_trips (create tx actor (trip_input plan_id shift_id at group vendor))
    assignment ← on_trips (assign tx actor trip.id (crew_input crew) now)
    record_decision_log trip.id actor.organisation_id crew
    return (some (trip.id, is_some crew.guard))

  unfoldable pub plan_group : List ℕ → M Db Outcome
  plan_group [] = do raise_exception plan_id ExceptionType.no_eligible_vehicle; return none
  plan_group (vendor ∷ vendors) = do
    found ← find_crew actor plan_id at now group vendor
    elim found [ none ↦ plan_group vendors | some crew ↦ book_crew vendor crew ]

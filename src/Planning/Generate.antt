-- ===== src/Planning/Generate.antt =====
-- apps/api/src/planning/planning.service.ts: generate, groupAndRoute and eligibleVendorOrgIds.
-- `dist` stands for haversineDistanceMeters, as in GeoRouting, and `solve_cvrp` for
-- OptimizerClient.solveCvrp, an HTTP service: the routes as lists of identifiers, or `none` on any
-- failure. The depot is computed from the points that it is given.
use kruze.Base.{
  ℕ, suc, ◌+◌, Bool, true, false, ◌&&◌, ◌||◌, Option, none, some, List, [], ◌∷◌, map, ltb, ◌==◌,
  if◌then◌else◌, or_else, all, keep, length,
}
use kruze.Base.Rows.{find_unique, update_row}
use kruze.Base.Effects.{
  not_found, type_error, ok, M, return, throw, gets, modify, require, ◌>>=◌, ◌>>◌, Transactions,
}
use kruze.Domain.{AuthenticatedUser}
use kruze.Relationship.{Relationship, RelationshipStatus, RelationshipType}
use kruze.Roster.Store as Rosters
use kruze.Roster.Store.{Shift, shift_start_at}
use kruze.Roster.Service.{list_demand}
use kruze.Roster.Shifts.{get_shift}
use kruze.Trip.Store
use kruze.Trip.Store.{Trip}
use kruze.GeoRouting.Clusters.{cluster_by_proximity}
use kruze.GeoRouting.Lengths.{path_length}
use kruze.GeoRouting.Route.{construct, order_route_by_distance}
use kruze.Planning.Plans.{Person, PlanStatus, TransportPlan, Db, plan_key, located}
use kruze.Planning.Group.{Outcome, plan_group}

abbrev pub default_group_size : ℕ
default_group_size = 6

abbrev pub person_key : Person → ℕ
person_key p = p.employee_id

abbrev pub on_roster : {A : Type 0} → M Rosters.Db A → M Db A
on_roster m db = (record db { roster = (m db.roster).0 }, (m db.roster).1)

-- `{ employeeId: d.employeeId, gender: d.employee.gender, … }`
unfoldable pub demand_point : List Person → Rosters.Entry → Person
demand_point people e =
    record (or_else (find_unique person_key e.employee_id people)
      (record { employee_id = e.employee_id; gender = none; latitude = none; longitude = none })) {
        employee_id = e.employee_id;
      }

abbrev is_active : RelationshipStatus → Bool
is_active RelationshipStatus.active = true
is_active _ = false

abbrev is_corporate_vendor : RelationshipType → Bool
is_corporate_vendor RelationshipType.corporate_vendor = true
is_corporate_vendor _ = false

unfoldable pub eligible_vendor_org_ids : ℕ → List Relationship → List ℕ
eligible_vendor_org_ids corporate rows =
    map (λ r. if r.source_org_id == corporate then r.target_org_id else r.source_org_id)
      (keep
        (λ r.
          is_corporate_vendor r.type
          && is_active r.status
          && (r.source_org_id == corporate || r.target_org_id == corporate))
        rows)

-- `findFirst({ where: { corporateOrgId, shiftId, planDate }, orderBy: { version: "desc" } })`
unfoldable pub newest_plan : ℕ → ℕ → ℕ → List TransportPlan → Option TransportPlan
newest_plan corporate shift date [] = none
newest_plan corporate shift date (p ∷ ps) =
    let later = newest_plan corporate shift date ps in
    if p.corporate_org_id == corporate && p.shift_id == shift && p.plan_date == date
    then elim later [ none ↦ some p | some q ↦ if ltb p.version q.version then some q else some p ]
    else later

-- the stops of a route; `none` when one of them is `undefined`
unfoldable pub stops : List Person → List ℕ → Option (List Person)
stops points [] = some []
stops points (id ∷ ids) = elim (find_unique person_key id points) [
  | none ↦ none
  | some p ↦ elim (stops points ids) [ none ↦ none | some ps ↦ some (p ∷ ps) ]
]

-- `trips.create`d and not, as the loop of `generate` counts them
pub record Tally : Type 0 where
  pub trips_created : ℕ
  pub exceptions_raised : ℕ
  pub guards_assigned : ℕ
  pub unassigned_employees : ℕ

abbrev pub no_tally : Tally
no_tally = record {
  trips_created = 0;
  exceptions_raised = 0;
  guards_assigned = 0;
  unassigned_employees = 0;
}

unfoldable pub count : Outcome → ℕ → Tally → Tally
count none size t = record t {
  exceptions_raised = t.exceptions_raised + 1;
  unassigned_employees = t.unassigned_employees + size;
}
count (some (id, guarded)) size t = record t {
  trips_created = t.trips_created + 1;
  guards_assigned = if guarded then t.guards_assigned + 1 else t.guards_assigned;
}

-- `exceptionsRaised > 0 ? "EXCEPTIONS" : demand.length > 0 ? "READY" : "READY"`
abbrev pub final_status : Tally → PlanStatus
final_status t = if ltb 0 t.exceptions_raised then PlanStatus.exceptions else PlanStatus.ready

unfoldable pub set_status : PlanStatus → TransportPlan → TransportPlan
set_status status p = record p { status = status }

abbrev pub update_plan : ℕ → (TransportPlan → TransportPlan) → Db → Db
update_plan id f db = record db { plans = update_row plan_key id f db.plans }

abbrev pub is_superseded : PlanStatus → Bool
is_superseded PlanStatus.superseded = true
is_superseded _ = false

unfoldable pub new_plan : ℕ → ℕ → ℕ → ℕ → Option TransportPlan → TransportPlan
new_plan id corporate shift date previous = record {
  id = id;
  corporate_org_id = corporate;
  shift_id = shift;
  plan_date = date;
  version = elim previous [ none ↦ 1 | some p ↦ p.version + 1 ];
  status = PlanStatus.optimizing;
  supersedes_plan_id = elim previous [ none ↦ none | some p ↦ some p.id ];
  metadata = none;
}

unfoldable pub insert_plan : ℕ → ℕ → ℕ → Option TransportPlan → M Db TransportPlan
unfolding new_plan
insert_plan corporate shift date previous db =
    let plan = new_plan db.next_id corporate shift date previous in
    (record db { plans = plan ∷ db.plans; next_id = suc db.next_id }, ok plan)

unfoldable pub supersede_unless : Bool → ℕ → M Db (Unit {0})
unfolding set_status
supersede_unless true id = return tt
supersede_unless false id = modify (update_plan id (set_status PlanStatus.superseded))

-- the last `if` of `generate`
unfoldable pub supersede_previous : Option TransportPlan → M Db (Unit {0})
supersede_previous none = return tt
supersede_previous (some p) = supersede_unless (is_superseded p.status) p.id

unfoldable pub finished_plan : ℕ → Tally → TransportPlan → TransportPlan
finished_plan demand t p = record p {
  status = final_status t;
  metadata = some (record {
    employees_requiring_transport = demand;
    trips_generated = t.trips_created;
    exceptions_raised = t.exceptions_raised;
    guards_required = t.guards_assigned;
    unassigned_employees = t.unassigned_employees;
  });
}

module _ (dist : Person → Person → ℕ) (solve_cvrp : List Person → ℕ → Option (List (List ℕ))) where
  unfoldable pub group_and_route : List Person → List (Option (List Person))
  group_and_route points =
      let clustered = map some (cluster_by_proximity dist located points default_group_size) in
      if ltb 0 (length points) && all located points
      then elim (solve_cvrp points default_group_size) [
        | none ↦ clustered
        | some routes ↦ map (stops points) routes
      ]
      else clustered

  -- `orderRouteByDistance`, with more rounds than the first tour is long
  unfoldable pub ordered : List Person → List Person
  ordered [] = []
  ordered (p ∷ ps) =
      or_else
        (order_route_by_distance dist (suc (path_length dist (construct dist (length ps) p ps)))
          located (p ∷ ps))
        (p ∷ ps)

  module _ (tx : Transactions Store.Db) (actor : AuthenticatedUser) (now : ℕ) where
    -- the loop over the groups; a stop that is `undefined` has no coordinates to read
    unfoldable pub plan_groups :
        ℕ → ℕ → ℕ → List ℕ → List (Option (List Person)) → Tally → M Db Tally
    plan_groups plan_id shift_id at vendors [] t = return t
    plan_groups plan_id shift_id at vendors (none ∷ groups) t = throw type_error
    plan_groups plan_id shift_id at vendors (some group ∷ groups) t = do
      outcome ← plan_group tx actor plan_id shift_id at now (ordered group) vendors
      plan_groups plan_id shift_id at vendors groups (count outcome (length group) t)

    -- the loop over the groups of the demand, and the update with its counts
    unfoldable pub fill_groups : Shift → ℕ → TransportPlan → List Person → List ℕ → M Db (Unit {0})
    fill_groups shift date plan demand vendors = do
      tally ←
          plan_groups plan.id shift.id (shift_start_at date shift.start_minutes) vendors
            (group_and_route demand) no_tally
      modify (update_plan plan.id (finished_plan (length demand) tally))

    unfoldable pub fill_plan : Shift → ℕ → TransportPlan → M Db (Unit {0})
    fill_plan shift date plan = do
      demand ←
          gets (λ db. map (demand_point db.people) (list_demand shift.id date db.roster.entries))
      vendors ← gets (λ db. eligible_vendor_org_ids actor.organisation_id db.relationships)
      fill_groups shift date plan demand vendors

    -- from the look-up of the previous plan on
    unfoldable pub make_plan : Shift → ℕ → ℕ → M Db (Option TransportPlan)
    make_plan shift shift_id date = do
      previous ← gets (λ db. newest_plan actor.organisation_id shift_id date db.plans)
      plan ← insert_plan actor.organisation_id shift_id date previous
      fill_plan shift date plan
      supersede_previous previous
      gets (λ db. find_unique plan_key plan.id db.plans)

    unfoldable pub generate : ℕ → ℕ → M Db (Option TransportPlan)
    generate shift_id date = do
      shift ← on_roster (get_shift shift_id)
      require (shift.corporate_org_id == actor.organisation_id) not_found
      make_plan shift shift_id date

-- ===== src/Planning/Search.antt =====
-- apps/api/src/planning/planning.service.ts: findEligibleVehicle, findEligibleDriver,
-- findEligibleGuard and isBusy. The three searches are one loop, `search`, over the tests of each.
use kruze.Base.{
  ℕ, ◌+◌, Bool, true, false, ◌&&◌, Option, none, some, List, [], ◌∷◌, ltb, if◌then◌else◌, is_id,
  or_else, any, keep,
}
use kruze.Base.Rows.{find_unique}
use kruze.Base.Effects.{M, return, gets, ◌>>=◌}
use kruze.Compliance
use kruze.Compliance.{SubjectType, is_non_compliant}
use kruze.Maintenance
use kruze.Maintenance.{Link, linked, is_deployment_blocked}
use kruze.Trip.Store
use kruze.Trip.Store.{Assignment, trip_id_of, is_active}
use kruze.Trip.Assign.{
  Field, driver_id, vehicle_id, guard_id, resource, subject, clashes, default_trip_window_ms,
}

-- a vehicle, a driver or a guard; `capacity` is a vehicle's, `label` a registration or a name
pub record Candidate : Type 0 where
  pub id : ℕ
  pub label : ℕ
  pub capacity : Option ℕ
  pub active : Bool

pub record Db : Type 0 where
  pub trip : Store.Db
  pub maintenance : Maintenance.Db
  pub vehicles : List Candidate
  pub drivers : List Candidate
  pub guards : List Candidate
  pub driver_vendors : List Link
  pub guard_vendors : List Link

pub data Reason : Type 0 where
  capacity_insufficient : ℕ → ℕ → Reason
  non_compliant : List ℕ → Reason
  maintenance_block already_assigned selected : Reason

pub record CandidateEvaluation : Type 0 where
  pub type : Field
  pub id : ℕ
  pub label : ℕ
  pub rejected : Bool
  pub reason : Reason

pub record ResourceSearchResult : Type 0 where
  pub picked : Option Candidate
  pub evaluations : List CandidateEvaluation

-- `isBusy`
unfoldable pub is_busy : Field → ℕ → ℕ → Store.Db → Bool
unfolding clashes
is_busy field id at db =
    any
      (λ a.
        is_id (resource field a) id
        && is_active a.status
        && clashes at (at + default_trip_window_ms) (find_unique trip_id_of a.trip_id db.trips))
      db.assignments

unfoldable pub on_compliance : {A : Type 0} → M Compliance.Db A → M Db A
on_compliance m db = (
  record db { trip = record db.trip { compliance = (m db.trip.compliance).0 } },
  (m db.trip.compliance).1,
)

-- The query of the candidates of a vendor.
unfoldable pub candidates : Field → ℕ → Db → List Candidate
candidates vehicle_id vendor db =
    keep (λ c. c.active && linked c.id vendor db.maintenance.vehicle_vendors) db.vehicles
candidates driver_id vendor db =
    keep (λ c. c.active && linked c.id vendor db.driver_vendors) db.drivers
candidates guard_id vendor db =
    keep (λ c. c.active && linked c.id vendor db.guard_vendors) db.guards

-- The tests of one candidate: `some` reason to reject it at the `continue` that rejects it. The time
-- of the compliance check is `now`, that of the trip `at`.
unfoldable pub check_busy : Field → ℕ → ℕ → M Db (Option Reason)
check_busy field id at = do
  busy ← gets (λ db. is_busy field id at db.trip)
  return (if busy then some already_assigned else none)

unfoldable pub check_capacity : ℕ → ℕ → M Db (Option Reason) → M Db (Option Reason)
check_capacity min_capacity have next = elim (ltb have min_capacity) [
  | true ↦ return (some (capacity_insufficient have min_capacity))
  | false ↦ next
]

unfoldable pub check_maintenance : ℕ → M Db (Option Reason) → M Db (Option Reason)
check_maintenance id next = do
  blocked ← gets (λ db. is_deployment_blocked id db.maintenance.records)
  elim blocked [ true ↦ return (some maintenance_block) | false ↦ next ]

unfoldable pub check_compliance :
    Field → ℕ → ℕ → ℕ → ℕ → M Db (Option Reason) → M Db (Option Reason)
check_compliance field id vendor corporate now next = do
  report ← on_compliance (
      Compliance.evaluate (subject field) id
        (record { vendor_org_id = some vendor; corporate_org_id = some corporate }) now)
  elim (is_non_compliant report.status) [
    | true ↦ return (some (non_compliant report.blocking_failures))
    | false ↦ next
  ]

unfoldable pub check_candidate : Field → ℕ → ℕ → ℕ → ℕ → ℕ → Candidate → M Db (Option Reason)
check_candidate vehicle_id min_capacity vendor corporate at now c =
    check_capacity min_capacity (or_else c.capacity 0) (
      check_compliance vehicle_id c.id vendor corporate now
        (check_maintenance c.id (check_busy vehicle_id c.id at)))
check_candidate driver_id min_capacity vendor corporate at now c =
    check_compliance driver_id c.id vendor corporate now (check_busy driver_id c.id at)
check_candidate guard_id min_capacity vendor corporate at now c =
    check_compliance guard_id c.id vendor corporate now (check_busy guard_id c.id at)

abbrev pub entry : Field → Candidate → Bool → Reason → CandidateEvaluation
entry field c rejected reason = record {
  type = field;
  id = c.id;
  label = c.label;
  rejected = rejected;
  reason = reason;
}

-- `evaluations.push(…)` before what the rest of the loop pushes
abbrev pub push : CandidateEvaluation → ResourceSearchResult → ResourceSearchResult
push e r = record r { evaluations = e ∷ r.evaluations }

-- The loop over the candidates, with what was picked so far.
unfoldable pub search :
    Field
    → (Candidate → M Db (Option Reason))
    → List Candidate
    → Option Candidate
    → M Db ResourceSearchResult
search field check [] picked = return (record { picked = picked; evaluations = [] })
search field check (c ∷ cs) picked = do
  verdict ← check c
  elim verdict [
    | some reason ↦ do
      rest ← search field check cs picked
      return (push (entry field c true reason) rest)
    | none ↦ elim picked [
      | some first ↦ search field check cs (some first)
      | none ↦ do
        rest ← search field check cs (some c)
        return (push (entry field c false selected) rest)
    ]
  ]

unfoldable pub find_eligible : Field → ℕ → ℕ → ℕ → ℕ → ℕ → M Db ResourceSearchResult
find_eligible field vendor min_capacity corporate at now = do
  found ← gets (candidates field vendor)
  search field (check_candidate field min_capacity vendor corporate at now) found none

unfoldable pub find_eligible_vehicle : ℕ → ℕ → ℕ → ℕ → ℕ → M Db ResourceSearchResult
find_eligible_vehicle vendor min_capacity corporate at now =
    find_eligible vehicle_id vendor min_capacity corporate at now

unfoldable pub find_eligible_driver : ℕ → ℕ → ℕ → ℕ → M Db ResourceSearchResult
find_eligible_driver vendor corporate at now = find_eligible driver_id vendor 0 corporate at now

unfoldable pub find_eligible_guard : ℕ → ℕ → ℕ → ℕ → M Db ResourceSearchResult
find_eligible_guard vendor corporate at now = find_eligible guard_id vendor 0 corporate at now

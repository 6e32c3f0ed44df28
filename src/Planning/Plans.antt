-- ===== src/Planning/Plans.antt =====
-- apps/api/prisma/schema.prisma (TransportPlan, PlanException, PlanningDecisionLog) and the tables that
-- PlanningService reads and writes. The JSON context of an exception is left out. Lists are newest
-- first.
use kruze.Base.{ℕ, suc, Bool, Option, List, ◌∷◌, is_some, ◌&&◌}
use kruze.Base.Effects.{M, modify}
use kruze.Safety
use kruze.Roster.Store as Rosters
use kruze.Relationship.{Relationship}
use kruze.Trip.Store
use kruze.Trip.Assign.{Field}
use kruze.Planning.Search
use kruze.Planning.Search.{CandidateEvaluation}

-- `EligibleDemandEmployee`; a gender is the number of its upper-case text
pub record Person : Type 0 where
  pub employee_id : ℕ
  pub gender : Option ℕ
  pub latitude : Option ℕ
  pub longitude : Option ℕ

pub data PlanStatus : Type 0 where
  draft optimizing validating exceptions ready : PlanStatus
  published superseded cancelled : PlanStatus

-- the counts of `metadata`
pub record Summary : Type 0 where
  pub employees_requiring_transport : ℕ
  pub trips_generated : ℕ
  pub exceptions_raised : ℕ
  pub guards_required : ℕ
  pub unassigned_employees : ℕ

pub record TransportPlan : Type 0 where
  pub id : ℕ
  pub corporate_org_id : ℕ
  pub shift_id : ℕ
  pub plan_date : ℕ
  pub version : ℕ
  pub status : PlanStatus
  pub supersedes_plan_id : Option ℕ
  pub metadata : Option Summary

pub data ExceptionType : Type 0 where
  no_eligible_vehicle no_guard_available safety_rule_impossible : ExceptionType

pub data ExceptionStatus : Type 0 where
  opened resolved overridden : ExceptionStatus

pub record PlanException : Type 0 where
  pub id : ℕ
  pub plan_id : ℕ
  pub type : ExceptionType
  pub status : ExceptionStatus

-- The evaluation that a resource was selected by, or the default text for the one that was picked.
pub data Selected : Type 0 where
  evaluated : CandidateEvaluation → Selected
  by_default : Field → ℕ → Selected

pub record DecisionLog : Type 0 where
  pub trip_id : ℕ
  pub corporate_org_id : ℕ
  pub candidate_resources : List CandidateEvaluation
  pub rejected_resources : List CandidateEvaluation
  pub driver : Selected
  pub vehicle : Selected
  pub guard : Option Selected

pub record Db : Type 0 where
  pub search : Search.Db
  pub safety : Safety.Db
  pub roster : Rosters.Db
  pub people : List Person
  pub relationships : List Relationship
  pub plans : List TransportPlan
  pub exceptions : List PlanException
  pub decisions : List DecisionLog
  pub next_id : ℕ

abbrev pub plan_key : TransportPlan → ℕ
plan_key p = p.id

-- `latitude !== null && longitude !== null`
abbrev pub located : Person → Bool
located p = is_some p.latitude && is_some p.longitude

-- A handler of another service, run on the tables of that service.
abbrev pub on_search : {A : Type 0} → M Search.Db A → M Db A
on_search m db = (record db { search = (m db.search).0 }, (m db.search).1)

abbrev pub on_safety : {A : Type 0} → M Safety.Db A → M Db A
on_safety m db = (record db { safety = (m db.safety).0 }, (m db.safety).1)

abbrev pub on_trips : {A : Type 0} → M Store.Db A → M Db A
on_trips m db =
    (record db { search = record db.search { trip = (m db.search.trip).0 } }, (m db.search.trip).1)

abbrev pub open_exception : ℕ → ℕ → ExceptionType → PlanException
open_exception id plan_id type = record {
  id = id;
  plan_id = plan_id;
  type = type;
  status = ExceptionStatus.opened;
}

-- `raiseException`
unfoldable pub raise_exception : ℕ → ExceptionType → M Db (Unit {0})
raise_exception plan_id type = modify (λ db. record db {
  exceptions = open_exception db.next_id plan_id type ∷ db.exceptions;
  next_id = suc db.next_id;
})

-- ===== src/Planning/Publish.antt =====
-- apps/api/src/planning/planning.service.ts: publish.
use kruze.Base.{
  ℕ, Bool, true, false, not, ◌&&◌, none, some, List, [], ◌∷◌, ltb, ◌==◌, if◌then◌else◌, is_id, keep,
  find?, length,
}
use kruze.Base.Rows.{find_unique}
use kruze.Base.Effects.{
  bad_request, not_found, M, return, gets, or_throw, modify, require, ◌>>=◌, ◌>>◌, Transactions,
}
use kruze.Domain.{AuthenticatedUser}
use kruze.Trip.Machine.{TripStatus}
use kruze.Trip.Store
use kruze.Trip.Store.{Trip}
use kruze.Trip.Service.{transition}
use kruze.Planning.Plans.{
  PlanStatus, TransportPlan, ExceptionStatus, PlanException, Db, plan_key, on_trips,
}
use kruze.Planning.Generate.{update_plan, set_status}

-- `plan.status !== "READY" && plan.status !== "EXCEPTIONS"`, negated
abbrev pub is_publishable : PlanStatus → Bool
is_publishable PlanStatus.ready = true
is_publishable PlanStatus.exceptions = true
is_publishable _ = false

abbrev pub is_published : PlanStatus → Bool
is_published PlanStatus.published = true
is_published _ = false

abbrev pub is_open : ExceptionStatus → Bool
is_open ExceptionStatus.opened = true
is_open _ = false

-- `planException.count({ where: { planId, status: "OPEN" } })`
unfoldable pub open_exceptions : ℕ → List PlanException → ℕ
open_exceptions plan_id rows = length (keep (λ e. e.plan_id == plan_id && is_open e.status) rows)

abbrev pub same_day : TransportPlan → TransportPlan → Bool
same_day p q =
    q.corporate_org_id == p.corporate_org_id
    && q.shift_id == p.shift_id
    && q.plan_date == p.plan_date

-- the plan that is published for the same corporate, shift and date, unless it is this one
unfoldable pub supersede_published : TransportPlan → M Db (Unit {0})
unfolding set_status
supersede_published plan db =
    elim (find? (λ q. same_day plan q && is_published q.status) db.plans) [
      | none ↦ return tt db
      | some q ↦
          if q.id == plan.id
          then return tt db
          else modify (update_plan q.id (set_status PlanStatus.superseded)) db
    ]

abbrev pub is_created : TripStatus → Bool
is_created TripStatus.created = true
is_created _ = false

module _ (tx : Transactions Store.Db) (actor : AuthenticatedUser) (now : ℕ) where
  -- `if (trip.status === "CREATED") …`
  unfoldable pub schedule_if : Bool → ℕ → M Db (Unit {0})
  schedule_if false id = return tt
  schedule_if true id = do
    updated ← on_trips (transition tx actor id TripStatus.scheduled now)
    return tt

  unfoldable pub schedule_trips : List Trip → M Db (Unit {0})
  schedule_trips [] = return tt
  schedule_trips (t ∷ ts) = do schedule_if (is_created t.status) t.id; schedule_trips ts

  -- from `alreadyPublished` on, without the notification
  unfoldable pub publish_plan : TransportPlan → M Db (Unit {0})
  unfolding set_status
  publish_plan plan = do
    supersede_published plan
    trips ← gets (λ db. keep (λ t. is_id t.plan_id plan.id) db.search.trip.trips)
    schedule_trips trips
    modify (update_plan plan.id (set_status PlanStatus.published))

  unfoldable pub publish : ℕ → M Db (Unit {0})
  publish plan_id = do
    found ← gets (λ db. find_unique plan_key plan_id db.plans)
    plan ← or_throw found not_found
    require (plan.corporate_org_id == actor.organisation_id) bad_request
    raised ← gets (λ db. open_exceptions plan_id db.exceptions)
    require (not (ltb 0 raised)) bad_request
    require (is_publishable plan.status) bad_request
    publish_plan plan

-- ===== src/Workflow.antt =====
-- apps/api/src/workflow/workflow.service.ts: the lifecycle of an approval request. Texts (a workflow's
-- type, a resource's, a reason) are numbers.
pub mod Decided
mod Samples
use kruze.Base.{
  ℕ, suc, Bool, true, false, not, ◌&&◌, ◌||◌, Option, none, some, List, ◌∷◌, ◌==◌, is_id, is_some,
  keep,
}
use kruze.Base.Rows.{find_unique, update_row}
use kruze.Base.Effects.{
  bad_request, forbidden, not_found, ok, M, return, gets, or_throw, modify, require, ◌>>=◌, ◌>>◌,
}
use kruze.Domain.{AuthenticatedUser, is_super_admin}

pub data RequestStatus : Type 0 where
  pending approved rejected cancelled : RequestStatus

pub record ApprovalRequest : Type 0 where
  pub id : ℕ
  pub workflow_type : ℕ
  pub resource_type : ℕ
  pub resource_id : ℕ
  pub organisation_id : Option ℕ
  pub requested_by_user_id : ℕ
  pub status : RequestStatus
  pub decided_by_user_id : Option ℕ
  pub decision_reason : Option ℕ
  pub decided_at : Option ℕ

pub record Db : Type 0 where
  pub requests : List ApprovalRequest
  pub next_id : ℕ

pub record RequestInput : Type 0 where
  pub workflow_type : ℕ
  pub resource_type : ℕ
  pub resource_id : ℕ
  pub organisation_id : Option ℕ

abbrev pub request_key : ApprovalRequest → ℕ
request_key r = r.id

abbrev pub is_pending : RequestStatus → Bool
is_pending pending = true
is_pending _ = false

-- the negation of `role !== "KRUZE_SUPER_ADMIN" && organisationId && organisationId !== actor's`
abbrev pub may_act : AuthenticatedUser → Option ℕ → Bool
may_act actor none = true
may_act actor (some org) = is_super_admin actor.role || org == actor.organisation_id

unfoldable pub new_request : AuthenticatedUser → RequestInput → ℕ → ApprovalRequest
new_request actor input id = record {
  id = id;
  workflow_type = input.workflow_type;
  resource_type = input.resource_type;
  resource_id = input.resource_id;
  organisation_id = input.organisation_id;
  requested_by_user_id = actor.user_id;
  status = pending;
  decided_by_user_id = none;
  decision_reason = none;
  decided_at = none;
}

unfoldable pub request : AuthenticatedUser → RequestInput → Db → Db
unfolding new_request
request actor input db = record db {
  requests = new_request actor input db.next_id ∷ db.requests;
  next_id = suc db.next_id;
}

unfoldable pub get_pending : AuthenticatedUser → ℕ → M Db ApprovalRequest
get_pending actor id = do
  found ← gets (λ db. find_unique request_key id db.requests)
  row ← or_throw found not_found
  require (may_act actor row.organisation_id) forbidden
  require (is_pending row.status) bad_request
  return row

pub data Decision : Type 0 where
  approve reject : Option ℕ → Decision
  cancel : Decision

-- the `data` of the update by `approve`, `reject` and `cancel`
unfoldable pub decided : AuthenticatedUser → Decision → ℕ → ApprovalRequest → ApprovalRequest
decided actor (approve reason) now r = record r {
  status = approved;
  decided_by_user_id = some actor.user_id;
  decision_reason = reason;
  decided_at = some now;
}
decided actor (reject reason) now r = record r {
  status = rejected;
  decided_by_user_id = some actor.user_id;
  decision_reason = reason;
  decided_at = some now;
}
decided actor cancel now r = record r { status = cancelled }

-- the three handlers, by the decision that each writes
unfoldable pub decide : AuthenticatedUser → Decision → ℕ → ℕ → M Db (Unit {0})
decide actor decision id now = do
  row ← get_pending actor id
  modify (λ db. record db {
    requests = update_row request_key row.id (decided actor decision now) db.requests;
  })

-- the `where` of a list query on the organisation
abbrev visible : AuthenticatedUser → Option ℕ → Bool
visible actor org =
    is_super_admin actor.role || is_id org actor.organisation_id || not (is_some org)

unfoldable pub list_pending : AuthenticatedUser → Option ℕ → Db → List ApprovalRequest
list_pending actor workflow_type db =
    keep
      (λ r.
        is_pending r.status
        && (not (is_some workflow_type) || is_id workflow_type r.workflow_type)
        && visible actor r.organisation_id)
      db.requests

unfoldable pub for_resource : AuthenticatedUser → ℕ → ℕ → Db → List ApprovalRequest
for_resource actor resource_type resource_id db =
    keep
      (λ r.
        r.resource_type == resource_type
        && r.resource_id == resource_id
        && visible actor r.organisation_id)
      db.requests

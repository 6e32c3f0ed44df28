-- ===== src/Workflow/Samples.antt =====
-- Samples: an approval that another user tries to reject (apps/api/src/workflow/workflow.service.ts).
use kruze.Base.{ℕ, ◌≡◌, ◌≢◌, refl, arith, true, none, some, List, [], ◌∷◌}
use kruze.Base.Rows.{find_unique}
use kruze.Base.Effects.{ok}
use kruze.Domain.{PlatformRole, AuthenticatedUser}
use kruze.Workflow.{
  RequestStatus, ApprovalRequest, Db, Decision, request_key, is_pending, may_act, decided, decide,
}
use kruze.Workflow.Decided.{Call, run, decide_once}

abbrev approver : AuthenticatedUser
approver = record { user_id = 1; organisation_id = 10; role = PlatformRole.tenant_admin }

abbrev rival : AuthenticatedUser
rival = record { user_id = 2; organisation_id = 10; role = PlatformRole.tenant_admin }

abbrev one_request : Db
one_request = record {
  requests =
      record {
        id = 1;
        workflow_type = 0;
        resource_type = 0;
        resource_id = 9;
        organisation_id = some 10;
        requested_by_user_id = 3;
        status = RequestStatus.pending;
        decided_by_user_id = none;
        decision_reason = none;
        decided_at = none;
      }
      ∷ [];
  next_id = 2;
}

abbrev in_between : List (AuthenticatedUser × ℕ × Call)
in_between = (rival, 60, Call.decides Decision.cancel 1) ∷ []

approves : (decide approver (Decision.approve none) 1 50 one_request).1 ≡ ok tt
unfolding decide kruze.Workflow.get_pending
approves = refl

decide_once_example :
    (r : ApprovalRequest) × (find_unique request_key 1 one_request.requests ≡ some r)
    × (is_pending r.status ≡ true)
    × (may_act approver r.organisation_id ≡ true)
    × (find_unique request_key 1
          (run (decide approver (Decision.approve none) 1 50 one_request).0 in_between).requests
        ≡ some (decided approver (Decision.approve none) 50 r))
    × ((decide rival
          (Decision.reject none)
          1
          70
          (run (decide approver (Decision.approve none) 1 50 one_request).0 in_between)).1
        ≢ ok tt)
decide_once_example =
    decide_once approver (Decision.approve none) 1 50 one_request in_between rival
      (Decision.reject none) 70 (ground arith, tt) approves

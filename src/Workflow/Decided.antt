-- ===== src/Workflow/Decided.antt =====
-- A decision on an approval request is made once (apps/api/src/workflow/workflow.service.ts).
use kruze.Base.{
  ℕ, ◌<◌, ◌≡◌, ◌≢◌, ◌⊎◌, All, refl, inl, inr, true, false, some, List, [], ◌∷◌, ◌==◌, arith,
  Bool-cases, Option-cases,
}
use kruze.Base.Rows.{find_unique, update_row, find_unique-update_row}
use kruze.Base.Effects.{ok}
use kruze.Domain.{AuthenticatedUser}
use kruze.Workflow.{
  ApprovalRequest, RequestInput, Db, Decision, request_key, is_pending, may_act, new_request,
  request, get_pending, decided, decide,
}

decided_id :
    (actor : AuthenticatedUser) (d : Decision) (now : ℕ) (r : ApprovalRequest)
    → (decided actor d now r).id ≡ r.id
unfolding decided
decided_id actor (Decision.approve reason) now r = refl
decided_id actor (Decision.reject reason) now r = refl
decided_id actor Decision.cancel now r = refl

find_unique-id :
    (id : ℕ) (rows : List ApprovalRequest) (r : ApprovalRequest)
    → find_unique request_key id rows ≡ some r
    → r.id ≡ id
find_unique-id id [] r h = absurd (ground arith)
find_unique-id id (x ∷ rows) r h = ground (arith, find_unique-id id rows r)

-- What a decision that succeeds has read, and what it leaves in the request's row.
pub record Decides (actor : AuthenticatedUser) (d : Decision) (id now : ℕ) (db db' : Db)
    : Type 0 where
  pub row : ApprovalRequest
  pub found : find_unique request_key id db.requests ≡ some row
  pub allowed : may_act actor row.organisation_id ≡ true
  pub was_pending : is_pending row.status ≡ true
  pub requests : db'.requests ≡ update_row request_key id (decided actor d now) db.requests

decide-Decides :
    (actor : AuthenticatedUser) (d : Decision) (id now : ℕ) (db : Db)
    → (decide actor d id now db).1 ≡ ok tt
    → Decides actor d id now db (decide actor d id now db).0
unfolding decide get_pending
decide-Decides actor d id now db h = elim (Option-cases (find_unique request_key id db.requests)) [
  | inl missing ↦ absurd (ground arith)
  | inr (r, found) ↦ record {
    row = r;
    found = found;
    allowed = ground arith;
    was_pending = ground arith;
    requests = ground (arith, found, find_unique-id id db.requests r found);
  }
]

-- A request that is in the table in a state that is not PENDING.
pub record Settled (id : ℕ) (r : ApprovalRequest) (db : Db) : Type 0 where
  pub found : find_unique request_key id db.requests ≡ some r
  pub over : is_pending r.status ≡ false
  pub old : id < db.next_id

pub data Call : Type 0 where
  requests : RequestInput → Call
  decides : Decision → ℕ → Call

unfoldable pub step : Db → AuthenticatedUser × ℕ × Call → Db
step db (actor, now, requests input) = request actor input db
step db (actor, now, decides d id) = (decide actor d id now db).0

unfoldable pub run : Db → List (AuthenticatedUser × ℕ × Call) → Db
run db [] = db
run db (c ∷ cs) = run (step db c) cs

decide_cases :
    (actor : AuthenticatedUser) (d : Decision) (id now : ℕ) (db : Db)
    → ((decide actor d id now db).1 ≡ ok tt) ⊎ ((decide actor d id now db).0 ≡ db)
unfolding decide get_pending
decide_cases actor d id now db = ground arith

decide_next_id :
    (actor : AuthenticatedUser) (d : Decision) (id now : ℕ) (db : Db)
    → (decide actor d id now db).0.next_id ≡ db.next_id
unfolding decide get_pending
decide_next_id actor d id now db = ground arith

decide-Settled :
    (actor : AuthenticatedUser) (d : Decision) (j id now : ℕ) (r : ApprovalRequest) (db : Db)
    → Settled id r db
    → Settled id r (decide actor d j now db).0
decide-Settled actor d j id now r db s = elim (decide_cases actor d j now db) [
  | inr same ↦ rw same s
  | inl done ↦
      let x = decide-Decides actor d j now db done in
      elim (Bool-cases (j == id)) [
        | inl here ↦ absurd (ground (arith, here, s.found, s.over, x.found, x.was_pending))
        | inr other ↦ record {
          found = ground (
            arith,
            x.requests,
            find_unique-update_row request_key j id (decided actor d now) db.requests
                (decided_id actor d now),
            other,
            s.found,
          );
          over = s.over;
          old = rw (decide_next_id actor d j now db) s.old;
        }
      ]
]

step-Settled :
    (id : ℕ) (r : ApprovalRequest) (db : Db) (c : AuthenticatedUser × ℕ × Call)
    → Settled id r db
    → Settled id r (step db c)
unfolding step request new_request
step-Settled id r db (actor, now, requests input) s = record {
  found = ground (arith, s.found, s.old);
  over = s.over;
  old = omega (arith, s.old);
}
step-Settled id r db (actor, now, decides d j) s = decide-Settled actor d j id now r db s

run-Settled :
    (id : ℕ) (r : ApprovalRequest) (db : Db) (cs : List (AuthenticatedUser × ℕ × Call))
    → Settled id r db
    → Settled id r (run db cs)
unfolding run
run-Settled id r db [] s = s
run-Settled id r db (c ∷ cs) s = run-Settled id r (step db c) cs (step-Settled id r db c s)

decided_over :
    (actor : AuthenticatedUser) (d : Decision) (now : ℕ) (r : ApprovalRequest)
    → is_pending (decided actor d now r).status ≡ false
unfolding decided
decided_over actor (Decision.approve reason) now r = refl
decided_over actor (Decision.reject reason) now r = refl
decided_over actor Decision.cancel now r = refl

below-next :
    (n id : ℕ) (rows : List ApprovalRequest) (r : ApprovalRequest)
    → All (λ x. x.id < n) rows
    → find_unique request_key id rows ≡ some r
    → id < n
below-next n id [] r all h = absurd (ground arith)
below-next n id (x ∷ rows) r all h = ground (arith, below-next n id rows r all.1)

decide-settles :
    (actor : AuthenticatedUser) (d : Decision) (id now : ℕ) (db : Db)
    → All (λ x. x.id < db.next_id) db.requests
    → (x : Decides actor d id now db (decide actor d id now db).0)
    → Settled id (decided actor d now x.row) (decide actor d id now db).0
decide-settles actor d id now db all x = record {
  found = ground (
    arith,
    x.requests,
    x.found,
    find_unique-update_row request_key id id (decided actor d now) db.requests
        (decided_id actor d now),
  );
  over = decided_over actor d now x.row;
  old =
      rw (decide_next_id actor d id now db)
        (below-next db.next_id id db.requests x.row all x.found);
}

-- A decision that succeeds was made on a PENDING request by a user who may act on it, and is final:
-- after any later requests and decisions the request's row is the decided one, and no further decision
-- on it succeeds. Identifiers in the table are below the database's next one.
pub decide_once :
    (actor : AuthenticatedUser) (d : Decision) (id now : ℕ) (db : Db)
    (cs : List (AuthenticatedUser × ℕ × Call)) (later : AuthenticatedUser) (d' : Decision)
    (now' : ℕ)
    → All (λ x. x.id < db.next_id) db.requests
    → (decide actor d id now db).1 ≡ ok tt
    → (r : ApprovalRequest) × (find_unique request_key id db.requests ≡ some r)
      × (is_pending r.status ≡ true)
      × (may_act actor r.organisation_id ≡ true)
      × (find_unique request_key id (run (decide actor d id now db).0 cs).requests
          ≡ some (decided actor d now r))
      × ((decide later d' id now' (run (decide actor d id now db).0 cs)).1 ≢ ok tt)
decide_once actor d id now db cs later d' now' all h =
    let x = decide-Decides actor d id now db h in
    let s =
      run-Settled id (decided actor d now x.row) _ cs (decide-settles actor d id now db all x) in
    (
      x.row,
      x.found,
      x.was_pending,
      x.allowed,
      s.found,
      λ again.
          let y = decide-Decides later d' id now' _ again in
          ground (arith, s.found, s.over, y.found, y.was_pending),
    )

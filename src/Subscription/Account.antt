-- ===== src/Subscription/Account.antt =====
-- The contract of SubscriptionService (apps/api/src/subscription/subscription.service.ts) without its
-- table: an organisation has an account or none, and each call moves the account of one organisation.
use kruze.Base.{ℕ, ◌+◌, ◌*◌, Bool, Option, none, some, List, [], ◌∷◌, ltb, ◌==◌, if◌then◌else◌}
use kruze.Subscription.{
  SubscriptionStatus, trial, active, suspended, cancelled, Db, trial_base, day_ms, subscribe,
  activate, resume, extend_trial, suspend, cancel, record_usage,
}

pub record Account : Type 0 where
  pub status : SubscriptionStatus
  pub plan_id : ℕ
  pub trial_ends_at : Option ℕ

-- the calls that write
pub data Call : Type 0 where
  subscribes : ℕ → Call
  activates resumes suspends cancels : Call
  extends : ℕ → Call
  uses : ℕ → ℕ → ℕ → Call

abbrev pub set : SubscriptionStatus → Option Account → Option Account
set status none = none
set status (some a) = some (record a { status = status })

-- What a call does to the account of its organisation; `known` says which plans there are.
unfoldable pub move : (ℕ → Bool) → ℕ → Call → Option Account → Option Account
move known now (subscribes plan) none =
    if known plan
    then some (record { status = trial; plan_id = plan; trial_ends_at = none })
    else none
move known now (subscribes plan) (some a) =
    if known plan then some (record a { plan_id = plan }) else some a
move known now activates o = set active o
move known now resumes o = set active o
move known now suspends o = set suspended o
move known now cancels o = set cancelled o
move known now (extends days) none = none
move known now (extends days) (some a) =
    if ltb 0 days
    then some (record a {
      status = trial;
      trial_ends_at = some (trial_base a.trial_ends_at now + days * day_ms);
    })
    else some a
move known now (uses s e m) o = o

-- a call for an organisation, and the account of one organisation after calls for any
unfoldable pub moves : (ℕ → Bool) → ℕ → List (ℕ × ℕ × Call) → Option Account → Option Account
moves known org [] o = o
moves known org ((target, now, c) ∷ cs) o =
    moves known org cs (if target == org then move known now c o else o)

unfoldable pub step : Db → ℕ × ℕ × Call → Db
step db (org, now, subscribes plan) = (subscribe org plan db).0
step db (org, now, activates) = (activate org db).0
step db (org, now, resumes) = (resume org db).0
step db (org, now, suspends) = (suspend org db).0
step db (org, now, cancels) = (cancel org now db).0
step db (org, now, extends days) = (extend_trial org days now db).0
step db (org, now, uses s e m) = (record_usage org s e m db).0

unfoldable pub run : Db → List (ℕ × ℕ × Call) → Db
run db [] = db
run db (c ∷ cs) = run (step db c) cs

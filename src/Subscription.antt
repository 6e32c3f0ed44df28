-- ===== src/Subscription.antt =====
-- apps/api/src/subscription/subscription.service.ts: plans, the subscription of an organisation, and
-- what it is entitled to. A feature and the metrics of a usage record are numbers.
pub mod Account
pub mod Refines
pub mod Steps
mod Samples
use kruze.Base.{
  ℕ, suc, ◌+◌, ◌*◌, Bool, true, false, ◌&&◌, ◌||◌, Option, none, some, List, [], ◌∷◌, ltb, ◌==◌,
  if◌then◌else◌, not, any, keep, take,
}
use kruze.Base.Rows.{find_unique, update_row}
use kruze.Base.Effects.{
  bad_request, not_found, record_missing, ok, M, return, gets, or_throw, modify, require, ◌>>=◌,
  ◌>>◌,
}

pub data SubscriptionStatus : Type 0 where
  trial active suspended cancelled : SubscriptionStatus

pub record Plan : Type 0 where
  pub id : ℕ
  pub features : List ℕ
  pub active : Bool

pub record Subscription : Type 0 where
  pub id : ℕ
  pub organisation_id : ℕ
  pub plan_id : ℕ
  pub status : SubscriptionStatus
  pub feature_overrides : List ℕ
  pub trial_ends_at : Option ℕ
  pub ends_at : Option ℕ

pub record UsageRecord : Type 0 where
  pub subscription_id : ℕ
  pub period_start : ℕ
  pub period_end : ℕ
  pub metrics : ℕ

pub record Db : Type 0 where
  pub plans : List Plan
  pub subscriptions : List Subscription
  pub usage : List UsageRecord
  pub next_id : ℕ

abbrev pub plan_key : Plan → ℕ
plan_key p = p.id

-- the unique column by which a subscription is read
abbrev pub subscription_key : Subscription → ℕ
subscription_key s = s.organisation_id

abbrev pub day_ms : ℕ
day_ms = 86400000

unfoldable pub create_plan : List ℕ → M Db Plan
create_plan features db =
    let plan : Plan = record { id = db.next_id; features = features; active = true } in
    (record db { plans = plan ∷ db.plans; next_id = suc db.next_id }, ok plan)

unfoldable pub list_plans : Db → List Plan
list_plans db = keep (λ p. p.active) db.plans

unfoldable pub new_subscription : ℕ → ℕ → ℕ → Subscription
new_subscription id organisation plan = record {
  id = id;
  organisation_id = organisation;
  plan_id = plan;
  status = trial;
  feature_overrides = [];
  trial_ends_at = none;
  ends_at = none;
}

unfoldable pub set_plan : ℕ → Subscription → Subscription
set_plan plan s = record s { plan_id = plan }

-- `upsert({ where: { organisationId }, create, update })`
unfoldable pub upsert_subscription : ℕ → ℕ → Db → Db
upsert_subscription organisation plan db =
    elim (find_unique subscription_key organisation db.subscriptions) [
      | some s ↦ record db {
        subscriptions = update_row subscription_key organisation (set_plan plan) db.subscriptions;
      }
      | none ↦ record db {
        subscriptions = new_subscription db.next_id organisation plan ∷ db.subscriptions;
        next_id = suc db.next_id;
      }
    ]

unfoldable pub subscribe : ℕ → ℕ → M Db (Unit {0})
subscribe organisation plan = do
  found ← gets (λ db. find_unique plan_key plan db.plans)
  p ← or_throw found not_found
  modify (upsert_subscription organisation plan)

-- `subscription.update({ where: { organisationId }, data })`
unfoldable pub update_subscription : ℕ → (Subscription → Subscription) → M Db (Unit {0})
update_subscription organisation f = do
  found ← gets (λ db. find_unique subscription_key organisation db.subscriptions)
  s ← or_throw found record_missing
  modify (λ db. record db {
    subscriptions = update_row subscription_key organisation f db.subscriptions;
  })

unfoldable pub set_status : SubscriptionStatus → Subscription → Subscription
set_status status s = record s { status = status }

unfoldable pub activate : ℕ → M Db (Unit {0})
activate organisation = update_subscription organisation (set_status active)

unfoldable pub resume : ℕ → M Db (Unit {0})
resume organisation = update_subscription organisation (set_status active)

-- `subscription.trialEndsAt && subscription.trialEndsAt > now ? subscription.trialEndsAt : now`
abbrev pub trial_base : Option ℕ → ℕ → ℕ
trial_base none now = now
trial_base (some e) now = if ltb now e then e else now

unfoldable pub extended : ℕ → ℕ → Subscription → Subscription
extended days now s = record s {
  status = trial;
  trial_ends_at = some (trial_base s.trial_ends_at now + days * day_ms);
}

-- `days` that are negative are refused like 0.
unfoldable pub extend_trial : ℕ → ℕ → ℕ → M Db (Unit {0})
extend_trial organisation days now = do
  require (ltb 0 days) bad_request
  found ← gets (λ db. find_unique subscription_key organisation db.subscriptions)
  s ← or_throw found not_found
  update_subscription organisation (extended days now)

unfoldable pub suspend : ℕ → M Db (Unit {0})
suspend organisation = update_subscription organisation (set_status suspended)

unfoldable pub cancelled_row : ℕ → Subscription → Subscription
cancelled_row now s = record s { status = cancelled; ends_at = some now }

unfoldable pub cancel : ℕ → ℕ → M Db (Unit {0})
cancel organisation now = update_subscription organisation (cancelled_row now)

unfoldable pub record_usage : ℕ → ℕ → ℕ → ℕ → M Db (Unit {0})
record_usage organisation period_start period_end metrics = do
  found ← gets (λ db. find_unique subscription_key organisation db.subscriptions)
  s ← or_throw found bad_request
  modify (λ db. record db {
    usage =
        record {
          subscription_id = s.id;
          period_start = period_start;
          period_end = period_end;
          metrics = metrics;
        }
        ∷ db.usage;
  })

abbrev pub is_entitling : SubscriptionStatus → Bool
is_entitling active = true
is_entitling trial = true
is_entitling _ = false

abbrev pub features_of : Option Plan → List ℕ
features_of none = []
features_of (some p) = p.features

-- `hasFeature`; a subscription's plan is found by its key
unfoldable pub has_feature : ℕ → ℕ → Db → Bool
has_feature organisation feature db =
    elim (find_unique subscription_key organisation db.subscriptions) [
      | none ↦ false
      | some s ↦
          is_entitling s.status
          && (any (λ f. f == feature) (features_of (find_unique plan_key s.plan_id db.plans))
              || any (λ f. f == feature) s.feature_overrides)
    ]

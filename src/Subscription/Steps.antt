-- ===== src/Subscription/Steps.antt =====
-- Each call of SubscriptionService is a move of one account, and keeps the plans
-- (apps/api/src/subscription/subscription.service.ts).
use kruze.Base.{
  ℕ, ◌+◌, ◌*◌, ◌≡◌, refl, ap, ◌∙◌, ◌⊎◌, inl, inr, Bool, true, false, Option, none, some, List, [],
  ◌∷◌, ltb, ◌==◌, if◌then◌else◌, arith, Bool-cases, Option-cases,
}
use kruze.Base.Rows.{find_unique}
use kruze.Subscription.{
  SubscriptionStatus, trial, active, suspended, cancelled, Db, subscription_key, trial_base, day_ms,
  upsert_subscription, subscribe, update_subscription, set_status, activate, resume, extended,
  extend_trial, suspend, cancelled_row, cancel, record_usage,
}
use kruze.Subscription.Account.{
  Account, Call, subscribes, activates, resumes, suspends, cancels, extends, uses, set, move, moves,
  step, run,
}
use kruze.Subscription.Refines.{
  account, view, known, map_account, nothing_view, update_view, view-subscribe,
}

set_map :
    (status : SubscriptionStatus) (o : Option Account)
    → map_account (λ a. record a { status = status }) o ≡ set status o
set_map status none = refl
set_map status (some a) = refl

status_view :
    (org target : ℕ) (status : SubscriptionStatus) (db : Db)
    → view org (update_subscription target (set_status status) db).0
      ≡ (if target == org then set status (view org db) else view org db)
unfolding set_status account
status_view org target status db =
    update_view org target (set_status status) (λ a. record a { status = status }) db (λ s. refl)
      (λ s. refl)
    ∙ ap (λ o. if target == org then o else view org db) (set_map status (view org db))

view-cancel :
    (org target now : ℕ) (db : Db)
    → view org (cancel target now db).0
      ≡ (if target == org then set cancelled (view org db) else view org db)
unfolding cancel cancelled_row account
view-cancel org target now db =
    update_view org target (cancelled_row now) (λ a. record a { status = cancelled }) db (λ s. refl)
      (λ s. refl)
    ∙ ap (λ o. if target == org then o else view org db) (set_map cancelled (view org db))

extend_cases :
    (target days now : ℕ) (db : Db)
    → ((ltb 0 days ≡ false) × ((extend_trial target days now db).0 ≡ db))
      ⊎ ((find_unique subscription_key target db.subscriptions ≡ none)
          × ((extend_trial target days now db).0 ≡ db))
      ⊎ ((ltb 0 days ≡ true)
          × ((extend_trial target days now db).0
              ≡ (update_subscription target (extended days now) db).0))
unfolding extend_trial
extend_cases target days now db = elim (Bool-cases (ltb 0 days)) [
  | inr nothing ↦ inl (nothing, ground (arith, nothing))
  | inl some_days ↦ elim (Option-cases (find_unique subscription_key target db.subscriptions)) [
    | inl missing ↦ inr (inl (missing, ground (arith, some_days, missing)))
    | inr (s, found) ↦ inr (inr (some_days, ground (arith, some_days, found)))
  ]
]

abbrev longer : ℕ → ℕ → Account → Account
longer days now a = record a {
  status = trial;
  trial_ends_at = some (trial_base a.trial_ends_at now + days * day_ms);
}

extends_none :
    (plans : ℕ → Bool) (now days : ℕ) (o : Option Account)
    → ltb 0 days ≡ false
    → move plans now (extends days) o ≡ o
unfolding move
extends_none plans now days none h = refl
extends_none plans now days (some a) h = rw h refl

extends_some :
    (plans : ℕ → Bool) (now days : ℕ) (o : Option Account)
    → ltb 0 days ≡ true
    → map_account (longer days now) o ≡ move plans now (extends days) o
unfolding move
extends_some plans now days none h = refl
extends_some plans now days (some a) h = rw h refl

extends_missing :
    (org target now days : ℕ) (plans : ℕ → Bool) (db : Db)
    → find_unique subscription_key target db.subscriptions ≡ none
    → view org db
      ≡ (if target == org then move plans now (extends days) (view org db) else view org db)
unfolding move
extends_missing org target now days plans db missing = elim (Bool-cases (target == org)) [
  | inl hit ↦ rw (hit, nothing_view org target db missing hit) refl
  | inr miss ↦ rw miss refl
]

extend_view :
    (org target now days : ℕ) (plans : ℕ → Bool) (db : Db)
    → view org (extend_trial target days now db).0
      ≡ (if target == org then move plans now (extends days) (view org db) else view org db)
unfolding extended account
extend_view org target now days plans db = elim (extend_cases target days now db) [
  | inl (nothing, unchanged) ↦
      rw (unchanged, extends_none plans now days (view org db) nothing) (ground arith)
  | inr (inl (missing, unchanged)) ↦
      rw unchanged (extends_missing org target now days plans db missing)
  | inr (inr (some_days, changed)) ↦
      ap (view org) changed
      ∙ update_view org target (extended days now) (longer days now) db (λ s. refl) (λ s. refl)
      ∙ ap (λ o. if target == org then o else view org db)
          (extends_some plans now days (view org db) some_days)
]

usage_view :
    (org target s e m : ℕ) (db : Db) → view org (record_usage target s e m db).0 ≡ view org db
unfolding record_usage view
usage_view org target s e m db = ground arith

step-plans : (db : Db) (c : ℕ × ℕ × Call) → (step db c).plans ≡ db.plans
unfolding step subscribe activate resume suspend cancel extend_trial record_usage
    update_subscription upsert_subscription
step-plans db (org, now, subscribes plan) = ground arith
step-plans db (org, now, activates) = ground arith
step-plans db (org, now, resumes) = ground arith
step-plans db (org, now, suspends) = ground arith
step-plans db (org, now, cancels) = ground arith
step-plans db (org, now, extends days) = ground arith
step-plans db (org, now, uses s e m) = ground arith

step-view :
    (org target now : ℕ) (c : Call) (db : Db)
    → view org (step db (target, now, c))
      ≡ (if target == org then move (known db.plans) now c (view org db) else view org db)
unfolding step activate resume suspend move view
step-view org target now (subscribes plan) db = view-subscribe org target now plan db
step-view org target now activates db = status_view org target active db
step-view org target now resumes db = status_view org target active db
step-view org target now suspends db = status_view org target suspended db
step-view org target now cancels db = view-cancel org target now db
step-view org target now (extends days) db = extend_view org target now days (known db.plans) db
step-view org target now (uses s e m) db = usage_view org target s e m db ∙ ground arith

-- The table implements the accounts: after any sequence of calls, each organisation's subscription is
-- what the moves of its own calls made of the one it had, whatever was called for the others.
pub run-Refines :
    (org : ℕ) (db : Db) (cs : List (ℕ × ℕ × Call))
    → view org (run db cs) ≡ moves (known db.plans) org cs (view org db)
unfolding run moves
run-Refines org db [] = refl
run-Refines org db ((target, now, c) ∷ cs) =
    run-Refines org (step db (target, now, c)) cs
    ∙ ap (λ p. moves (known p) org cs (view org (step db (target, now, c))))
        (step-plans db (target, now, c))
    ∙ ap (moves (known db.plans) org cs) (step-view org target now c db)

-- ===== src/Subscription/Refines.antt =====
-- SubscriptionService implements its contract (apps/api/src/subscription/subscription.service.ts): seen
-- through the accounts, the calls on the table are the moves.
use kruze.Base.{
  ℕ, ◌≡◌, refl, sym, ap, ◌∙◌, ◌⊎◌, inl, inr, Bool, true, false, Option, none, some, List, ◌∷◌, ◌==◌,
  if◌then◌else◌, is_some, arith, Bool-cases, Option-cases,
}
use mathlib.Core.Option
use kruze.Base.Rows.{find_unique, update_row, find_unique-update_row}
use kruze.Subscription.{
  trial, Plan, Subscription, Db, plan_key, subscription_key, set_plan, new_subscription,
  upsert_subscription, subscribe, update_subscription,
}
use kruze.Subscription.Account.{Account, subscribes, move}

unfoldable pub account : Subscription → Account
account s = record { status = s.status; plan_id = s.plan_id; trial_ends_at = s.trial_ends_at }

unfoldable pub account_of : Option Subscription → Option Account
account_of none = none
account_of (some s) = some (account s)

unfoldable pub view : ℕ → Db → Option Account
view org db = account_of (find_unique subscription_key org db.subscriptions)

unfoldable pub known : List Plan → ℕ → Bool
known plans plan = is_some (find_unique plan_key plan plans)

abbrev pub map_account : (Account → Account) → Option Account → Option Account
map_account g none = none
map_account g (some a) = some (g a)

account-map :
    (f : Subscription → Subscription) (g : Account → Account) (o : Option Subscription)
    → ((s : Subscription) → account (f s) ≡ g (account s))
    → account_of (Option.map f o) ≡ map_account g (account_of o)
unfolding account_of
account-map f g none h = refl
account-map f g (some s) h = ap some (h s)

view_row :
    (org target : ℕ) (f : Subscription → Subscription) (g : Account → Account)
    (rows : List Subscription)
    → ((s : Subscription) → (f s).organisation_id ≡ s.organisation_id)
    → ((s : Subscription) → account (f s) ≡ g (account s))
    → account_of (find_unique subscription_key org (update_row subscription_key target f rows)) ≡ (
        if target == org
        then map_account g (account_of (find_unique subscription_key org rows))
        else account_of (find_unique subscription_key org rows))
view_row org target f g rows same h =
    let e = find_unique-update_row subscription_key target org f rows same in
    elim (Bool-cases (target == org)) [
      | inl hit ↦ rw (e, hit) (account-map f g (find_unique subscription_key org rows) h)
      | inr miss ↦ rw (e, miss) refl
    ]

update_cases :
    (target : ℕ) (f : Subscription → Subscription) (db : Db)
    → ((find_unique subscription_key target db.subscriptions ≡ none)
        × ((update_subscription target f db).0 ≡ db))
      ⊎ ((update_subscription target f db).0
          ≡ record db { subscriptions = update_row subscription_key target f db.subscriptions })
unfolding update_subscription
update_cases target f db =
    elim (Option-cases (find_unique subscription_key target db.subscriptions)) [
      | inl missing ↦ inl (missing, ground (arith, missing))
      | inr (s, found) ↦ inr (ground (arith, found))
    ]

missing_view :
    (org target : ℕ) (g : Account → Account) (db : Db)
    → find_unique subscription_key target db.subscriptions ≡ none
    → view org db ≡ (if target == org then map_account g (view org db) else view org db)
unfolding view account_of
missing_view org target g db missing = elim (Bool-cases (target == org)) [
  | inl hit ↦
      let key : target ≡ org = ground (arith, hit) in
      let nothing : find_unique subscription_key org db.subscriptions ≡ none =
        ap (λ k. find_unique subscription_key k db.subscriptions) (sym key) ∙ missing in
      rw (hit, nothing) refl
  | inr miss ↦ rw miss refl
]

pub update_view :
    (org target : ℕ) (f : Subscription → Subscription) (g : Account → Account) (db : Db)
    → ((s : Subscription) → (f s).organisation_id ≡ s.organisation_id)
    → ((s : Subscription) → account (f s) ≡ g (account s))
    → view org (update_subscription target f db).0
      ≡ (if target == org then map_account g (view org db) else view org db)
unfolding view
update_view org target f g db same h = elim (update_cases target f db) [
  | inl (missing, unchanged) ↦ rw unchanged (missing_view org target g db missing)
  | inr changed ↦ rw changed (view_row org target f g db.subscriptions same h)
]

abbrev subscribed : ℕ → Option Account → Option Account
subscribed plan none = some (record { status = trial; plan_id = plan; trial_ends_at = none })
subscribed plan (some a) = some (record a { plan_id = plan })

upsert_found :
    (target plan : ℕ) (db : Db) (s : Subscription)
    → find_unique subscription_key target db.subscriptions ≡ some s
    → (upsert_subscription target plan db).subscriptions
      ≡ update_row subscription_key target (set_plan plan) db.subscriptions
unfolding upsert_subscription
upsert_found target plan db s h = ground (arith, h)

upsert_new :
    (target plan : ℕ) (db : Db)
    → find_unique subscription_key target db.subscriptions ≡ none
    → (upsert_subscription target plan db).subscriptions
      ≡ new_subscription db.next_id target plan ∷ db.subscriptions
unfolding upsert_subscription
upsert_new target plan db h = ground (arith, h)

found_view :
    (org target plan : ℕ) (db : Db) (s : Subscription)
    → find_unique subscription_key target db.subscriptions ≡ some s
    → (target == org) ≡ true
    → map_account (λ a. record a { plan_id = plan }) (view org db) ≡ subscribed plan (view org db)
unfolding view account_of
found_view org target plan db s found hit =
    let key : target ≡ org = ground (arith, hit) in
    let here : find_unique subscription_key org db.subscriptions ≡ some s =
      ap (λ k. find_unique subscription_key k db.subscriptions) (sym key) ∙ found in
    rw here refl

pub nothing_view :
    (org target : ℕ) (db : Db)
    → find_unique subscription_key target db.subscriptions ≡ none
    → (target == org) ≡ true
    → view org db ≡ none
unfolding view account_of
nothing_view org target db missing hit =
    let key : target ≡ org = ground (arith, hit) in
    let here : find_unique subscription_key org db.subscriptions ≡ none =
      ap (λ k. find_unique subscription_key k db.subscriptions) (sym key) ∙ missing in
    rw here refl

upsert_view :
    (org target plan : ℕ) (db : Db)
    → view org (upsert_subscription target plan db)
      ≡ (if target == org then subscribed plan (view org db) else view org db)
unfolding view account_of account set_plan new_subscription
upsert_view org target plan db =
    elim (Option-cases (find_unique subscription_key target db.subscriptions)) [
      | inr (s, found) ↦
          let row =
            view_row org target (set_plan plan) (λ a. record a { plan_id = plan }) db.subscriptions
              (λ x. refl) (λ x. refl) in
          elim (Bool-cases (target == org)) [
            | inl hit ↦
                ap (λ l. account_of (find_unique subscription_key org l))
                  (upsert_found target plan db s found)
                ∙ row
                ∙ rw hit (found_view org target plan db s found hit)
            | inr miss ↦
                ap (λ l. account_of (find_unique subscription_key org l))
                  (upsert_found target plan db s found)
                ∙ row
                ∙ rw miss refl
          ]
      | inl missing ↦ elim (Bool-cases (target == org)) [
        | inl hit ↦
            ap (λ l. account_of (find_unique subscription_key org l))
              (upsert_new target plan db missing)
            ∙ rw (hit, nothing_view org target db missing hit) refl
        | inr miss ↦
            ap (λ l. account_of (find_unique subscription_key org l))
              (upsert_new target plan db missing)
            ∙ rw miss refl
      ]
    ]

subscribe_cases :
    (target plan : ℕ) (db : Db)
    → ((known db.plans plan ≡ false) × ((subscribe target plan db).0 ≡ db))
      ⊎ ((known db.plans plan ≡ true)
          × ((subscribe target plan db).0 ≡ upsert_subscription target plan db))
unfolding subscribe known
subscribe_cases target plan db = elim (Option-cases (find_unique plan_key plan db.plans)) [
  | inl missing ↦ inl (ground (arith, missing), ground (arith, missing))
  | inr (p, found) ↦ inr (ground (arith, found), ground (arith, found))
]

move-known :
    (plans : List Plan) (now plan : ℕ) (o : Option Account)
    → known plans plan ≡ true
    → move (known plans) now (subscribes plan) o ≡ subscribed plan o
unfolding move
move-known plans now plan none h = rw h refl
move-known plans now plan (some a) h = rw h refl

move-unknown :
    (plans : List Plan) (now plan : ℕ) (o : Option Account)
    → known plans plan ≡ false
    → move (known plans) now (subscribes plan) o ≡ o
unfolding move
move-unknown plans now plan none h = rw h refl
move-unknown plans now plan (some a) h = rw h refl

pub view-subscribe :
    (org target now plan : ℕ) (db : Db)
    → view org (subscribe target plan db).0 ≡ (
        if target == org
        then move (known db.plans) now (subscribes plan) (view org db)
        else view org db)
view-subscribe org target now plan db = elim (subscribe_cases target plan db) [
  | inl (unknown, unchanged) ↦
      rw (unchanged, move-unknown db.plans now plan (view org db) unknown) (ground arith)
  | inr (there, changed) ↦
      rw (changed, move-known db.plans now plan (view org db) there)
        (upsert_view org target plan db)
]

-- ===== src/Subscription/Samples.antt =====
-- Samples: an organisation that cancels and subscribes again
-- (apps/api/src/subscription/subscription.service.ts).
use kruze.Base.{ℕ, ◌≡◌, refl, true, false, List, [], ◌∷◌}
use kruze.Subscription.{Db, has_feature}
use kruze.Subscription.Account.{Call, moves, run}
use kruze.Subscription.Refines.{view, known}
use kruze.Subscription.Steps.{run-Refines}

abbrev one_plan : Db
one_plan = record {
  plans = record { id = 1; features = 5 ∷ []; active = true } ∷ [];
  subscriptions = [];
  usage = [];
  next_id = 2;
}

abbrev comes_back : List (ℕ × ℕ × Call)
comes_back =
    (10, 100, Call.subscribes 1)
    ∷ (10, 200, Call.activates)
    ∷ (20, 250, Call.subscribes 1)
    ∷ (10, 300, Call.cancels)
    ∷ (10, 400, Call.subscribes 1)
    ∷ []

run-Refines_example :
    view 10 (run one_plan comes_back)
    ≡ moves (known one_plan.plans) 10 comes_back (view 10 one_plan)
run-Refines_example = run-Refines 10 one_plan comes_back

-- the subscription that was cancelled stays so
not_back : has_feature 10 5 (run one_plan comes_back) ≡ false
unfolding has_feature run kruze.Subscription.Account.step kruze.Subscription.subscribe
    kruze.Subscription.cancel kruze.Subscription.update_subscription kruze.Subscription.activate
    kruze.Subscription.upsert_subscription kruze.Subscription.new_subscription
    kruze.Subscription.set_status kruze.Subscription.cancelled_row kruze.Subscription.set_plan
not_back = refl

trial_counts : has_feature 20 5 (run one_plan comes_back) ≡ true
unfolding has_feature run kruze.Subscription.Account.step kruze.Subscription.subscribe
    kruze.Subscription.cancel kruze.Subscription.update_subscription kruze.Subscription.activate
    kruze.Subscription.upsert_subscription kruze.Subscription.new_subscription
    kruze.Subscription.set_status kruze.Subscription.cancelled_row
trial_counts = refl

-- ===== src/Safety/Samples.antt =====
-- Samples: a night drop under a guard rule (apps/api/src/safety/safety.service.ts).
use kruze.Base.{◌≡◌, ◌↔◌, refl, true, false, some, [], ◌∷◌, Memᴰ}
use kruze.Base.Effects.{ok}
use kruze.Safety.{RuleType, Rule, Policy, RouteInput, Db, Evaluation, active_rules, evaluate_route}
use kruze.Safety.Violations.{Respects, evaluate_route_passed_iff}

abbrev guard_policy : Db
guard_policy = record {
  policies = record { id = 1; corporate_org_id = 10; active = true; version = 1 } ∷ [];
  rules =
      record { id = 2; policy_id = 1; type = RuleType.guard_required (some 20); mandatory = true }
      ∷ [];
  events = [];
  next_id = 3;
}

abbrev night_drop : RouteInput
night_drop = record {
  corporate_org_id = 10;
  drop_hour = 22;
  employees = record { employee_id = 7; gender = some 1; is_final_passenger = true } ∷ [];
  has_guard_assigned = false;
  ride_time_minutes = 30;
}

abbrev unguarded : Evaluation
unguarded = record {
  passed = false;
  violations = record { type = RuleType.guard_required (some 20); mandatory = true } ∷ [];
}

unguarded_fails : (evaluate_route night_drop guard_policy).1 ≡ ok unguarded
unfolding evaluate_route kruze.Safety.violations_of active_rules kruze.Safety.newest
    kruze.Safety.broken
unguarded_fails = refl

evaluate_route_passed_iff_example : (unguarded.passed ≡ true) ↔ (
    (r : Rule)
    → Memᴰ r (active_rules night_drop.corporate_org_id guard_policy)
    → r.mandatory ≡ true
    → Respects night_drop r.type)
evaluate_route_passed_iff_example =
    evaluate_route_passed_iff night_drop guard_policy unguarded unguarded_fails

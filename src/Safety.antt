-- ===== src/Safety.antt =====
-- apps/api/src/safety/safety.service.ts: policies, their rules, and the evaluation of a route.
-- `dropHour` is the UTC hour of the drop, an argument; a gender is the number of its upper-case text.
pub mod Violations
mod Samples
use kruze.Base.{
  ℕ, suc, Bool, true, false, not, ◌&&◌, Option, none, some, List, [], ◌∷◌, ◌++◌, map, ltb, leb,
  ◌==◌, if◌then◌else◌, is_id, or_else, any, all, find?, is_some,
}
use kruze.Base.Rows.{find_unique}
use kruze.Base.Effects.{
  forbidden, not_found, ok, M, return, gets, or_throw, modify, require, ◌>>=◌, ◌>>◌,
}
use kruze.Domain.{AuthenticatedUser}

-- A rule's type with the fields of its `config` that are read; a field that is absent is `none`.
pub data RuleType : Type 0 where
  last_drop_restriction : Option ℕ → Option ℕ → RuleType
  guard_required : Option ℕ → RuleType
  max_ride_time : Option ℕ → RuleType
  other : RuleType

pub record Rule : Type 0 where
  pub id : ℕ
  pub policy_id : ℕ
  pub type : RuleType
  pub mandatory : Bool

pub record Policy : Type 0 where
  pub id : ℕ
  pub corporate_org_id : ℕ
  pub active : Bool
  pub version : ℕ

pub record RouteEmployee : Type 0 where
  pub employee_id : ℕ
  pub gender : Option ℕ
  pub is_final_passenger : Bool

pub record RouteInput : Type 0 where
  pub corporate_org_id : ℕ
  pub drop_hour : ℕ
  pub employees : List RouteEmployee
  pub has_guard_assigned : Bool
  pub ride_time_minutes : ℕ

pub record Violation : Type 0 where
  pub type : RuleType
  pub mandatory : Bool

-- `severity` and `status` of a safety event: HIGH and REJECTED, or LOW and WARNING
pub record SafetyEvent : Type 0 where
  pub violation : Violation
  pub rejected : Bool
  pub policy_version : Option ℕ

pub record Db : Type 0 where
  pub policies : List Policy
  pub rules : List Rule
  pub events : List SafetyEvent
  pub next_id : ℕ

pub record Evaluation : Type 0 where
  pub passed : Bool
  pub violations : List Violation

abbrev policy_key : Policy → ℕ
policy_key p = p.id

-- `e.gender && e.gender.toUpperCase() === appliesToGender.toUpperCase()`
abbrev pub of_gender : Option ℕ → Option ℕ → Bool
of_gender none applies_to = false
of_gender (some g) applies_to = is_id applies_to g

abbrev pub restricted : Option ℕ → RouteEmployee → Bool
restricted applies_to e = e.is_final_passenger && of_gender e.gender applies_to

-- `Number(config.afterHour ?? 24)`, or true for a guard rule with no hour
abbrev hour_reached : Option ℕ → ℕ → Bool
hour_reached none hour = true
hour_reached (some after) hour = leb after hour

abbrev exceeds : ℕ → Option ℕ → Bool
exceeds minutes none = false
exceeds minutes (some most) = ltb most minutes

-- the three `if (rule.type === …)` blocks
unfoldable pub broken : RuleType → RouteInput → Bool
broken (last_drop_restriction after gender) input =
    leb (or_else after 24) input.drop_hour && any (restricted gender) input.employees
broken (guard_required after) input =
    hour_reached after input.drop_hour && not input.has_guard_assigned
broken (max_ride_time most) input = exceeds input.ride_time_minutes most
broken other input = false

unfoldable pub violations_of : RouteInput → List Rule → List Violation
violations_of input [] = []
violations_of input (r ∷ rs) =
    if broken r.type input
    then record { type = r.type; mandatory = r.mandatory } ∷ violations_of input rs
    else violations_of input rs

-- `findFirst({ where: { corporateOrgId, active }, orderBy: { version: "desc" } })`
unfoldable pub newest : ℕ → List Policy → Option Policy
newest org [] = none
newest org (p ∷ ps) =
    if p.corporate_org_id == org && p.active
    then elim (newest org ps) [
      | none ↦ some p
      | some q ↦ if ltb p.version q.version then some q else some p
    ]
    else newest org ps

abbrev rules_of : ℕ → List Rule → List Rule
rules_of policy [] = []
rules_of policy (r ∷ rs) =
    if r.policy_id == policy then r ∷ rules_of policy rs else rules_of policy rs

unfoldable pub active_rules : ℕ → Db → List Rule
active_rules org db = elim (newest org db.policies) [ none ↦ [] | some p ↦ rules_of p.id db.rules ]

abbrev version_of : Option Policy → Option ℕ
version_of none = none
version_of (some p) = some p.version

safety_event : Option ℕ → Violation → SafetyEvent
safety_event version v = record { violation = v; rejected = v.mandatory; policy_version = version }

unfoldable pub evaluate_route : RouteInput → M Db Evaluation
unfolding safety_event
evaluate_route input db =
    let violations = violations_of input (active_rules input.corporate_org_id db) in
    let version = version_of (newest input.corporate_org_id db.policies) in
    (
      record db { events = map (safety_event version) violations ++ db.events },
      ok (record {
        passed = all (λ (v : Violation). not v.mandatory) violations;
        violations = violations;
      }),
    )

unfoldable pub create_policy : ℕ → M Db Policy
create_policy org db =
    let policy : Policy = record {
      id = db.next_id;
      corporate_org_id = org;
      active = true;
      version = 1;
    } in
    (record db { policies = policy ∷ db.policies; next_id = suc db.next_id }, ok policy)

insert_rule : ℕ → RuleType → Option Bool → M Db Rule
insert_rule policy_id type mandatory db =
    let rule : Rule = record {
      id = db.next_id;
      policy_id = policy_id;
      type = type;
      mandatory = or_else mandatory true;
    } in
    (record db { rules = rule ∷ db.rules; next_id = suc db.next_id }, ok rule)

unfoldable pub add_rule : AuthenticatedUser → ℕ → RuleType → Option Bool → M Db Rule
unfolding insert_rule
add_rule actor policy_id type mandatory = do
  found ← gets (λ db. find_unique policy_key policy_id db.policies)
  policy ← or_throw found not_found
  require (policy.corporate_org_id == actor.organisation_id) forbidden
  insert_rule policy_id type mandatory

-- ===== src/Planning/Explored.antt =====
-- What the vendors that the loop has left behind changed (apps/api/src/planning/planning.service.ts,
-- planGroup): evaluation rows, safety events and exceptions of the plan.
use kruze.Base.{ℕ, ◌≤◌, ◌≡◌, refl, ap, List, [], ◌∷◌, ◌++◌, All, arith}
use kruze.Base.Effects.{ok}
use kruze.Safety
use kruze.Safety.{RouteInput, Evaluation, evaluate_route}
use kruze.Planning.Search
use kruze.Planning.Picked.{Same, Same-refl}
use kruze.Planning.Plans.{
  Db, PlanException, ExceptionType, ExceptionStatus, open_exception, raise_exception,
}

-- Exceptions of the plan, all open, have come on top.
pub record Grown (plan_id : ℕ) (before after : List PlanException) : Type 0 where
  pub new : List PlanException
  pub split : after ≡ new ++ before
  pub raised : All (λ e. (e.plan_id ≡ plan_id) × (e.status ≡ ExceptionStatus.opened)) new

pub record Explored (plan_id : ℕ) (db s : Db) : Type 0 where
  pub search : Same s.search db.search
  pub policies : s.safety.policies ≡ db.safety.policies
  pub rules : s.safety.rules ≡ db.safety.rules
  pub plans : s.plans ≡ db.plans
  pub decisions : s.decisions ≡ db.decisions
  pub exceptions : Grown plan_id db.exceptions s.exceptions
  pub next_id : db.next_id ≤ s.next_id

pub Explored-refl : (plan_id : ℕ) (db : Db) → Explored plan_id db db
Explored-refl plan_id db = record {
  search = Same-refl db.search;
  policies = refl;
  rules = refl;
  plans = refl;
  decisions = refl;
  exceptions = record { new = []; split = refl; raised = tt };
  next_id = omega arith;
}

pub Explored-searched :
    (plan_id : ℕ) (db s : Db) (found : Search.Db)
    → Explored plan_id db s
    → Same found db.search
    → Explored plan_id db (record s { search = found })
Explored-searched plan_id db s found x same = record {
  search = same;
  policies = x.policies;
  rules = x.rules;
  plans = x.plans;
  decisions = x.decisions;
  exceptions = x.exceptions;
  next_id = x.next_id;
}

pub Explored-raised :
    (plan_id : ℕ) (type : ExceptionType) (db s : Db)
    → Explored plan_id db s
    → Explored plan_id db (raise_exception plan_id type s).0
unfolding raise_exception
Explored-raised plan_id type db s x = record {
  search = x.search;
  policies = x.policies;
  rules = x.rules;
  plans = x.plans;
  decisions = x.decisions;
  exceptions = record {
    new = open_exception s.next_id plan_id type ∷ x.exceptions.new;
    split = ap (λ l. open_exception s.next_id plan_id type ∷ l) x.exceptions.split;
    raised = ((refl, refl), x.exceptions.raised);
  };
  next_id = ground (arith, x.next_id);
}

-- The evaluation of a route reads the policies and rules alone.
pub record Judged (plan_id : ℕ) (input : RouteInput) (db s : Db) : Type 0 where
  pub evaluation : Evaluation
  pub here : (evaluate_route input s.safety).1 ≡ ok evaluation
  pub at_start : (evaluate_route input db.safety).1 ≡ ok evaluation
  pub explored : Explored plan_id db (record s { safety = (evaluate_route input s.safety).0 })

pub judge_route :
    (plan_id : ℕ) (input : RouteInput) (db s : Db)
    → Explored plan_id db s
    → Judged plan_id input db s
unfolding evaluate_route Safety.active_rules
judge_route plan_id input db s x = record {
  evaluation = _;
  here = refl;
  at_start = rw (x.policies, x.rules) refl;
  explored = record {
    search = x.search;
    policies = x.policies;
    rules = x.rules;
    plans = x.plans;
    decisions = x.decisions;
    exceptions = x.exceptions;
    next_id = x.next_id;
  };
}

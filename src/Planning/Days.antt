-- ===== src/Planning/Days.antt =====
-- Any sequence of generate and publish (apps/api/src/planning/planning.service.ts).
use kruze.Base.{
  ℕ, ◌≤◌, ◌<◌, ◌≡◌, sym, inl, inr, List, [], ◌∷◌, Option, some, ◌==◌, find?-holds, arith,
}
use mathlib.Core.Path.{subst}
use kruze.Base.Rows.{find_unique}
use kruze.Base.Effects.{Error, err, Transactions}
use kruze.Domain.{AuthenticatedUser}
use kruze.Trip.Store
use kruze.Planning.Plans.{Person, TransportPlan, Db, plan_key}
use kruze.Planning.Generate.{generate}
use kruze.Planning.Publish.{open_exceptions, publish}
use kruze.Planning.Sequence.{Edits, generate-Edits}
use kruze.Planning.Published.{Sound, Sound-Edits}
use kruze.Planning.Cleared.{publish_cases, publish_plan-Sound, publish_plan-opens}

pub data Call : Type 0 where
  generates : ℕ → ℕ → Call
  publishes : ℕ → Call

find_unique-own :
    (id : ℕ) (rows : List TransportPlan) (p : TransportPlan)
    → find_unique plan_key id rows ≡ some p
    → find_unique plan_key p.id rows ≡ some p
find_unique-own id rows p h =
    let key = find?-holds (λ r. plan_key r == id) rows p h in
    let same : p.id ≡ id = ground (arith, key) in
    subst (λ k. find_unique plan_key k rows ≡ some p) (sym same) h

module _ (dist : Person → Person → ℕ) (solve_cvrp : List Person → ℕ → Option (List (List ℕ)))
    (tx : Transactions Store.Db) where
  -- one request at a time: by whom, when, and which
  unfoldable pub step : Db → AuthenticatedUser × ℕ × Call → Db
  step db (actor, now, Call.generates shift date) =
      (generate dist solve_cvrp tx actor now shift date db).0
  step db (actor, now, Call.publishes plan) = (publish tx actor now plan db).0

  unfoldable pub run : Db → List (AuthenticatedUser × ℕ × Call) → Db
  run db [] = db
  run db (c ∷ cs) = run (step db c) cs

  publish-Sound :
      (actor : AuthenticatedUser) (now plan_id : ℕ) (db : Db)
      → Sound db
      → Sound (publish tx actor now plan_id db).0
  publish-Sound actor now plan_id db s = elim (publish_cases tx actor now plan_id db) [
    | inl (e, refused) ↦ rw refused s
    | inr (plan, found, clean, fit, goes) ↦
        rw goes
          (publish_plan-Sound tx actor now plan db s (find_unique-own plan_id db.plans plan found))
  ]

  step-Sound : (db : Db) (c : AuthenticatedUser × ℕ × Call) → Sound db → Sound (step db c)
  unfolding step
  step-Sound db (actor, now, Call.generates shift date) s =
      Sound-Edits db _ (generate-Edits dist solve_cvrp tx actor now shift date db) s
  step-Sound db (actor, now, Call.publishes plan) s = publish-Sound actor now plan db s

  -- From tables in which identifiers are unique and below the next one and each corporate has at most
  -- one published plan for a shift and a date, every sequence of calls of generate and publish leads to
  -- such tables: a plan that is published takes the place of the one before.
  pub run-Sound :
      (db : Db) (cs : List (AuthenticatedUser × ℕ × Call)) → Sound db → Sound (run db cs)
  unfolding run
  run-Sound db [] s = s
  run-Sound db (c ∷ cs) s = run-Sound (step db c) cs (step-Sound db c s)

  Edits-opens :
      (id : ℕ) (a b : Db)
      → Edits a b
      → open_exceptions id a.exceptions ≤ open_exceptions id b.exceptions
  unfolding kruze.Planning.Generate.insert_plan
  Edits-opens id a b (Edits.kept k) = k.opens id
  Edits-opens id a b (Edits.inserted corporate shift date previous c) = omega arith
  Edits-opens id a b (Edits.updated i f c w) = omega arith
  Edits-opens id a b (Edits.then {b = c} first second) =
      omega (arith, Edits-opens id a c first, Edits-opens id c b second)

  publish-opens :
      (actor : AuthenticatedUser) (now plan_id id : ℕ) (db : Db)
      → open_exceptions id db.exceptions
        ≤ open_exceptions id (publish tx actor now plan_id db).0.exceptions
  publish-opens actor now plan_id id db = elim (publish_cases tx actor now plan_id db) [
    | inl (e, refused) ↦ rw refused (omega arith)
    | inr (p, found, clean, fit, goes) ↦ rw goes (publish_plan-opens tx actor now p db id)
  ]

  step-opens :
      (id : ℕ) (db : Db) (c : AuthenticatedUser × ℕ × Call)
      → open_exceptions id db.exceptions ≤ open_exceptions id (step db c).exceptions
  unfolding step
  step-opens id db (actor, now, Call.generates shift date) =
      Edits-opens id db _ (generate-Edits dist solve_cvrp tx actor now shift date db)
  step-opens id db (actor, now, Call.publishes plan) = publish-opens actor now plan id db

  run-opens :
      (id : ℕ) (db : Db) (cs : List (AuthenticatedUser × ℕ × Call))
      → open_exceptions id db.exceptions ≤ open_exceptions id (run db cs).exceptions
  unfolding run
  run-opens id db [] = omega arith
  run-opens id db (c ∷ cs) = omega (arith, step-opens id db c, run-opens id (step db c) cs)

  -- A plan with an open exception is never published: after every sequence of calls of generate and
  -- publish, a call of publish for it throws and changes nothing.
  pub exceptions_stay :
      (id : ℕ) (db : Db) (cs : List (AuthenticatedUser × ℕ × Call)) (actor : AuthenticatedUser)
      (now : ℕ)
      → 0 < open_exceptions id db.exceptions
      → (e : Error) × (publish tx actor now id (run db cs) ≡ (run db cs, err e))
  exceptions_stay id db cs actor now h = elim (publish_cases tx actor now id (run db cs)) [
    | inl refused ↦ refused
    | inr (plan, found, clean, fit, goes) ↦ absurd (omega (arith, run-opens id db cs, clean, h))
  ]

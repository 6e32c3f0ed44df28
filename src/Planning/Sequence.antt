-- ===== src/Planning/Sequence.antt =====
-- The calls of generate and publish in sequence (apps/api/src/planning/planning.service.ts).
use kruze.Base.{
  ℕ, ◌≡◌, refl, ◌⊎◌, inl, inr, Bool, true, false, Option, none, some, List, [], ◌∷◌, ◌==◌, arith,
  Bool-cases, length,
}
use kruze.Base.Rows.{find_unique}
use kruze.Base.Effects.{M, bind_after-keeps, gets, modify, ◌>>◌, run-cases, Transactions}
use kruze.Domain.{AuthenticatedUser}
use kruze.Roster.Store as Rosters
use kruze.Roster.Store.{Shift, shift_start_at}
use kruze.Roster.Shifts.{get_shift}
use kruze.Trip.Store
use kruze.Planning.Plans.{Person, PlanStatus, TransportPlan, Db, plan_key}
use kruze.Planning.Generate.{
  Tally, insert_plan, update_plan, set_status, supersede_unless, is_superseded, supersede_previous,
  no_tally, group_and_route, fill_groups, newest_plan, finished_plan, plan_groups, fill_plan,
  make_plan, generate, ordered,
}
use kruze.Planning.Publish.{same_day, is_published}
use kruze.Planning.Group.{plan_group}
use kruze.Planning.Kept.{Kept, Kept-refl, Kept-trans, plan_group-Kept}

-- A change of a plan that keeps its key and its day, and does not publish it.
pub record Withdraws (f : TransportPlan → TransportPlan) : Type 0 where
  pub same_id : (p : TransportPlan) → (f p).id ≡ p.id
  pub own_day : (p q : TransportPlan) → same_day p q ≡ true → same_day p (f q) ≡ true
  pub day_of : (p q : TransportPlan) → same_day p (f q) ≡ true → same_day p q ≡ true
  pub withdrawn : (p : TransportPlan) → is_published (f p).status ≡ false

-- What `generate` does to the plans, one edit after another.
pub data Edits : Db → Db → Type 0 where
  kept : {a b : Db} → Kept a b → Edits a b
  inserted :
      (corporate shift date : ℕ) (previous : Option TransportPlan) (a : Db)
      → Edits a (insert_plan corporate shift date previous a).0
  updated :
      (id : ℕ) (f : TransportPlan → TransportPlan) (a : Db)
      → Withdraws f
      → Edits a (update_plan id f a)
  then : {a b c : Db} → Edits a b → Edits b c → Edits a c

pub set_status-Withdraws :
    (status : PlanStatus) → is_published status ≡ false → Withdraws (set_status status)
unfolding set_status
set_status-Withdraws status h = record {
  same_id = λ p. refl;
  own_day = λ p q e. e;
  day_of = λ p q e. e;
  withdrawn = λ p. h;
}

finished_plan-Withdraws : (demand : ℕ) (t : Tally) → Withdraws (finished_plan demand t)
unfolding finished_plan
finished_plan-Withdraws demand t = record {
  same_id = λ p. refl;
  own_day = λ p q e. e;
  day_of = λ p q e. e;
  withdrawn = λ p. ground arith;
}

supersede_unless-Edits : (b : Bool) (id : ℕ) (s : Db) → Edits s (supersede_unless b id s).0
unfolding supersede_unless
supersede_unless-Edits true id s = Edits.kept (Kept-refl s)
supersede_unless-Edits false id s =
    Edits.updated id _ s (set_status-Withdraws PlanStatus.superseded refl)

supersede_previous-Edits :
    (previous : Option TransportPlan) (s : Db) → Edits s (supersede_previous previous s).0
unfolding supersede_previous
supersede_previous-Edits none s = Edits.kept (Kept-refl s)
supersede_previous-Edits (some p) s = supersede_unless-Edits (is_superseded p.status) p.id s

get_shift-reads : (id : ℕ) (db : Rosters.Db) → (get_shift id db).0 ≡ db
unfolding get_shift
get_shift-reads id db = ground arith

module _ (dist : Person → Person → ℕ) (solve_cvrp : List Person → ℕ → Option (List (List ℕ)))
    (tx : Transactions Store.Db) (actor : AuthenticatedUser) (now : ℕ) where
  plan_groups-Kept :
      (plan_id shift_id at : ℕ) (vendors : List ℕ) (groups : List (Option (List Person)))
      (t : Tally) (s : Db)
      → Kept s (plan_groups dist solve_cvrp tx actor now plan_id shift_id at vendors groups t s).0
  unfolding plan_groups
  plan_groups-Kept plan_id shift_id at vendors [] t s = Kept-refl s
  plan_groups-Kept plan_id shift_id at vendors (none ∷ groups) t s = Kept-refl s
  plan_groups-Kept plan_id shift_id at vendors (some g ∷ groups) t s =
      bind_after-keeps (Kept s)
        (plan_group tx actor plan_id shift_id at now (ordered dist solve_cvrp g) vendors s) _
        (plan_group-Kept tx actor plan_id shift_id at now (ordered dist solve_cvrp g) vendors s)
        (λ o s' k. Kept-trans k (plan_groups-Kept plan_id shift_id at vendors groups _ s'))

  fill_groups-Edits :
      (shift : Shift) (date : ℕ) (plan : TransportPlan) (demand : List Person) (vendors : List ℕ)
      (s : Db)
      → Edits s (fill_groups dist solve_cvrp tx actor now shift date plan demand vendors s).0
  unfolding fill_groups
  fill_groups-Edits shift date plan demand vendors s =
      bind_after-keeps (Edits s)
        (plan_groups dist solve_cvrp tx actor now plan.id shift.id
          (shift_start_at date shift.start_minutes) vendors (group_and_route dist solve_cvrp demand)
          no_tally s)
        (λ t. modify (update_plan plan.id (finished_plan (length demand) t)))
        (Edits.kept (plan_groups-Kept plan.id shift.id _ vendors _ no_tally s))
        (λ t s' k. Edits.then k (
          Edits.updated plan.id (finished_plan (length demand) t) s'
            (finished_plan-Withdraws (length demand) t)))

  fill_plan-Edits :
      (shift : Shift) (date : ℕ) (plan : TransportPlan) (s : Db)
      → Edits s (fill_plan dist solve_cvrp tx actor now shift date plan s).0
  unfolding fill_plan
  fill_plan-Edits shift date plan s = fill_groups-Edits shift date plan _ _ s

  -- `make_plan` once the plan is there
  finish : Shift → ℕ → Option TransportPlan → TransportPlan → M Db (Option TransportPlan)
  finish shift date previous plan =
      fill_plan dist solve_cvrp tx actor now shift date plan
      >> (supersede_previous previous >> gets (λ db. find_unique plan_key plan.id db.plans))

  finish-Edits :
      (shift : Shift) (date : ℕ) (previous : Option TransportPlan) (plan : TransportPlan) (s : Db)
      → Edits s (finish shift date previous plan s).0
  unfolding finish
  finish-Edits shift date previous plan s =
      bind_after-keeps (Edits s) (fill_plan dist solve_cvrp tx actor now shift date plan s)
        (λ u. supersede_previous previous >> gets (λ db. find_unique plan_key plan.id db.plans))
        (fill_plan-Edits shift date plan s)
        (λ u s' k.
          bind_after-keeps (Edits s) (supersede_previous previous s')
            (λ v. gets (λ db. find_unique plan_key plan.id db.plans))
            (Edits.then k (supersede_previous-Edits previous s')) (λ v s'' k'. k'))

  make_plan-Edits :
      (shift : Shift) (shift_id date : ℕ) (s : Db)
      → Edits s (make_plan dist solve_cvrp tx actor now shift shift_id date s).0
  unfolding make_plan finish
  make_plan-Edits shift shift_id date s =
      let previous = newest_plan actor.organisation_id shift_id date s.plans in
      bind_after-keeps (Edits s) (insert_plan actor.organisation_id shift_id date previous s)
        (finish shift date previous) (Edits.inserted actor.organisation_id shift_id date previous s)
        (λ plan s' k. Edits.then k (finish-Edits shift date previous plan s'))

  generate_cases :
      (shift_id date : ℕ) (s : Db)
      → ((generate dist solve_cvrp tx actor now shift_id date s).0 ≡ s)
        ⊎ ((shift : Shift) × (generate dist solve_cvrp tx actor now shift_id date s).0
              ≡ (make_plan dist solve_cvrp tx actor now shift shift_id date s).0)
  unfolding generate
  generate_cases shift_id date s = elim (run-cases (get_shift shift_id s.roster)) [
    | inr (e, missing) ↦ inl (ground (arith, get_shift-reads shift_id s.roster, missing))
    | inl (shift, found) ↦ elim (Bool-cases (shift.corporate_org_id == actor.organisation_id)) [
      | inr other ↦ inl (ground (arith, get_shift-reads shift_id s.roster, found, other))
      | inl own ↦ inr (shift, ground (arith, get_shift-reads shift_id s.roster, found, own))
    ]
  ]

  pub generate-Edits :
      (shift_id date : ℕ) (s : Db)
      → Edits s (generate dist solve_cvrp tx actor now shift_id date s).0
  generate-Edits shift_id date s = elim (generate_cases shift_id date s) [
    | inl same ↦ rw same (Edits.kept (Kept-refl s))
    | inr (shift, made) ↦ rw made (make_plan-Edits shift shift_id date s)
  ]

-- ===== src/Planning/Fit.antt =====
-- The crew of a vendor that fits a group (apps/api/src/planning/planning.service.ts, planGroup): the
-- first suitable vehicle, driver and, where one is demanded, guard, in the tables at the start.
use kruze.Base.{
  ℕ, ◌≡◌, refl, ◌⊎◌, inl, inr, true, false, Option, none, some, List, find?, length, is_some, arith,
}
use kruze.Base.Effects.{Result, ok}
use kruze.Safety.{Evaluation, evaluate_route}
use kruze.Trip.Assign.{Field, driver_id, vehicle_id, guard_id}
use kruze.Planning.Search
use kruze.Planning.Search.{
  Candidate, CandidateEvaluation, ResourceSearchResult, candidates, find_eligible,
  find_eligible_vehicle, find_eligible_driver, find_eligible_guard,
}
use kruze.Planning.Picked.{is_suitable}
use kruze.Planning.Evaluated.{find_eligible-Searched}
use kruze.Planning.Plans.{Person, Db}
use kruze.Planning.Group.{route_input, demands_guard, Crew}
use kruze.Planning.Explored.{Explored, Explored-searched}

-- The first suitable resource of a vendor, in the tables at the start.
abbrev pub first_suitable : Field → ℕ → ℕ → ℕ → ℕ → ℕ → Db → Option Candidate
first_suitable field min_capacity vendor corporate at now db =
    find? (is_suitable field min_capacity vendor corporate at now db.search)
      (candidates field vendor db.search)

-- A guard, the first suitable one, where the evaluation demands one, and none where it passed.
pub data Guarded (db : Db) (vendor corporate at now : ℕ) (e : Evaluation) : Option ℕ → Type 0 where
  escorted :
      (g : Candidate)
      → is_some (find? demands_guard e.violations) ≡ true
      → first_suitable guard_id 0 vendor corporate at now db ≡ some g
      → Guarded db vendor corporate at now e (some g.id)
  safe :
      is_some (find? demands_guard e.violations) ≡ false
      → e.passed ≡ true
      → Guarded db vendor corporate at now e none

pub record Fit (db : Db) (vendor corporate at now : ℕ) (group : List Person) (crew : Crew)
    : Type 0 where
  pub vehicle :
      first_suitable vehicle_id (length group) vendor corporate at now db ≡ some crew.vehicle
  pub driver : first_suitable driver_id 0 vendor corporate at now db ≡ some crew.driver
  pub evaluation : Evaluation
  pub judged : (evaluate_route (route_input corporate at group) db.safety).1 ≡ ok evaluation
  pub guarded : Guarded db vendor corporate at now evaluation crew.guard

Guarded-cases :
    (db : Db) (vendor corporate at now : ℕ) (e : Evaluation) (o : Option ℕ)
    → Guarded db vendor corporate at now e o
    → ((is_some (find? demands_guard e.violations) ≡ true)
        × is_some (first_suitable guard_id 0 vendor corporate at now db) ≡ true)
      ⊎ ((is_some (find? demands_guard e.violations) ≡ false) × (e.passed ≡ true))
Guarded-cases db vendor corporate at now e o (escorted g needed picked) =
    inl (needed, rw picked refl)
Guarded-cases db vendor corporate at now e o (safe free passed) = inr (free, passed)

-- Nothing fits where the evaluation demands a guard and there is none, or has not passed.
pub unguarded :
    (db : Db) (vendor corporate at now : ℕ) (group : List Person) (e : Evaluation)
    → (evaluate_route (route_input corporate at group) db.safety).1 ≡ ok e
    → ((is_some (find? demands_guard e.violations) ≡ true)
        × (first_suitable guard_id 0 vendor corporate at now db ≡ none))
      ⊎ ((is_some (find? demands_guard e.violations) ≡ false) × (e.passed ≡ false))
    → (crew : Crew) → ¬ Fit db vendor corporate at now group crew
unguarded db vendor corporate at now group e judged bad crew f =
    let same : f.evaluation ≡ e = ground (arith, f.judged, judged) in
    elim (Guarded-cases db vendor corporate at now f.evaluation crew.guard f.guarded) [
      | inl (needed, some_guard) ↦ elim bad [
        | inl (needed', nobody) ↦ ground (arith, nobody, some_guard)
        | inr (free, failed) ↦ ground (arith, same, needed, free)
      ]
      | inr (free', passed) ↦ elim bad [
        | inl (needed', nobody) ↦ ground (arith, same, needed', free')
        | inr (free, failed) ↦ ground (arith, same, passed, failed)
      ]
    ]

-- A search run from a state that the loop has reached.
pub record Found (field : Field) (min_capacity vendor corporate at now plan_id : ℕ) (db s : Db)
    (r : Search.Db × Result ResourceSearchResult) : Type 0 where
  pub result : ResourceSearchResult
  pub returned : r.1 ≡ ok result
  pub first : result.picked ≡ first_suitable field min_capacity vendor corporate at now db
  pub explored : Explored plan_id db (record s { search = r.0 })

pub find_first :
    (field : Field) (min_capacity vendor corporate at now plan_id : ℕ) (db s : Db)
    → Explored plan_id db s
    → Found field min_capacity vendor corporate at now plan_id db s
        (find_eligible field vendor min_capacity corporate at now s.search)
find_first field min_capacity vendor corporate at now plan_id db s x =
    let found =
      find_eligible-Searched field vendor min_capacity corporate at now s.search db.search
        x.search in
    record {
      result = found.result;
      returned = found.returned;
      first = found.first;
      explored = Explored-searched plan_id db s _ x found.same;
    }

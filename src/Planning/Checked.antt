-- ===== src/Planning/Checked.antt =====
-- The search for a guard and the safety check in the loop over the vendors
-- (apps/api/src/planning/planning.service.ts, planGroup).
use kruze.Base.{
  ℕ, ◌≡◌, refl, sym, ◌∙◌, ◌⊎◌, inl, inr, true, false, Option, none, some, List, ◌++◌, find?, length,
  is_some, arith, Bool-cases, Option-cases,
}
use kruze.Base.Effects.{Result, ok}
use kruze.Domain.{AuthenticatedUser}
use kruze.Safety.{Evaluation, evaluate_route}
use kruze.Trip.Assign.{driver_id, vehicle_id, guard_id}
use kruze.Planning.Search
use kruze.Planning.Search.{
  Candidate, CandidateEvaluation, ResourceSearchResult, candidates, find_eligible,
  find_eligible_vehicle, find_eligible_driver, find_eligible_guard,
}
use kruze.Planning.Plans.{Person, ExceptionType, Db, raise_exception}
use kruze.Planning.Group.{route_input, demands_guard, Crew, find_guard, check_safety}
use kruze.Planning.Explored.{Explored, Explored-raised, judge_route}
use kruze.Planning.Fit.{first_suitable, safe, escorted, Fit, unguarded, find_first}

-- the tables after a search
abbrev pub after : Search.Db → Db → Db
after found s = record s { search = found }

module _ (actor : AuthenticatedUser) (plan_id at now : ℕ) (group : List Person) (db : Db)
    (vendor : ℕ) where
  -- What a part of the body returns: at a `continue` nothing, and else a crew that fits.
  pub record Sought (r : Db × Result (Option Crew)) : Type 0 where
    pub explored : Explored plan_id db r.0
    pub verdict :
        ((r.1 ≡ ok none)
          × ((crew : Crew) → ¬ Fit db vendor actor.organisation_id at now group crew))
        ⊎ ((crew : Crew) × (r.1 ≡ ok (some crew))
            × Fit db vendor actor.organisation_id at now group crew)

  judged_state : Db → Db
  judged_state s = record s {
    safety = (evaluate_route (route_input actor.organisation_id at group) s.safety).0;
  }

  find_guard-none :
      (s : Db) (vehicle driver : Candidate) (evaluations : List CandidateEvaluation)
      (r : ResourceSearchResult)
      → (find_eligible_guard vendor actor.organisation_id at now s.search).1 ≡ ok r
      → r.picked ≡ none
      → find_guard actor plan_id at now group vendor vehicle driver evaluations s ≡ (
        (raise_exception plan_id ExceptionType.no_guard_available
            (after (find_eligible_guard vendor actor.organisation_id at now s.search).0 s)).0,
        ok none,
      )
  unfolding find_guard raise_exception
  find_guard-none s vehicle driver evaluations r h picked = ground (arith, h, picked)

  find_guard-some :
      (s : Db) (vehicle driver : Candidate) (evaluations : List CandidateEvaluation)
      (r : ResourceSearchResult) (g : Candidate)
      → (find_eligible_guard vendor actor.organisation_id at now s.search).1 ≡ ok r
      → r.picked ≡ some g
      → find_guard actor plan_id at now group vendor vehicle driver evaluations s ≡ (
        after (find_eligible_guard vendor actor.organisation_id at now s.search).0 s,
        ok (
            some (record {
              vehicle = vehicle;
              driver = driver;
              guard = some g.id;
              evaluations = evaluations ++ r.evaluations;
            })),
      )
  unfolding find_guard
  find_guard-some s vehicle driver evaluations r g h picked = ground (arith, h, picked)

  find_guard-Sought :
      (s : Db) (vehicle driver : Candidate) (evaluations : List CandidateEvaluation)
      (e : Evaluation)
      → Explored plan_id db s
      → first_suitable vehicle_id (length group) vendor actor.organisation_id at now db
        ≡ some vehicle
      → first_suitable driver_id 0 vendor actor.organisation_id at now db ≡ some driver
      → (evaluate_route (route_input actor.organisation_id at group) db.safety).1 ≡ ok e
      → is_some (find? demands_guard e.violations) ≡ true
      → Sought (find_guard actor plan_id at now group vendor vehicle driver evaluations s)
  unfolding find_eligible_guard
  find_guard-Sought s vehicle driver evaluations e x v d judged needed =
      let found = find_first guard_id 0 vendor actor.organisation_id at now plan_id db s x in
      elim (Option-cases found.result.picked) [
        | inl nobody ↦
            rw (find_guard-none s vehicle driver evaluations found.result found.returned nobody)
              (record {
                explored = Explored-raised plan_id _ db _ found.explored;
                verdict = inl (
                  refl,
                  unguarded db vendor actor.organisation_id at now group e judged
                      (inl (needed, sym found.first ∙ nobody)),
                );
              })
        | inr (g, picked) ↦
            rw (find_guard-some s vehicle driver evaluations found.result g found.returned picked)
              (record {
                explored = found.explored;
                verdict = inr (
                  _,
                  refl,
                  record {
                    vehicle = v;
                    driver = d;
                    evaluation = e;
                    judged = judged;
                    guarded = escorted g needed (sym found.first ∙ picked);
                  },
                );
              })
      ]

  check_safety_escorted :
      (s : Db) (vehicle driver : Candidate) (evaluations : List CandidateEvaluation)
      (e : Evaluation)
      → (evaluate_route (route_input actor.organisation_id at group) s.safety).1 ≡ ok e
      → is_some (find? demands_guard e.violations) ≡ true
      → check_safety actor plan_id at now group vendor vehicle driver evaluations s
        ≡ find_guard actor plan_id at now group vendor vehicle driver evaluations (judged_state s)
  unfolding check_safety judged_state
  check_safety_escorted s vehicle driver evaluations e h needed = ground (arith, h, needed)

  check_safety_refused :
      (s : Db) (vehicle driver : Candidate) (evaluations : List CandidateEvaluation)
      (e : Evaluation)
      → (evaluate_route (route_input actor.organisation_id at group) s.safety).1 ≡ ok e
      → is_some (find? demands_guard e.violations) ≡ false
      → e.passed ≡ false
      → check_safety actor plan_id at now group vendor vehicle driver evaluations s ≡ (
        (raise_exception plan_id ExceptionType.safety_rule_impossible (judged_state s)).0,
        ok none,
      )
  unfolding check_safety judged_state raise_exception
  check_safety_refused s vehicle driver evaluations e h free failed =
      ground (arith, h, free, failed)

  check_safety_passed :
      (s : Db) (vehicle driver : Candidate) (evaluations : List CandidateEvaluation)
      (e : Evaluation)
      → (evaluate_route (route_input actor.organisation_id at group) s.safety).1 ≡ ok e
      → is_some (find? demands_guard e.violations) ≡ false
      → e.passed ≡ true
      → check_safety actor plan_id at now group vendor vehicle driver evaluations s ≡ (
        judged_state s,
        ok (
            some (record {
              vehicle = vehicle;
              driver = driver;
              guard = none;
              evaluations = evaluations;
            })),
      )
  unfolding check_safety judged_state
  check_safety_passed s vehicle driver evaluations e h free passed = ground (arith, h, free, passed)

  pub check_safety-Sought :
      (s : Db) (vehicle driver : Candidate) (evaluations : List CandidateEvaluation)
      → Explored plan_id db s
      → first_suitable vehicle_id (length group) vendor actor.organisation_id at now db
        ≡ some vehicle
      → first_suitable driver_id 0 vendor actor.organisation_id at now db ≡ some driver
      → Sought (check_safety actor plan_id at now group vendor vehicle driver evaluations s)
  unfolding judged_state
  check_safety-Sought s vehicle driver evaluations x v d =
      let j = judge_route plan_id (route_input actor.organisation_id at group) db s x in
      elim (Bool-cases (is_some (find? demands_guard j.evaluation.violations))) [
        | inl needed ↦
            rw (check_safety_escorted s vehicle driver evaluations j.evaluation j.here needed) (
              find_guard-Sought _ vehicle driver evaluations j.evaluation j.explored v d j.at_start
                needed)
        | inr free ↦ elim (Bool-cases j.evaluation.passed) [
          | inr failed ↦
              rw (check_safety_refused s vehicle driver evaluations j.evaluation j.here free failed)
                (record {
                  explored = Explored-raised plan_id _ db _ j.explored;
                  verdict = inl (
                    refl,
                    unguarded db vendor actor.organisation_id at now group j.evaluation j.at_start
                        (inr (free, failed)),
                  );
                })
          | inl passed ↦
              rw (check_safety_passed s vehicle driver evaluations j.evaluation j.here free passed)
                (record {
                  explored = j.explored;
                  verdict = inr (
                    _,
                    refl,
                    record {
                      vehicle = v;
                      driver = d;
                      evaluation = j.evaluation;
                      judged = j.at_start;
                      guarded = safe free passed;
                    },
                  );
                })
        ]
      ]

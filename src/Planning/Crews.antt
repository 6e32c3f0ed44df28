-- ===== src/Planning/Crews.antt =====
-- What the body of the loop over the vendors finds (apps/api/src/planning/planning.service.ts,
-- planGroup): the resources of a vendor for a group, against the tables at the start of the loop.
use kruze.Base.{
  ℕ, ◌≡◌, refl, sym, ◌∙◌, inl, inr, none, some, List, ◌++◌, length, arith, Option-cases,
}
use kruze.Base.Effects.{ok}
use kruze.Domain.{AuthenticatedUser}
use kruze.Trip.Assign.{driver_id, vehicle_id}
use kruze.Planning.Search.{
  Candidate, CandidateEvaluation, ResourceSearchResult, find_eligible_vehicle, find_eligible_driver,
}
use kruze.Planning.Plans.{Person, Db}
use kruze.Planning.Group.{check_safety, find_driver, find_crew}
use kruze.Planning.Explored.{Explored}
use kruze.Planning.Fit.{first_suitable, find_first}
use kruze.Planning.Checked.{after, Sought, check_safety-Sought}

module _ (actor : AuthenticatedUser) (plan_id at now : ℕ) (group : List Person) (db : Db)
    (vendor : ℕ) where
  find_driver-none :
      (s : Db) (vehicle : Candidate) (evaluations : List CandidateEvaluation)
      (r : ResourceSearchResult)
      → (find_eligible_driver vendor actor.organisation_id at now s.search).1 ≡ ok r
      → r.picked ≡ none
      → find_driver actor plan_id at now group vendor vehicle evaluations s
        ≡ (after (find_eligible_driver vendor actor.organisation_id at now s.search).0 s, ok none)
  unfolding find_driver
  find_driver-none s vehicle evaluations r h picked = ground (arith, h, picked)

  find_driver-some :
      (s : Db) (vehicle driver : Candidate) (evaluations : List CandidateEvaluation)
      (r : ResourceSearchResult)
      → (find_eligible_driver vendor actor.organisation_id at now s.search).1 ≡ ok r
      → r.picked ≡ some driver
      → find_driver actor plan_id at now group vendor vehicle evaluations s
        ≡ check_safety actor plan_id at now group vendor vehicle driver
            (evaluations ++ r.evaluations)
            (after (find_eligible_driver vendor actor.organisation_id at now s.search).0 s)
  unfolding find_driver
  find_driver-some s vehicle driver evaluations r h picked = ground (arith, h, picked)

  find_driver-Sought :
      (s : Db) (vehicle : Candidate) (evaluations : List CandidateEvaluation)
      → Explored plan_id db s
      → first_suitable vehicle_id (length group) vendor actor.organisation_id at now db
        ≡ some vehicle
      → Sought actor plan_id at now group db vendor
          (find_driver actor plan_id at now group vendor vehicle evaluations s)
  unfolding find_eligible_driver
  find_driver-Sought s vehicle evaluations x v =
      let found = find_first driver_id 0 vendor actor.organisation_id at now plan_id db s x in
      elim (Option-cases found.result.picked) [
        | inl nobody ↦
            rw (find_driver-none s vehicle evaluations found.result found.returned nobody) (record {
              explored = found.explored;
              verdict = inl (refl, λ crew f. ground (arith, f.driver, found.first, nobody));
            })
        | inr (driver, picked) ↦
            rw (find_driver-some s vehicle driver evaluations found.result found.returned picked) (
              check_safety-Sought actor plan_id at now group db vendor _ vehicle driver _
                found.explored v (sym found.first ∙ picked))
      ]

  find_crew-none :
      (s : Db) (r : ResourceSearchResult)
      → (find_eligible_vehicle vendor (length group) actor.organisation_id at now s.search).1 ≡ ok r
      → r.picked ≡ none
      → find_crew actor plan_id at now group vendor s ≡ (
        after
            (find_eligible_vehicle vendor (length group) actor.organisation_id at now s.search).0
            s,
        ok none,
      )
  unfolding find_crew
  find_crew-none s r h picked = ground (arith, h, picked)

  find_crew-some :
      (s : Db) (vehicle : Candidate) (r : ResourceSearchResult)
      → (find_eligible_vehicle vendor (length group) actor.organisation_id at now s.search).1 ≡ ok r
      → r.picked ≡ some vehicle
      → find_crew actor plan_id at now group vendor s
        ≡ find_driver actor plan_id at now group vendor vehicle r.evaluations (
            after
              (find_eligible_vehicle vendor (length group) actor.organisation_id at now s.search).0
              s)
  unfolding find_crew
  find_crew-some s vehicle r h picked = ground (arith, h, picked)

  pub find_crew-Sought :
      (s : Db)
      → Explored plan_id db s
      → Sought actor plan_id at now group db vendor (find_crew actor plan_id at now group vendor s)
  unfolding find_eligible_vehicle
  find_crew-Sought s x =
      let found =
        find_first vehicle_id (length group) vendor actor.organisation_id at now plan_id db s x in
      elim (Option-cases found.result.picked) [
        | inl nobody ↦ rw (find_crew-none s found.result found.returned nobody) (record {
          explored = found.explored;
          verdict = inl (refl, λ crew f. ground (arith, f.vehicle, found.first, nobody));
        })
        | inr (vehicle, picked) ↦
            rw (find_crew-some s vehicle found.result found.returned picked)
              (find_driver-Sought _ vehicle _ found.explored (sym found.first ∙ picked))
      ]

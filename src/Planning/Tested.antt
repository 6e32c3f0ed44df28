-- ===== src/Planning/Tested.antt =====
-- The tests of one candidate agree with its suitability (apps/api/src/planning/planning.service.ts).
use kruze.Base.{
  ℕ, ◌≡◌, refl, inl, inr, Bool, true, false, not, ◌&&◌, Option, some, ltb, or_else, arith,
  Bool-cases,
}
use kruze.Base.Effects.{M, ok}
use kruze.Trip.Assign.{Field, driver_id, vehicle_id, guard_id}
use kruze.Planning.Search.{Candidate, Db, Reason, check_candidate, check_capacity}
use kruze.Planning.Picked.{
  Same, is_suitable, Agrees, check_busy-Agrees, check_maintenance-Agrees, check_compliance-Agrees,
}

check_capacity_short :
    (min_capacity have : ℕ) (next : M Db (Option Reason)) (s : Db)
    → ltb have min_capacity ≡ true
    → check_capacity min_capacity have next s
      ≡ (s, ok (some (Reason.capacity_insufficient have min_capacity)))
unfolding check_capacity
check_capacity_short min_capacity have next s h = ground (arith, h)

check_capacity_enough :
    (min_capacity have : ℕ) (next : M Db (Option Reason)) (s : Db)
    → ltb have min_capacity ≡ false
    → check_capacity min_capacity have next s ≡ next s
unfolding check_capacity
check_capacity_enough min_capacity have next s h = ground (arith, h)

check_capacity-Agrees :
    (min_capacity have : ℕ) (next : M Db (Option Reason)) (answer : Bool) (s db : Db)
    → Same s db
    → Agrees db answer (next s)
    → Agrees db (not (ltb have min_capacity) && answer) (check_capacity min_capacity have next s)
check_capacity-Agrees min_capacity have next answer s db h a =
    elim (Bool-cases (ltb have min_capacity)) [
      | inl short ↦
          rw (check_capacity_short min_capacity have next s short, short)
            (record {
              same = h;
              verdict = inr (Reason.capacity_insufficient have min_capacity, refl, refl);
            })
      | inr enough ↦ rw (check_capacity_enough min_capacity have next s enough, enough) a
    ]

pub check_candidate-Agrees :
    (field : Field) (min_capacity vendor corporate at now : ℕ) (c : Candidate) (s db : Db)
    → Same s db
    → Agrees db
        (is_suitable field min_capacity vendor corporate at now db c)
        (check_candidate field min_capacity vendor corporate at now c s)
unfolding check_candidate is_suitable
check_candidate-Agrees vehicle_id min_capacity vendor corporate at now c s db h =
    check_capacity-Agrees min_capacity (or_else c.capacity 0) _ _ s db h (
      check_compliance-Agrees vehicle_id c.id vendor corporate now _ _ s db h (λ s' h'.
        check_maintenance-Agrees c.id _ _ s' db h' (check_busy-Agrees vehicle_id c.id at s' db h')))
check_candidate-Agrees driver_id min_capacity vendor corporate at now c s db h =
    check_compliance-Agrees driver_id c.id vendor corporate now _ _ s db h
      (λ s' h'. check_busy-Agrees driver_id c.id at s' db h')
check_candidate-Agrees guard_id min_capacity vendor corporate at now c s db h =
    check_compliance-Agrees guard_id c.id vendor corporate now _ _ s db h
      (λ s' h'. check_busy-Agrees guard_id c.id at s' db h')

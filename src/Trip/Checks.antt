-- ===== src/Trip/Checks.antt =====
-- What the checks of `assign` establish and what they leave alone
-- (apps/api/src/trip/trip.service.ts, assertEligible and assertNoConflict).
use kruze.Base.{ℕ, ◌≡◌, refl, ◌∙◌, false, Option, none, some, Memᴰ, any-false, arith}
use kruze.Base.Effects.{M, Result, ok, err, bind_after, ◌>>◌}
use kruze.Compliance.{SubjectType}
use kruze.Trip.Store.{Trip, Assignment, Db}
use kruze.Trip.Assign.{
  AssignInput, Field, driver_id, vehicle_id, guard_id, subject, resource, window_end, conflicting,
  assert_eligible, assert_no_conflict, check_resource, check_resources, new_assignment,
}

-- The checks write evaluation rows only.
pub record Keeps (db db' : Db) : Type 0 where
  pub trips : db'.trips ≡ db.trips
  pub assignments : db'.assignments ≡ db.assignments
  pub next_id : db'.next_id ≡ db.next_id

Keeps-refl : (db : Db) → Keeps db db
Keeps-refl db = record { trips = refl; assignments = refl; next_id = refl }

Keeps-trans : {a b c : Db} → Keeps a b → Keeps b c → Keeps a c
Keeps-trans p q = record {
  trips = q.trips ∙ p.trips;
  assignments = q.assignments ∙ p.assignments;
  next_id = q.next_id ∙ p.next_id;
}

assert_eligible-Keeps :
    (type : SubjectType) (id : ℕ) (trip : Trip) (now : ℕ) (db : Db)
    → Keeps db (assert_eligible type id trip now db).0
unfolding assert_eligible
assert_eligible-Keeps type id trip now db = ground arith

check_resource-Keeps :
    (field : Field) (o : Option ℕ) (trip : Trip) (now : ℕ) (db : Db)
    → Keeps db (check_resource field o trip now db).0
unfolding check_resource assert_no_conflict
check_resource-Keeps field none trip now db = Keeps-refl db
check_resource-Keeps field (some id) trip now db =
    ground (arith, assert_eligible-Keeps (subject field) id trip now db)

-- A check that passes has seen no other trip's active assignment of the resource on its window.
check_resource_clear :
    (field : Field) (id : ℕ) (trip : Trip) (now : ℕ) (db : Db) (a : Assignment)
    → (check_resource field (some id) trip now db).1 ≡ ok tt
    → Memᴰ a db.assignments
    → conflicting db.trips field id trip.id trip.scheduled_start_at (window_end trip) a ≡ false
unfolding check_resource assert_no_conflict
check_resource_clear field id trip now db a h m =
    any-false (conflicting db.trips field id trip.id trip.scheduled_start_at (window_end trip))
      db.assignments a (ground (arith, assert_eligible-Keeps (subject field) id trip now db)) m

Keeps-then :
    (db : Db) (r : Db × Result (Unit {0})) (k : M Db (Unit {0}))
    → Keeps db r.0
    → ((s : Db) → Keeps s (k s).0)
    → Keeps db (bind_after r (λ _. k)).0
Keeps-then db (s, ok u) k h keeps = Keeps-trans h (keeps s)
Keeps-then db (s, err e) k h keeps = h

then-ok :
    (r : Db × Result (Unit {0})) (k : M Db (Unit {0}))
    → (bind_after r (λ _. k)).1 ≡ ok tt
    → (r.1 ≡ ok tt) × ((k r.0).1 ≡ ok tt)
then-ok (s, ok u) k h = (refl, h)
then-ok (s, err e) k h = cc

module _ (input : AssignInput) (trip : Trip) (now : ℕ) where
  last_two : M Db (Unit {0})
  last_two =
      check_resource vehicle_id input.vehicle_id trip now
      >> check_resource guard_id input.guard_id trip now

  last_two-Keeps : (db : Db) → Keeps db (last_two db).0
  unfolding last_two
  last_two-Keeps db =
      Keeps-then db (check_resource vehicle_id input.vehicle_id trip now db) _
        (check_resource-Keeps vehicle_id input.vehicle_id trip now db)
        (check_resource-Keeps guard_id input.guard_id trip now)

  pub check_resources-Keeps : (db : Db) → Keeps db (check_resources input trip now db).0
  unfolding check_resources last_two
  check_resources-Keeps db =
      Keeps-then db (check_resource driver_id input.driver_id trip now db) last_two
        (check_resource-Keeps driver_id input.driver_id trip now db) last_two-Keeps

  resource-Clear :
      (field : Field) (o : Option ℕ) (db s : Db) (a : Assignment) (id : ℕ)
      → Keeps db s
      → (check_resource field o trip now s).1 ≡ ok tt
      → o ≡ some id
      → Memᴰ a db.assignments
      → conflicting db.trips field id trip.id trip.scheduled_start_at (window_end trip) a ≡ false
  resource-Clear field o db s a id k h e m =
      rw (← k.trips) (check_resource_clear field id trip now s a (rw e at h) (rw (k.assignments) m))

  -- Checks that all pass leave no clash for any resource that the input names.
  pub check_resources_clear :
      (db : Db) (a : Assignment) (field : Field) (next id : ℕ)
      → (check_resources input trip now db).1 ≡ ok tt
      → resource field (new_assignment next input trip.id) ≡ some id
      → Memᴰ a db.assignments
      → conflicting db.trips field id trip.id trip.scheduled_start_at (window_end trip) a ≡ false
  unfolding check_resources last_two new_assignment
  check_resources_clear db a driver_id next id h e m =
      resource-Clear driver_id input.driver_id db db a id (Keeps-refl db) (then-ok _ last_two h).0 e
        m
  check_resources_clear db a vehicle_id next id h e m =
      let after_driver = check_resource-Keeps driver_id input.driver_id trip now db in
      resource-Clear vehicle_id input.vehicle_id db _ a id after_driver
        (then-ok _ (check_resource guard_id input.guard_id trip now) (then-ok _ last_two h).1).0 e m
  check_resources_clear db a guard_id next id h e m =
      let after_driver = check_resource-Keeps driver_id input.driver_id trip now db in
      let s = (check_resource driver_id input.driver_id trip now db).0 in
      let after_vehicle = check_resource-Keeps vehicle_id input.vehicle_id trip now s in
      resource-Clear guard_id input.guard_id db _ a id (Keeps-trans after_driver after_vehicle)
        (then-ok _ (check_resource guard_id input.guard_id trip now) (then-ok _ last_two h).1).1 e m

-- ===== src/Planning/Granted.antt =====
-- The checks of `assign` (apps/api/src/trip/trip.service.ts) pass for the resources that a search of
-- PlanningService found, on the trip that it creates for them.
use kruze.Base.{
  ℕ, ◌+◌, ◌≡◌, refl, inl, inr, true, false, ◌&&◌, Option, none, some, List, [], ◌∷◌, ◌==◌, is_id,
  any, arith, Bool-cases,
}
use kruze.Base.Rows.{find_unique}
use kruze.Base.Effects.{M, Result, ok, err, bind_after}
use kruze.Compliance
use kruze.Trip.Store
use kruze.Trip.Store.{Trip, Assignment, trip_id_of, is_active}
use kruze.Trip.Assign.{
  Field, driver_id, vehicle_id, guard_id, subject, resource, AssignInput, window_end, clashes,
  conflicting, assert_eligible, assert_no_conflict, check_resource, check_resources,
  default_trip_window_ms,
}
use kruze.Planning.Search.{Candidate, Db, is_busy}
use kruze.Planning.Picked.{is_compliant_for, is_suitable}

-- The trip tables with one trip added, and evaluation rows.
pub record Shown (db : Db) (t : Trip) (s : Store.Db) : Type 0 where
  pub trips : s.trips ≡ t ∷ db.trip.trips
  pub assignments : s.assignments ≡ db.trip.assignments
  pub rules : s.compliance.rules ≡ db.trip.compliance.rules
  pub documents : s.compliance.documents ≡ db.trip.compliance.documents

abbrev pub resource_of : Field → AssignInput → Option ℕ
resource_of driver_id input = input.driver_id
resource_of vehicle_id input = input.vehicle_id
resource_of guard_id input = input.guard_id

-- what a check must leave
record Clear (db : Db) (t : Trip) (r : Store.Db × Result (Unit {0})) : Type 0 where
  passed : r.1 ≡ ok tt
  shown : Shown db t r.0

Clear-then :
    (db : Db) (t : Trip) (r : Store.Db × Result (Unit {0})) (k : M Store.Db (Unit {0}))
    → Clear db t r
    → ((s : Store.Db) → Shown db t s → Clear db t (k s))
    → Clear db t (bind_after r (λ _. k))
Clear-then db t (s, ok u) k c next = next s c.shown
Clear-then db t (s, err e) k c next = absurd (ground (arith, c.passed))

-- A new trip of this vendor and corporate, from `at` on and with no end.
pub record Planned (vendor corporate at : ℕ) (t : Trip) : Type 0 where
  pub vendor_is : t.vendor_org_id ≡ some vendor
  pub corporate_is : t.corporate_org_id ≡ corporate
  pub start_is : t.scheduled_start_at ≡ at
  pub end_is : t.scheduled_end_at ≡ none

module _ (vendor corporate at now : ℕ) (db : Db) (t : Trip)
    (p : Planned vendor corporate at t) where
  eligible-Clear :
      (field : Field) (id : ℕ) (s : Store.Db)
      → Shown db t s
      → is_compliant_for field id vendor corporate now db ≡ true
      → Clear db t (assert_eligible (subject field) id t now s)
  unfolding assert_eligible is_compliant_for Compliance.is_eligible Compliance.evaluate
  eligible-Clear field id s h fits = record {
    passed = ground (arith, h.rules, h.documents, p.vendor_is, p.corporate_is, fits);
    shown = record {
      trips = ground (arith, h.trips);
      assignments = ground (arith, h.assignments);
      rules = ground (arith, h.rules);
      documents = ground (arith, h.documents);
    };
  }

  not_conflicting :
      (field : Field) (id : ℕ) (a : Assignment)
      → (is_id (resource field a) id
          && is_active a.status
          && clashes at
              (at + default_trip_window_ms)
              (find_unique trip_id_of a.trip_id db.trip.trips))
        ≡ false
      → conflicting (t ∷ db.trip.trips) field id t.id at (at + default_trip_window_ms) a ≡ false
  unfolding conflicting
  not_conflicting field id a h = elim (Bool-cases (t.id == a.trip_id)) [
    | inl own ↦ ground (arith, own)
    | inr other ↦ ground (arith, other, h)
  ]

  none_conflicting :
      (field : Field) (id : ℕ) (rows : List Assignment)
      → any
          (λ a.
            is_id (resource field a) id
            && is_active a.status
            && clashes at
                (at + default_trip_window_ms)
                (find_unique trip_id_of a.trip_id db.trip.trips))
          rows
        ≡ false
      → any (conflicting (t ∷ db.trip.trips) field id t.id at (at + default_trip_window_ms)) rows
        ≡ false
  none_conflicting field id [] h = refl
  none_conflicting field id (a ∷ rows) h = ground (
    arith,
    not_conflicting field id a (ground arith),
    none_conflicting field id rows (ground arith),
  )

  no_conflict-Clear :
      (field : Field) (id : ℕ) (s : Store.Db)
      → Shown db t s
      → is_busy field id at db.trip ≡ false
      → Clear db t (assert_no_conflict field id t.id at (at + default_trip_window_ms) s)
  unfolding assert_no_conflict is_busy
  no_conflict-Clear field id s h free =
      let clear = none_conflicting field id db.trip.assignments free in
      record {
        passed = ground (arith, h.trips, h.assignments, clear);
        shown = ground (arith, h.trips, h.assignments, clear);
      }

  own_window :
      (field : Field) (id : ℕ) (s : Store.Db)
      → assert_no_conflict field id t.id t.scheduled_start_at (window_end t) s
        ≡ assert_no_conflict field id t.id at (at + default_trip_window_ms) s
  own_window field id s =
      let starts : window_end t ≡ at + default_trip_window_ms =
        rw (p.end_is) (rw (p.start_is) refl) in
      cc

  resource-Clear :
      (field : Field) (id : ℕ) (s : Store.Db)
      → Shown db t s
      → is_compliant_for field id vendor corporate now db ≡ true
      → is_busy field id at db.trip ≡ false
      → Clear db t (check_resource field (some id) t now s)
  unfolding check_resource
  resource-Clear field id s h fits free =
      Clear-then db t _ _ (eligible-Clear field id s h fits)
        (λ s' h'. rw (own_window field id s') (no_conflict-Clear field id s' h' free))

  option-Clear :
      (field : Field) (o : Option ℕ) (s : Store.Db)
      → ((id : ℕ)
          → o ≡ some id
          → (is_compliant_for field id vendor corporate now db ≡ true)
            × (is_busy field id at db.trip ≡ false))
      → Shown db t s
      → Clear db t (check_resource field o t now s)
  unfolding check_resource
  option-Clear field none s free h = record { passed = refl; shown = h }
  option-Clear field (some id) s free h =
      resource-Clear field id s h (free id refl).0 (free id refl).1

  -- Every resource that the input names is compliant and free: the checks pass.
  pub check_resources-granted :
      (input : AssignInput) (s : Store.Db)
      → ((field : Field) (id : ℕ)
          → resource_of field input ≡ some id
          → (is_compliant_for field id vendor corporate now db ≡ true)
            × (is_busy field id at db.trip ≡ false))
      → Shown db t s
      → (check_resources input t now s).1 ≡ ok tt
  unfolding check_resources
  check_resources-granted input s free h =
      (Clear-then db t _ _ (option-Clear driver_id input.driver_id s (free driver_id) h) (λ s' h'.
        Clear-then db t _ _ (option-Clear vehicle_id input.vehicle_id s' (free vehicle_id) h')
          (λ s'' h''. option-Clear guard_id input.guard_id s'' (free guard_id) h''))).passed

pub is_suitable_parts :
    (field : Field) (min_capacity vendor corporate at now : ℕ) (db : Db) (c : Candidate)
    → is_suitable field min_capacity vendor corporate at now db c ≡ true
    → (is_compliant_for field c.id vendor corporate now db ≡ true)
      × (is_busy field c.id at db.trip ≡ false)
unfolding is_suitable
is_suitable_parts driver_id min_capacity vendor corporate at now db c h =
    (ground arith, ground arith)
is_suitable_parts vehicle_id min_capacity vendor corporate at now db c h =
    (ground arith, ground arith)
is_suitable_parts guard_id min_capacity vendor corporate at now db c h =
    (ground arith, ground arith)

-- ===== src/Planning/Picked.antt =====
-- Which candidate a search picks (apps/api/src/planning/planning.service.ts, findEligibleVehicle,
-- findEligibleDriver, findEligibleGuard).
use kruze.Base.{
  ℕ, ◌≡◌, refl, ap, ◌∙◌, ◌⊎◌, inl, inr, Bool, true, false, not, ◌&&◌, Option, none, some, ltb,
  if◌then◌else◌, or_else, arith, Bool-cases,
}
use kruze.Base.Effects.{M, Result, ok, err}
use kruze.Compliance
use kruze.Compliance.{Report, is_non_compliant}
use kruze.Maintenance.{is_deployment_blocked}
use kruze.Trip.Assign.{Field, driver_id, vehicle_id, guard_id, subject}
use kruze.Planning.Search.{
  Candidate, Db, Reason, is_busy, on_compliance, check_busy, check_maintenance, check_compliance,
}

-- The tables that the searches read are those of the start.
pub record Same (s db : Db) : Type 0 where
  pub trips : s.trip.trips ≡ db.trip.trips
  pub assignments : s.trip.assignments ≡ db.trip.assignments
  pub rules : s.trip.compliance.rules ≡ db.trip.compliance.rules
  pub documents : s.trip.compliance.documents ≡ db.trip.compliance.documents
  pub records : s.maintenance.records ≡ db.maintenance.records
  pub employees : s.trip.employees ≡ db.trip.employees
  pub next_id : s.trip.next_id ≡ db.trip.next_id
  pub vehicles : s.vehicles ≡ db.vehicles
  pub drivers : s.drivers ≡ db.drivers
  pub guards : s.guards ≡ db.guards
  pub vehicle_vendors : s.maintenance.vehicle_vendors ≡ db.maintenance.vehicle_vendors
  pub driver_vendors : s.driver_vendors ≡ db.driver_vendors
  pub guard_vendors : s.guard_vendors ≡ db.guard_vendors

pub Same-refl : (db : Db) → Same db db
Same-refl db = record {
  trips = refl;
  assignments = refl;
  rules = refl;
  documents = refl;
  records = refl;
  employees = refl;
  next_id = refl;
  vehicles = refl;
  drivers = refl;
  guards = refl;
  vehicle_vendors = refl;
  driver_vendors = refl;
  guard_vendors = refl;
}

abbrev allows : Result Report → Bool
allows (ok r) = not (is_non_compliant r.status)
allows (err e) = false

-- the compliance gate for a vendor's resource and a corporate
unfoldable pub is_compliant_for : Field → ℕ → ℕ → ℕ → ℕ → Db → Bool
is_compliant_for field id vendor corporate now db =
    allows
      (Compliance.evaluate (subject field) id
        (record { vendor_org_id = some vendor; corporate_org_id = some corporate }) now
        db.trip.compliance).1

-- What the planner promises of a resource: enough seats and no maintenance for a vehicle, compliant, and
-- free at the time of the trip.
unfoldable pub is_suitable : Field → ℕ → ℕ → ℕ → ℕ → ℕ → Db → Candidate → Bool
is_suitable vehicle_id min_capacity vendor corporate at now db c =
    not (ltb (or_else c.capacity 0) min_capacity)
    && (is_compliant_for vehicle_id c.id vendor corporate now db
        && (not (is_deployment_blocked c.id db.maintenance.records)
            && not (is_busy vehicle_id c.id at db.trip)))
is_suitable driver_id min_capacity vendor corporate at now db c =
    is_compliant_for driver_id c.id vendor corporate now db
    && not (is_busy driver_id c.id at db.trip)
is_suitable guard_id min_capacity vendor corporate at now db c =
    is_compliant_for guard_id c.id vendor corporate now db && not (is_busy guard_id c.id at db.trip)

-- A test that reads these tables and agrees with a Boolean answer.
pub record Agrees (db : Db) (answer : Bool) (r : Db × Result (Option Reason)) : Type 0 where
  pub same : Same r.0 db
  pub verdict :
      ((r.1 ≡ ok none) × (answer ≡ true)) ⊎ ((x : Reason) × (r.1 ≡ ok (some x)) × (answer ≡ false))

is_busy-Same :
    (field : Field) (id at : ℕ) (s db : Db)
    → Same s db
    → is_busy field id at s.trip ≡ is_busy field id at db.trip
unfolding is_busy
is_busy-Same field id at s db h = rw (h.trips, h.assignments)

pub check_busy-Agrees :
    (field : Field) (id at : ℕ) (s db : Db)
    → Same s db
    → Agrees db (not (is_busy field id at db.trip)) (check_busy field id at s)
unfolding check_busy
check_busy-Agrees field id at s db h = elim (Bool-cases (is_busy field id at db.trip)) [
  | inl busy ↦ record {
    same = h;
    verdict =
        inr
          (Reason.already_assigned, ground (arith, is_busy-Same field id at s db h, busy), rw busy);
  }
  | inr free ↦ record {
    same = h;
    verdict = inl (ground (arith, is_busy-Same field id at s db h, free), rw free);
  }
]

check_maintenance_blocked :
    (id : ℕ) (next : M Db (Option Reason)) (s : Db)
    → is_deployment_blocked id s.maintenance.records ≡ true
    → check_maintenance id next s ≡ (s, ok (some Reason.maintenance_block))
unfolding check_maintenance
check_maintenance_blocked id next s h = rw h refl

check_maintenance_free :
    (id : ℕ) (next : M Db (Option Reason)) (s : Db)
    → is_deployment_blocked id s.maintenance.records ≡ false
    → check_maintenance id next s ≡ next s
unfolding check_maintenance
check_maintenance_free id next s h = rw h refl

pub check_maintenance-Agrees :
    (id : ℕ) (next : M Db (Option Reason)) (answer : Bool) (s db : Db)
    → Same s db
    → Agrees db answer (next s)
    → Agrees db
        (not (is_deployment_blocked id db.maintenance.records) && answer)
        (check_maintenance id next s)
check_maintenance-Agrees id next answer s db h a =
    let reads = ap (is_deployment_blocked id) h.records in
    elim (Bool-cases (is_deployment_blocked id db.maintenance.records)) [
      | inl blocked ↦
          rw (check_maintenance_blocked id next s (reads ∙ blocked), blocked)
            (record { same = h; verdict = inr (Reason.maintenance_block, refl, refl) })
      | inr free ↦ rw (check_maintenance_free id next s (reads ∙ free), free) a
    ]

-- The gate on one set of tables, run on another that agrees on rules and documents.
gate : Field → ℕ → ℕ → ℕ → ℕ → Db → Compliance.Db × Result Report
gate field id vendor corporate now db =
    Compliance.evaluate (subject field) id
      (record { vendor_org_id = some vendor; corporate_org_id = some corporate }) now
      db.trip.compliance

gate-Same :
    (field : Field) (id vendor corporate now : ℕ) (s db : Db)
    → Same s db
    → (r : Report) × ((gate field id vendor corporate now s).1 ≡ ok r)
      × ((gate field id vendor corporate now db).1 ≡ ok r)
      × ((gate field id vendor corporate now s).0.rules ≡ s.trip.compliance.rules)
      × ((gate field id vendor corporate now s).0.documents ≡ s.trip.compliance.documents)
unfolding gate Compliance.evaluate
gate-Same field id vendor corporate now s db h =
    (_, refl, rw (h.rules, h.documents) refl, refl, refl)

-- The tables after the gate has logged its evaluations.
after_gate : Field → ℕ → ℕ → ℕ → ℕ → Db → Db
unfolding gate
after_gate field id vendor corporate now s = record s {
  trip = record s.trip { compliance = (gate field id vendor corporate now s).0 };
}

after_gate-Same :
    (field : Field) (id vendor corporate now : ℕ) (s db : Db)
    → Same s db
    → Same (after_gate field id vendor corporate now s) db
unfolding after_gate
after_gate-Same field id vendor corporate now s db h =
    let (r, here, there, rules, documents) = gate-Same field id vendor corporate now s db h in
    record {
      trips = h.trips;
      assignments = h.assignments;
      rules = rules ∙ h.rules;
      documents = documents ∙ h.documents;
      records = h.records;
      employees = h.employees;
      next_id = h.next_id;
      vehicles = h.vehicles;
      drivers = h.drivers;
      guards = h.guards;
      vehicle_vendors = h.vehicle_vendors;
      driver_vendors = h.driver_vendors;
      guard_vendors = h.guard_vendors;
    }

check_compliance_eq :
    (field : Field) (id vendor corporate now : ℕ) (next : M Db (Option Reason)) (s : Db)
    (r : Report)
    → (gate field id vendor corporate now s).1 ≡ ok r
    → check_compliance field id vendor corporate now next s ≡ (
        if is_non_compliant r.status
        then (
          after_gate field id vendor corporate now s,
          ok (some (Reason.non_compliant r.blocking_failures)),
        )
        else next (after_gate field id vendor corporate now s))
unfolding check_compliance on_compliance gate after_gate
check_compliance_eq field id vendor corporate now next s r h = ground (arith, h)

is_compliant_for_eq :
    (field : Field) (id vendor corporate now : ℕ) (db : Db) (r : Report)
    → (gate field id vendor corporate now db).1 ≡ ok r
    → is_compliant_for field id vendor corporate now db ≡ not (is_non_compliant r.status)
unfolding gate is_compliant_for
is_compliant_for_eq field id vendor corporate now db r h = rw h refl

pub check_compliance-Agrees :
    (field : Field) (id vendor corporate now : ℕ) (next : M Db (Option Reason)) (answer : Bool)
    (s db : Db)
    → Same s db
    → ((s' : Db) → Same s' db → Agrees db answer (next s'))
    → Agrees db
        (is_compliant_for field id vendor corporate now db && answer)
        (check_compliance field id vendor corporate now next s)
check_compliance-Agrees field id vendor corporate now next answer s db h a =
    let (r, here, there, rules, documents) = gate-Same field id vendor corporate now s db h in
    let same = after_gate-Same field id vendor corporate now s db h in
    elim (Bool-cases (is_non_compliant r.status)) [
      | inl bad ↦
          rw
            (
              check_compliance_eq field id vendor corporate now next s r here,
              is_compliant_for_eq field id vendor corporate now db r there,
              bad,
            )
            (record {
              same = same;
              verdict = inr (Reason.non_compliant r.blocking_failures, refl, refl);
            })
      | inr fine ↦
          rw
            (
              check_compliance_eq field id vendor corporate now next s r here,
              is_compliant_for_eq field id vendor corporate now db r there,
              fine,
            )
            (a _ same)
    ]

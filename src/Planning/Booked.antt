-- ===== src/Planning/Booked.antt =====
-- The trip of a crew (apps/api/src/planning/planning.service.ts, planGroup from `trips.create` on): it
-- is created and assigned, and neither call refuses.
use kruze.Base.{
  Option, ℕ, ◌≡◌, refl, ap, ◌∙◌, true, false, some, List, ◌∷◌, ◌==◌, is_some, map, length, arith,
  find?-holds, keep, all,
}
use kruze.Base.Rows.{find_unique}
use kruze.Base.Effects.{Result, ok, Transactions}
use kruze.Domain.{AuthenticatedUser}
use kruze.Trip.Machine.{TripStatus, can_transition}
use kruze.Trip.Store
use kruze.Trip.Store.{Trip, Assignment, trip_id_of, is_party}
use kruze.Trip.Service.{includes, new_trip, create}
use kruze.Trip.Assign.{Field, driver_id, vehicle_id, guard_id, new_assignment, supersede, assign}
use kruze.Trip.Granted.{Enrolled, Inserted, create-granted, assign-granted, assign-keeps_trips}
use kruze.Planning.Search.{Candidate, candidates, is_busy}
use kruze.Planning.Picked.{is_suitable, is_compliant_for}
use kruze.Planning.Granted.{Shown, Planned, resource_of, check_resources-granted, is_suitable_parts}
use kruze.Safety.{Evaluation}
use kruze.Planning.Plans.{Person, Db}
use kruze.Planning.Group.{
  Crew, trip_input, crew_input, decision_log, record_decision_log, book_crew,
}
use kruze.Planning.Explored.{Explored, Grown}
use kruze.Planning.Fit.{Fit, Guarded, first_suitable}

first_free :
    (field : Field) (min_capacity vendor corporate at now : ℕ) (db : Db) (c : Candidate) (id : ℕ)
    → first_suitable field min_capacity vendor corporate at now db ≡ some c
    → c.id ≡ id
    → (is_compliant_for field id vendor corporate now db.search ≡ true)
      × (is_busy field id at db.search.trip ≡ false)
first_free field min_capacity vendor corporate at now db c id first same =
    let fits =
      find?-holds (is_suitable field min_capacity vendor corporate at now db.search)
        (candidates field vendor db.search) c first in
    rw (← same) (is_suitable_parts field min_capacity vendor corporate at now db.search c fits)

Guarded-guard :
    (db : Db) (vendor corporate at now : ℕ) (e : Evaluation) (o : Option ℕ) (id : ℕ)
    → Guarded db vendor corporate at now e o
    → o ≡ some id
    → (g : Candidate) × (g.id ≡ id)
      × (first_suitable guard_id 0 vendor corporate at now db ≡ some g)
Guarded-guard db vendor corporate at now e o id (Guarded.escorted g needed first) h =
    (g, ground (arith, h), first)
Guarded-guard db vendor corporate at now e o id (Guarded.safe free passed) h =
    absurd (ground (arith, h))

abbrev pub employee_ids : List Person → List ℕ
employee_ids group = map (λ p. p.employee_id) group

module _ (tx : Transactions Store.Db) (actor : AuthenticatedUser) (plan_id shift_id at now : ℕ)
    (group : List Person) (db : Db) (vendor : ℕ) (crew : Crew) where
  -- the trip that is created for the vendor, in the tables at the start
  pub planned_trip : Trip
  unfolding new_trip
  planned_trip = new_trip actor (trip_input plan_id shift_id at group vendor) db.search.trip

  pub record Booked (trip_id : ℕ) (db' : Db) : Type 0 where
    pub id : trip_id ≡ planned_trip.id
    pub trips : db'.search.trip.trips ≡ planned_trip ∷ db.search.trip.trips
    pub assignment :
        (n : ℕ) × (db'.search.trip.assignments
          ≡ new_assignment n (crew_input crew) trip_id
            ∷ supersede trip_id db.search.trip.assignments)
    pub decision : db'.decisions ≡ decision_log trip_id actor.organisation_id crew ∷ db.decisions
    pub plans : db'.plans ≡ db.plans
    pub exceptions : Grown plan_id db.exceptions db'.exceptions

  trip_of_start :
      (s : Db)
      → Explored plan_id db s
      → new_trip actor (trip_input plan_id shift_id at group vendor) s.search.trip ≡ planned_trip
  unfolding planned_trip new_trip
  trip_of_start s x = rw (x.search.next_id, x.search.trips) refl

  planned_trip-Planned : Planned vendor actor.organisation_id at planned_trip
  unfolding planned_trip new_trip trip_input
  planned_trip-Planned = record {
    vendor_is = refl;
    corporate_is = refl;
    start_is = refl;
    end_is = refl;
  }

  crew_free :
      Fit db vendor actor.organisation_id at now group crew
      → (field : Field) (id : ℕ) → resource_of field (crew_input crew) ≡ some id
      → (is_compliant_for field id vendor actor.organisation_id now db.search ≡ true)
        × (is_busy field id at db.search.trip ≡ false)
  unfolding crew_input
  crew_free f driver_id id e =
      first_free driver_id 0 vendor actor.organisation_id at now db crew.driver id f.driver
        (ground (arith, e))
  crew_free f vehicle_id id e =
      first_free vehicle_id (length group) vendor actor.organisation_id at now db crew.vehicle id
        f.vehicle (ground (arith, e))
  crew_free f guard_id id e =
      let (g, is_it, first) =
        Guarded-guard db vendor actor.organisation_id at now f.evaluation crew.guard id f.guarded
          e in
      first_free guard_id 0 vendor actor.organisation_id at now db g id first is_it

  -- the tables once the trip is created
  created : Db → Store.Db
  created s = (create tx actor (trip_input plan_id shift_id at group vendor) s.search.trip).0

  assigned : Db → Store.Db × Result Assignment
  unfolding created
  assigned s = assign tx actor planned_trip.id (crew_input crew) now (created s)

  book_crew_eq :
      (s : Db) (a : Assignment)
      → (create tx actor (trip_input plan_id shift_id at group vendor) s.search.trip).1
        ≡ ok planned_trip
      → (assigned s).1 ≡ ok a
      → book_crew tx actor plan_id shift_id at now group vendor crew s ≡ (
        (record_decision_log planned_trip.id actor.organisation_id crew
            (record s { search = record s.search { trip = (assigned s).0 } })).0,
        ok (some (planned_trip.id, is_some crew.guard)),
      )
  unfolding book_crew assigned created record_decision_log
  book_crew_eq s a h k = ground (arith, h, k)

  created-Shown :
      (s : Db)
      → Explored plan_id db s
      → Inserted s.search.trip (created s) planned_trip
      → Shown db.search planned_trip (created s)
  created-Shown s x i = record {
    trips = i.trips ∙ ap (λ l. planned_trip ∷ l) x.search.trips;
    assignments = i.assignments ∙ x.search.assignments;
    rules = ap (λ c. c.rules) i.compliance ∙ x.search.rules;
    documents = ap (λ c. c.documents) i.compliance ∙ x.search.documents;
  }

  first_row :
      (s : Store.Db)
      → s.trips ≡ planned_trip ∷ db.search.trip.trips
      → find_unique trip_id_of planned_trip.id s.trips ≡ some planned_trip
  first_row s h = ground (arith, h)

  own_trip : is_party actor planned_trip ≡ true
  unfolding planned_trip new_trip
  own_trip = ground arith

  stays_created : can_transition planned_trip.status TripStatus.resources_assigned ≡ false
  unfolding planned_trip new_trip can_transition kruze.Trip.Machine.transitions
  stays_created = refl

  created_trip :
      (s : Db)
      → Explored plan_id db s
      → Enrolled actor (employee_ids group) db.search.trip
      → ((create tx actor (trip_input plan_id shift_id at group vendor) s.search.trip).1
          ≡ ok planned_trip)
        × Inserted s.search.trip (created s) planned_trip
  unfolding created trip_input
  created_trip s x enrolled =
      let here : Enrolled actor (employee_ids group) s.search.trip = record {
        counted =
            ap
              (λ l.
                length (keep (λ e. includes e.id (employee_ids group)) l)
                == length (employee_ids group))
              x.search.employees
            ∙ enrolled.counted;
        own =
            ap
              (λ l.
                all (λ e. e.corporate_org_id == actor.organisation_id)
                  (keep (λ e. includes e.id (employee_ids group)) l))
              x.search.employees
            ∙ enrolled.own;
      } in
      rw (← trip_of_start s x)
        (create-granted tx actor (trip_input plan_id shift_id at group vendor) s.search.trip here)

  record Granted (s : Db) : Type 0 where
    assignment : Assignment
    returned : (assigned s).1 ≡ ok assignment
    trips : (assigned s).0.trips ≡ planned_trip ∷ db.search.trip.trips
    rows :
        (n : ℕ) × ((assigned s).0.assignments
          ≡ new_assignment n (crew_input crew) planned_trip.id
            ∷ supersede planned_trip.id db.search.trip.assignments)

  assigned-Granted :
      (s : Db)
      → Fit db vendor actor.organisation_id at now group crew
      → Shown db.search planned_trip (created s)
      → Granted s
  unfolding assigned
  assigned-Granted s f shown =
      let row = first_row (created s) shown.trips in
      let passed =
        check_resources-granted vendor actor.organisation_id at now db.search planned_trip
          planned_trip-Planned (crew_input crew) (created s) (crew_free f) shown in
      let (result, done) =
        assign-granted tx actor planned_trip.id (crew_input crew) now (created s) planned_trip row
          own_trip passed in
      record {
        assignment = _;
        returned = result;
        trips =
            assign-keeps_trips tx actor planned_trip.id (crew_input crew) now (created s)
              planned_trip row own_trip passed stays_created
            ∙ shown.trips;
        rows = (
          (created s).next_id,
          done.assignments
              ∙ ap
                  (λ l.
                    new_assignment (created s).next_id (crew_input crew) planned_trip.id
                    ∷ supersede planned_trip.id l)
                  shown.assignments,
        );
      }

  pub book_crew-Booked :
      (s : Db)
      → Explored plan_id db s
      → Enrolled actor (employee_ids group) db.search.trip
      → Fit db vendor actor.organisation_id at now group crew
      → ((book_crew tx actor plan_id shift_id at now group vendor crew s).1
          ≡ ok (some (planned_trip.id, is_some crew.guard)))
        × Booked planned_trip.id (book_crew tx actor plan_id shift_id at now group vendor crew s).0
  unfolding record_decision_log
  book_crew-Booked s x enrolled f =
      let (made, inserted) = created_trip s x enrolled in
      let g = assigned-Granted s f (created-Shown s x inserted) in
      rw (book_crew_eq s g.assignment made g.returned) (
        refl,
        record {
          id = refl;
          trips = g.trips;
          assignment = g.rows;
          decision =
              ap (λ l. decision_log planned_trip.id actor.organisation_id crew ∷ l) x.decisions;
          plans = x.plans;
          exceptions = x.exceptions;
        },
      )

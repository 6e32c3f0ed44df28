-- ===== src/Planning/Planned.antt =====
-- What the loop over the vendors makes of a group (apps/api/src/planning/planning.service.ts,
-- planGroup).
use kruze.Base.{ℕ, ◌≡◌, refl, sym, ◌⊎◌, inl, inr, none, some, List, [], ◌∷◌, Memᴰ, is_some, arith}
use mathlib.Core.Path.{subst}
use kruze.Base.Effects.{Result, ok, Transactions}
use kruze.Domain.{AuthenticatedUser}
use kruze.Trip.Store
use kruze.Trip.Granted.{Enrolled}
use kruze.Planning.Plans.{Person, ExceptionType, PlanException, Db, open_exception, raise_exception}
use kruze.Planning.Group.{Crew, Outcome, find_crew, book_crew, plan_group}
use kruze.Planning.Explored.{Explored, Explored-refl, Explored-raised}
use kruze.Planning.Fit.{Fit}
use kruze.Planning.Crews.{find_crew-Sought}
use kruze.Planning.Booked.{employee_ids, planned_trip, Booked, book_crew-Booked}

module _ (tx : Transactions Store.Db) (actor : AuthenticatedUser) (plan_id shift_id at now : ℕ)
    (group : List Person) (db : Db) where
  -- The group has its trip: some vendor's resources fit, and they are assigned to it.
  pub record Served (vendors : List ℕ) (r : Db × Result Outcome) : Type 0 where
    pub vendor : ℕ
    pub offered : Memᴰ vendor vendors
    pub crew : Crew
    pub fits : Fit db vendor actor.organisation_id at now group crew
    pub returned :
        r.1
        ≡ ok (
            some (
              (planned_trip tx actor plan_id shift_id at now group db vendor crew).id,
              is_some crew.guard,
            ))
    pub booked :
        Booked tx actor plan_id shift_id at now group db vendor crew
          (planned_trip tx actor plan_id shift_id at now group db vendor crew).id
          r.0

  -- The group has an exception: no vendor has resources that fit.
  pub record Unserved (vendors : List ℕ) (r : Db × Result Outcome) : Type 0 where
    pub returned : r.1 ≡ ok none
    pub nobody :
        (vendor : ℕ)
        → Memᴰ vendor vendors
        → (crew : Crew) → ¬ Fit db vendor actor.organisation_id at now group crew
    pub explored : Explored plan_id db r.0
    pub raised :
        (id : ℕ) × (before : List PlanException) × (r.0.exceptions
          ≡ open_exception id plan_id ExceptionType.no_eligible_vehicle ∷ before)

  passes_on :
      (s : Db) (vendor : ℕ) (vendors : List ℕ)
      → (find_crew actor plan_id at now group vendor s).1 ≡ ok none
      → plan_group tx actor plan_id shift_id at now group (vendor ∷ vendors) s
        ≡ plan_group tx actor plan_id shift_id at now group vendors
            (find_crew actor plan_id at now group vendor s).0
  unfolding plan_group
  passes_on s vendor vendors h = ground (arith, h)

  books :
      (s : Db) (vendor : ℕ) (vendors : List ℕ) (crew : Crew)
      → (find_crew actor plan_id at now group vendor s).1 ≡ ok (some crew)
      → plan_group tx actor plan_id shift_id at now group (vendor ∷ vendors) s
        ≡ book_crew tx actor plan_id shift_id at now group vendor crew
            (find_crew actor plan_id at now group vendor s).0
  unfolding plan_group
  books s vendor vendors crew h = ground (arith, h)

  later-Served :
      (vendor : ℕ) (vendors : List ℕ) (r : Db × Result Outcome)
      → Served vendors r
      → Served (vendor ∷ vendors) r
  later-Served vendor vendors r v = record {
    vendor = v.vendor;
    offered = Memᴰ.tail v.offered;
    crew = v.crew;
    fits = v.fits;
    returned = v.returned;
    booked = v.booked;
  }

  nobody_more :
      (v : ℕ) (vendors : List ℕ)
      → ((crew : Crew) → ¬ Fit db v actor.organisation_id at now group crew)
      → ((vendor : ℕ)
          → Memᴰ vendor vendors
          → (crew : Crew) → ¬ Fit db vendor actor.organisation_id at now group crew)
      → (vendor : ℕ) → Memᴰ vendor (v ∷ vendors)
      → (crew : Crew) → ¬ Fit db vendor actor.organisation_id at now group crew
  nobody_more v vendors this rest vendor (Memᴰ.head e) =
      subst (λ x. (crew : Crew) → ¬ Fit db x actor.organisation_id at now group crew) (sym e) this
  nobody_more v vendors this rest vendor (Memᴰ.tail m) = rest vendor m

  later-Unserved :
      (v : ℕ) (vendors : List ℕ) (r : Db × Result Outcome)
      → ((crew : Crew) → ¬ Fit db v actor.organisation_id at now group crew)
      → Unserved vendors r
      → Unserved (v ∷ vendors) r
  later-Unserved v vendors r this u = record {
    returned = u.returned;
    nobody = nobody_more v vendors this u.nobody;
    explored = u.explored;
    raised = u.raised;
  }

  from_reached :
      Enrolled actor (employee_ids group) db.search.trip
      → (vendors : List ℕ) (s : Db) → Explored plan_id db s
      → Served vendors (plan_group tx actor plan_id shift_id at now group vendors s)
        ⊎ Unserved vendors (plan_group tx actor plan_id shift_id at now group vendors s)
  unfolding plan_group raise_exception
  from_reached enrolled [] s x = inr (record {
    returned = refl;
    nobody = λ vendor m. elim m [ ];
    explored = Explored-raised plan_id ExceptionType.no_eligible_vehicle db s x;
    raised = (s.next_id, s.exceptions, refl);
  })
  from_reached enrolled (v ∷ vendors) s x =
      let sought = find_crew-Sought actor plan_id at now group db v s x in
      elim sought.verdict [
        | inl (h, this) ↦
            rw (passes_on s v vendors h) (elim (from_reached enrolled vendors _ sought.explored) [
              | inl served ↦ inl (later-Served v vendors _ served)
              | inr unserved ↦ inr (later-Unserved v vendors _ this unserved)
            ])
        | inr (crew, h, fits) ↦ rw (books s v vendors crew h) (
            let (returned, booked) =
              book_crew-Booked tx actor plan_id shift_id at now group db v crew _ sought.explored
                enrolled fits in
            inl (record {
              vendor = v;
              offered = Memᴰ.head refl;
              crew = crew;
              fits = fits;
              returned = returned;
              booked = booked;
            }))
      ]

  -- For a group whose employees are found and belong to the corporate, the planner does not fail: a
  -- vendor of the list has a first suitable vehicle, driver and, where the safety evaluation demands
  -- one, guard, all suitable in the tables at the start, and the group's trip is created, still
  -- CREATED, with an active assignment of exactly those and a decision log; or no vendor of the list
  -- has such resources, and an exception is raised.
  pub plan_group-outcome :
      Enrolled actor (employee_ids group) db.search.trip
      → (vendors : List ℕ)
      → Served vendors (plan_group tx actor plan_id shift_id at now group vendors db)
        ⊎ Unserved vendors (plan_group tx actor plan_id shift_id at now group vendors db)
  plan_group-outcome enrolled vendors = from_reached enrolled vendors db (Explored-refl plan_id db)

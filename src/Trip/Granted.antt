-- ===== src/Trip/Granted.antt =====
-- When an assignment is granted (apps/api/src/trip/trip.service.ts, `assign`).
use kruze.Base.{
  ℕ, ◌≡◌, refl, ap, ◌∙◌, inl, inr, true, false, some, List, ◌∷◌, arith, length, keep, all, ◌==◌,
}
use kruze.Base.Rows.{find_unique}
use kruze.Base.Effects.{Error, Result, ok, err, bind_after, run-cases, Transactions}
use kruze.Domain.{AuthenticatedUser}
use kruze.Trip.Store.{Trip, Assignment, Db, trip_id_of, is_party}
use kruze.Trip.Machine.{TripStatus, can_transition}
use kruze.Trip.Service.{CreateInput, includes, new_trip, save_trip, create}
use kruze.Trip.Assign.{
  insert_assignment, mark_assigned, AssignInput, check_resources, new_assignment, write_assignment,
  finish_assign, assign,
}
use kruze.Trip.Lifecycle.{find_unique-own}
use kruze.Trip.Checks.{Keeps, check_resources-Keeps}
use kruze.Trip.Outcome.{Assigned, written, finished, finish_rows, assign_reaches}

bind_after_ok :
    {S A B : Type 0} (r : S × Result A) (a : A) (f : A → S → S × Result B)
    → r.1 ≡ ok a
    → bind_after r f ≡ f a r.0
bind_after_ok (s, ok x) a f h = ground (arith, h)
bind_after_ok (s, Result.err e) a f h = absurd (ground (arith, h))

finish_assign-result :
    (tx : Transactions Db) (actor : AuthenticatedUser) (trip_id : ℕ) (input : AssignInput)
    (trip : Trip) (s : Db) (a : Assignment)
    → (write_assignment actor input trip s).1 ≡ ok a
    → (finish_assign tx actor trip_id input trip s).1 ≡ ok a
unfolding finish_assign
finish_assign-result tx actor trip_id input trip s a h = ground (arith, h)

-- A party's assignment whose checks pass is made.
pub assign-granted :
    (tx : Transactions Db) (actor : AuthenticatedUser) (trip_id : ℕ) (input : AssignInput) (now : ℕ)
    (db : Db) (trip : Trip)
    → find_unique trip_id_of trip_id db.trips ≡ some trip
    → is_party actor trip ≡ true
    → (check_resources input trip now db).1 ≡ ok tt
    → ((assign tx actor trip_id input now db).1 ≡ ok (new_assignment db.next_id input trip.id))
      × Assigned input now db (assign tx actor trip_id input now db).0 trip
assign-granted tx actor trip_id input now db trip found party passed =
    let s = (check_resources input trip now db).0 in
    let k = check_resources-Keeps input trip now db in
    let own = find_unique-own trip_id db.trips trip found in
    let reaches =
      assign_reaches tx actor trip_id input now db trip found party
      ∙ bind_after_ok (check_resources input trip now db) tt
          (λ _. finish_assign tx actor trip_id input trip) passed in
    let (result, done) = written actor input now db s trip k own passed in
    rw reaches (
      finish_assign-result tx actor trip_id input trip s _ result
          ∙ ap (λ n. ok (new_assignment n input trip.id)) k.next_id,
      finished tx actor trip_id input now db s trip k own passed,
    )

-- A trip is created when its employees are all found and belong to the organisation.
pub record Enrolled (actor : AuthenticatedUser) (ids : List ℕ) (db : Db) : Type 0 where
  pub counted : (length (keep (λ e. includes e.id ids) db.employees) == length ids) ≡ true
  pub own :
      all
        (λ e. e.corporate_org_id == actor.organisation_id)
        (keep (λ e. includes e.id ids) db.employees)
      ≡ true

pub record Inserted (db db' : Db) (trip : Trip) : Type 0 where
  pub trips : db'.trips ≡ trip ∷ db.trips
  pub assignments : db'.assignments ≡ db.assignments
  pub compliance : db'.compliance ≡ db.compliance

pub create-granted :
    (tx : Transactions Db) (actor : AuthenticatedUser) (input : CreateInput) (db : Db)
    → Enrolled actor input.employee_ids db
    → ((create tx actor input db).1 ≡ ok (new_trip actor input db))
      × Inserted db (create tx actor input db).0 (new_trip actor input db)
unfolding create save_trip
create-granted tx actor input db h = (
  ground (arith, h.counted, h.own),
  record {
    trips = ground (arith, h.counted, h.own);
    assignments = ground (arith, h.counted, h.own);
    compliance = ground (arith, h.counted, h.own);
  },
)

mark_assigned_stays :
    (trip : Trip) (db : Db)
    → can_transition trip.status TripStatus.resources_assigned ≡ false
    → mark_assigned trip db ≡ (db, ok tt)
unfolding mark_assigned
mark_assigned_stays trip db h = rw (h, mark_assigned) refl

write_assignment_stays :
    (actor : AuthenticatedUser) (input : AssignInput) (trip : Trip) (s : Db)
    → can_transition trip.status TripStatus.resources_assigned ≡ false
    → (write_assignment actor input trip s).0.trips ≡ s.trips
unfolding write_assignment
write_assignment_stays actor input trip s h =
    ground (arith, mark_assigned_stays trip (insert_assignment input trip.id s).0 h)

-- An assignment to a trip whose status has no edge to RESOURCES_ASSIGNED leaves the trips alone.
pub assign-keeps_trips :
    (tx : Transactions Db) (actor : AuthenticatedUser) (trip_id : ℕ) (input : AssignInput) (now : ℕ)
    (db : Db) (trip : Trip)
    → find_unique trip_id_of trip_id db.trips ≡ some trip
    → is_party actor trip ≡ true
    → (check_resources input trip now db).1 ≡ ok tt
    → can_transition trip.status TripStatus.resources_assigned ≡ false
    → (assign tx actor trip_id input now db).0.trips ≡ db.trips
assign-keeps_trips tx actor trip_id input now db trip found party passed stays =
    let s = (check_resources input trip now db).0 in
    let k = check_resources-Keeps input trip now db in
    let own = find_unique-own trip_id db.trips trip found in
    let reaches =
      assign_reaches tx actor trip_id input now db trip found party
      ∙ bind_after_ok (check_resources input trip now db) tt
          (λ _. finish_assign tx actor trip_id input trip) passed in
    let (result, done) = written actor input now db s trip k own passed in
    rw reaches (
      (finish_rows tx actor trip_id input trip s result).0
      ∙ write_assignment_stays actor input trip s stays
      ∙ k.trips)

bind_after_err :
    {S A B : Type 0} (r : S × Result A) (e : Error) (f : A → S → S × Result B)
    → r.1 ≡ err e
    → bind_after r f ≡ (r.0, err e)
bind_after_err (s, ok x) e f h = absurd (ground (arith, h))
bind_after_err (s, err x) e f h = ground (arith, h)

-- A party's assignment that is refused leaves trips and assignments as they were.
pub assign_refused-Keeps :
    (tx : Transactions Db) (actor : AuthenticatedUser) (trip_id : ℕ) (input : AssignInput) (now : ℕ)
    (db : Db) (trip : Trip) (e : Error)
    → find_unique trip_id_of trip_id db.trips ≡ some trip
    → is_party actor trip ≡ true
    → (assign tx actor trip_id input now db).1 ≡ err e
    → Keeps db (assign tx actor trip_id input now db).0
assign_refused-Keeps tx actor trip_id input now db trip e found party refused =
    elim (run-cases (check_resources input trip now db)) [
      | inl (u, passed) ↦
          let (granted, done) =
            assign-granted tx actor trip_id input now db trip found party (ap (λ r. r.1) passed) in
          absurd (ground (arith, granted, refused))
      | inr (x, failed) ↦
          rw
            (
              assign_reaches tx actor trip_id input now db trip found party,
              bind_after_err (check_resources input trip now db) x
                  (λ _. finish_assign tx actor trip_id input trip) (ap (λ r. r.1) failed),
            )
            (check_resources-Keeps input trip now db)
    ]

-- What a party's assignment that is made is.
pub assign-made :
    (tx : Transactions Db) (actor : AuthenticatedUser) (trip_id : ℕ) (input : AssignInput) (now : ℕ)
    (db : Db) (trip : Trip) (a : Assignment)
    → find_unique trip_id_of trip_id db.trips ≡ some trip
    → is_party actor trip ≡ true
    → (assign tx actor trip_id input now db).1 ≡ ok a
    → (a ≡ new_assignment db.next_id input trip.id)
      × Assigned input now db (assign tx actor trip_id input now db).0 trip
assign-made tx actor trip_id input now db trip a found party made =
    elim (run-cases (check_resources input trip now db)) [
      | inl (u, passed) ↦
          let (granted, done) =
            assign-granted tx actor trip_id input now db trip found party (ap (λ r. r.1) passed) in
          (ground (arith, granted, made), done)
      | inr (x, failed) ↦
          let reaches =
            assign_reaches tx actor trip_id input now db trip found party
            ∙ bind_after_err (check_resources input trip now db) x
                (λ _. finish_assign tx actor trip_id input trip) (ap (λ r. r.1) failed) in
          absurd (ground (arith, ap (λ r. r.1) reaches, made))
    ]

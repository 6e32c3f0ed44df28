-- ===== src/Trip/Outcome.antt =====
-- What a call of `assign` leaves of the tables (apps/api/src/trip/trip.service.ts).
use kruze.Base.{
  ℕ, suc, ◌+◌, ◌<◌, ◌≡◌, refl, ap, ◌∙◌, ◌⊎◌, inl, inr, true, some, List, ◌∷◌, ◌==◌, arith,
  Bool-cases, Option-cases, All,
}
use kruze.Base.Rows.{find_unique, update_row, update_where-All, find_unique-update_row}
use kruze.Base.Effects.{◌>>◌, bind_after, run-cases, ok, Transactions}
use kruze.Domain.{AuthenticatedUser}
use kruze.Trip.Machine.{TripStatus, can_transition}
use kruze.Trip.Store.{Trip, Assignment, Db, trip_id_of, is_party}
use kruze.Trip.Service.{update_versioned}
use kruze.Trip.Assign.{
  AssignInput, is_live, check_resources, new_assignment, supersede, insert_assignment,
  mark_assigned, write_assignment, finish_assign, assign,
}
use kruze.Trip.Lifecycle.{find_unique-own, find_version}
use kruze.Trip.Checks.{Keeps, check_resources-Keeps}
use kruze.Trip.Booking.{Shadows}

pub live_of_edge : (s to : TripStatus) → can_transition s to ≡ true → is_live s ≡ true
unfolding can_transition
live_of_edge s to h = ground arith

abbrev assigned_row : Trip → Trip
assigned_row t = record t { status = TripStatus.resources_assigned; version = t.version + 1 }

mark_assigned_cases :
    (trip : Trip) (db : Db)
    → find_unique trip_id_of trip.id db.trips ≡ some trip
    → (mark_assigned trip db ≡ (db, ok tt))
      ⊎ ((can_transition trip.status TripStatus.resources_assigned ≡ true)
          × (mark_assigned trip db
              ≡ (record db { trips = update_row trip_id_of trip.id assigned_row db.trips }, ok tt)))
unfolding mark_assigned
mark_assigned_cases trip db found =
    elim (Bool-cases (can_transition trip.status TripStatus.resources_assigned)) [
      | inl edge ↦ inr (
        edge,
        rw (edge, mark_assigned)
            (rw (find_version trip.id db.trips trip found, update_versioned) refl),
      )
      | inr stay ↦ inl (rw (stay, mark_assigned) refl)
    ]

row-Shadows :
    (trip : Trip) (trips : List Trip) (j : ℕ)
    → find_unique trip_id_of trip.id trips ≡ some trip
    → can_transition trip.status TripStatus.resources_assigned ≡ true
    → Shadows trips (update_row trip_id_of trip.id assigned_row trips) j
row-Shadows trip trips j found edge t' found' live =
    let e = find_unique-update_row trip_id_of trip.id j assigned_row trips (λ r. refl) in
    elim (Bool-cases (trip.id == j)) [
      | inl same ↦ (
        trip,
        ground (arith, found),
        live_of_edge trip.status _ edge,
        ground (arith, e, found, found'),
        ground (arith, e, found, found'),
      )
      | inr other ↦ (t', ground (arith, e, found'), live, refl, refl)
    ]

-- What a successful `assign` did to the tables.
pub record Assigned (input : AssignInput) (now : ℕ) (db db' : Db) (trip : Trip) : Type 0 where
  pub read : find_unique trip_id_of trip.id db.trips ≡ some trip
  pub checked : (check_resources input trip now db).1 ≡ ok tt
  pub shadows : (j : ℕ) → Shadows db.trips db'.trips j
  pub trips_below : All (λ t. t.id < db.next_id) db.trips → All (λ t. t.id < db.next_id) db'.trips
  pub assignments :
      db'.assignments ≡ new_assignment db.next_id input trip.id ∷ supersede trip.id db.assignments
  pub next_id : db'.next_id ≡ suc db.next_id

-- the tables that the transaction's body leaves, when `s` is the state that the checks left
pub written :
    (actor : AuthenticatedUser) (input : AssignInput) (now : ℕ) (db s : Db) (trip : Trip)
    → Keeps db s
    → find_unique trip_id_of trip.id db.trips ≡ some trip
    → (check_resources input trip now db).1 ≡ ok tt
    → ((write_assignment actor input trip s).1 ≡ ok (new_assignment s.next_id input trip.id))
      × Assigned input now db (write_assignment actor input trip s).0 trip
unfolding write_assignment
written actor input now db s trip k found checked =
    elim (mark_assigned_cases trip (insert_assignment input trip.id s).0 (rw k.trips found)) [
      | inl same ↦
          rw (same, ◌>>◌)
            (
              refl,
              record {
                read = found;
                checked = checked;
                shadows = λ j. rw k.trips (λ t' f l. (t', f, l, refl, refl));
                trips_below = λ below. rw k.trips below;
                assignments = rw (k.assignments, k.next_id) refl;
                next_id = rw k.next_id refl;
              },
            )
      | inr (edge, moved) ↦
          rw (moved, ◌>>◌)
            (
              refl,
              record {
                read = found;
                checked = checked;
                shadows = λ j. rw k.trips (row-Shadows trip db.trips j found edge);
                trips_below = λ below. rw k.trips (
                    update_where-All (λ t. t.id < db.next_id) (λ t. t.id == trip.id) assigned_row
                      db.trips (λ r hit h. h) below);
                assignments = rw (k.assignments, k.next_id) refl;
                next_id = rw k.next_id refl;
              },
            )
    ]

pub finish_rows :
    (tx : Transactions Db) (actor : AuthenticatedUser) (trip_id : ℕ) (input : AssignInput)
    (trip : Trip) (s : Db) {a : Assignment}
    → (write_assignment actor input trip s).1 ≡ ok a
    → ((finish_assign tx actor trip_id input trip s).0.trips
        ≡ (write_assignment actor input trip s).0.trips)
      × ((finish_assign tx actor trip_id input trip s).0.assignments
          ≡ (write_assignment actor input trip s).0.assignments)
      × ((finish_assign tx actor trip_id input trip s).0.next_id
          ≡ (write_assignment actor input trip s).0.next_id)
unfolding finish_assign
finish_rows tx actor trip_id input trip s h = ground arith

pub finished :
    (tx : Transactions Db) (actor : AuthenticatedUser) (trip_id : ℕ) (input : AssignInput) (now : ℕ)
    (db s : Db) (trip : Trip)
    → Keeps db s
    → find_unique trip_id_of trip.id db.trips ≡ some trip
    → (check_resources input trip now db).1 ≡ ok tt
    → Assigned input now db (finish_assign tx actor trip_id input trip s).0 trip
finished tx actor trip_id input now db s trip k found checked =
    let (result, done) = written actor input now db s trip k found checked in
    let (trips, assignments, next) = finish_rows tx actor trip_id input trip s result in
    record {
      read = found;
      checked = checked;
      shadows = λ j. rw trips (done.shadows j);
      trips_below = λ below. rw trips (done.trips_below below);
      assignments = assignments ∙ done.assignments;
      next_id = next ∙ done.next_id;
    }

pub assign_reaches :
    (tx : Transactions Db) (actor : AuthenticatedUser) (trip_id : ℕ) (input : AssignInput) (now : ℕ)
    (db : Db) (trip : Trip)
    → find_unique trip_id_of trip_id db.trips ≡ some trip
    → is_party actor trip ≡ true
    → assign tx actor trip_id input now db
      ≡ bind_after
          (check_resources input trip now db)
          (λ _. finish_assign tx actor trip_id input trip)
unfolding assign
assign_reaches tx actor trip_id input now db trip found party = rw found (rw party refl)

after_checks :
    (tx : Transactions Db) (actor : AuthenticatedUser) (trip_id : ℕ) (input : AssignInput) (now : ℕ)
    (db : Db) (trip : Trip)
    → find_unique trip_id_of trip.id db.trips ≡ some trip
    → let s =
        bind_after
          (check_resources input trip now db)
          (λ _. finish_assign tx actor trip_id input trip) in
      Keeps db s.0 ⊎ ((t : Trip) × Assigned input now db s.0 t)
after_checks tx actor trip_id input now db trip found =
    elim (run-cases (check_resources input trip now db)) [
      | inl (u, passed) ↦ inr (
        trip,
        rw (passed, bind_after)
            (finished tx actor trip_id input now db (check_resources input trip now db).0 trip
              (check_resources-Keeps input trip now db) found (ap (λ r. r.1) passed)),
      )
      | inr (e, refused) ↦ inl (rw (refused, bind_after) (check_resources-Keeps input trip now db))
    ]

-- After any call of `assign` the tables that it may write either stand as they were or hold one new
-- assignment, made for a trip that passed every check.
pub assign-outcome :
    (tx : Transactions Db) (actor : AuthenticatedUser) (trip_id : ℕ) (input : AssignInput) (now : ℕ)
    (db : Db)
    → Keeps db (assign tx actor trip_id input now db).0
      ⊎ ((trip : Trip) × Assigned input now db (assign tx actor trip_id input now db).0 trip)
unfolding assign
assign-outcome tx actor trip_id input now db =
    elim (Option-cases (find_unique trip_id_of trip_id db.trips)) [
      | inl missing ↦ inl (ground arith)
      | inr (trip, found) ↦ elim (Bool-cases (is_party actor trip)) [
        | inr stranger ↦ inl (ground arith)
        | inl party ↦ rw (assign_reaches tx actor trip_id input now db trip found party) (
            after_checks tx actor trip_id input now db trip
              (find_unique-own trip_id db.trips trip found))
      ]
    ]

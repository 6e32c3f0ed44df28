-- ===== src/Trip/Booked.antt =====
-- The invariant of the bookings, and that each handler of TripService that writes keeps it
-- (apps/api/src/trip/trip.service.ts).
use kruze.Base.{
  ℕ, suc, ◌≤◌, ◌<◌, ◌≡◌, refl, ◌⊎◌, inl, inr, ◌&&◌, some, List, [], ◌∷◌, ◌==◌, arith, All, All-mem,
}
use mathlib.Core.Path.{subst}
use kruze.Base.Rows.{find_unique, update_where-All}
use kruze.Base.Effects.{Transactions}
use kruze.Domain.{AuthenticatedUser}
use kruze.Trip.Store.{Trip, Assignment, AssignmentStatus, Db, trip_id_of, is_active}
use kruze.Trip.Service.{CreateInput, new_trip, save_trip, create}
use kruze.Trip.Assign.{AssignInput, Field, new_assignment, supersede, assign}
use kruze.Trip.Checks.{Keeps, check_resources_clear}
use kruze.Trip.Booking.{NoClash, Shadows, NoClash-Shadows, NoClash-insert}
use kruze.Trip.Outcome.{Assigned, assign-outcome}

pub record Booked (db : Db) : Type 0 where
  pub trips_below : All (λ t. t.id < db.next_id) db.trips
  pub assignments_below : All (λ a. a.trip_id < db.next_id) db.assignments
  pub no_clash : (field : Field) → NoClash field db.trips db.assignments

Booked-Keeps : (db db' : Db) → Keeps db db' → Booked db → Booked db'
Booked-Keeps db db' k b = record {
  trips_below = rw (k.trips, k.next_id) b.trips_below;
  assignments_below = rw (k.assignments, k.next_id) b.assignments_below;
  no_clash = λ field. rw (k.trips, k.assignments) (b.no_clash field);
}

below_mono-trips :
    (m n : ℕ) (ts : List Trip) → m ≤ n → All (λ t. t.id < m) ts → All (λ t. t.id < n) ts
below_mono-trips m n [] h all = tt
below_mono-trips m n (t ∷ ts) h all = (omega arith, below_mono-trips m n ts h all.1)

below_mono-assignments :
    (m n : ℕ) (rows : List Assignment)
    → m ≤ n
    → All (λ a. a.trip_id < m) rows
    → All (λ a. a.trip_id < n) rows
below_mono-assignments m n [] h all = tt
below_mono-assignments m n (a ∷ rows) h all = (omega arith, below_mono-assignments m n rows h all.1)

find_unique-lt :
    (id n : ℕ) (ts : List Trip) (t : Trip)
    → All (λ x. x.id < n) ts
    → find_unique trip_id_of id ts ≡ some t
    → id < n
find_unique-lt id n [] t all h = absurd (ground arith)
find_unique-lt id n (x ∷ ts) t all h = ground (arith, find_unique-lt id n ts t all.1)

inserted_below :
    (next : ℕ) (input : AssignInput) (trip_id : ℕ) (rows : List Assignment)
    → trip_id < next
    → All (λ a. a.trip_id < next) rows
    → All (λ a. a.trip_id < suc next) (new_assignment next input trip_id ∷ supersede trip_id rows)
unfolding new_assignment supersede
inserted_below next input trip_id rows h all = (
  omega arith,
  below_mono-assignments next (suc next) _ (omega arith) (
      update_where-All (λ a. a.trip_id < next) (λ a. a.trip_id == trip_id && is_active a.status)
        (λ a. record a { status = AssignmentStatus.superseded }) rows (λ r hit below. below) all),
)

assign-Booked :
    (input : AssignInput) (now : ℕ) (db db' : Db) (trip : Trip)
    → Assigned input now db db' trip
    → Booked db
    → Booked db'
assign-Booked input now db db' trip done b = record {
  trips_below = rw done.next_id (
      below_mono-trips db.next_id (suc db.next_id) db'.trips (omega arith)
        (done.trips_below b.trips_below));
  assignments_below =
      rw (done.next_id, done.assignments)
        (inserted_below db.next_id input trip.id db.assignments
          (find_unique-lt trip.id db.next_id db.trips trip b.trips_below done.read)
          b.assignments_below);
  no_clash = λ field. rw done.assignments (
      NoClash-Shadows field db.trips db'.trips _ (λ a m. done.shadows a.trip_id)
        (NoClash-insert field db.trips trip input db.next_id db.assignments done.read
          (λ a id e m.
            check_resources_clear input trip now db a field db.next_id id done.checked e m)
          (b.no_clash field)));
}

-- What a successful `create` adds: one trip, under the identifier that the database generates.
record Created (db db' : Db) : Type 0 where
  trip : Trip
  trips : db'.trips ≡ trip ∷ db.trips
  id : trip.id ≡ db.next_id
  next_id : db.next_id < db'.next_id
  assignments : db'.assignments ≡ db.assignments

create_cases :
    (tx : Transactions Db) (actor : AuthenticatedUser) (input : CreateInput) (db : Db)
    → ((create tx actor input db).0 ≡ db)
      ⊎ ((create tx actor input db).0 ≡ (save_trip tx actor input db).0)
unfolding create
create_cases tx actor input db = ground arith

create-outcome :
    (tx : Transactions Db) (actor : AuthenticatedUser) (input : CreateInput) (db : Db)
    → Keeps db (create tx actor input db).0 ⊎ Created db (create tx actor input db).0
unfolding save_trip new_trip
create-outcome tx actor input db = elim (create_cases tx actor input db) [
  | inl same ↦ inl (rw same (record { trips = refl; assignments = refl; next_id = refl }))
  | inr saved ↦ inr (
      rw saved (record {
        trip = new_trip actor input db;
        trips = refl;
        id = refl;
        next_id = omega arith;
        assignments = refl;
      }))
]

Created-Shadows :
    (db db' : Db) (j : ℕ) → Created db db' → j < db.next_id → Shadows db.trips db'.trips j
Created-Shadows db db' j c below t' found live =
    let found' : find_unique trip_id_of j (c.trip ∷ db.trips) ≡ some t' =
      subst (λ ts. find_unique trip_id_of j ts ≡ some t') c.trips found in
    (t', ground (arith, found', c.id), live, refl, refl)

create-Booked : (db db' : Db) → Created db db' → Booked db → Booked db'
create-Booked db db' c b = record {
  trips_below = rw c.trips (
    ground (arith, c.id, c.next_id),
    below_mono-trips db.next_id db'.next_id db.trips (ground (arith, c.next_id)) b.trips_below,
  );
  assignments_below = rw c.assignments (
      below_mono-assignments db.next_id db'.next_id db.assignments (ground (arith, c.next_id))
        b.assignments_below);
  no_clash = λ field. rw c.assignments (
      NoClash-Shadows field db.trips db'.trips db.assignments
        (λ a m.
          Created-Shadows db db' a.trip_id c
            (All-mem (λ x. x.trip_id < db.next_id) db.assignments a b.assignments_below m))
        (b.no_clash field));
}

pub creating-Booked :
    (tx : Transactions Db) (actor : AuthenticatedUser) (input : CreateInput) (db : Db)
    → Booked db
    → Booked (create tx actor input db).0
creating-Booked tx actor input db b = elim (create-outcome tx actor input db) [
  | inl kept ↦ Booked-Keeps db _ kept b
  | inr created ↦ create-Booked db _ created b
]

pub assigning-Booked :
    (tx : Transactions Db) (actor : AuthenticatedUser) (id : ℕ) (input : AssignInput) (now : ℕ)
    (db : Db)
    → Booked db
    → Booked (assign tx actor id input now db).0
assigning-Booked tx actor id input now db b = elim (assign-outcome tx actor id input now db) [
  | inl kept ↦ Booked-Keeps db _ kept b
  | inr (trip, done) ↦ assign-Booked input now db _ trip done b
]

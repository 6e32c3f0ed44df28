-- ===== src/Trip/Kept.antt =====
-- Transitions and the writes of a trip's route status keep the bookings free of clashes
-- (apps/api/src/trip/trip.service.ts).
use kruze.Base.{ℕ, ◌<◌, ◌≡◌, refl, ap, inl, inr, List, ◌==◌, arith, Bool-cases, Option-cases}
use kruze.Base.Rows.{find_unique, update_row, update_where-All, find_unique-update_row}
use kruze.Base.Effects.{Transactions, run-cases}
use kruze.Domain.{AuthenticatedUser}
use kruze.Trip.Machine.{TripStatus}
use kruze.Trip.Store.{Trip, Db, trip_id_of}
use kruze.Trip.Service.{
  advance, transition, set_route, assert_party, accept_route, reject_route, request_reoptimization,
}
use kruze.Trip.Lifecycle.{
  advance-keeps_id, Transitioned, transition-Transitioned, transition_err_unchanged,
}
use kruze.Trip.Booking.{Shadows, NoClash-Shadows}
use kruze.Trip.Booked.{Booked}
use kruze.Trip.Outcome.{live_of_edge}

transition-Shadows :
    (actor : AuthenticatedUser) (to : TripStatus) (now : ℕ) (db db' : Db) (id : ℕ) (t t' : Trip)
    (j : ℕ)
    → Transitioned actor to now db db' id t t'
    → Shadows db.trips db'.trips j
unfolding advance
transition-Shadows actor to now db db' id t t' j w x found live = elim (Bool-cases (id == j)) [
  | inl same ↦ (
    t,
    ground (arith, w.read),
    live_of_edge t.status to w.allowed,
    ground (arith, w.written j, w.advanced),
    ground (arith, w.written j, w.advanced),
  )
  | inr other ↦ (x, ground (arith, w.written j), live, refl, refl)
]

pub transition-Booked :
    (tx : Transactions Db) (actor : AuthenticatedUser) (id : ℕ) (to : TripStatus) (now : ℕ)
    (db : Db)
    → Booked db
    → Booked (transition tx actor id to now db).0
transition-Booked tx actor id to now db b = elim (run-cases (transition tx actor id to now db)) [
  | inr (e, failed) ↦ rw (transition_err_unchanged tx actor id to now db (ap (λ r. r.1) failed)) b
  | inl (t', done) ↦
      let (t, w) = transition-Transitioned tx actor id to now db (ap (λ r. r.1) done) in
      record {
        trips_below =
            rw (w.next_id_kept, w.rows)
              (update_where-All (λ x. x.id < db.next_id) (λ x. x.id == t.id) (advance to now)
                db.trips (λ r hit below. rw (advance-keeps_id to now r) below) b.trips_below);
        assignments_below = rw (w.next_id_kept, w.assignments_kept) b.assignments_below;
        no_clash = λ field. rw w.assignments_kept (
            NoClash-Shadows field db.trips _ db.assignments
              (λ a m. transition-Shadows actor to now db _ id t t' a.trip_id w) (b.no_clash field));
      }
]

route-Shadows :
    (id : ℕ) (f : Trip → Trip) (trips : List Trip) (j : ℕ)
    → ((t : Trip)
        → ((f t).id ≡ t.id)
          × ((f t).status ≡ t.status)
          × ((f t).scheduled_start_at ≡ t.scheduled_start_at)
          × ((f t).scheduled_end_at ≡ t.scheduled_end_at))
    → Shadows trips (update_row trip_id_of id f trips) j
route-Shadows id f trips j same t' found live =
    let e = find_unique-update_row trip_id_of id j f trips (λ r. (same r).0) in
    elim (Option-cases (find_unique trip_id_of j trips)) [
      | inl missing ↦ absurd (ground (arith, e))
      | inr (t, here) ↦ elim (Bool-cases (id == j)) [
        | inl hit ↦
            let moved : f t ≡ t' = ground (arith, e) in
            (t, here, ground (arith, same t), ground (arith, same t), ground (arith, same t))
        | inr miss ↦ (t', ground (arith, e), live, refl, refl)
      ]
    ]

-- a write of one field of a trip that is no part of its schedule
route-Booked :
    (id : ℕ) (f : Trip → Trip) (db : Db)
    → ((t : Trip)
        → ((f t).id ≡ t.id)
          × ((f t).status ≡ t.status)
          × ((f t).scheduled_start_at ≡ t.scheduled_start_at)
          × ((f t).scheduled_end_at ≡ t.scheduled_end_at))
    → Booked db
    → Booked (record db { trips = update_row trip_id_of id f db.trips })
route-Booked id f db same b = record {
  trips_below =
      update_where-All (λ x. x.id < db.next_id) (λ x. x.id == id) f db.trips
        (λ r hit below. rw (same r).0 below) b.trips_below;
  assignments_below = b.assignments_below;
  no_clash = λ field.
      NoClash-Shadows field db.trips _ db.assignments
        (λ a m. route-Shadows id f db.trips a.trip_id same) (b.no_clash field);
}

-- the three handlers, over the function that each writes with
module _ (tx : Transactions Db) (actor : AuthenticatedUser) where
  assert_party_state : (id : ℕ) (db : Db) → (assert_party tx actor id db).0 ≡ db
  unfolding assert_party
  assert_party_state id db = ground arith

  set_route-Booked :
      (f : Trip → Trip) (id : ℕ) (db : Db)
      → ((t : Trip)
          → ((f t).id ≡ t.id)
            × ((f t).status ≡ t.status)
            × ((f t).scheduled_start_at ≡ t.scheduled_start_at)
            × ((f t).scheduled_end_at ≡ t.scheduled_end_at))
      → Booked db
      → Booked (set_route tx actor f id db).0
  unfolding set_route
  set_route-Booked f id db same b = elim (run-cases (assert_party tx actor id db)) [
    | inl (t, found) ↦
        rw (found, set_route) (rw (assert_party_state id db) (route-Booked t.id f db same b))
    | inr (e, refused) ↦ rw (refused, set_route) (rw (assert_party_state id db) b)
  ]

  pub accept_route-Booked : (id : ℕ) (db : Db) → Booked db → Booked (accept_route tx actor id db).0
  unfolding accept_route
  accept_route-Booked id db b = set_route-Booked _ id db (λ t. (refl, refl, refl, refl)) b

  pub reject_route-Booked : (id : ℕ) (db : Db) → Booked db → Booked (reject_route tx actor id db).0
  unfolding reject_route
  reject_route-Booked id db b = set_route-Booked _ id db (λ t. (refl, refl, refl, refl)) b

  pub request_reoptimization-Booked :
      (id : ℕ) (db : Db) → Booked db → Booked (request_reoptimization tx actor id db).0
  unfolding request_reoptimization
  request_reoptimization-Booked id db b = set_route-Booked _ id db (λ t. (refl, refl, refl, refl)) b

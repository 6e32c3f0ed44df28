-- ===== src/Incident/Replaced.antt =====
-- What a replacement after a breakdown leaves (apps/api/src/incident/operations.service.ts, replace).
use kruze.Base.{
  ℕ, ◌≡◌, refl, sym, ap, ◌∙◌, ◌⊎◌, inl, inr, Bool, true, false, ◌&&◌, Option, none, some, List, [],
  ◌∷◌, ◌==◌, keep, arith, Bool-cases,
}
use kruze.Base.Rows.{find_unique}
use kruze.Base.Effects.{Error, bad_request, Result, ok, err, run-cases, Transactions}
use kruze.Domain.{AuthenticatedUser}
use kruze.Trip.Machine.{TripStatus, same_status, can_transition}
use kruze.Trip.Store
use kruze.Trip.Store.{Trip, Assignment, trip_id_of, is_active, is_party}
use kruze.Trip.Service.{advance, transition}
use kruze.Trip.Assign.{assign, new_assignment, supersede}
use kruze.Trip.Lifecycle.{transition-Transitioned, transition_allowed}
use kruze.Trip.Granted.{assign_refused-Keeps, assign-made}
use kruze.Incident.{Db}
use kruze.Incident.Operations.{replacement_input, replace}

-- an active assignment of that trip
abbrev pub serves : ℕ → Assignment → Bool
serves trip_id a = a.trip_id == trip_id && is_active a.status

-- The new assignment is the only active one of the trip, and has no guard; the other rows are kept, those
-- of the trip that were active as superseded.
pub record Replaced (driver vehicle : Option ℕ) (db : Db) (trip : Trip) (r : Db × Result Assignment)
    : Type 0 where
  pub assignment : Assignment
  pub returned : r.1 ≡ ok assignment
  pub driver_is : assignment.driver_id ≡ driver
  pub vehicle_is : assignment.vehicle_id ≡ vehicle
  pub unguarded : assignment.guard_id ≡ none
  pub rows : r.0.trip.assignments ≡ assignment ∷ supersede trip.id db.trip.assignments
  pub only : keep (serves trip.id) r.0.trip.assignments ≡ assignment ∷ []

-- The refusal leaves the trip in REASSIGNING, from where no call of `replace` goes on.
pub record Stranded (tx : Transactions Store.Db) (actor : AuthenticatedUser) (now : ℕ) (db : Db)
    (trip : Trip) (r : Db × Result Assignment) : Type 0 where
  pub error : Error
  pub returned : r.1 ≡ err error
  pub rows : r.0.trip.assignments ≡ db.trip.assignments
  pub moved :
      find_unique trip_id_of trip.id r.0.trip.trips ≡ some (advance TripStatus.reassigning now trip)
  pub stuck :
      (other : AuthenticatedUser) (driver vehicle : Option ℕ) (later : ℕ)
      → replace tx other trip.id driver vehicle later r.0 ≡ (r.0, err bad_request)

none_serves :
    (trip_id : ℕ) (rows : List Assignment) → keep (serves trip_id) (supersede trip_id rows) ≡ []
unfolding supersede
none_serves trip_id [] = refl
none_serves trip_id (a ∷ rows) = elim (Bool-cases (serves trip_id a)) [
  | inl active ↦ rw active (ground (arith, none_serves trip_id rows))
  | inr other ↦ rw other (ground (arith, other, none_serves trip_id rows))
]

breakdown_edge : can_transition TripStatus.breakdown TripStatus.reassigning ≡ true
unfolding can_transition kruze.Trip.Machine.transitions
breakdown_edge = refl

module _ (tx : Transactions Store.Db) (actor : AuthenticatedUser) (now : ℕ) (db : Db)
    (trip : Trip) where
  -- the trip tables once the trip is in REASSIGNING
  after_move : Store.Db
  after_move = (transition tx actor trip.id TripStatus.reassigning now db.trip).0

  replace_eq :
      (driver vehicle : Option ℕ) (t' : Trip)
      → find_unique trip_id_of trip.id db.trip.trips ≡ some trip
      → trip.status ≡ TripStatus.breakdown
      → (transition tx actor trip.id TripStatus.reassigning now db.trip).1 ≡ ok t'
      → replace tx actor trip.id driver vehicle now db ≡ (
        record db {
          trip = (assign tx actor trip.id (replacement_input driver vehicle) now after_move).0;
        },
        (assign tx actor trip.id (replacement_input driver vehicle) now after_move).1,
      )
  unfolding replace after_move
  replace_eq driver vehicle t' found broken moved = ground (arith, found, broken, moved)

  moved_row :
      find_unique trip_id_of trip.id db.trip.trips ≡ some trip
      → trip.status ≡ TripStatus.breakdown
      → is_party actor trip ≡ true
      → ((transition tx actor trip.id TripStatus.reassigning now db.trip).1
          ≡ ok (advance TripStatus.reassigning now trip))
        × (find_unique trip_id_of trip.id after_move.trips
            ≡ some (advance TripStatus.reassigning now trip))
        × (after_move.assignments ≡ db.trip.assignments)
  unfolding after_move
  moved_row found broken party =
      let fine =
        transition_allowed tx actor trip.id TripStatus.reassigning now db.trip trip found party
          (ap (λ s. can_transition s TripStatus.reassigning) broken ∙ breakdown_edge) in
      let (t, w) =
        transition-Transitioned tx actor trip.id TripStatus.reassigning now db.trip fine in
      (fine, w.written trip.id ∙ ground arith, w.assignments_kept)

  party_after :
      is_party actor trip ≡ true → is_party actor (advance TripStatus.reassigning now trip) ≡ true
  unfolding advance
  party_after party = ground (arith, party)

  reassigning_apart :
      same_status (advance TripStatus.reassigning now trip).status TripStatus.breakdown ≡ false
  unfolding advance
  reassigning_apart = refl

  refused_again :
      (s : Db) (t : Trip) (other : AuthenticatedUser) (driver vehicle : Option ℕ) (later : ℕ)
      → find_unique trip_id_of trip.id s.trip.trips ≡ some t
      → same_status t.status TripStatus.breakdown ≡ false
      → replace tx other trip.id driver vehicle later s ≡ (s, err bad_request)
  unfolding replace
  refused_again s t other driver vehicle later found moved = ground (arith, found, moved)

  replaced :
      (driver vehicle : Option ℕ) (r : Db × Result Assignment) (n : ℕ) (a : Assignment)
      → r.1 ≡ ok a
      → a ≡ new_assignment n (replacement_input driver vehicle) trip.id
      → r.0.trip.assignments
        ≡ new_assignment n (replacement_input driver vehicle) trip.id
          ∷ supersede trip.id db.trip.assignments
      → Replaced driver vehicle db trip r
  unfolding replacement_input new_assignment
  replaced driver vehicle r n a returned made rows = record {
    assignment = a;
    returned = returned;
    driver_is = ap (λ x. x.driver_id) made;
    vehicle_is = ap (λ x. x.vehicle_id) made;
    unguarded = ap (λ x. x.guard_id) made;
    rows = rows ∙ ap (λ x. x ∷ supersede trip.id db.trip.assignments) (sym made);
    only =
        ap (keep (serves trip.id)) rows
        ∙ ground (arith, made, none_serves trip.id db.trip.assignments);
  }

  -- For a party's trip in BREAKDOWN a replacement either leaves the trip with one active assignment, of
  -- the driver and the vehicle that the input names and of no guard, whoever was assigned before; or it
  -- throws with the assignments as they were and the trip in REASSIGNING, from where every further call
  -- of `replace` for it throws.
  pub replace-outcome :
      (driver vehicle : Option ℕ)
      → find_unique trip_id_of trip.id db.trip.trips ≡ some trip
      → trip.status ≡ TripStatus.breakdown
      → is_party actor trip ≡ true
      → Replaced driver vehicle db trip (replace tx actor trip.id driver vehicle now db)
        ⊎ Stranded tx actor now db trip (replace tx actor trip.id driver vehicle now db)
  unfolding advance
  replace-outcome driver vehicle found broken party =
      let (fine, row, kept) = moved_row found broken party in
      let input = replacement_input driver vehicle in
      rw (replace_eq driver vehicle _ found broken fine)
        (elim (run-cases (assign tx actor trip.id input now after_move)) [
          | inr (e, refused) ↦
              let k =
                assign_refused-Keeps tx actor trip.id input now after_move _ e row
                  (party_after party) (ap (λ r. r.1) refused) in
              let still = ap (find_unique trip_id_of trip.id) k.trips ∙ row in
              inr (record {
                error = e;
                returned = ap (λ r. r.1) refused;
                rows = k.assignments ∙ kept;
                moved = still;
                stuck =
                    λ other d v later. refused_again _ _ other d v later still reassigning_apart;
              })
          | inl (a, done) ↦
              let (made, assigned) =
                assign-made tx actor trip.id input now after_move _ a row (party_after party)
                  (ap (λ r. r.1) done) in
              let rows =
                assigned.assignments
                ∙ ap
                    (λ l.
                      new_assignment after_move.next_id input trip.id
                      ∷ supersede (advance TripStatus.reassigning now trip).id l)
                    kept in
              inl (replaced driver vehicle _ (after_move.next_id) a (ap (λ r. r.1) done) made rows)
        ])

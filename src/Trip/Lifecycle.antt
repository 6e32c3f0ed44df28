-- ===== src/Trip/Lifecycle.antt =====
-- What a transition of a trip guarantees (apps/api/src/trip/trip.service.ts, `transition`).
use kruze.Base.{
  ℕ, ◌≡◌, refl, sym, ap, ◌∙◌, inl, inr, true, ◌&&◌, some, List, [], ◌∷◌, ◌==◌, if◌then◌else◌, arith,
  Option-cases, find?,
}
use mathlib.Core.Path.{subst}
use kruze.Base.Rows.{find_unique, update_row, find_unique-update_row}
use kruze.Base.Effects.{Error, ok, err, Transactions}
use kruze.Domain.{AuthenticatedUser}
use kruze.Trip.Machine.{TripStatus, can_transition}
use kruze.Trip.Store.{Trip, Db, trip_id_of, is_party}
use kruze.Trip.Service.{
  advance, update_versioned, find_trip, commit_transition, try_transition, transition,
}

find_unique-key :
    (id : ℕ) (ts : List Trip) (t : Trip) → find_unique trip_id_of id ts ≡ some t → t.id ≡ id
find_unique-key id [] t h = absurd (ground arith)
find_unique-key id (x ∷ ts) t h = ground (arith, find_unique-key id ts t)

pub find_unique-own :
    (id : ℕ) (ts : List Trip) (t : Trip)
    → find_unique trip_id_of id ts ≡ some t
    → find_unique trip_id_of t.id ts ≡ some t
find_unique-own id ts t h =
    subst (λ k. find_unique trip_id_of k ts ≡ some t) (sym (find_unique-key id ts t h)) h

pub find_version :
    (id : ℕ) (ts : List Trip) (t : Trip)
    → find_unique trip_id_of id ts ≡ some t
    → find? (λ x. x.id == id && x.version == t.version) ts ≡ some t
find_version id [] t h = absurd (ground arith)
find_version id (x ∷ ts) t h = ground (arith, find_version id ts t)

-- A transition that fails leaves every table as it was and publishes nothing.
pub transition_err_unchanged :
    (tx : Transactions Db) (actor : AuthenticatedUser) (trip_id : ℕ) (to : TripStatus) (now : ℕ)
    (db : Db) {e : Error}
    → (transition tx actor trip_id to now db).1 ≡ err e
    → (transition tx actor trip_id to now db).0 ≡ db
unfolding transition
transition_err_unchanged tx actor trip_id to now db h =
    ground (arith, tx.rolls_back db (try_transition tx actor trip_id to now db).0)

-- What a successful transition did, from the row that it read.
pub record Transitioned (actor : AuthenticatedUser) (to : TripStatus) (now : ℕ) (db db' : Db)
    (trip_id : ℕ) (t t' : Trip) : Type 0 where
  pub read : find_unique trip_id_of trip_id db.trips ≡ some t
  pub party : is_party actor t ≡ true
  pub allowed : can_transition t.status to ≡ true
  pub advanced : t' ≡ advance to now t
  pub written :
      (j : ℕ)
      → find_unique trip_id_of j db'.trips
        ≡ (if trip_id == j then some t' else find_unique trip_id_of j db.trips)
  pub rows : db'.trips ≡ update_row trip_id_of t.id (advance to now) db.trips
  pub assignments_kept : db'.assignments ≡ db.assignments
  pub next_id_kept : db'.next_id ≡ db.next_id

pub advance-keeps_id : (to : TripStatus) (now : ℕ) (t : Trip) → (advance to now t).id ≡ t.id
unfolding advance
advance-keeps_id to now t = refl

commit_trips :
    (actor : AuthenticatedUser) (t : Trip) (to : TripStatus) (now : ℕ) (db : Db)
    → find_unique trip_id_of t.id db.trips ≡ some t
    → ((commit_transition actor t to now db).1 ≡ ok (advance to now t))
      × ((commit_transition actor t to now db).0.trips
          ≡ update_row trip_id_of t.id (advance to now) db.trips)
      × ((commit_transition actor t to now db).0.assignments ≡ db.assignments)
      × ((commit_transition actor t to now db).0.next_id ≡ db.next_id)
unfolding commit_transition
commit_trips actor t to now db found =
    rw (find_version t.id db.trips t found, update_versioned) (refl, refl, refl, refl)

written_of :
    (actor : AuthenticatedUser) (t : Trip) (to : TripStatus) (now : ℕ) (db : Db) (j : ℕ)
    → find_unique trip_id_of t.id db.trips ≡ some t
    → find_unique trip_id_of j (commit_transition actor t to now db).0.trips
      ≡ (if t.id == j then some (advance to now t) else find_unique trip_id_of j db.trips)
written_of actor t to now db j found = rw (commit_trips actor t to now db found).1 (
    rw
      (find_unique-update_row trip_id_of t.id j (advance to now) db.trips (advance-keeps_id to now))
      (ground (arith, found)))

try_transition-step :
    (tx : Transactions Db) (actor : AuthenticatedUser) (trip_id : ℕ) (to : TripStatus) (now : ℕ)
    (db : Db) (t : Trip) {t' : Trip}
    → find_unique trip_id_of trip_id db.trips ≡ some t
    → (try_transition tx actor trip_id to now db).1 ≡ ok t'
    → (is_party actor t ≡ true)
      × (can_transition t.status to ≡ true)
      × (try_transition tx actor trip_id to now db ≡ commit_transition actor t to now db)
unfolding try_transition
try_transition-step tx actor trip_id to now db t found h = ground arith

transition-try :
    (tx : Transactions Db) (actor : AuthenticatedUser) (trip_id : ℕ) (to : TripStatus) (now : ℕ)
    (db : Db) {t' : Trip}
    → (transition tx actor trip_id to now db).1 ≡ ok t'
    → ((try_transition tx actor trip_id to now db).1 ≡ ok t')
      × ((transition tx actor trip_id to now db).0.trips
          ≡ (try_transition tx actor trip_id to now db).0.trips)
      × ((transition tx actor trip_id to now db).0.assignments
          ≡ (try_transition tx actor trip_id to now db).0.assignments)
      × ((transition tx actor trip_id to now db).0.next_id
          ≡ (try_transition tx actor trip_id to now db).0.next_id)
unfolding transition
transition-try tx actor trip_id to now db h = ground arith

try_transition-found :
    (tx : Transactions Db) (actor : AuthenticatedUser) (trip_id : ℕ) (to : TripStatus) (now : ℕ)
    (db : Db) {t' : Trip}
    → (try_transition tx actor trip_id to now db).1 ≡ ok t'
    → (t : Trip) × (find_unique trip_id_of trip_id db.trips ≡ some t)
unfolding try_transition
try_transition-found tx actor trip_id to now db h =
    elim (Option-cases (find_unique trip_id_of trip_id db.trips)) [
      | inl missing ↦ absurd (ground arith)
      | inr found ↦ found
    ]

-- A transition that succeeds was asked for by a party to the trip, follows an edge of the state
-- machine, and of the trips changes that one alone: its status, its version by one, and its times.
-- No assignment changes.
pub transition-Transitioned :
    (tx : Transactions Db) (actor : AuthenticatedUser) (trip_id : ℕ) (to : TripStatus) (now : ℕ)
    (db : Db) {t' : Trip}
    → (transition tx actor trip_id to now db).1 ≡ ok t'
    → (t : Trip) × Transitioned actor to now db
        (transition tx actor trip_id to now db).0
        trip_id
        t
        t'
transition-Transitioned tx actor trip_id to now db {t'} h =
    let (tried, trips, assignments, next) = transition-try tx actor trip_id to now db h in
    let (t, found) = try_transition-found tx actor trip_id to now db tried in
    let (party, allowed, stepped) = try_transition-step tx actor trip_id to now db t found tried in
    let key = find_unique-key trip_id db.trips t found in
    let found' = find_unique-own trip_id db.trips t found in
    let (result, rows, kept, counter) = commit_trips actor t to now db found' in
    let same : t' ≡ advance to now t = ground arith in
    (
      t,
      record {
        read = found;
        party = party;
        allowed = allowed;
        advanced = same;
        written = λ j.
            ap (find_unique trip_id_of j) (trips ∙ ap (λ r. r.0.trips) stepped)
            ∙ ground (arith, written_of actor t to now db j found', key, same);
        rows = trips ∙ ap (λ r. r.0.trips) stepped ∙ rows;
        assignments_kept = assignments ∙ ap (λ r. r.0.assignments) stepped ∙ kept;
        next_id_kept = next ∙ ap (λ r. r.0.next_id) stepped ∙ counter;
      },
    )

-- A party to a trip may follow any edge of the state machine.
pub transition_allowed :
    (tx : Transactions Db) (actor : AuthenticatedUser) (trip_id : ℕ) (to : TripStatus) (now : ℕ)
    (db : Db) (t : Trip)
    → find_unique trip_id_of trip_id db.trips ≡ some t
    → is_party actor t ≡ true
    → can_transition t.status to ≡ true
    → (transition tx actor trip_id to now db).1 ≡ ok (advance to now t)
unfolding transition try_transition find_trip
transition_allowed tx actor trip_id to now db t found party allowed =
    let (result, rows, kept, counter) =
      commit_trips actor t to now db (find_unique-own trip_id db.trips t found) in
    ground (arith, found, party, allowed, result)

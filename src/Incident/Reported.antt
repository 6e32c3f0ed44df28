-- ===== src/Incident/Reported.antt =====
-- What a report and a closing leave behind (apps/api/src/incident/incident.service.ts).
use kruze.Base.{
  ℕ, suc, ◌≡◌, ◌≢◌, refl, ap, ◌∙◌, inl, inr, true, false, Option, none, some, ◌∷◌, arith,
  Option-cases, is_some,
}
use kruze.Base.Rows.{find_unique, update_row, find_unique-update_row}
use kruze.Base.Effects.{ok, Transactions}
use kruze.Domain.{AuthenticatedUser}
use kruze.Trip.Machine.{TripStatus, can_transition}
use kruze.Trip.Store
use kruze.Trip.Store.{Trip, Message, trip_id_of, is_party}
use kruze.Trip.Service.{advance, transition}
use kruze.Trip.Lifecycle.{transition-Transitioned, transition_allowed, find_unique-own}
use kruze.Incident.{
  Incident, Db, ReportInput, incident_key, is_sos, is_closed, trip_of, publish_for, new_incident,
  raise_sos, alert, report, can_access, closed_row, close,
}

raise_sos-incidents :
    (tx : Transactions Store.Db) (actor : AuthenticatedUser) (o : Option Trip) (now : ℕ) (db : Db)
    → (raise_sos tx actor o now db).0.incidents ≡ db.incidents
unfolding raise_sos
raise_sos-incidents tx actor none now db = refl
raise_sos-incidents tx actor (some t) now db = ground arith

alert-incidents :
    (tx : Transactions Store.Db) (actor : AuthenticatedUser) (input : ReportInput) (o : Option Trip)
    (now : ℕ) (db : Db)
    → (alert tx actor input o now db).0.incidents ≡ db.incidents
unfolding alert
alert-incidents tx actor input o now db = ground (arith, raise_sos-incidents tx actor o now db)

-- The tables when the alert begins.
filed : AuthenticatedUser → ReportInput → Db → Db
filed actor input db =
    publish_for (trip_of input.trip_id db) (Message.incident_created db.next_id) (record db {
      incidents = new_incident actor input db.next_id ∷ db.incidents;
      next_id = suc db.next_id;
    })

filed-incidents :
    (actor : AuthenticatedUser) (input : ReportInput) (db : Db)
    → (filed actor input db).incidents ≡ new_incident actor input db.next_id ∷ db.incidents
unfolding filed publish_for
filed-incidents actor input db = elim (Option-cases (trip_of input.trip_id db)) [
  | inl missing ↦ rw missing refl
  | inr (t, found) ↦ rw found refl
]

report-alert :
    (tx : Transactions Store.Db) (actor : AuthenticatedUser) (input : ReportInput) (now : ℕ)
    (db : Db)
    → (report tx actor input now db).0
      ≡ (alert tx actor input (trip_of input.trip_id db) now (filed actor input db)).0
unfolding report filed new_incident trip_of
report-alert tx actor input now db = elim (Option-cases input.trip_id) [
  | inl none_given ↦ ground (arith, none_given)
  | inr (id, given) ↦ ground (arith, given)
]

-- Whatever becomes of the trip, and also when the report ends in an exception, the incident is recorded,
-- once and OPEN, and the other incidents stay.
report_records :
    (tx : Transactions Store.Db) (actor : AuthenticatedUser) (input : ReportInput) (now : ℕ)
    (db : Db)
    → (report tx actor input now db).0.incidents
      ≡ new_incident actor input db.next_id ∷ db.incidents
report_records tx actor input now db =
    ap (λ s. s.incidents) (report-alert tx actor input now db)
    ∙ (alert-incidents tx actor input (trip_of input.trip_id db) now (filed actor input db)
        ∙ filed-incidents actor input db)

filed-trips :
    (actor : AuthenticatedUser) (input : ReportInput) (db : Db)
    → (filed actor input db).trip.trips ≡ db.trip.trips
unfolding filed publish_for
filed-trips actor input db = elim (Option-cases (trip_of input.trip_id db)) [
  | inl missing ↦ rw missing refl
  | inr (t, found) ↦ rw found refl
]

trip_of-found :
    (o : Option ℕ) (db : Db) (t : Trip)
    → trip_of o db ≡ some t
    → (is_some o ≡ true) × (find_unique trip_id_of t.id db.trip.trips ≡ some t)
unfolding trip_of
trip_of-found none db t h = absurd (ground arith)
trip_of-found (some id) db t h = (refl, find_unique-own id db.trip.trips t h)

raise_sos-trip :
    (tx : Transactions Store.Db) (actor : AuthenticatedUser) (t : Trip) (now : ℕ) (db : Db)
    → can_transition t.status TripStatus.sos_active ≡ true
    → (raise_sos tx actor (some t) now db).0.trip
      ≡ (transition tx actor t.id TripStatus.sos_active now db.trip).0
unfolding raise_sos
raise_sos-trip tx actor t now db allowed = ground (arith, allowed)

alert-raises :
    (tx : Transactions Store.Db) (actor : AuthenticatedUser) (input : ReportInput) (o : Option Trip)
    (now : ℕ) (db : Db)
    → is_sos input.category ≡ true
    → is_some input.trip_id ≡ true
    → alert tx actor input o now db ≡ raise_sos tx actor o now db
unfolding alert
alert-raises tx actor input o now db urgent named = ground (arith, urgent, named)

-- An SOS that a party reports on a trip whose state allows it brings that trip into SOS_ACTIVE.
report_raises :
    (tx : Transactions Store.Db) (actor : AuthenticatedUser) (input : ReportInput) (now : ℕ)
    (db : Db) (t : Trip)
    → is_sos input.category ≡ true
    → trip_of input.trip_id db ≡ some t
    → is_party actor t ≡ true
    → can_transition t.status TripStatus.sos_active ≡ true
    → find_unique trip_id_of t.id (report tx actor input now db).0.trip.trips
      ≡ some (advance TripStatus.sos_active now t)
report_raises tx actor input now db t urgent named party allowed =
    let (given, found) = trip_of-found input.trip_id db t named in
    let s = filed actor input db in
    let found' : find_unique trip_id_of t.id s.trip.trips ≡ some t =
      rw (filed-trips actor input db) found in
    let done =
      transition_allowed tx actor t.id TripStatus.sos_active now s.trip t found' party allowed in
    let (t', moved) = transition-Transitioned tx actor t.id TripStatus.sos_active now s.trip done in
    let same : t' ≡ t = ground (arith, moved.read, found') in
    rw
      (
        report-alert tx actor input now db,
        named,
        alert-raises tx actor input (some t) now s urgent given,
        raise_sos-trip tx actor t now s allowed,
      )
      (ground (arith, moved.written t.id))

-- What a closing that succeeds has read and written.
record Closes (actor : AuthenticatedUser) (id action now : ℕ) (db db' : Db) : Type 0 where
  row : Incident
  found : find_unique incident_key id db.incidents ≡ some row
  still_open : is_closed row.status ≡ false
  access : can_access actor row (trip_of row.trip_id db) ≡ true
  rows : db'.incidents ≡ update_row incident_key id (closed_row actor action now) db.incidents

close-Closes :
    (actor : AuthenticatedUser) (id action now : ℕ) (db : Db)
    → (close actor id action now db).1 ≡ ok tt
    → Closes actor id action now db (close actor id action now db).0
unfolding close publish_for
close-Closes actor id action now db h =
    elim (Option-cases (find_unique incident_key id db.incidents)) [
      | inl missing ↦ absurd (ground arith)
      | inr (i, found) ↦ record {
        row = i;
        found = found;
        still_open = ground arith;
        access = ground arith;
        rows = ground (arith, found);
      }
    ]

-- An incident is closed once: a closing that succeeds found it not closed, by someone with access to it,
-- and leaves its row CLOSED, so that no further call closes it.
close_once :
    (actor later : AuthenticatedUser) (id action action' now now' : ℕ) (db : Db)
    → (close actor id action now db).1 ≡ ok tt
    → (i : Incident) × (find_unique incident_key id db.incidents ≡ some i)
      × (is_closed i.status ≡ false)
      × (can_access actor i (trip_of i.trip_id db) ≡ true)
      × (find_unique incident_key id (close actor id action now db).0.incidents
          ≡ some (closed_row actor action now i))
      × ((close later id action' now' (close actor id action now db).0).1 ≢ ok tt)
close_once actor later id action action' now now' db h =
    let x = close-Closes actor id action now db h in
    let row : find_unique incident_key id (close actor id action now db).0.incidents
        ≡ some (closed_row actor action now x.row) =
      ground (
        arith,
        x.rows,
        x.found,
        find_unique-update_row incident_key id id (closed_row actor action now) db.incidents
            (λ r. refl),
      ) in
    (
      x.row,
      x.found,
      x.still_open,
      x.access,
      row,
      λ again.
          let y = close-Closes later id action' now' (close actor id action now db).0 again in
          ground (arith, row, y.found, y.still_open),
    )

-- ===== src/Trip/Versions.antt =====
-- Two transitions that read the same row (apps/api/src/trip/trip.service.ts, `transition`): the
-- `where: { id, version }` of the update is the lock.
use kruze.Base.{
  ℕ, ◌≡◌, refl, ap, ◌≢◌, ◌&&◌, none, some, List, [], ◌∷◌, ◌==◌, arith, find?, All, Bool-cases,
  Option-cases, inl, inr,
}
use kruze.Base.Rows.{update_row, Distinct}
use kruze.Base.Effects.{ok, err, record_missing}
use kruze.Domain.{AuthenticatedUser}
use kruze.Trip.Machine.{TripStatus}
use kruze.Trip.Store.{Trip, Db, trip_id_of}
use kruze.Trip.Service.{advance, update_versioned, commit_transition}

-- No row of the table has this identifier and version.
abbrev Stale : ℕ → ℕ → List Trip → Type 0
Stale id version ts = find? (λ t. t.id == id && t.version == version) ts ≡ none

Stale-absent :
    (id version j : ℕ) (f : Trip → Trip) (ts : List Trip)
    → j ≡ id
    → All (λ t. t.id ≢ j) ts
    → Stale id version (update_row trip_id_of id f ts)
Stale-absent id version j f [] e h = refl
Stale-absent id version j f (t ∷ ts) e h = ground (arith, Stale-absent id version j f ts e h.1)

find_absent :
    (id version j : ℕ) (ts : List Trip) → j ≡ id → All (λ t. t.id ≢ j) ts → Stale id version ts
find_absent id version j [] e h = refl
find_absent id version j (t ∷ ts) e h = ground (arith, find_absent id version j ts e h.1)

Stale-updated :
    (id version : ℕ) (to : TripStatus) (now : ℕ) (ts : List Trip) {t : Trip}
    → Distinct trip_id_of ts
    → find? (λ t. t.id == id && t.version == version) ts ≡ some t
    → Stale id version (update_row trip_id_of id (advance to now) ts)
unfolding advance
Stale-updated id version to now [] d h = absurd (ground arith)
Stale-updated id version to now (t ∷ ts) {t = u} d h = elim (Bool-cases (t.id == id)) [
  | inl same ↦
      let e : t.id ≡ id = ground arith in
      ground (
        arith,
        Stale-absent id version t.id (advance to now) ts e d.0,
        find_absent id version t.id ts e d.0,
      )
  | inr other ↦
      let later : find? (λ x. x.id == id && x.version == version) ts ≡ some u = ground arith in
      ground (arith, Stale-updated id version to now ts {t = u} d.1 later)
]

commit-Stale :
    (actor : AuthenticatedUser) (t : Trip) (to : TripStatus) (now : ℕ) (db : Db)
    → Stale t.id t.version db.trips
    → commit_transition actor t to now db ≡ (db, err record_missing)
unfolding commit_transition
commit-Stale actor t to now db h = rw (h, update_versioned) refl

commit_rows :
    (actor : AuthenticatedUser) (t : Trip) (to : TripStatus) (now : ℕ) (db : Db) (x : Trip)
    → find? (λ y. y.id == t.id && y.version == t.version) db.trips ≡ some x
    → (commit_transition actor t to now db).0.trips
      ≡ update_row trip_id_of t.id (advance to now) db.trips
unfolding commit_transition
commit_rows actor t to now db x h = rw (h, update_versioned) refl

-- Trips having distinct identifiers, of two transitions that read the same row of one, the one that
-- commits second is refused with P2025 and changes nothing, whoever asks for it and whatever it asks
-- for.
pub commit_transition_once :
    (first second : AuthenticatedUser) (t : Trip) (to to' : TripStatus) (now now' : ℕ) (db : Db)
    {t' : Trip}
    → Distinct trip_id_of db.trips
    → (commit_transition first t to now db).1 ≡ ok t'
    → commit_transition second t to' now' (commit_transition first t to now db).0
      ≡ ((commit_transition first t to now db).0, err record_missing)
commit_transition_once first second t to to' now now' db d h =
    elim (Option-cases (find? (λ x. x.id == t.id && x.version == t.version) db.trips)) [
      | inl missing ↦ absurd (cc (ap (λ r. r.1) (commit-Stale first t to now db missing)))
      | inr (x, found) ↦ commit-Stale second t to' now' _ (
          rw (commit_rows first t to now db x found)
            (Stale-updated t.id t.version to now db.trips d found))
    ]

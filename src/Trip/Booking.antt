-- ===== src/Trip/Booking.antt =====
-- No resource is double-booked: what TripService's comment on `assign` promises
-- (apps/api/src/trip/trip.service.ts), over every sequence of calls that do not interleave.
use kruze.Base.{
  ℕ, ◌<◌, ◌≡◌, sym, ap, ◌∙◌, ◌≢◌, inl, inr, true, false, ◌&&◌, some, List, [], ◌∷◌, Memᴰ, ◌==◌,
  arith, Bool-cases,
}
use kruze.Base.Rows.{find_unique}
use kruze.Trip.Store.{Trip, Assignment, trip_id_of, is_active}
use kruze.Trip.Assign.{
  AssignInput, Field, resource, is_live, window_end, conflicting, new_assignment, supersede,
}

-- Two active assignments of one resource, to different trips that are live and whose windows meet.
-- A trip with no scheduled end lasts two hours, as in `assign`.
pub record Clash (field : Field) (trips : List Trip) (a b : Assignment) : Type 0 where
  pub t : Trip
  pub u : Trip
  pub id : ℕ
  pub trip_a : find_unique trip_id_of a.trip_id trips ≡ some t
  pub trip_b : find_unique trip_id_of b.trip_id trips ≡ some u
  pub apart : a.trip_id ≢ b.trip_id
  pub live : (is_live t.status ≡ true) × (is_live u.status ≡ true)
  pub active : (is_active a.status ≡ true) × (is_active b.status ≡ true)
  pub shared : (resource field a ≡ some id) × (resource field b ≡ some id)
  pub meet : (u.scheduled_start_at < window_end t) × (t.scheduled_start_at < window_end u)

abbrev pub NoClash : Field → List Trip → List Assignment → Type 0
NoClash field trips rows = (a b : Assignment) → Memᴰ a rows → Memᴰ b rows → ¬ Clash field trips a b

Clash-symm :
    (field : Field) (trips : List Trip) (a b : Assignment)
    → Clash field trips a b
    → Clash field trips b a
Clash-symm field trips a b c = record {
  t = c.u;
  u = c.t;
  id = c.id;
  trip_a = c.trip_b;
  trip_b = c.trip_a;
  apart = λ e. c.apart (sym e);
  live = (c.live.1, c.live.0);
  active = (c.active.1, c.active.0);
  shared = (c.shared.1, c.shared.0);
  meet = (c.meet.1, c.meet.0);
}

-- Every trip that is live afterwards was live before, with the same schedule.
abbrev pub Shadows : List Trip → List Trip → ℕ → Type 0
Shadows trips trips' j =
    (t' : Trip)
    → find_unique trip_id_of j trips' ≡ some t'
    → is_live t'.status ≡ true
    → (t : Trip) × (find_unique trip_id_of j trips ≡ some t)
      × (is_live t.status ≡ true)
      × (t.scheduled_start_at ≡ t'.scheduled_start_at)
      × (t.scheduled_end_at ≡ t'.scheduled_end_at)

pub NoClash-Shadows :
    (field : Field) (trips trips' : List Trip) (rows : List Assignment)
    → ((a : Assignment) → Memᴰ a rows → Shadows trips trips' a.trip_id)
    → NoClash field trips rows
    → NoClash field trips' rows
NoClash-Shadows field trips trips' rows shadows none_before a b ma mb c =
    let (t, found_t, live_t, start_t, end_t) = shadows a ma c.t c.trip_a c.live.0 in
    let (u, found_u, live_u, start_u, end_u) = shadows b mb c.u c.trip_b c.live.1 in
    none_before a b ma mb (record {
      t = t;
      u = u;
      id = c.id;
      trip_a = found_t;
      trip_b = found_u;
      apart = c.apart;
      live = (live_t, live_u);
      active = c.active;
      shared = c.shared;
      meet = ground (arith, c.meet);
    })

-- An active row of the table after `updateMany` was there before, and is of another trip.
supersede-active :
    (trip_id : ℕ) (rows : List Assignment) (a : Assignment)
    → Memᴰ a (supersede trip_id rows)
    → is_active a.status ≡ true
    → Memᴰ a rows × (a.trip_id ≢ trip_id)
unfolding supersede
supersede-active trip_id [] a m active = elim m [ ]
supersede-active trip_id (r ∷ rows) a (Memᴰ.head e) active =
    elim (Bool-cases (r.trip_id == trip_id && is_active r.status)) [
      | inl hit ↦ absurd (ground arith)
      | inr miss ↦ (Memᴰ.head (ground arith), ground arith)
    ]
supersede-active trip_id (r ∷ rows) a (Memᴰ.tail m) active =
    let (before, other) = supersede-active trip_id rows a m active in (Memᴰ.tail before, other)

module _ (field : Field) (trips : List Trip) (trip : Trip) (input : AssignInput) (next : ℕ)
    (rows : List Assignment) (found : find_unique trip_id_of trip.id trips ≡ some trip)
    (clear : (b : Assignment) (id : ℕ)
      → resource field (new_assignment next input trip.id) ≡ some id
      → Memᴰ b rows
      → conflicting trips field id trip.id trip.scheduled_start_at (window_end trip) b
        ≡ false) where
  new-Clash :
      (b : Assignment)
      → Memᴰ b rows
      → b.trip_id ≢ trip.id
      → ¬ Clash field trips (new_assignment next input trip.id) b
  unfolding conflicting new_assignment
  new-Clash b m other c = ground (
    arith,
    found,
    clear b c.id c.shared.0 m,
    c.trip_a,
    c.trip_b,
    c.live,
    c.active,
    c.shared,
    c.meet,
  )

  -- A new assignment that passed the checks clashes with none that stays active.
  pub NoClash-insert :
      NoClash field trips rows
      → NoClash field trips (new_assignment next input trip.id ∷ supersede trip.id rows)
  NoClash-insert before a b (Memᴰ.head ea) (Memᴰ.head eb) c =
      c.apart (ap (λ (x : Assignment). x.trip_id) (ea ∙ sym eb))
  NoClash-insert before a b (Memᴰ.head ea) (Memᴰ.tail mb) c =
      let (m, other) = supersede-active trip.id rows b mb c.active.1 in
      new-Clash b m other (rw ea at c)
  NoClash-insert before a b (Memᴰ.tail ma) (Memᴰ.head eb) c =
      let (m, other) = supersede-active trip.id rows a ma c.active.0 in
      new-Clash a m other (Clash-symm field trips a _ (rw eb at c))
  NoClash-insert before a b (Memᴰ.tail ma) (Memᴰ.tail mb) c =
      before a b (supersede-active trip.id rows a ma c.active.0).0
        (supersede-active trip.id rows b mb c.active.1).0 c

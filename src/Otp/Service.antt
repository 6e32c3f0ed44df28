-- ===== src/Otp/Service.antt =====
-- apps/api/src/otp/otp.service.ts. `code` and `now` stand for the random number and the clock.
use kruze.Base.{
  ℕ, suc, ◌+◌, Bool, not, ◌&&◌, ◌||◌, Option, none, some, List, ◌∷◌, ltb, leb, ◌==◌, if◌then◌else◌,
  is_id, find?,
}
use kruze.Base.Effects.{
  bad_request, forbidden, not_found, ok, M, return, throw, gets, or_throw, modify, require, ◌>>=◌,
  ◌>>◌, Transactions, transaction,
}
use kruze.Domain.{AuthenticatedUser, is_super_admin, is_supervisor, is_employee}
use kruze.Trip.Store.{Employee, TripEmployee, TripEmployeeStatus, EventType, is_party}
use kruze.Otp.Store.{
  OtpPurpose, OtpStatus, Argon2, Challenge, Db, otp_ttl_ms, is_pickup, same_purpose, is_pending,
  log_event, update_challenge, update_passenger, find_passenger, find_challenge, trip_of,
}

module _ (actor : AuthenticatedUser) where
  -- the employee behind the acting user, if any
  own_employee : List Employee → Option ℕ
  own_employee es = elim (find? (λ (e : Employee). is_id e.user_id actor.user_id) es) [
    | none ↦ none
    | some e ↦ some e.id
  ]

  -- An employee may ask for the passenger's own challenge only.
  may_generate : TripEmployee → Db → Bool
  unfolding own_employee
  may_generate p db =
      not (is_employee actor.role) || is_id (own_employee db.trip.employees) p.employee_id

  insert_challenge : Argon2 → TripEmployee → OtpPurpose → ℕ → ℕ → M Db ℕ
  insert_challenge argon2 p purpose code now db =
      let trip = db.trip in
      (
        record db {
          trip = record trip { next_id = suc trip.next_id };
          challenges =
              record {
                id = trip.next_id;
                trip_id = p.trip_id;
                trip_employee_id = p.id;
                purpose = purpose;
                code_hash = argon2.hash code;
                expires_at = now + otp_ttl_ms;
                attempts = 0;
                max_attempts = 5;
                status = OtpStatus.pending;
                verified_at = none;
                verified_by_user_id = none;
              }
              ∷ db.challenges;
        },
        ok trip.next_id,
      )

  -- `code` is `randomInt(0, 10 ** 6)`; the result is the challenge's identifier.
  unfoldable pub generate : Argon2 → ℕ → OtpPurpose → ℕ → ℕ → M Db ℕ
  unfolding find_passenger trip_of may_generate insert_challenge
  generate argon2 trip_employee_id purpose code now = do
    p ← find_passenger trip_employee_id
    trip ← trip_of p.trip_id
    require (is_party actor trip) forbidden
    allowed ← gets (may_generate p)
    require allowed forbidden
    id ← insert_challenge argon2 p purpose code now
    modify (
        log_event (record {
          trip_id = p.trip_id;
          type = EventType.otp_generated (is_pickup purpose);
          actor_user_id = some actor.user_id;
        }))
    return id

  -- the newest pending challenge of a passenger
  unfoldable pub find_pending : ℕ → OtpPurpose → M Db Challenge
  unfolding find_passenger trip_of
  find_pending trip_employee_id purpose = do
    p ← find_passenger trip_employee_id
    trip ← trip_of p.trip_id
    require (is_party actor trip) forbidden
    found ← gets (λ db.
        find?
          (λ (c : Challenge).
            c.trip_employee_id == trip_employee_id
            && same_purpose c.purpose purpose
            && is_pending c.status)
          db.challenges)
    or_throw found not_found

  -- the writes of `verify` after a code that is right
  unfoldable pub settle_challenge : Challenge → ℕ → M Db (Unit {0})
  unfolding update_challenge update_passenger
  settle_challenge c now = do
    modify (
        update_challenge c.id
          (λ x. record x { status = OtpStatus.verified; verified_at = some now }))
    modify (
        update_passenger c.trip_employee_id (λ x. record x {
          status =
              if is_pickup c.purpose
              then TripEmployeeStatus.pickup_verified
              else TripEmployeeStatus.drop_verified;
          pickup_verified_at = if is_pickup c.purpose then some now else x.pickup_verified_at;
          drop_verified_at = if is_pickup c.purpose then x.drop_verified_at else some now;
        }))
    modify (
        log_event (record {
          trip_id = c.trip_id;
          type = EventType.otp_verified (is_pickup c.purpose);
          actor_user_id = none;
        }))

  -- `update`, then `throw`
  fail_with : ℕ → (Challenge → Challenge) → M Db (Unit {0})
  unfolding update_challenge
  fail_with id f = do modify (update_challenge id f); throw bad_request

  count_attempt : Challenge → Challenge → Challenge
  count_attempt c x = record x {
    attempts = c.attempts + 1;
    status = if leb c.max_attempts (c.attempts + 1) then OtpStatus.locked else OtpStatus.pending;
  }

  -- the tests of `verify` on a challenge that was found, in the code's order
  unfoldable pub judge : Argon2 → Challenge → ℕ → ℕ → M Db (Unit {0})
  unfolding fail_with count_attempt settle_challenge
  judge argon2 c code now =
      if not (is_pending c.status)
      then throw bad_request
      else if ltb c.expires_at now
      then fail_with c.id (λ x. record x { status = OtpStatus.expired })
      else if leb c.max_attempts c.attempts
      then fail_with c.id (λ x. record x { status = OtpStatus.locked })
      else if argon2.verify c.code_hash code
      then settle_challenge c now
      else fail_with c.id (count_attempt c)

  -- the body of the transaction of `verify`
  unfoldable pub try_verify : Argon2 → ℕ → ℕ → ℕ → M Db (Unit {0})
  unfolding find_challenge trip_of
  try_verify argon2 id code now = do
    c ← find_challenge id
    trip ← trip_of c.trip_id
    require (is_party actor trip) forbidden
    judge argon2 c code now

  unfoldable pub verify : Transactions Db → Argon2 → ℕ → ℕ → ℕ → M Db (Unit {0})
  verify tx argon2 id code now = transaction tx (try_verify argon2 id code now)

  -- the body of the transaction of `override`
  unfoldable pub try_override : ℕ → ℕ → M Db (Unit {0})
  unfolding find_challenge trip_of update_challenge update_passenger
  try_override id now = do
    c ← find_challenge id
    trip ← trip_of c.trip_id
    require (is_super_admin actor.role || is_party actor trip) forbidden
    modify (
        update_challenge id (λ x. record x {
          status = OtpStatus.overridden;
          verified_by_user_id = some actor.user_id;
          verified_at = some now;
        }))
    modify (
        update_passenger c.trip_employee_id
          (λ x. record x { status = TripEmployeeStatus.overridden }))
    modify (
        log_event (record {
          trip_id = c.trip_id;
          type = EventType.otp_overridden (is_pickup c.purpose);
          actor_user_id = some actor.user_id;
        }))

  unfoldable pub override : Transactions Db → ℕ → ℕ → M Db (Unit {0})
  override tx id now = do
    require (is_supervisor actor.role || is_super_admin actor.role) forbidden
    transaction tx (try_override id now)

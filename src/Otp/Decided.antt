-- ===== src/Otp/Decided.antt =====
-- A challenge that is decided stays so under every operation of the service
-- (apps/api/src/otp/otp.service.ts).
use kruze.Base.{
  ℕ, suc, ◌+◌, ◌<◌, ◌≡◌, refl, sym, ap, ◌∙◌, inl, inr, false, none, some, ◌∷◌, ◌==◌, arith,
  Bool-cases, Option-cases,
}
use mathlib.Core.Path.{subst}
use kruze.Base.Rows.{find_unique, update_row, find_unique-update_row}
use kruze.Base.Effects.{Error, ok, err, Transactions, run-cases}
use kruze.Domain.{AuthenticatedUser}
use kruze.Trip.Store.{trip_id_of}
use kruze.Otp.Store.{
  OtpPurpose, OtpStatus, Argon2, Challenge, Db, challenge_id, is_pending, passenger_id, otp_ttl_ms,
  find_passenger, find_challenge, trip_of, update_challenge, update_passenger,
}
use kruze.Otp.Service.{generate, settle_challenge, verify, try_override, override}
use kruze.Otp.Verify.{verify-settles}
use kruze.Otp.Guesses.{verify_err_unchanged}

-- The challenge of that identifier, which has been handed out, is not pending.
pub record Decided (id : ℕ) (db : Db) : Type 0 where
  pub challenge : Challenge
  pub found : find_unique challenge_id id db.challenges ≡ some challenge
  pub decided : is_pending challenge.status ≡ false
  pub old : id < db.trip.next_id

-- A change of one row keeps a decided challenge if it leaves a decided row decided.
update-Decided :
    (id other : ℕ) (f : Challenge → Challenge) (db after : Db)
    → ((c : Challenge) → (f c).id ≡ c.id)
    → ((c : Challenge) → is_pending c.status ≡ false → is_pending (f c).status ≡ false)
    → after.challenges ≡ update_row challenge_id other f db.challenges
    → after.trip.next_id ≡ db.trip.next_id
    → Decided id db
    → Decided id after
update-Decided id other f db after same keeps rows next d =
    let moved = find_unique-update_row challenge_id other id f db.challenges same in
    elim (Bool-cases (other == id)) [
      | inl hit ↦ record {
        challenge = f d.challenge;
        found = ap (find_unique challenge_id id) rows ∙ moved ∙ ground (arith, hit, d.found);
        decided = keeps d.challenge d.decided;
        old = ground (arith, next, d.old);
      }
      | inr miss ↦ record {
        challenge = d.challenge;
        found = ap (find_unique challenge_id id) rows ∙ moved ∙ ground (arith, miss, d.found);
        decided = d.decided;
        old = ground (arith, next, d.old);
      }
    ]

module _ (actor : AuthenticatedUser) (id : ℕ) where
  settle-Decided :
      (c : Challenge) (now : ℕ) (db : Db)
      → Decided id db
      → Decided id (settle_challenge actor c now db).0
  unfolding settle_challenge update_challenge update_passenger
  settle-Decided c now db d =
      update-Decided id c.id (λ x. record x { status = OtpStatus.verified; verified_at = some now })
        db _ (λ x. refl) (λ x h. refl) refl refl d

  pub verify-Decided :
      (tx : Transactions Db) (argon2 : Argon2) (other code now : ℕ) (db : Db)
      → Decided id db
      → Decided id (verify actor tx argon2 other code now db).0
  verify-Decided tx argon2 other code now db d =
      elim (run-cases (verify actor tx argon2 other code now db)) [
        | inl (u, done) ↦
            let (c, settles) =
              verify-settles tx actor argon2 other code now db (ap (λ r. r.1) done) in
            subst (Decided id) (sym settles) (settle-Decided c now db d)
        | inr (e, refused) ↦
            subst (Decided id)
              (sym (
                verify_err_unchanged tx actor argon2 other code now db
                  (λ h. ground (arith, h, ap (λ r. r.1) refused))))
              d
      ]

  generate_err :
      (argon2 : Argon2) (passenger : ℕ) (purpose : OtpPurpose) (code now : ℕ) (db : Db) (e : Error)
      → (generate actor argon2 passenger purpose code now db).1 ≡ err e
      → (generate actor argon2 passenger purpose code now db).0 ≡ db
  unfolding generate find_passenger trip_of
  generate_err argon2 passenger purpose code now db e h =
      elim (Option-cases (find_unique passenger_id passenger db.trip.trip_employees)) [
        | inl missing ↦ ground arith
        | inr (p, found) ↦ elim (Option-cases (find_unique trip_id_of p.trip_id db.trip.trips)) [
          | inl gone ↦ ground arith
          | inr (trip, of_trip) ↦ ground arith
        ]
      ]

  -- a challenge is added under the next identifier
  record Added (db after : Db) : Type 0 where
    row : Challenge
    fresh : row.id ≡ db.trip.next_id
    rows : after.challenges ≡ row ∷ db.challenges
    next : after.trip.next_id ≡ suc db.trip.next_id

  generate_ok :
      (argon2 : Argon2) (passenger : ℕ) (purpose : OtpPurpose) (code now : ℕ) (db : Db) (n : ℕ)
      → (generate actor argon2 passenger purpose code now db).1 ≡ ok n
      → Added db (generate actor argon2 passenger purpose code now db).0
  unfolding generate find_passenger trip_of
  generate_ok argon2 passenger purpose code now db n h =
      elim (Option-cases (find_unique passenger_id passenger db.trip.trip_employees)) [
        | inl missing ↦ absurd (ground arith)
        | inr (p, found) ↦ elim (Option-cases (find_unique trip_id_of p.trip_id db.trip.trips)) [
          | inl gone ↦ absurd (ground arith)
          | inr (trip, of_trip) ↦ record {
            row = record {
              id = db.trip.next_id;
              trip_id = p.trip_id;
              trip_employee_id = p.id;
              purpose = purpose;
              code_hash = argon2.hash code;
              expires_at = now + otp_ttl_ms;
              attempts = 0;
              max_attempts = 5;
              status = OtpStatus.pending;
              verified_at = none;
              verified_by_user_id = none;
            };
            fresh = refl;
            rows = ground arith;
            next = ground arith;
          }
        ]
      ]

  pub generate-Decided :
      (argon2 : Argon2) (passenger : ℕ) (purpose : OtpPurpose) (code now : ℕ) (db : Db)
      → Decided id db
      → Decided id (generate actor argon2 passenger purpose code now db).0
  generate-Decided argon2 passenger purpose code now db d =
      elim (run-cases (generate actor argon2 passenger purpose code now db)) [
        | inr (e, refused) ↦
            subst (Decided id)
              (sym (generate_err argon2 passenger purpose code now db e (ap (λ r. r.1) refused))) d
        | inl (n, done) ↦
            let a = generate_ok argon2 passenger purpose code now db n (ap (λ r. r.1) done) in
            record {
              challenge = d.challenge;
              found =
                  ap (find_unique challenge_id id) a.rows ∙ ground (arith, a.fresh, d.old, d.found);
              decided = d.decided;
              old = ground (arith, a.next, d.old);
            }
      ]

  override_err :
      (tx : Transactions Db) (other now : ℕ) (db : Db) (e : Error)
      → (override actor tx other now db).1 ≡ err e
      → (override actor tx other now db).0 ≡ db
  unfolding override
  override_err tx other now db e h =
      ground (arith, tx.rolls_back db (try_override actor other now db).0)

  override_ok :
      (tx : Transactions Db) (other now : ℕ) (db : Db)
      → (override actor tx other now db).1 ≡ ok tt
      → ((override actor tx other now db).0.challenges
          ≡ update_row challenge_id other
              (λ x. record x {
                status = OtpStatus.overridden;
                verified_by_user_id = some actor.user_id;
                verified_at = some now;
              })
              db.challenges)
        × ((override actor tx other now db).0.trip.next_id ≡ db.trip.next_id)
  unfolding override try_override find_challenge trip_of update_challenge update_passenger
  override_ok tx other now db h =
      elim (Option-cases (find_unique challenge_id other db.challenges)) [
        | inl missing ↦ absurd (ground arith)
        | inr (c, found) ↦ elim (Option-cases (find_unique trip_id_of c.trip_id db.trip.trips)) [
          | inl gone ↦ absurd (ground arith)
          | inr (trip, of_trip) ↦ (ground arith, ground arith)
        ]
      ]

  pub override-Decided :
      (tx : Transactions Db) (other now : ℕ) (db : Db)
      → Decided id db
      → Decided id (override actor tx other now db).0
  override-Decided tx other now db d = elim (run-cases (override actor tx other now db)) [
    | inr (e, refused) ↦
        subst (Decided id) (sym (override_err tx other now db e (ap (λ r. r.1) refused))) d
    | inl (u, done) ↦
        let (rows, next) = override_ok tx other now db (ap (λ r. r.1) done) in
        update-Decided id other _ db _ (λ x. refl) (λ x h. refl) rows next d
  ]

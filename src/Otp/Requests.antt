-- ===== src/Otp/Requests.antt =====
-- What any requests to the service leave of a challenge that is decided
-- (apps/api/src/otp/otp.service.ts).
use kruze.Base.{ℕ, ◌<◌, ◌≡◌, refl, sym, ap, ◌∙◌, ◌≢◌, some, List, [], ◌∷◌, arith}
use kruze.Base.Effects.{ok, Transactions}
use kruze.Domain.{AuthenticatedUser}
use kruze.Otp.Store.{
  OtpPurpose, OtpStatus, Argon2, Challenge, Db, update_challenge, update_passenger,
}
use kruze.Otp.Service.{generate, settle_challenge, verify, override}
use kruze.Otp.Decided.{Decided, generate-Decided, verify-Decided, override-Decided}
use kruze.Otp.Verify.{verify-Accepts, verify-settles}

-- a request to the service
pub data Request : Type 0 where
  generates : ℕ → OtpPurpose → ℕ → ℕ → Request
  verifies : ℕ → ℕ → ℕ → Request
  overrides : ℕ → ℕ → Request

module _ (tx : Transactions Db) (argon2 : Argon2) where
  unfoldable pub step : Db → AuthenticatedUser × Request → Db
  step db (actor, generates passenger purpose code now) =
      (generate actor argon2 passenger purpose code now db).0
  step db (actor, verifies id code now) = (verify actor tx argon2 id code now db).0
  step db (actor, overrides id now) = (override actor tx id now db).0

  unfoldable pub run : Db → List (AuthenticatedUser × Request) → Db
  unfolding step
  run db [] = db
  run db (r ∷ rs) = run (step db r) rs

settle_next :
    (actor : AuthenticatedUser) (c : Challenge) (now : ℕ) (db : Db)
    → (settle_challenge actor c now db).0.trip.next_id ≡ db.trip.next_id
unfolding settle_challenge update_challenge update_passenger
settle_next actor c now db = refl

module _ (tx : Transactions Db) (argon2 : Argon2) (id : ℕ) where
  run-Decided :
      (rs : List (AuthenticatedUser × Request)) (db : Db)
      → Decided id db
      → Decided id (run tx argon2 db rs)
  unfolding run step
  run-Decided [] db d = d
  run-Decided ((actor, generates passenger purpose code now) ∷ rs) db d =
      run-Decided rs _ (generate-Decided actor id argon2 passenger purpose code now db d)
  run-Decided ((actor, verifies other code now) ∷ rs) db d =
      run-Decided rs _ (verify-Decided actor id tx argon2 other code now db d)
  run-Decided ((actor, overrides other now) ∷ rs) db d =
      run-Decided rs _ (override-Decided actor id tx other now db d)

  -- No challenge accepts a second code: after one was accepted, and whatever requests of whatever users
  -- come between, every later call is refused. The identifier is one that has been handed out.
  pub verify_once :
      (first second : AuthenticatedUser) (code code' now now' : ℕ) (db : Db)
      (between : List (AuthenticatedUser × Request))
      → id < db.trip.next_id
      → (verify first tx argon2 id code now db).1 ≡ ok tt
      → (verify second tx argon2 id code' now'
          (run tx argon2 (verify first tx argon2 id code now db).0 between)).1
        ≢ ok tt
  verify_once first second code code' now now' db between old h again =
      let (r, accepts, row) = verify-Accepts tx first argon2 id code now db h in
      let (c, settles) = verify-settles tx first argon2 id code now db h in
      let d = run-Decided between (verify first tx argon2 id code now db).0 (record {
        challenge = record r.challenge { status = OtpStatus.verified; verified_at = some now };
        found = row;
        decided = refl;
        old = ground (arith, ap (λ s. s.trip.next_id) settles, settle_next first c now db, old);
      }) in
      let (r', accepts', row') = verify-Accepts tx second argon2 id code' now' _ again in
      ground (arith, accepts'.pending, d.decided, sym r'.found ∙ d.found)

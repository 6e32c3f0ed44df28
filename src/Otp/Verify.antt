-- ===== src/Otp/Verify.antt =====
-- What an accepted code means (apps/api/src/otp/otp.service.ts, verify).
use kruze.Base.{
  ℕ, ◌≤◌, ◌<◌, ◌≡◌, refl, ap, ◌∙◌, inl, inr, true, some, List, [], ◌∷◌, arith, Option-cases,
}
use kruze.Base.Rows.{find_unique, find_unique-update_row}
use kruze.Base.Effects.{ok, Transactions}
use kruze.Domain.{AuthenticatedUser}
use kruze.Trip.Store.{Trip, trip_id_of, is_party}
use kruze.Otp.Store.{OtpStatus, Argon2, Challenge, Db, challenge_id, is_pending}
use kruze.Otp.Service.{settle_challenge, judge, try_verify, verify}

-- A challenge that accepts a code at a time.
pub record Accepts (argon2 : Argon2) (c : Challenge) (code now : ℕ) : Type 0 where
  pub pending : is_pending c.status ≡ true
  pub in_time : now ≤ c.expires_at
  pub attempts_left : c.attempts < c.max_attempts
  pub right : argon2.verify c.code_hash code ≡ true

pub judge_ok :
    (actor : AuthenticatedUser) (argon2 : Argon2) (c : Challenge) (code now : ℕ) (db : Db)
    → (judge actor argon2 c code now db).1 ≡ ok tt
    → Accepts argon2 c code now
      × (judge actor argon2 c code now db ≡ settle_challenge actor c now db)
unfolding judge
judge_ok actor argon2 c code now db h = ground arith

pub judge-Accepts :
    (actor : AuthenticatedUser) (argon2 : Argon2) (c : Challenge) (code now : ℕ) (db : Db)
    → Accepts argon2 c code now
    → judge actor argon2 c code now db ≡ settle_challenge actor c now db
unfolding judge
judge-Accepts actor argon2 c code now db a = ground arith

-- `verify` has read the challenge and its trip, for a party to the trip.
pub record Read (actor : AuthenticatedUser) (id : ℕ) (db : Db) : Type 0 where
  pub challenge : Challenge
  pub trip : Trip
  pub found : find_unique challenge_id id db.challenges ≡ some challenge
  pub of_trip : find_unique trip_id_of challenge.trip_id db.trip.trips ≡ some trip
  pub party : is_party actor trip ≡ true

pub try_verify_Read :
    (actor : AuthenticatedUser) (argon2 : Argon2) (id code now : ℕ) (db : Db) (r : Read actor id db)
    → try_verify actor argon2 id code now db ≡ judge actor argon2 r.challenge code now db
unfolding try_verify
try_verify_Read actor argon2 id code now db r = ground (arith, r.found, r.of_trip, r.party)

try_verify_reads :
    (actor : AuthenticatedUser) (argon2 : Argon2) (id code now : ℕ) (db : Db)
    → (try_verify actor argon2 id code now db).1 ≡ ok tt
    → Read actor id db
unfolding try_verify
try_verify_reads actor argon2 id code now db h =
    elim (Option-cases (find_unique challenge_id id db.challenges)) [
      | inl missing ↦ absurd (ground arith)
      | inr (c, found) ↦ elim (Option-cases (find_unique trip_id_of c.trip_id db.trip.trips)) [
        | inl gone ↦ absurd (ground arith)
        | inr (trip, of_trip) ↦ record {
          challenge = c;
          trip = trip;
          found = found;
          of_trip = of_trip;
          party = ground arith;
        }
      ]
    ]

pub verify-try :
    (tx : Transactions Db) (actor : AuthenticatedUser) (argon2 : Argon2) (id code now : ℕ) (db : Db)
    → (verify actor tx argon2 id code now db).1 ≡ ok tt
    → ((try_verify actor argon2 id code now db).1 ≡ ok tt)
      × ((verify actor tx argon2 id code now db).0 ≡ (try_verify actor argon2 id code now db).0)
unfolding verify
verify-try tx actor argon2 id code now db h = ground arith

abbrev settled : ℕ → Challenge → Challenge
settled now c = record c { status = OtpStatus.verified; verified_at = some now }

find_unique-challenge_key :
    (id : ℕ) (cs : List Challenge) (c : Challenge)
    → find_unique challenge_id id cs ≡ some c
    → c.id ≡ id
find_unique-challenge_key id [] c h = absurd (ground arith)
find_unique-challenge_key id (x ∷ cs) c h = ground (arith, find_unique-challenge_key id cs c)

settled_row :
    (actor : AuthenticatedUser) (c : Challenge) (now id : ℕ) (db : Db)
    → find_unique challenge_id id db.challenges ≡ some c
    → find_unique challenge_id id (settle_challenge actor c now db).0.challenges
      ≡ some (settled now c)
unfolding settle_challenge
settled_row actor c now id db h = ground (
  arith,
  h,
  find_unique-challenge_key id db.challenges c h,
  find_unique-update_row challenge_id c.id id (settled now) db.challenges (λ r. refl),
)

settled_trips :
    (actor : AuthenticatedUser) (c : Challenge) (now : ℕ) (db : Db)
    → (settle_challenge actor c now db).0.trip.trips ≡ db.trip.trips
unfolding settle_challenge
settled_trips actor c now db = refl

-- A call that is accepted settles the challenge that it read.
pub verify-settles :
    (tx : Transactions Db) (actor : AuthenticatedUser) (argon2 : Argon2) (id code now : ℕ) (db : Db)
    → (verify actor tx argon2 id code now db).1 ≡ ok tt
    → (c : Challenge) × ((verify actor tx argon2 id code now db).0
        ≡ (settle_challenge actor c now db).0)
verify-settles tx actor argon2 id code now db h =
    let (tried, same) = verify-try tx actor argon2 id code now db h in
    let r = try_verify_reads actor argon2 id code now db tried in
    let judged = try_verify_Read actor argon2 id code now db r in
    let (accepts, settles) = judge_ok actor argon2 r.challenge code now db (rw judged at tried) in
    (r.challenge, same ∙ ap (λ x. x.0) (judged ∙ settles))

-- A code is accepted only from a party to the challenge's trip, while the challenge is pending, not
-- expired and has attempts left, and if argon2 verifies it; the challenge is then VERIFIED.
pub verify-Accepts :
    (tx : Transactions Db) (actor : AuthenticatedUser) (argon2 : Argon2) (id code now : ℕ) (db : Db)
    → (verify actor tx argon2 id code now db).1 ≡ ok tt
    → (r : Read actor id db) × Accepts argon2 r.challenge code now
      × (find_unique challenge_id id (verify actor tx argon2 id code now db).0.challenges
          ≡ some (settled now r.challenge))
verify-Accepts tx actor argon2 id code now db h =
    let (tried, same) = verify-try tx actor argon2 id code now db h in
    let r = try_verify_reads actor argon2 id code now db tried in
    let judged = try_verify_Read actor argon2 id code now db r in
    let (accepts, settles) = judge_ok actor argon2 r.challenge code now db (rw judged at tried) in
    (
      r,
      accepts,
      ap (λ s. find_unique challenge_id id s.challenges) (same ∙ ap (λ x. x.0) (judged ∙ settles))
          ∙ settled_row actor r.challenge now id db r.found,
    )

-- ===== src/Otp/Guesses.antt =====
-- Failed calls of `verify` (apps/api/src/otp/otp.service.ts): the row that counts the attempts is
-- written inside the transaction that the thrown exception rolls back.
use kruze.Base.{ℕ, ◌≡◌, refl, ap, ◌∙◌, ◌≢◌, false, List, [], ◌∷◌, All, arith}
use kruze.Base.Effects.{ok, Transactions}
use kruze.Domain.{AuthenticatedUser}
use kruze.Otp.Store.{Argon2, Db}
use kruze.Otp.Service.{settle_challenge, try_verify, verify}
use kruze.Otp.Verify.{Accepts, judge_ok, judge-Accepts, Read, try_verify_Read, verify-try}

-- A call that does not accept leaves every table as it was, the count of attempts included.
pub verify_err_unchanged :
    (tx : Transactions Db) (actor : AuthenticatedUser) (argon2 : Argon2) (id code now : ℕ) (db : Db)
    → (verify actor tx argon2 id code now db).1 ≢ ok tt
    → (verify actor tx argon2 id code now db).0 ≡ db
unfolding verify
verify_err_unchanged tx actor argon2 id code now db h =
    ground (arith, tx.rolls_back db (try_verify actor argon2 id code now db).0)

-- `verify` once for each code, at one time
unfoldable pub guess_all : Transactions Db → AuthenticatedUser → Argon2 → ℕ → ℕ → List ℕ → Db → Db
guess_all tx actor argon2 id now [] db = db
guess_all tx actor argon2 id now (code ∷ codes) db =
    guess_all tx actor argon2 id now codes (verify actor tx argon2 id code now db).0

wrong_refused :
    (tx : Transactions Db) (actor : AuthenticatedUser) (argon2 : Argon2) (id code now : ℕ) (db : Db)
    (r : Read actor id db)
    → argon2.verify r.challenge.code_hash code ≡ false
    → (verify actor tx argon2 id code now db).1 ≢ ok tt
wrong_refused tx actor argon2 id code now db r wrong h =
    let (tried, same) = verify-try tx actor argon2 id code now db h in
    let judged = try_verify_Read actor argon2 id code now db r in
    let (accepts, settles) = judge_ok actor argon2 r.challenge code now db (rw judged at tried) in
    ground (arith, accepts.right, wrong)

guesses_unchanged :
    (tx : Transactions Db) (actor : AuthenticatedUser) (argon2 : Argon2) (id now : ℕ)
    (codes : List ℕ) (db : Db) (r : Read actor id db)
    → All (λ code. argon2.verify r.challenge.code_hash code ≡ false) codes
    → guess_all tx actor argon2 id now codes db ≡ db
unfolding guess_all
guesses_unchanged tx actor argon2 id now [] db r wrong = refl
guesses_unchanged tx actor argon2 id now (code ∷ codes) db r wrong =
    ap (guess_all tx actor argon2 id now codes) (
      verify_err_unchanged tx actor argon2 id code now db
        (wrong_refused tx actor argon2 id code now db r wrong.0))
    ∙ guesses_unchanged tx actor argon2 id now codes db r wrong.1

Accepts-verify :
    (tx : Transactions Db) (actor : AuthenticatedUser) (argon2 : Argon2) (id code now : ℕ) (db : Db)
    (r : Read actor id db)
    → Accepts argon2 r.challenge code now
    → (verify actor tx argon2 id code now db).1 ≡ ok tt
unfolding verify settle_challenge
Accepts-verify tx actor argon2 id code now db r a = ground (
  arith,
  try_verify_Read actor argon2 id code now db r,
  judge-Accepts actor argon2 r.challenge code now db a,
)

-- However many wrong codes a party tries while a challenge is pending and in time, none locks it:
-- the right code is accepted after all of them.
pub guesses_never_lock :
    (tx : Transactions Db) (actor : AuthenticatedUser) (argon2 : Argon2) (id code now : ℕ)
    (codes : List ℕ) (db : Db) (r : Read actor id db)
    → Accepts argon2 r.challenge code now
    → All (λ c. argon2.verify r.challenge.code_hash c ≡ false) codes
    → (verify actor tx argon2 id code now (guess_all tx actor argon2 id now codes db)).1 ≡ ok tt
guesses_never_lock tx actor argon2 id code now codes db r a wrong =
    rw (guesses_unchanged tx actor argon2 id now codes db r wrong)
      (Accepts-verify tx actor argon2 id code now db r a)

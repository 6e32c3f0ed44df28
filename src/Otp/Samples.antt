-- ===== src/Otp/Samples.antt =====
-- Samples: a pickup challenge of a running trip (apps/api/src/otp/otp.service.ts).
use kruze.Base.{ℕ, ◌≡◌, ◌≢◌, refl, arith, false, none, some, List, [], ◌∷◌, ◌==◌}
use kruze.Base.Rows.{find_unique}
use kruze.Base.Effects.{ok}
use kruze.Base.Fixtures.{restoring}
use kruze.Domain.{PlatformRole, AuthenticatedUser}
use kruze.Trip.Machine.{TripStatus}
use kruze.Trip.Store.{Trip, RouteAcceptance}
use kruze.Otp.Store.{OtpPurpose, OtpStatus, Argon2, Challenge, Db, challenge_id}
use kruze.Otp.Service.{judge, try_verify, verify}
use kruze.Otp.Verify.{Accepts, Read, verify-Accepts}
use kruze.Otp.Requests.{Request, run, verify_once}
use kruze.Otp.Guesses.{guess_all, guesses_never_lock}

-- a hash that the code can be read from
abbrev plain : Argon2
plain = record { hash = λ c. c; verify = λ h c. h == c }

abbrev vendor_driver : AuthenticatedUser
vendor_driver = record { user_id = 1; organisation_id = 20; role = PlatformRole.driver }

abbrev running_trip : Trip
running_trip = record {
  id = 1;
  global_trip_no = 1;
  plan_id = none;
  corporate_org_id = 10;
  vendor_org_id = some 20;
  contract_id = none;
  shift_id = 5;
  scheduled_start_at = 500;
  scheduled_end_at = none;
  actual_start_at = none;
  actual_end_at = none;
  status = TripStatus.running;
  version = 1;
  route_acceptance = RouteAcceptance.pending;
  reoptimization_requested = false;
}

abbrev pickup_challenge : Challenge
pickup_challenge = record {
  id = 4;
  trip_id = 1;
  trip_employee_id = 6;
  purpose = OtpPurpose.pickup;
  code_hash = 123456;
  expires_at = 900;
  attempts = 0;
  max_attempts = 5;
  status = OtpStatus.pending;
  verified_at = none;
  verified_by_user_id = none;
}

abbrev one_challenge : Db
one_challenge = record {
  trip = record {
    compliance = record { rules = []; documents = []; evaluations = [] };
    employees = [];
    trips = running_trip ∷ [];
    trip_employees = [];
    assignments = [];
    events = [];
    outbox = [];
    next_id = 9;
  };
  challenges = pickup_challenge ∷ [];
}

accepted : (verify vendor_driver restoring plain 4 123456 800 one_challenge).1 ≡ ok tt
unfolding verify try_verify judge
accepted = refl

verify-Accepts_example :
    (r : Read vendor_driver 4 one_challenge) × Accepts plain r.challenge 123456 800
    × (find_unique challenge_id 4
          (verify vendor_driver restoring plain 4 123456 800 one_challenge).0.challenges
        ≡ some (record r.challenge { status = OtpStatus.verified; verified_at = some 800 }))
verify-Accepts_example =
    verify-Accepts restoring vendor_driver plain 4 123456 800 one_challenge accepted

-- another challenge for the passenger, a wrong code, and an attempt to override
abbrev between : List (AuthenticatedUser × Request)
between =
    (vendor_driver, Request.generates 6 OtpPurpose.pickup 654321 801)
    ∷ (vendor_driver, Request.verifies 9 1 802)
    ∷ (vendor_driver, Request.overrides 4 803)
    ∷ []

verify_once_example :
    (verify vendor_driver restoring plain 4 123456 804 (
      run restoring plain
        (verify vendor_driver restoring plain 4 123456 800 one_challenge).0
        between)).1
    ≢ ok tt
verify_once_example =
    verify_once restoring plain 4 vendor_driver vendor_driver 123456 123456 800 804 one_challenge
      between (ground arith) accepted

abbrev reads_challenge : Read vendor_driver 4 one_challenge
reads_challenge = record {
  challenge = pickup_challenge;
  trip = running_trip;
  found = refl;
  of_trip = refl;
  party = refl;
}

abbrev wrong_codes : List ℕ
wrong_codes = 1 ∷ 2 ∷ 3 ∷ 4 ∷ 5 ∷ 6 ∷ []

-- six wrong codes, one more than the five attempts that the challenge allows
guesses_never_lock_example :
    (verify vendor_driver restoring plain 4 123456 800
      (guess_all restoring vendor_driver plain 4 800 wrong_codes one_challenge)).1
    ≡ ok tt
guesses_never_lock_example =
    guesses_never_lock restoring vendor_driver plain 4 123456 800 wrong_codes one_challenge
      reads_challenge
      (record {
        pending = refl;
        in_time = ground arith;
        attempts_left = ground arith;
        right = refl;
      })
      (refl, (refl, (refl, (refl, (refl, (refl, tt))))))

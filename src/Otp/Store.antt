-- ===== src/Otp/Store.antt =====
-- The rows of pickup and drop challenges (apps/api/src/otp/otp.service.ts). The hash is argon2's, a parameter;
-- the random code and the clock are arguments. A six-digit code is the number that it spells.
use kruze.Base.{ℕ, Bool, true, false, Option, List}
use kruze.Base.Rows.{find_unique, update_row}
use kruze.Base.Effects.{not_found, M, or_throw}
use kruze.Trip.Store
use kruze.Trip.Store.{
  Trip, TripEmployee, TripEmployeeStatus, EventType, TripEvent, trip_id_of, is_party,
}

pub data OtpPurpose : Type 0 where
  pickup drop : OtpPurpose

pub data OtpStatus : Type 0 where
  pending verified expired locked overridden : OtpStatus

-- argon2: `hash` of a code, and `verify` of a hash and a code
pub record Argon2 : Type 0 where
  pub hash : ℕ → ℕ
  pub verify : ℕ → ℕ → Bool

pub record Challenge : Type 0 where
  pub id : ℕ
  pub trip_id : ℕ
  pub trip_employee_id : ℕ
  pub purpose : OtpPurpose
  pub code_hash : ℕ
  pub expires_at : ℕ
  pub attempts : ℕ
  pub max_attempts : ℕ
  pub status : OtpStatus
  pub verified_at : Option ℕ
  pub verified_by_user_id : Option ℕ

pub record Db : Type 0 where
  pub trip : Store.Db
  pub challenges : List Challenge

abbrev pub challenge_id : Challenge → ℕ
challenge_id c = c.id

abbrev pub passenger_id : TripEmployee → ℕ
passenger_id p = p.id

abbrev pub otp_ttl_ms : ℕ
otp_ttl_ms = 300000

abbrev pub is_pickup : OtpPurpose → Bool
is_pickup pickup = true
is_pickup drop = false

abbrev pub same_purpose : OtpPurpose → OtpPurpose → Bool
same_purpose pickup pickup = true
same_purpose drop drop = true
same_purpose _ _ = false

abbrev pub is_pending : OtpStatus → Bool
is_pending OtpStatus.pending = true
is_pending _ = false

abbrev pub log_event : TripEvent → Db → Db
log_event e db = record db { trip = Store.log_event e db.trip }

unfoldable pub update_challenge : ℕ → (Challenge → Challenge) → Db → Db
update_challenge id f db = record db { challenges = update_row challenge_id id f db.challenges }

unfoldable pub update_passenger : ℕ → (TripEmployee → TripEmployee) → Db → Db
update_passenger id f db =
    let trip = db.trip in
    record db {
      trip = record trip { trip_employees = update_row passenger_id id f trip.trip_employees };
    }

-- a passenger with its trip, and a challenge with its trip (`include`); the reference to the trip
-- is a foreign key, so the trip is there
unfoldable pub find_passenger : ℕ → M Db TripEmployee
find_passenger id db = or_throw (find_unique passenger_id id db.trip.trip_employees) not_found db

unfoldable pub find_challenge : ℕ → M Db Challenge
find_challenge id db = or_throw (find_unique challenge_id id db.challenges) not_found db

unfoldable pub trip_of : ℕ → M Db Trip
trip_of id db = or_throw (find_unique trip_id_of id db.trip.trips) not_found db

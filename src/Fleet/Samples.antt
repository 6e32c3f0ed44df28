-- ===== src/Fleet/Samples.antt =====
-- Samples: a driver of two vendors, of which one has ended, claims a login
-- (apps/api/src/driver/driver.service.ts).
use kruze.Base.{◌≡◌, refl, none, [], ◌∷◌, true, false}
use kruze.Base.Effects.{ok}
use kruze.Domain.{PlatformRole}
use kruze.Employee.{User}
use kruze.Fleet.{Db, claim_account}
use kruze.Fleet.Claimed.{Claimed, claim_account-Claimed}

abbrev one_driver : Db
one_driver = record {
  identities =
      record {
        id = 1;
        global_no = 0 ∷ 0 ∷ 0 ∷ 0 ∷ 0 ∷ 1 ∷ [];
        full_name = 50;
        phone = 900;
        user_id = none;
      }
      ∷ [];
  vendors =
      record { resource_id = 1; vendor_org_id = 20; active = true }
      ∷ record { resource_id = 1; vendor_org_id = 30; active = false }
      ∷ [];
  users = [];
  memberships = [];
  authz = record { relationships = []; eligibilities = [] };
  next_id = 5;
}

abbrev login : User
login = record { id = 5; email = 70 }

claimed :
    (claim_account PlatformRole.driver (0 ∷ 0 ∷ 0 ∷ 0 ∷ 0 ∷ 1 ∷ []) 900 70 one_driver).1 ≡ ok login
unfolding claim_account kruze.Fleet.active_vendors kruze.Fleet.insert_user
claimed = refl

claim_account-Claimed_example :
    Claimed PlatformRole.driver
      (0 ∷ 0 ∷ 0 ∷ 0 ∷ 0 ∷ 1 ∷ [])
      one_driver
      (claim_account PlatformRole.driver (0 ∷ 0 ∷ 0 ∷ 0 ∷ 0 ∷ 1 ∷ []) 900 70 one_driver).0
      5
claim_account-Claimed_example =
    claim_account-Claimed PlatformRole.driver (0 ∷ 0 ∷ 0 ∷ 0 ∷ 0 ∷ 1 ∷ []) 900 70 one_driver login
      tt claimed

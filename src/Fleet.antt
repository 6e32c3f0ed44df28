-- ===== src/Fleet.antt =====
-- apps/api/src/driver/driver.service.ts: the global identity of a driver, its vendors, and the claim of a
-- login. guard.service.ts is the same code with another role, table and eligibility, which are parameters
-- here. The password, and the session that a claim returns, are those of UsersService and AuthService and
-- are left out.
pub mod Taken
pub mod Claimed
mod Samples
use kruze.Base.{
  ℕ, suc, ◌+◌, Bool, true, false, not, ◌&&◌, ◌||◌, Option, none, some, List, [], ◌∷◌, ◌++◌, map,
  ◌==◌, is_id, is_some, any, keep, find?, length,
}
use kruze.Base.Rows.{find_unique, update_row}
use kruze.Base.Effects.{
  bad_request, not_found, conflict, duplicate, ok, err, M, return, throw, gets, or_throw, modify,
  require, ◌>>=◌, ◌>>◌,
}
use kruze.Domain.{AuthenticatedUser, PlatformRole}
use kruze.Maintenance.{Link, linked}
use kruze.Trip.Assign.{Field}
use kruze.Organisation.Ids.{decimal, pad_start}
use kruze.Organisation.Tenants.{same_digits}
use kruze.Employee.{Membership, User}
use kruze.Authz
use kruze.Authz.{assert_corporate_resource_eligibility}

-- a driver or a guard; `global_no` is what follows "KZ-DRV-" or "KZ-GRD-"
pub record Identity : Type 0 where
  pub id : ℕ
  pub global_no : List ℕ
  pub full_name : ℕ
  pub phone : ℕ
  pub user_id : Option ℕ

pub record Db : Type 0 where
  pub identities : List Identity
  pub vendors : List Link
  pub users : List User
  pub memberships : List Membership
  pub authz : Authz.Db
  pub next_id : ℕ

abbrev pub identity_key : Identity → ℕ
identity_key i = i.id

abbrev pub has_number : List ℕ → Identity → Bool
has_number digits i = same_digits i.global_no digits

unfoldable pub new_identity : ℕ → ℕ → Db → Identity
new_identity name phone db = record {
  id = db.next_id;
  global_no = pad_start 6 (decimal (suc (suc (length db.identities))) (suc (length db.identities)));
  full_name = name;
  phone = phone;
  user_id = none;
}

-- The number and the phone number are unique columns.
unfoldable pub create_for_vendor : ℕ → ℕ → ℕ → M Db Identity
unfolding new_identity
create_for_vendor vendor name phone db =
    let i = new_identity name phone db in
    elim (any (λ j. has_number i.global_no j || j.phone == phone) db.identities) [
      | true ↦ (db, err duplicate)
      | false ↦ (
        record db {
          identities = i ∷ db.identities;
          vendors =
              record { resource_id = i.id; vendor_org_id = vendor; active = true } ∷ db.vendors;
          next_id = suc db.next_id;
        },
        ok i,
      )
    ]

-- `vendorRelationships: { where: { status: "ACTIVE" } }`
unfoldable pub active_vendors : ℕ → List Link → List ℕ
active_vendors id links =
    map (λ l. l.vendor_org_id) (keep (λ l. l.resource_id == id && l.active) links)

unfoldable pub insert_user : ℕ → M Db User
insert_user email db =
    let user : User = record { id = db.next_id; email = email } in
    (record db { users = user ∷ db.users; next_id = suc db.next_id }, ok user)

abbrev pub is_empty : List ℕ → Bool
is_empty [] = true
is_empty (x ∷ xs) = false

abbrev pub member : PlatformRole → ℕ → ℕ → Membership
member role user org = record { user_id = user; organisation_id = org; role = role; active = true }

-- the statements of the transaction
unfoldable pub link_user : PlatformRole → ℕ → ℕ → List ℕ → Db → Db
link_user role id user orgs db = record db {
  identities = update_row identity_key id (λ i. record i { user_id = some user }) db.identities;
  memberships = map (member role user) orgs ++ db.memberships;
}

module _ (role : PlatformRole) where
  unfoldable pub claim_account : List ℕ → ℕ → ℕ → M Db User
  claim_account global_no phone email = do
    found ← gets (λ db. find? (has_number global_no) db.identities)
    identity ← or_throw found bad_request
    require (identity.phone == phone) bad_request
    require (not (is_some identity.user_id)) conflict
    orgs ← gets (λ db. active_vendors identity.id db.vendors)
    require (not (is_empty orgs)) bad_request
    taken ← gets (λ db. any (λ u. u.email == email) db.users)
    require (not taken) conflict
    user ← insert_user email
    modify (link_user role identity.id user.id orgs)
    return user

abbrev pub on_authz : {A : Type 0} → M Authz.Db A → M Db A
on_authz m db = (record db { authz = (m db.authz).0 }, (m db.authz).1)

unfoldable pub get_for_organisation : Field → AuthenticatedUser → ℕ → M Db Identity
get_for_organisation field actor id = do
  found ← gets (λ db. find_unique identity_key id db.identities)
  identity ← or_throw found not_found
  own ← gets (λ db. linked id actor.organisation_id db.vendors)
  elim own [
    | true ↦ return identity
    | false ↦ do
      allowed ← on_authz (assert_corporate_resource_eligibility actor.organisation_id field id)
      return identity
  ]

unfoldable pub get_own_profile : AuthenticatedUser → M Db Identity
get_own_profile actor = do
  found ← gets (λ db. find? (λ i. is_id i.user_id actor.user_id) db.identities)
  or_throw found not_found

-- ===== src/Organisation/Tenants.antt =====
-- apps/api/src/organisation/organisation.service.ts: onboarding and the life cycle of a tenant. The
-- columns of the profile are one number; `getStats` and the lists only read.
use kruze.Base.{
  ℕ, suc, ◌+◌, Bool, true, false, not, ◌&&◌, Option, none, some, List, [], ◌∷◌, ◌==◌, any, find?,
  keep, length,
}
use kruze.Base.Rows.{find_unique, update_row}
use kruze.Base.Effects.{
  bad_request, not_found, duplicate, ok, err, M, gets, or_throw, modify, require, ◌>>=◌, ◌>>◌,
}
use kruze.Organisation.Ids.{
  OrganisationRole, kruze_platform, corporate, fleet_operator, vendor, sub_vendor, Prefix, GlobalId,
  format_global_org_id,
}

pub data OrganisationStatus : Type 0 where
  pending_approval active suspended terminated : OrganisationStatus

pub record Organisation : Type 0 where
  pub id : ℕ
  pub global_org_id : GlobalId
  pub roles : List OrganisationRole
  pub status : OrganisationStatus
  pub suspended_at : Option ℕ
  pub suspended_reason : Option ℕ
  pub suspended_by_user_id : Option ℕ
  pub profile : Option ℕ

pub record Db : Type 0 where
  pub organisations : List Organisation
  pub next_id : ℕ

abbrev pub organisation_key : Organisation → ℕ
organisation_key o = o.id

-- The members of an enumeration are the strings that they are; here their numbers.
abbrev pub role_code : OrganisationRole → ℕ
role_code kruze_platform = 0
role_code corporate = 1
role_code fleet_operator = 2
role_code vendor = 3
role_code sub_vendor = 4

abbrev pub same_role : OrganisationRole → OrganisationRole → Bool
same_role r s = role_code r == role_code s

abbrev pub prefix_code : Prefix → ℕ
prefix_code Prefix.krz = 0
prefix_code Prefix.cor = 1
prefix_code Prefix.fop = 2
prefix_code Prefix.vnd = 3

abbrev pub same_digits : List ℕ → List ℕ → Bool
same_digits [] [] = true
same_digits [] (e ∷ es) = false
same_digits (d ∷ ds) [] = false
same_digits (d ∷ ds) (e ∷ es) = d == e && same_digits ds es

abbrev pub same_global_id : GlobalId → GlobalId → Bool
same_global_id a b = prefix_code a.prefix == prefix_code b.prefix && same_digits a.digits b.digits

-- `organisation.count({ where: { roles: { has: role } } })`
unfoldable pub count_with : OrganisationRole → List Organisation → ℕ
count_with role rows = length (keep (λ o. any (same_role role) o.roles) rows)

-- what the caller gives: the roles are not empty, `roles[0]` being the primary one
pub record Input : Type 0 where
  pub primary : OrganisationRole
  pub others : List OrganisationRole
  pub profile : Option ℕ

unfoldable pub new_organisation : Input → OrganisationStatus → Db → Organisation
new_organisation input status db = record {
  id = db.next_id;
  global_org_id =
      format_global_org_id input.primary (count_with input.primary db.organisations + 1);
  roles = input.primary ∷ input.others;
  status = status;
  suspended_at = none;
  suspended_reason = none;
  suspended_by_user_id = none;
  profile = input.profile;
}

-- `create`: the identifier is unique
unfoldable pub insert_organisation : Input → OrganisationStatus → M Db Organisation
insert_organisation input status db =
    let row = new_organisation input status db in
    elim (any (λ o. same_global_id o.global_org_id row.global_org_id) db.organisations) [
      | true ↦ (db, err duplicate)
      | false ↦
          (record db { organisations = row ∷ db.organisations; next_id = suc db.next_id }, ok row)
    ]

unfoldable pub request_onboarding : Input → M Db Organisation
request_onboarding input = insert_organisation input OrganisationStatus.pending_approval

unfoldable pub admin_create : Input → M Db Organisation
admin_create input = insert_organisation input OrganisationStatus.active

unfoldable pub get_or_throw : ℕ → M Db Organisation
get_or_throw id = do
  found ← gets (λ db. find_unique organisation_key id db.organisations)
  or_throw found not_found

abbrev pub is_suspended : OrganisationStatus → Bool
is_suspended suspended = true
is_suspended _ = false

abbrev pub update_organisation : ℕ → (Organisation → Organisation) → M Db (Unit {0})
update_organisation id f =
    modify (λ db. record db { organisations = update_row organisation_key id f db.organisations })

unfoldable pub update_profile : ℕ → ℕ → M Db (Unit {0})
update_profile id profile = do
  org ← get_or_throw id
  update_organisation id (λ o. record o { profile = some profile })

unfoldable pub suspended_row : ℕ → ℕ → ℕ → Organisation → Organisation
suspended_row user reason now o = record o {
  status = OrganisationStatus.suspended;
  suspended_at = some now;
  suspended_reason = some reason;
  suspended_by_user_id = some user;
}

unfoldable pub suspend : ℕ → ℕ → ℕ → ℕ → M Db (Unit {0})
suspend id user reason now = do
  org ← get_or_throw id
  require (not (is_suspended org.status)) bad_request
  update_organisation id (suspended_row user reason now)

unfoldable pub reactivated_row : Organisation → Organisation
reactivated_row o = record o {
  status = OrganisationStatus.active;
  suspended_at = none;
  suspended_reason = none;
  suspended_by_user_id = none;
}

unfoldable pub reactivate : ℕ → M Db (Unit {0})
reactivate id = do
  org ← get_or_throw id
  require (is_suspended org.status) bad_request
  update_organisation id reactivated_row

unfoldable pub approve : ℕ → M Db (Unit {0})
approve id = do
  org ← get_or_throw id
  update_organisation id (λ o. record o { status = OrganisationStatus.active })

unfoldable pub find_by_global_id : GlobalId → M Db Organisation
find_by_global_id global = do
  found ← gets (λ db. find? (λ o. same_global_id o.global_org_id global) db.organisations)
  or_throw found not_found

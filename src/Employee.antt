-- ===== src/Employee.antt =====
-- apps/api/src/employee/employee.service.ts: the employees of a corporate and their signup. Texts are
-- numbers, the fields of a profile are one, and reads for screens are left out.
pub mod Signup
mod Samples
use kruze.Base.{
  ℕ, suc, Bool, true, false, not, ◌&&◌, Option, none, some, List, [], ◌∷◌, ◌==◌, is_id, is_some,
  or_else, any, find?, keep,
}
use kruze.Base.Rows.{find_unique, update_row}
use kruze.Base.Effects.{
  bad_request, forbidden, not_found, conflict, duplicate, ok, err, M, return, gets, or_throw,
  modify, require, ◌>>=◌, ◌>>◌, Transactions, transaction,
}
use kruze.Domain.{AuthenticatedUser, PlatformRole, is_employee}
use kruze.Organisation.Ids.{OrganisationRole, GlobalId}
use kruze.Organisation.Tenants
use kruze.Organisation.Tenants.{Organisation, OrganisationStatus, same_role, find_by_global_id}

pub data EmployeeStatus : Type 0 where
  pending_approval active inactive rejected : EmployeeStatus

pub record Employee : Type 0 where
  pub id : ℕ
  pub corporate_org_id : ℕ
  pub user_id : Option ℕ
  pub employee_code : ℕ
  pub profile : ℕ
  pub status : EmployeeStatus
  pub transport_eligible : Bool

-- `OrganisationMembership`; `active` is `status === "ACTIVE"`
pub record Membership : Type 0 where
  pub user_id : ℕ
  pub organisation_id : ℕ
  pub role : PlatformRole
  pub active : Bool

pub record User : Type 0 where
  pub id : ℕ
  pub email : ℕ

pub record Db : Type 0 where
  pub tenants : Tenants.Db
  pub users : List User
  pub employees : List Employee
  pub memberships : List Membership
  pub next_id : ℕ

abbrev pub employee_key : Employee → ℕ
employee_key e = e.id

unfoldable pub new_employee : ℕ → ℕ → Option ℕ → ℕ → ℕ → EmployeeStatus → Employee
new_employee id corporate user code profile status = record {
  id = id;
  corporate_org_id = corporate;
  user_id = user;
  employee_code = code;
  profile = profile;
  status = status;
  transport_eligible = true;
}

-- `@@unique([corporateOrgId, employeeCode])`
abbrev pub has_code : ℕ → ℕ → Employee → Bool
has_code corporate code e = e.corporate_org_id == corporate && e.employee_code == code

-- another row of the corporate has the code
unfoldable pub code_taken : ℕ → ℕ → ℕ → List Employee → Bool
code_taken id corporate code = any (λ e. not (e.id == id) && has_code corporate code e)

-- `employee.create`
unfoldable pub insert_employee : ℕ → Option ℕ → ℕ → ℕ → EmployeeStatus → M Db Employee
unfolding new_employee
insert_employee corporate user code profile status db =
    let e = new_employee db.next_id corporate user code profile status in
    elim (any (has_code corporate code) db.employees) [
      | true ↦ (db, err duplicate)
      | false ↦ (record db { employees = e ∷ db.employees; next_id = suc db.next_id }, ok e)
    ]

unfoldable pub create : ℕ → ℕ → ℕ → M Db Employee
create corporate code profile = insert_employee corporate none code profile EmployeeStatus.active

unfoldable pub get_for_organisation : AuthenticatedUser → ℕ → M Db Employee
get_for_organisation actor id = do
  found ← gets (λ db. find_unique employee_key id db.employees)
  e ← or_throw found not_found
  require (e.corporate_org_id == actor.organisation_id) forbidden
  return e

abbrev pub update_employee : ℕ → (Employee → Employee) → M Db (Unit {0})
update_employee id f =
    modify (λ db. record db { employees = update_row employee_key id f db.employees })

unfoldable pub update : AuthenticatedUser → ℕ → ℕ → M Db (Unit {0})
update actor id profile = do
  e ← get_for_organisation actor id
  update_employee id (λ x. record x { profile = profile })

unfoldable pub set_transport_eligibility : AuthenticatedUser → ℕ → Bool → M Db (Unit {0})
set_transport_eligibility actor id eligible = do
  e ← get_for_organisation actor id
  update_employee id (λ x. record x { transport_eligible = eligible })

unfoldable pub set_status : EmployeeStatus → Employee → Employee
set_status status e = record e { status = status }

unfoldable pub deactivate : AuthenticatedUser → ℕ → M Db (Unit {0})
deactivate actor id = do
  e ← get_for_organisation actor id
  update_employee id (set_status EmployeeStatus.inactive)

unfoldable pub reactivate : AuthenticatedUser → ℕ → M Db (Unit {0})
reactivate actor id = do
  e ← get_for_organisation actor id
  update_employee id (set_status EmployeeStatus.active)

abbrev is_active_org : OrganisationStatus → Bool
is_active_org OrganisationStatus.active = true
is_active_org _ = false

abbrev pub on_tenants : {A : Type 0} → M Tenants.Db A → M Db A
on_tenants m db = (record db { tenants = (m db.tenants).0 }, (m db.tenants).1)

-- `createWithPassword`
unfoldable pub insert_user : ℕ → M Db User
insert_user email db =
    let user : User = record { id = db.next_id; email = email } in
    (record db { users = user ∷ db.users; next_id = suc db.next_id }, ok user)

-- `code` is the text made of the clock
unfoldable pub self_signup : GlobalId → Option ℕ → ℕ → ℕ → M Db Employee
self_signup global email code profile = do
  org ← on_tenants (find_by_global_id global)
  require (any (same_role OrganisationRole.corporate) org.roles) bad_request
  require (is_active_org org.status) bad_request
  address ← or_throw email bad_request
  taken ← gets (λ db. is_some (find? (λ u. u.email == address) db.users))
  require (not taken) conflict
  user ← insert_user address
  insert_employee org.id (some user.id) code profile EmployeeStatus.pending_approval

abbrev pub is_pending : EmployeeStatus → Bool
is_pending pending_approval = true
is_pending _ = false

unfoldable pub get_pending : AuthenticatedUser → ℕ → M Db Employee
get_pending actor id = do
  e ← get_for_organisation actor id
  require (is_pending e.status) bad_request
  return e

unfoldable pub approved_row : Option ℕ → Employee → Employee
approved_row code e = record e {
  status = EmployeeStatus.active;
  employee_code = or_else code e.employee_code;
}

abbrev pub is_membership : ℕ → ℕ → Membership → Bool
is_membership user org m = m.user_id == user && m.organisation_id == org && is_employee m.role

-- `tx.employee.update` of the status and the code
unfoldable pub activate : Option ℕ → Employee → M Db (Unit {0})
activate code e = do
  taken ←
      gets (λ db. code_taken e.id e.corporate_org_id (or_else code e.employee_code) db.employees)
  require (not taken) duplicate
  update_employee e.id (approved_row code)

-- the membership that an employee with an account gets, unless there is one
unfoldable pub add_membership : Option ℕ → ℕ → M Db (Unit {0})
add_membership none org db = (db, ok tt)
add_membership (some user) org db = elim (any (is_membership user org) db.memberships) [
  | true ↦ (db, ok tt)
  | false ↦ (
    record db {
      memberships =
          record {
            user_id = user;
            organisation_id = org;
            role = PlatformRole.employee;
            active = true;
          }
          ∷ db.memberships;
    },
    ok tt,
  )
]

unfoldable pub approve_signup : Transactions Db → AuthenticatedUser → ℕ → Option ℕ → M Db Employee
approve_signup tx actor id code = do
  e ← get_pending actor id
  transaction tx (do
    activate code e
    add_membership e.user_id e.corporate_org_id
    return (approved_row code e))

unfoldable pub reject_signup : AuthenticatedUser → ℕ → M Db (Unit {0})
reject_signup actor id = do
  e ← get_pending actor id
  update_employee e.id (set_status EmployeeStatus.rejected)

unfoldable pub list_pending_for_corporate : ℕ → Db → List Employee
list_pending_for_corporate corporate db =
    keep (λ e. e.corporate_org_id == corporate && is_pending e.status) db.employees

unfoldable pub get_own_profile : AuthenticatedUser → M Db Employee
get_own_profile actor = do
  found ← gets (λ db. find? (λ e. is_id e.user_id actor.user_id) db.employees)
  or_throw found not_found

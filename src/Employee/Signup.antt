-- ===== src/Employee/Signup.antt =====
-- The ways out of a pending signup (apps/api/src/employee/employee.service.ts).
use kruze.Base.{
  ℕ, ◌≡◌, refl, ap, ◌∙◌, inl, inr, Bool, true, false, Option, none, some, ◌==◌, or_else, any, arith,
  Bool-cases, find?-holds,
}
use kruze.Base.Rows.{find_unique, update_row, find_unique-update_row}
use kruze.Base.Effects.{bad_request, ok, err, Transactions}
use kruze.Domain.{AuthenticatedUser}
use kruze.Employee.{
  Employee, EmployeeStatus, Db, employee_key, get_for_organisation, set_status, reactivate,
  is_pending, get_pending, approved_row, code_taken, activate, is_membership, add_membership,
  approve_signup, reject_signup,
}

membership_ok : (user : Option ℕ) (org : ℕ) (s : Db) → (add_membership user org s).1 ≡ ok tt
unfolding add_membership
membership_ok none org s = refl
membership_ok (some user) org s = ground arith

membership_rows :
    (user : Option ℕ) (org : ℕ) (s : Db) → (add_membership user org s).0.employees ≡ s.employees
unfolding add_membership
membership_rows none org s = refl
membership_rows (some user) org s = ground arith

membership_made :
    (user org : ℕ) (s : Db)
    → any (is_membership user org) (add_membership (some user) org s).0.memberships ≡ true
unfolding add_membership
membership_made user org s = elim (Bool-cases (any (is_membership user org) s.memberships)) [
  | inl there ↦ rw (there, add_membership) there
  | inr missing ↦ rw (missing, add_membership) (ground arith)
]

module _ (tx : Transactions Db) (actor : AuthenticatedUser) (id : ℕ) (db : Db) (e : Employee)
    (user : ℕ) where
  -- What `approveSignup` leaves: the employee is active, and its user a member.
  pub record Approved (code : Option ℕ) : Type 0 where
    pub returned : (approve_signup tx actor id code db).1 ≡ ok (approved_row code e)
    pub row :
        find_unique employee_key id (approve_signup tx actor id code db).0.employees
        ≡ some (approved_row code e)
    pub member :
        any
          (is_membership user e.corporate_org_id)
          (approve_signup tx actor id code db).0.memberships
        ≡ true

  -- The code that the approval would write belongs to another employee of the corporate.
  abbrev pub Taken : Option ℕ → Bool → Type 0
  Taken code answer =
      code_taken e.id e.corporate_org_id (or_else code e.employee_code) db.employees ≡ answer

  -- What `reactivate` leaves: the employee is active too, but nobody becomes a member, and the signup
  -- can no longer be approved or rejected.
  pub record Bypassed : Type 0 where
    pub row :
        find_unique employee_key id (reactivate actor id db).0.employees
        ≡ some (set_status EmployeeStatus.active e)
    pub members : (reactivate actor id db).0.memberships ≡ db.memberships
    pub approval :
        (code : Option ℕ)
        → approve_signup tx actor id code (reactivate actor id db).0
          ≡ ((reactivate actor id db).0, err bad_request)
    pub rejection :
        reject_signup actor id (reactivate actor id db).0
        ≡ ((reactivate actor id db).0, err bad_request)

  pending_found :
      find_unique employee_key id db.employees ≡ some e
      → e.corporate_org_id ≡ actor.organisation_id
      → is_pending e.status ≡ true
      → get_pending actor id db ≡ (db, ok e)
  unfolding get_pending get_for_organisation
  pending_found found own pending = ground (arith, found, own, pending)

  -- the tables with the employee approved, before the membership
  activated : Option ℕ → Db
  activated code = record db {
    employees = update_row employee_key e.id (approved_row code) db.employees;
  }

  approve_eq :
      (code : Option ℕ)
      → Taken code false
      → get_pending actor id db ≡ (db, ok e)
      → approve_signup tx actor id code db ≡ (
        (add_membership e.user_id e.corporate_org_id (activated code)).0,
        ok (approved_row code e),
      )
  unfolding approve_signup activated activate
  approve_eq code free h =
      ground (arith, h, free, membership_ok e.user_id e.corporate_org_id (activated code))

  activated_row :
      (code : Option ℕ)
      → find_unique employee_key id db.employees ≡ some e
      → find_unique employee_key id (activated code).employees ≡ some (approved_row code e)
  unfolding activated approved_row
  activated_row code found =
      let key = find?-holds (λ x. employee_key x == id) db.employees e found in
      find_unique-update_row employee_key e.id id (approved_row code) db.employees (λ x. refl)
      ∙ ground (arith, found, key)

  approve :
      (code : Option ℕ)
      → Taken code false
      → find_unique employee_key id db.employees ≡ some e
      → e.corporate_org_id ≡ actor.organisation_id
      → is_pending e.status ≡ true
      → e.user_id ≡ some user
      → Approved code
  approve code free found own pending account =
      let eq = approve_eq code free (pending_found found own pending) in
      let m = membership_made user e.corporate_org_id (activated code) in
      record {
        returned = ap (λ r. r.1) eq;
        row =
            ap (λ r. find_unique employee_key id r.0.employees) eq
            ∙ ap (find_unique employee_key id)
                (membership_rows e.user_id e.corporate_org_id (activated code))
            ∙ activated_row code found;
        member =
            ap (λ r. any (is_membership user e.corporate_org_id) r.0.memberships) eq
            ∙ ap
                (λ u.
                  any (is_membership user e.corporate_org_id)
                    (add_membership u e.corporate_org_id (activated code)).0.memberships)
                account
            ∙ m;
      }

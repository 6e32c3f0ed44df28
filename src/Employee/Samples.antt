-- ===== src/Employee/Samples.antt =====
-- Samples: a signup that waits for its corporate (apps/api/src/employee/employee.service.ts).
use kruze.Base.{◌≡◌, refl, true, false, none, some, [], ◌∷◌}
use kruze.Base.Effects.{duplicate, err}
use kruze.Base.Fixtures.{restoring}
use kruze.Domain.{PlatformRole, AuthenticatedUser}
use kruze.Employee.{Employee, EmployeeStatus, Db, approve_signup}
use kruze.Employee.Signup.{Taken}

abbrev hr : AuthenticatedUser
hr = record { user_id = 1; organisation_id = 10; role = PlatformRole.corporate_hr }

abbrev applicant : Employee
applicant = record {
  id = 4;
  corporate_org_id = 10;
  user_id = some 7;
  employee_code = 99;
  profile = 0;
  status = EmployeeStatus.pending_approval;
  transport_eligible = true;
}

-- a colleague who has the code 13
abbrev colleague : Employee
colleague = record applicant {
  id = 3;
  user_id = none;
  employee_code = 13;
  status = EmployeeStatus.active;
}

abbrev one_signup : Db
one_signup = record {
  tenants = record { organisations = []; next_id = 1 };
  users = record { id = 7; email = 5 } ∷ [];
  employees = applicant ∷ colleague ∷ [];
  memberships = [];
  next_id = 8;
}

code_free : Taken restoring hr 4 one_signup applicant 7 (some 12) false
unfolding kruze.Employee.code_taken
code_free = refl

code_of_colleague : (approve_signup restoring hr 4 (some 13) one_signup).1 ≡ err duplicate
unfolding approve_signup kruze.Employee.get_pending kruze.Employee.get_for_organisation
    kruze.Employee.activate kruze.Employee.code_taken
code_of_colleague = refl

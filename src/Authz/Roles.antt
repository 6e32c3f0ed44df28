-- ===== src/Authz/Roles.antt =====
-- packages/domain/src/platform-permission-matrix.ts, the groups of roles, and
-- apps/api/src/authz/roles.guard.ts.
use kruze.Base.{ℕ, Bool, true, false, not, Option, none, some, List, [], ◌∷◌, ◌==◌, any, keep}
use kruze.Base.Effects.{Result, ok, err, forbidden}
use kruze.Domain.{PlatformRole}

-- Roles are compared as the strings that they are; here by their number.
abbrev pub role_code : PlatformRole → ℕ
role_code PlatformRole.kruze_super_admin = 0
role_code PlatformRole.platform_owner = 1
role_code PlatformRole.platform_operations_admin = 2
role_code PlatformRole.support_admin = 3
role_code PlatformRole.billing_admin = 4
role_code PlatformRole.security_admin = 5
role_code PlatformRole.compliance_admin = 6
role_code PlatformRole.read_only_super_admin = 7
role_code PlatformRole.tenant_admin = 8
role_code PlatformRole.corporate_transport_admin = 9
role_code PlatformRole.corporate_transport_manager = 10
role_code PlatformRole.corporate_transport_supervisor = 11
role_code PlatformRole.corporate_management = 12
role_code PlatformRole.corporate_hr = 13
role_code PlatformRole.corporate_finance = 14
role_code PlatformRole.corporate_safety_compliance = 15
role_code PlatformRole.fleet_operator_admin = 16
role_code PlatformRole.vendor_admin = 17
role_code PlatformRole.supervisor_dispatcher = 18
role_code PlatformRole.driver = 19
role_code PlatformRole.guard = 20
role_code PlatformRole.employee = 21
role_code PlatformRole.auditor = 22

abbrev pub includes : List PlatformRole → PlatformRole → Bool
includes roles role = any (λ r. role_code r == role_code role) roles

-- What `@Roles` has set for a route: on the method that handles it and on the controller's class. The
-- two are metadata of two targets, and `Reflector.get(key, target)` reads one.
pub record Route : Type 0 where
  pub handler_roles : Option (List PlatformRole)
  pub class_roles : Option (List PlatformRole)

-- `!role || !allowedRoles.includes(role)`, negated
abbrev pub permits : List PlatformRole → Option PlatformRole → Bool
permits roles none = false
permits roles (some role) = includes roles role

abbrev pub check_roles : Option (List PlatformRole) → Option PlatformRole → Result Bool
check_roles none role = ok true
check_roles (some []) role = ok true
check_roles (some (r ∷ rs)) role = elim (permits (r ∷ rs) role) [
  | true ↦ ok true
  | false ↦ err forbidden
]

-- `canActivate`, for the target `context.getHandler()` and the role of the request's user
unfoldable pub can_activate : Route → Option PlatformRole → Result Bool
can_activate route role = check_roles route.handler_roles role

abbrev pub super_admin_roles : List PlatformRole
super_admin_roles =
    PlatformRole.kruze_super_admin ∷ PlatformRole.platform_owner
    ∷ PlatformRole.platform_operations_admin ∷ PlatformRole.support_admin
    ∷ PlatformRole.billing_admin ∷ PlatformRole.security_admin ∷ PlatformRole.compliance_admin
    ∷ PlatformRole.read_only_super_admin ∷ []

abbrev pub super_admin_write_roles : List PlatformRole
super_admin_write_roles =
    keep (λ r. not (role_code r == role_code PlatformRole.read_only_super_admin)) super_admin_roles

abbrev pub tenant_management_roles : List PlatformRole
tenant_management_roles =
    PlatformRole.kruze_super_admin ∷ PlatformRole.platform_owner
    ∷ PlatformRole.platform_operations_admin ∷ PlatformRole.security_admin ∷ []

abbrev pub user_management_roles : List PlatformRole
user_management_roles =
    PlatformRole.kruze_super_admin ∷ PlatformRole.platform_owner
    ∷ PlatformRole.platform_operations_admin ∷ PlatformRole.support_admin ∷ []

abbrev pub billing_roles : List PlatformRole
billing_roles =
    PlatformRole.kruze_super_admin ∷ PlatformRole.platform_owner ∷ PlatformRole.billing_admin ∷ []

abbrev pub security_roles : List PlatformRole
security_roles =
    PlatformRole.kruze_super_admin ∷ PlatformRole.platform_owner ∷ PlatformRole.security_admin ∷ []

abbrev pub compliance_roles : List PlatformRole
compliance_roles =
    PlatformRole.kruze_super_admin ∷ PlatformRole.platform_owner ∷ PlatformRole.compliance_admin
    ∷ []

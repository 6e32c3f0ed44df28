-- ===== src/Authz/Matrix.antt =====
-- packages/domain/src/platform-permission-matrix.ts, PLATFORM_PERMISSION_MATRIX, with the guard that
-- reads such lists (apps/api/src/authz/roles.guard.ts).
use kruze.Base.{◌≡◌, Bool, true, false, none, some, List, [], ◌∷◌, ◌++◌, arith}
use kruze.Base.Effects.{ok, err}
use kruze.Domain.{PlatformRole}
use kruze.Authz.Roles.{
  includes, can_activate, super_admin_roles, tenant_management_roles, user_management_roles,
  billing_roles, security_roles, compliance_roles,
}

-- the `action` of a permission, in the order of the matrix
pub data Action : Type 0 where
  view_platform manage_organisations manage_users support_customers manage_billing : Action
  view_revenue manage_security view_audit manage_compliance configure_platform : Action
  monitor_health : Action

pub record PlatformPermission : Type 0 where
  pub action : Action
  pub roles : List PlatformRole

unfoldable pub roles_of : Action → List PlatformRole
roles_of view_platform = super_admin_roles
roles_of manage_organisations = tenant_management_roles
roles_of manage_users = user_management_roles
roles_of support_customers =
    PlatformRole.kruze_super_admin ∷ PlatformRole.platform_owner ∷ PlatformRole.support_admin ∷ []
roles_of manage_billing = billing_roles
roles_of view_revenue = billing_roles ++ PlatformRole.read_only_super_admin ∷ []
roles_of manage_security = security_roles
roles_of view_audit =
    security_roles ++ PlatformRole.compliance_admin ∷ PlatformRole.read_only_super_admin ∷ []
roles_of manage_compliance = compliance_roles
roles_of configure_platform =
    PlatformRole.kruze_super_admin ∷ PlatformRole.platform_owner
    ∷ PlatformRole.platform_operations_admin ∷ []
roles_of monitor_health =
    PlatformRole.kruze_super_admin ∷ PlatformRole.platform_owner
    ∷ PlatformRole.platform_operations_admin ∷ []

-- the actions that change nothing
abbrev pub is_view : Action → Bool
is_view view_platform = true
is_view view_revenue = true
is_view view_audit = true
is_view _ = false

-- a method that lists the roles of an action, asked for by a user of a role
unfoldable pub admits : Action → PlatformRole → Bool
unfolding roles_of
admits action role =
    elim (can_activate (record { handler_roles = some (roles_of action); class_roles = none })
      (some role)) [ ok b ↦ b | err e ↦ false ]

outsiders_denied :
    (action : Action) (role : PlatformRole)
    → includes super_admin_roles role ≡ false
    → admits action role ≡ false
unfolding admits can_activate roles_of
outsiders_denied action role h = ground (arith, h)

-- Behind a guard that lists the roles of an action of the platform's matrix, the root role and the owner
-- are let through for every action, the read-only super admin for those that only view, and a role
-- that is no super admin's for none.
matrix-Guarded :
    (action : Action)
    → (admits action PlatformRole.kruze_super_admin ≡ true)
      × (admits action PlatformRole.platform_owner ≡ true)
      × (admits action PlatformRole.read_only_super_admin ≡ is_view action)
      × ((role : PlatformRole)
          → includes super_admin_roles role ≡ false
          → admits action role ≡ false)
unfolding admits can_activate roles_of
matrix-Guarded action = (ground arith, ground arith, ground arith, outsiders_denied action)

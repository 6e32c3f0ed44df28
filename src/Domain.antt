-- ===== src/Domain.antt =====
-- packages/domain/src/role.ts and the actor of a request
-- (apps/api/src/common/request-context.ts, AuthenticatedUser).
use kruze.Base.{ℕ, Bool, true, false}

pub data PlatformRole : Type 0 where
  kruze_super_admin platform_owner platform_operations_admin support_admin : PlatformRole
  billing_admin security_admin compliance_admin read_only_super_admin : PlatformRole
  tenant_admin corporate_transport_admin corporate_transport_manager : PlatformRole
  corporate_transport_supervisor corporate_management corporate_hr corporate_finance : PlatformRole
  corporate_safety_compliance fleet_operator_admin vendor_admin : PlatformRole
  supervisor_dispatcher driver guard employee auditor : PlatformRole

pub PlatformRole-discrete : Discrete PlatformRole
PlatformRole-discrete = hlevel

-- `role === "KRUZE_SUPER_ADMIN"`, and the other roles that handlers name
abbrev pub is_super_admin : PlatformRole → Bool
is_super_admin PlatformRole.kruze_super_admin = true
is_super_admin _ = false

abbrev pub is_employee : PlatformRole → Bool
is_employee PlatformRole.employee = true
is_employee _ = false

abbrev pub is_supervisor : PlatformRole → Bool
is_supervisor PlatformRole.supervisor_dispatcher = true
is_supervisor _ = false

pub record AuthenticatedUser : Type 0 where
  pub user_id : ℕ
  pub organisation_id : ℕ
  pub role : PlatformRole

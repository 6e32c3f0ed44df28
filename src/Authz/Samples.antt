-- ===== src/Authz/Samples.antt =====
-- Samples: a corporate that invited a vendor (apps/api/src/authz/policy.service.ts).
use kruze.Base.{◌≡◌, ◌⊎◌, ◌↔◌, refl, true, none, some, [], ◌∷◌}
use kruze.Base.Effects.{forbidden, ok, err}
use kruze.Domain.{PlatformRole, AuthenticatedUser}
use kruze.Relationship.{RelationshipStatus, RelationshipType}
use kruze.Authz.{Db, Allowed, related, assert_organisation_access}
use kruze.Authz.Guarded.{Admits, can_activate-Admits}
use kruze.Authz.Roles.{Route, can_activate}
use kruze.Authz.Access.{Linked, access_iff}

abbrev dispatcher : AuthenticatedUser
dispatcher = record { user_id = 1; organisation_id = 20; role = PlatformRole.supervisor_dispatcher }

abbrev partners : Db
partners = record {
  relationships =
      record {
        id = 1;
        source_org_id = 10;
        target_org_id = 20;
        type = RelationshipType.corporate_vendor;
        status = RelationshipStatus.active;
        created_by_user_id = 3;
        approved_by_user_id = some 1;
        starts_at = none;
        ends_at = none;
      }
      ∷ [];
  eligibilities = [];
}

stranger_refused : (assert_organisation_access dispatcher 30 partners).1 ≡ err forbidden
unfolding assert_organisation_access related
stranger_refused = refl

access_iff_example :
    (((why : Allowed) × ((assert_organisation_access dispatcher 10 partners).1 ≡ ok why))
      ↔ Linked dispatcher.organisation_id 10 partners.relationships)
    × (Linked dispatcher.organisation_id 10 partners.relationships
        ↔ Linked 10 dispatcher.organisation_id partners.relationships)
    × ((assert_organisation_access dispatcher 10 partners ≡ (partners, err forbidden))
        ⊎ ((why : Allowed) × (assert_organisation_access dispatcher 10 partners
              ≡ (partners, ok why))))
access_iff_example = access_iff dispatcher 10 partners

-- the controller of the plans: roles on its class, none on its methods
abbrev plans_route : Route
plans_route = record {
  handler_roles = none;
  class_roles = some (PlatformRole.corporate_transport_admin ∷ []);
}

-- a route of the maintenance of tenants, for one role, asked for by nobody
abbrev tenants_route : Route
tenants_route = record {
  handler_roles = some (PlatformRole.platform_owner ∷ []);
  class_roles = none;
}

can_activate-Admits_example :
    (Admits tenants_route.handler_roles none × (can_activate tenants_route none ≡ ok true))
    ⊎ ((¬ Admits tenants_route.handler_roles none)
        × (can_activate tenants_route none ≡ err forbidden))
can_activate-Admits_example = can_activate-Admits tenants_route none

employee_passes : can_activate plans_route (some PlatformRole.employee) ≡ ok true
unfolding can_activate
employee_passes = refl

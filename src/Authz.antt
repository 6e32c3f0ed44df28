-- ===== src/Authz.antt =====
-- apps/api/src/authz: which requests are let through. roles.guard.ts asks for the role, policy.service.ts
-- for the relation of the actor's organisation to that of the resource.
pub mod Roles
pub mod Guarded
pub mod Matrix
pub mod Access
mod Samples
use kruze.Base.{ℕ, Bool, true, false, ◌&&◌, ◌||◌, Option, none, some, List, [], ◌∷◌, ◌==◌, find?}
use kruze.Base.Effects.{forbidden, M, return, gets, or_throw, throw, require, ◌>>=◌, ◌>>◌}
use kruze.Domain.{AuthenticatedUser}
use kruze.Relationship.{Relationship, RelationshipStatus, RelationshipType}
use kruze.Trip.Assign.{Field, driver_id, vehicle_id, guard_id}

-- `CorporateResourceEligibility`; a resource's type is named as its column in an assignment
pub record Eligibility : Type 0 where
  pub corporate_org_id : ℕ
  pub resource_type : Field
  pub resource_id : ℕ
  pub active : Bool

pub record Db : Type 0 where
  pub relationships : List Relationship
  pub eligibilities : List Eligibility

-- the reasons of a decision ALLOW
pub data Allowed : Type 0 where
  same_organisation corporate_resource_eligibility : Allowed
  relationship : RelationshipType → Allowed

abbrev pub is_active : RelationshipStatus → Bool
is_active RelationshipStatus.active = true
is_active _ = false

-- `OR: [{ sourceOrgId, targetOrgId }, …]`, the two organisations in either order
abbrev pub connects : ℕ → ℕ → Relationship → Bool
connects a b r =
    r.source_org_id == a && r.target_org_id == b || r.source_org_id == b && r.target_org_id == a

unfoldable pub related : ℕ → ℕ → List Relationship → Option Relationship
related a b = find? (λ r. is_active r.status && connects a b r)

unfoldable pub assert_organisation_access : AuthenticatedUser → ℕ → M Db Allowed
assert_organisation_access user resource_org_id = elim (user.organisation_id == resource_org_id) [
  | true ↦ return same_organisation
  | false ↦ do
    found ← gets (λ db. related user.organisation_id resource_org_id db.relationships)
    r ← or_throw found forbidden
    return (relationship r.type)
]

abbrev same_type : Field → Field → Bool
same_type driver_id driver_id = true
same_type vehicle_id vehicle_id = true
same_type guard_id guard_id = true
same_type _ _ = false

unfoldable pub assert_corporate_resource_eligibility : ℕ → Field → ℕ → M Db Allowed
assert_corporate_resource_eligibility corporate type id = do
  found ← gets (λ db.
      find?
        (λ e.
          e.corporate_org_id == corporate && same_type e.resource_type type && e.resource_id == id)
        db.eligibilities)
  e ← or_throw found forbidden
  require e.active forbidden
  return corporate_resource_eligibility

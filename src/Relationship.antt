-- ===== src/Relationship.antt =====
-- apps/api/src/relationship/relationship.service.ts: invitations between organisations.
pub mod Accepted
pub mod Terminated
mod Samples
use kruze.Base.{
  ℕ, suc, Bool, true, false, not, ◌&&◌, ◌||◌, Option, none, some, List, ◌∷◌, ◌==◌, keep,
}
use kruze.Base.Rows.{find_unique, update_row}
use kruze.Base.Effects.{
  bad_request, forbidden, not_found, ok, M, return, gets, or_throw, modify, require, ◌>>=◌, ◌>>◌,
}
use kruze.Domain.{AuthenticatedUser}

pub data RelationshipStatus : Type 0 where
  invited pending_approval active suspended terminated rejected : RelationshipStatus

pub data RelationshipType : Type 0 where
  kruze_tenancy operator_manages_corporate corporate_vendor vendor_sub_vendor : RelationshipType

-- `active` is `status === "ACTIVE"`
pub record Organisation : Type 0 where
  pub id : ℕ
  pub active : Bool

pub record Relationship : Type 0 where
  pub id : ℕ
  pub source_org_id : ℕ
  pub target_org_id : ℕ
  pub type : RelationshipType
  pub status : RelationshipStatus
  pub created_by_user_id : ℕ
  pub approved_by_user_id : Option ℕ
  pub starts_at : Option ℕ
  pub ends_at : Option ℕ

pub record Db : Type 0 where
  pub organisations : List Organisation
  pub relationships : List Relationship
  pub next_id : ℕ

abbrev pub organisation_key : Organisation → ℕ
organisation_key o = o.id

abbrev pub relationship_key : Relationship → ℕ
relationship_key r = r.id

abbrev pub is_invited : RelationshipStatus → Bool
is_invited RelationshipStatus.invited = true
is_invited _ = false

-- `o?.status === "ACTIVE"`
abbrev pub is_active : Option Organisation → Bool
is_active none = false
is_active (some o) = o.active

unfoldable pub new_relationship : AuthenticatedUser → ℕ → RelationshipType → ℕ → Relationship
new_relationship actor target type id = record {
  id = id;
  source_org_id = actor.organisation_id;
  target_org_id = target;
  type = type;
  status = RelationshipStatus.invited;
  created_by_user_id = actor.user_id;
  approved_by_user_id = none;
  starts_at = none;
  ends_at = none;
}

unfoldable pub invite : AuthenticatedUser → ℕ → RelationshipType → M Db (Unit {0})
invite actor target_id type = do
  require (not (actor.organisation_id == target_id)) bad_request
  source ← gets (λ db. find_unique organisation_key actor.organisation_id db.organisations)
  found ← gets (λ db. find_unique organisation_key target_id db.organisations)
  target ← or_throw found not_found
  require (is_active source) bad_request
  require target.active bad_request
  modify (λ db. record db {
    relationships = new_relationship actor target_id type db.next_id ∷ db.relationships;
    next_id = suc db.next_id;
  })

unfoldable pub get_owned : ℕ → M Db Relationship
get_owned id = do
  found ← gets (λ db. find_unique relationship_key id db.relationships)
  or_throw found not_found

abbrev update_relationship : ℕ → (Relationship → Relationship) → Db → Db
update_relationship id f db = record db {
  relationships = update_row relationship_key id f db.relationships;
}

-- the `data` of `accept` and of `terminate`
abbrev pub accepted_row : AuthenticatedUser → ℕ → Relationship → Relationship
accepted_row actor now r = record r {
  status = RelationshipStatus.active;
  approved_by_user_id = some actor.user_id;
  starts_at = some now;
}

abbrev pub terminated_row : ℕ → Relationship → Relationship
terminated_row now r = record r { status = RelationshipStatus.terminated; ends_at = some now }

unfoldable pub accept : AuthenticatedUser → ℕ → ℕ → M Db (Unit {0})
accept actor id now = do
  r ← get_owned id
  require (r.target_org_id == actor.organisation_id) forbidden
  require (is_invited r.status) bad_request
  source ← gets (λ db. find_unique organisation_key r.source_org_id db.organisations)
  target ← gets (λ db. find_unique organisation_key r.target_org_id db.organisations)
  require (is_active target) bad_request
  require (is_active source) bad_request
  modify (update_relationship id (accepted_row actor now))

unfoldable pub terminate : AuthenticatedUser → ℕ → ℕ → M Db (Unit {0})
terminate actor id now = do
  r ← get_owned id
  require (r.source_org_id == actor.organisation_id || r.target_org_id == actor.organisation_id)
      forbidden
  modify (update_relationship id (terminated_row now))

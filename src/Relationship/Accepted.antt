-- ===== src/Relationship/Accepted.antt =====
-- When an invitation is accepted (apps/api/src/relationship/relationship.service.ts, accept).
use kruze.Base.{ℕ, ◌≡◌, ◌↔◌, inl, inr, true, some, arith, Option-cases}
use kruze.Base.Rows.{find_unique}
use kruze.Base.Effects.{ok}
use kruze.Domain.{AuthenticatedUser}
use kruze.Relationship.{
  Relationship, Db, organisation_key, relationship_key, is_invited, is_active, get_owned, accept,
}

-- An invitation that the actor's organisation may accept.
pub record Acceptable (actor : AuthenticatedUser) (id : ℕ) (db : Db) : Type 0 where
  pub row : Relationship
  pub found : find_unique relationship_key id db.relationships ≡ some row
  pub to_actor : row.target_org_id ≡ actor.organisation_id
  pub invited : is_invited row.status ≡ true
  pub source_active :
      is_active (find_unique organisation_key row.source_org_id db.organisations) ≡ true
  pub target_active :
      is_active (find_unique organisation_key row.target_org_id db.organisations) ≡ true

accept-Acceptable :
    (actor : AuthenticatedUser) (id now : ℕ) (db : Db)
    → (accept actor id now db).1 ≡ ok tt
    → Acceptable actor id db
unfolding accept get_owned
accept-Acceptable actor id now db h =
    elim (Option-cases (find_unique relationship_key id db.relationships)) [
      | inl missing ↦ absurd (ground arith)
      | inr (r, found) ↦ record {
        row = r;
        found = found;
        to_actor = ground arith;
        invited = ground arith;
        source_active = ground arith;
        target_active = ground arith;
      }
    ]

Acceptable-accept :
    (actor : AuthenticatedUser) (id now : ℕ) (db : Db)
    → Acceptable actor id db
    → (accept actor id now db).1 ≡ ok tt
unfolding accept get_owned
Acceptable-accept actor id now db a =
    ground (arith, a.found, a.to_actor, a.invited, a.source_active, a.target_active)

-- `accept` succeeds exactly for an invitation that is still INVITED, addressed to the actor's own
-- organisation, between two active organisations.
accept_iff :
    (actor : AuthenticatedUser) (id now : ℕ) (db : Db)
    → ((accept actor id now db).1 ≡ ok tt) ↔ Acceptable actor id db
accept_iff actor id now db = (accept-Acceptable actor id now db, Acceptable-accept actor id now db)

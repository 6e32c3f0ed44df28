-- ===== src/Authz/Access.antt =====
-- When an organisation may reach the resources of another (apps/api/src/authz/policy.service.ts,
-- assertOrganisationAccess).
use kruze.Base.{
  ℕ, ◌≡◌, sym, ◌⊎◌, inl, inr, ◌↔◌, true, ◌&&◌, List, ◌==◌, Memᴰ, arith, Bool-cases, Option-cases,
  find?-mem, find?-holds, find?-none,
}
use kruze.Base.Effects.{forbidden, ok, err}
use kruze.Domain.{AuthenticatedUser}
use kruze.Relationship.{Relationship}
use kruze.Authz.{Db, Allowed, is_active, connects, related, assert_organisation_access}

-- One organisation, or an active relationship between the two, from either side.
pub data Linked (a b : ℕ) (rows : List Relationship) : Type 0 where
  itself : a ≡ b → Linked a b rows
  by :
      (r : Relationship)
      → Memᴰ r rows
      → is_active r.status ≡ true
      → connects a b r ≡ true
      → Linked a b rows

Linked-sym : (a b : ℕ) (rows : List Relationship) → Linked a b rows → Linked b a rows
Linked-sym a b rows (itself e) = itself (sym e)
Linked-sym a b rows (by r m active both) = by r m active (ground (arith, both))

allowed-Linked :
    (user : AuthenticatedUser) (org : ℕ) (db : Db) (why : Allowed)
    → (assert_organisation_access user org db).1 ≡ ok why
    → Linked user.organisation_id org db.relationships
unfolding assert_organisation_access related
allowed-Linked user org db why h = elim (Bool-cases (user.organisation_id == org)) [
  | inl same ↦ itself (ground (arith, same))
  | inr other ↦ elim (Option-cases (related user.organisation_id org db.relationships)) [
    | inl nobody ↦ absurd (ground (arith, h, other, nobody))
    | inr (r, found) ↦
        let test =
          λ (x : Relationship). is_active x.status && connects user.organisation_id org x in
        let holds = find?-holds test db.relationships r found in
        by r (find?-mem test db.relationships r found) (ground (arith, holds))
          (ground (arith, holds))
  ]
]

Linked-allowed :
    (user : AuthenticatedUser) (org : ℕ) (db : Db)
    → Linked user.organisation_id org db.relationships
    → (why : Allowed) × ((assert_organisation_access user org db).1 ≡ ok why)
unfolding assert_organisation_access related
Linked-allowed user org db (itself e) = (Allowed.same_organisation, ground (arith, e))
Linked-allowed user org db (by r m active both) = elim (Bool-cases (user.organisation_id == org)) [
  | inl same ↦ (Allowed.same_organisation, ground (arith, same))
  | inr other ↦ elim (Option-cases (related user.organisation_id org db.relationships)) [
    | inl nobody ↦
        let test =
          λ (x : Relationship). is_active x.status && connects user.organisation_id org x in
        absurd (ground (arith, find?-none test db.relationships r nobody m, active, both))
    | inr (x, found) ↦ (Allowed.relationship x.type, ground (arith, other, found))
  ]
]

answers :
    (user : AuthenticatedUser) (org : ℕ) (db : Db)
    → (assert_organisation_access user org db ≡ (db, err forbidden))
      ⊎ ((why : Allowed) × (assert_organisation_access user org db ≡ (db, ok why)))
unfolding assert_organisation_access
answers user org db = elim (Bool-cases (user.organisation_id == org)) [
  | inl same ↦ inr (Allowed.same_organisation, ground (arith, same))
  | inr other ↦ elim (Option-cases (related user.organisation_id org db.relationships)) [
    | inl nobody ↦ inl (ground (arith, other, nobody))
    | inr (r, found) ↦ inr (Allowed.relationship r.type, ground (arith, other, found))
  ]
]

-- Access is granted exactly where the two organisations are one or an active relationship connects
-- them, whichever of the two invited: where one has access the other has it too, and else the call throws
-- ForbiddenException. It changes nothing.
pub access_iff :
    (user : AuthenticatedUser) (org : ℕ) (db : Db)
    → (((why : Allowed) × ((assert_organisation_access user org db).1 ≡ ok why))
        ↔ Linked user.organisation_id org db.relationships)
      × (Linked user.organisation_id org db.relationships
          ↔ Linked org user.organisation_id db.relationships)
      × (((assert_organisation_access user org db ≡ (db, err forbidden)))
          ⊎ ((why : Allowed) × (assert_organisation_access user org db ≡ (db, ok why))))
access_iff user org db = (
  (λ g. allowed-Linked user org db g.0 g.1, Linked-allowed user org db),
  (Linked-sym _ _ db.relationships, Linked-sym _ _ db.relationships),
  answers user org db,
)

-- ===== src/Relationship/Terminated.antt =====
-- A relationship that was terminated stays so (apps/api/src/relationship/relationship.service.ts).
use kruze.Base.{
  ℕ, suc, ◌<◌, ◌≡◌, refl, ◌∙◌, ◌⊎◌, inl, inr, true, some, List, [], ◌∷◌, ◌==◌, arith, Bool-cases,
  Option-cases,
}
use kruze.Base.Rows.{find_unique, update_row, find_unique-update_row}
use kruze.Domain.{AuthenticatedUser}
use kruze.Relationship.{
  RelationshipStatus, RelationshipType, Relationship, Db, relationship_key, is_invited,
  new_relationship, invite, get_owned, accepted_row, terminated_row, accept, terminate,
}

pub data Call : Type 0 where
  invites : ℕ → RelationshipType → Call
  accepts terminates : ℕ → Call

unfoldable pub step : Db → AuthenticatedUser × ℕ × Call → Db
step db (actor, now, invites target type) = (invite actor target type db).0
step db (actor, now, accepts id) = (accept actor id now db).0
step db (actor, now, terminates id) = (terminate actor id now db).0

unfoldable pub run : Db → List (AuthenticatedUser × ℕ × Call) → Db
run db [] = db
run db (c ∷ cs) = run (step db c) cs

-- The relationship is in the table, between these two organisations, and terminated.
pub record Over (id source target : ℕ) (db : Db) : Type 0 where
  pub row : Relationship
  pub found : find_unique relationship_key id db.relationships ≡ some row
  pub status : row.status ≡ RelationshipStatus.terminated
  pub source_org : row.source_org_id ≡ source
  pub target_org : row.target_org_id ≡ target
  pub old : id < db.next_id

invite_cases :
    (actor : AuthenticatedUser) (target : ℕ) (type : RelationshipType) (db : Db)
    → ((invite actor target type db).0 ≡ db)
      ⊎ ((invite actor target type db).0 ≡ record db {
        relationships = new_relationship actor target type db.next_id ∷ db.relationships;
        next_id = suc db.next_id;
      })
unfolding invite
invite_cases actor target type db = ground arith

accept_cases :
    (actor : AuthenticatedUser) (id now : ℕ) (db : Db)
    → ((accept actor id now db).0 ≡ db)
      ⊎ ((x : Relationship) × (find_unique relationship_key id db.relationships ≡ some x)
          × (is_invited x.status ≡ true)
          × ((accept actor id now db).0 ≡ record db {
            relationships =
                update_row relationship_key id (accepted_row actor now) db.relationships;
          }))
unfolding accept get_owned
accept_cases actor id now db =
    elim (Option-cases (find_unique relationship_key id db.relationships)) [
      | inl missing ↦ inl (ground (arith, missing))
      | inr (x, found) ↦ elim (Bool-cases (is_invited x.status)) [
        | inl invited ↦ ground (arith, found, invited)
        | inr other ↦ inl (ground (arith, found, other))
      ]
    ]

terminate_cases :
    (actor : AuthenticatedUser) (id now : ℕ) (db : Db)
    → ((terminate actor id now db).0 ≡ db)
      ⊎ ((terminate actor id now db).0 ≡ record db {
        relationships = update_row relationship_key id (terminated_row now) db.relationships;
      })
unfolding terminate get_owned
terminate_cases actor id now db = ground arith

Over-moved :
    (id source target j : ℕ) (f : Relationship → Relationship) (db : Db)
    (o : Over id source target db)
    → ((r : Relationship) → (f r).id ≡ r.id)
    → (f o.row).source_org_id ≡ o.row.source_org_id
    → (f o.row).target_org_id ≡ o.row.target_org_id
    → (j ≡ id → (f o.row).status ≡ RelationshipStatus.terminated)
    → Over id source target
        (record db { relationships = update_row relationship_key j f db.relationships })
Over-moved id source target j f db o same_id same_source same_target ends =
    elim (Bool-cases (j == id)) [
      | inl here ↦ record {
        row = f o.row;
        found = ground (
          arith,
          here,
          o.found,
          find_unique-update_row relationship_key j id f db.relationships same_id,
        );
        status = ends (ground (arith, here));
        source_org = same_source ∙ o.source_org;
        target_org = same_target ∙ o.target_org;
        old = o.old;
      }
      | inr other ↦ record {
        row = o.row;
        found = ground (
          arith,
          other,
          o.found,
          find_unique-update_row relationship_key j id f db.relationships same_id,
        );
        status = o.status;
        source_org = o.source_org;
        target_org = o.target_org;
        old = o.old;
      }
    ]

step-Over :
    (id source target : ℕ) (db : Db) (c : AuthenticatedUser × ℕ × Call)
    → Over id source target db
    → Over id source target (step db c)
unfolding step new_relationship
step-Over id source target db (actor, now, invites to type) o =
    elim (invite_cases actor to type db) [
      | inl same ↦ rw same o
      | inr added ↦ rw added (record {
        row = o.row;
        found = ground (arith, o.found, o.old);
        status = o.status;
        source_org = o.source_org;
        target_org = o.target_org;
        old = omega (arith, o.old);
      })
    ]
step-Over id source target db (actor, now, accepts j) o = elim (accept_cases actor j now db) [
  | inl same ↦ rw same o
  | inr (x, found, invited, wrote) ↦ rw wrote (
      Over-moved id source target j (accepted_row actor now) db o (λ r. refl) refl refl
        (λ here. absurd (ground (arith, here, found, invited, o.found, o.status))))
]
step-Over id source target db (actor, now, terminates j) o = elim (terminate_cases actor j now db) [
  | inl same ↦ rw same o
  | inr wrote ↦
      rw wrote (
        Over-moved id source target j (terminated_row now) db o (λ r. refl) refl refl
          (λ here. refl))
]

-- A terminated relationship is never accepted, nor anything else but terminated, by any later sequence
-- of invitations, acceptances and terminations by anyone: its two organisations need a new one.
pub run-Over :
    (id source target : ℕ) (db : Db) (cs : List (AuthenticatedUser × ℕ × Call))
    → Over id source target db
    → Over id source target (run db cs)
unfolding run
run-Over id source target db [] o = o
run-Over id source target db (c ∷ cs) o =
    run-Over id source target (step db c) cs (step-Over id source target db c o)

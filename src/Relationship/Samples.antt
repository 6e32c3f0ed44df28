-- ===== src/Relationship/Samples.antt =====
-- Samples: an invitation between two organisations (apps/api/src/relationship/relationship.service.ts).
use kruze.Base.{ℕ, refl, arith, true, none, List, [], ◌∷◌}
use kruze.Domain.{PlatformRole, AuthenticatedUser}
use kruze.Relationship.{RelationshipStatus, RelationshipType, Db}
use kruze.Relationship.Terminated.{Call, run, Over, run-Over}

abbrev vendor : AuthenticatedUser
vendor = record { user_id = 2; organisation_id = 20; role = PlatformRole.vendor_admin }

abbrev in_status : RelationshipStatus → Db
in_status status = record {
  organisations = record { id = 10; active = true } ∷ record { id = 20; active = true } ∷ [];
  relationships =
      record {
        id = 1;
        source_org_id = 10;
        target_org_id = 20;
        type = RelationshipType.corporate_vendor;
        status = status;
        created_by_user_id = 1;
        approved_by_user_id = none;
        starts_at = none;
        ends_at = none;
      }
      ∷ [];
  next_id = 2;
}

abbrev after_the_end : List (AuthenticatedUser × ℕ × Call)
after_the_end =
    (vendor, 60, Call.accepts 1)
    ∷ (vendor, 70, Call.invites 10 RelationshipType.corporate_vendor)
    ∷ []

is_Over : Over 1 10 20 (in_status RelationshipStatus.terminated)
is_Over = record {
  row = _;
  found = refl;
  status = refl;
  source_org = refl;
  target_org = refl;
  old = ground arith;
}

run-Over_example : Over 1 10 20 (run (in_status RelationshipStatus.terminated) after_the_end)
run-Over_example = run-Over 1 10 20 (in_status RelationshipStatus.terminated) after_the_end is_Over

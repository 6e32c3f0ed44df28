-- ===== src/Fleet/Claimed.antt =====
-- What a claim of a login gives, and that it is given once (apps/api/src/driver/driver.service.ts,
-- claimAccount).
use kruze.Base.{
  ℕ, ◌<◌, ◌≡◌, refl, ◌∙◌, Bool, false, ◌&&◌, none, some, List, [], ◌∷◌, ◌++◌, map, ◌==◌, any, find?,
  All, arith,
}
use kruze.Base.Rows.{find?-update_where}
use kruze.Base.Effects.{Error, ok, err}
use kruze.Domain.{PlatformRole}
use kruze.Maintenance.{Link, linked}
use kruze.Employee.{User, Membership}
use kruze.Fleet.{
  Identity, Db, identity_key, has_number, active_vendors, insert_user, member, link_user,
  claim_account,
}
use kruze.Fleet.Taken.{Request, run, after_claim, claimed_cases, refused_again, run-Taken}

-- a membership of that user in that organisation
abbrev pub belongs : ℕ → ℕ → Membership → Bool
belongs user org m = m.user_id == user && m.organisation_id == org

no_member :
    (user org : ℕ) (rows : List Membership)
    → All (λ m. m.user_id < user) rows
    → any (belongs user org) rows ≡ false
no_member user org [] h = refl
no_member user org (m ∷ rows) h = ground (arith, h.0, no_member user org rows h.1)

joined :
    (role : PlatformRole) (user org id : ℕ) (links : List Link) (rows : List Membership)
    → any (belongs user org) rows ≡ false
    → any (belongs user org) (map (member role user) (active_vendors id links) ++ rows)
      ≡ linked id org links
unfolding active_vendors linked
joined role user org id [] rows h = h
joined role user org id (l ∷ links) rows h = ground (arith, joined role user org id links rows h)

module _ (role : PlatformRole) (global_no : List ℕ) where
  -- What a claim has made of the tables: the identity that has the number carries the user, the user
  -- belongs to just the organisations that the identity has an active link to, and no further claim of
  -- the number is let through, with whatever phone number and address, whatever requests come between.
  pub record Claimed (db after : Db) (user : ℕ) : Type 0 where
    pub identity : Identity
    pub found : find? (has_number global_no) db.identities ≡ some identity
    pub free : identity.user_id ≡ none
    pub carries :
        find? (has_number global_no) after.identities
        ≡ some (record identity { user_id = some user })
    pub joins :
        (org : ℕ) → any (belongs user org) after.memberships ≡ linked identity.id org db.vendors
    pub refuses :
        (between : List Request) (phone email : ℕ)
        → (e : Error) × (claim_account role global_no phone email (run role after between)
            ≡ (run role after between, err e))

  -- A claim that succeeds, where no membership names a user that is yet to come, gives the login to the
  -- identity with that number, makes the new user a member of exactly the organisations that the
  -- identity has an active link to, and is never repeated: after it and any further identities and claims,
  -- another claim of the number is refused.
  pub claim_account-Claimed :
      (phone email : ℕ) (db : Db) (u : User)
      → All (λ m. m.user_id < db.next_id) db.memberships
      → (claim_account role global_no phone email db).1 ≡ ok u
      → Claimed db (claim_account role global_no phone email db).0 u.id
  unfolding link_user insert_user
  claim_account-Claimed phone email db u fresh done =
      let (i, found, free, new_id, result) = claimed_cases role global_no phone email db u done in
      let carries : find? (has_number global_no) (after_claim role global_no email i db).identities
          ≡ some (record i { user_id = some db.next_id }) =
        find?-update_where (has_number global_no) (λ j. identity_key j == i.id)
          (λ j. record j { user_id = some db.next_id }) db.identities (λ j. refl)
        ∙ rw found (ground arith) in
      rw (result, new_id)
        (record {
          identity = i;
          found = found;
          free = free;
          carries = carries;
          joins = λ org.
              joined role db.next_id org i.id db.vendors db.memberships
                (no_member db.next_id org db.memberships fresh);
          refuses = λ between phone' email'. refused_again role global_no phone' email' _ (
              run-Taken role global_no between _ (record {
                identity = record i { user_id = some db.next_id };
                found = carries;
                taken = refl;
              }));
        })

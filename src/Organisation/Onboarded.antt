-- ===== src/Organisation/Onboarded.antt =====
-- Which identifiers the tenants get (apps/api/src/organisation/organisation.service.ts).
use kruze.Base.{ℕ, suc, ◌+◌, ◌≡◌, refl, true, false, List, [], ◌∷◌, any, arith, Option}
use kruze.Base.Effects.{duplicate, ok, err}
use kruze.Organisation.Ids.{
  OrganisationRole, vendor, sub_vendor, format_global_org_id, role_prefix, pad_start, decimal,
}
use kruze.Organisation.Tenants.{
  OrganisationStatus, Organisation, Db, Input, same_role, same_digits, same_global_id, count_with,
  new_organisation, insert_organisation, request_onboarding,
}

same_digits_refl : (ds : List ℕ) → same_digits ds ds ≡ true
same_digits_refl [] = refl
same_digits_refl (d ∷ ds) = ground (arith, same_digits_refl ds)

-- the two roles share a prefix
same_prefix :
    (n : ℕ)
    → same_global_id (format_global_org_id vendor n) (format_global_org_id sub_vendor n) ≡ true
unfolding format_global_org_id role_prefix
same_prefix n = same_digits_refl (pad_start 6 (decimal (suc n) n))

abbrev pub applicant : OrganisationRole → List OrganisationRole → Option ℕ → Input
applicant role others profile = record { primary = role; others = others; profile = profile }

insert_ok :
    (input : Input) (status : OrganisationStatus) (db : Db) (o : Organisation)
    → (insert_organisation input status db).1 ≡ ok o
    → (insert_organisation input status db).0.organisations
      ≡ new_organisation input status db ∷ db.organisations
unfolding insert_organisation
insert_ok input status db o h = ground (arith, h)

insert_taken :
    (input : Input) (status : OrganisationStatus) (db : Db)
    → any
        (λ o. same_global_id o.global_org_id (new_organisation input status db).global_org_id)
        db.organisations
      ≡ true
    → insert_organisation input status db ≡ (db, err duplicate)
unfolding insert_organisation
insert_taken input status db h = rw (h, insert_organisation) refl

-- The identifier of the next sub-vendor is there, in tables that got this vendor.
next_taken :
    (db after : Db) (others more : List OrganisationRole) (profile other : Option ℕ)
    → count_with vendor db.organisations ≡ count_with sub_vendor db.organisations
    → any (same_role sub_vendor) others ≡ false
    → after.organisations
      ≡ new_organisation (applicant vendor others profile) OrganisationStatus.pending_approval db
        ∷ db.organisations
    → any
        (λ o.
          same_global_id o.global_org_id
            (new_organisation
              (applicant sub_vendor more other)
              OrganisationStatus.pending_approval
              after).global_org_id)
        after.organisations
      ≡ true
unfolding new_organisation count_with
next_taken db after others more profile other same apart rows =
    let first = same_prefix (count_with vendor db.organisations + 1) in
    rw (rows, apart, ← same) (ground (arith, first))

-- Where as many organisations are vendors as are sub-vendors, an organisation that is onboarded as a
-- vendor, with any further roles but SUB_VENDOR, takes the identifier that the next sub-vendor would get:
-- onboarding an organisation that is a sub-vendor first, with any further roles, is then refused.
pub sub_vendor_blocked :
    (db : Db) (o : Organisation) (others more : List OrganisationRole) (profile other : Option ℕ)
    → count_with vendor db.organisations ≡ count_with sub_vendor db.organisations
    → any (same_role sub_vendor) others ≡ false
    → (request_onboarding (applicant vendor others profile) db).1 ≡ ok o
    → let after = (request_onboarding (applicant vendor others profile) db).0 in
      request_onboarding (applicant sub_vendor more other) after ≡ (after, err duplicate)
unfolding request_onboarding
sub_vendor_blocked db o others more profile other same apart made =
    let rows =
      insert_ok (applicant vendor others profile) OrganisationStatus.pending_approval db o made in
    insert_taken (applicant sub_vendor more other) OrganisationStatus.pending_approval _
      (next_taken db _ others more profile other same apart rows)

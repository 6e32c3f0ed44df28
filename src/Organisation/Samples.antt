-- ===== src/Organisation/Samples.antt =====
-- Samples: the first vendor and the first sub-vendor
-- (apps/api/src/organisation/organisation.service.ts).
use kruze.Base.{List, ◌≡◌, refl, none, [], ◌∷◌}
use kruze.Base.Effects.{duplicate, ok, err}
use kruze.Organisation.Ids.{
  OrganisationRole, vendor, sub_vendor, fleet_operator, decimal, zeros, pad_start,
  format_global_org_id,
}
use kruze.Organisation.Tenants.{
  OrganisationStatus, Organisation, Db, count_with, new_organisation, insert_organisation,
  request_onboarding,
}
use kruze.Organisation.Onboarded.{applicant, sub_vendor_blocked}

abbrev no_tenants : Db
no_tenants = record { organisations = []; next_id = 1 }

none_yet :
    count_with vendor no_tenants.organisations ≡ count_with sub_vendor no_tenants.organisations
unfolding count_with
none_yet = refl

-- a fleet operator, too
abbrev fleet : List OrganisationRole
fleet = fleet_operator ∷ []

abbrev first_vendor : Organisation
first_vendor =
    new_organisation (applicant vendor fleet none) OrganisationStatus.pending_approval no_tenants

vendor_onboarded : (request_onboarding (applicant vendor fleet none) no_tenants).1 ≡ ok first_vendor
unfolding request_onboarding insert_organisation new_organisation
vendor_onboarded = refl

sub_vendor_blocked_example :
    request_onboarding
      (applicant sub_vendor [] none)
      (request_onboarding (applicant vendor fleet none) no_tenants).0
    ≡ ((request_onboarding (applicant vendor fleet none) no_tenants).0, err duplicate)
sub_vendor_blocked_example =
    sub_vendor_blocked no_tenants first_vendor fleet [] none none none_yet refl vendor_onboarded

padded : (format_global_org_id vendor 42).digits ≡ 0 ∷ 0 ∷ 0 ∷ 0 ∷ 4 ∷ 2 ∷ []
unfolding format_global_org_id pad_start decimal zeros
padded = refl

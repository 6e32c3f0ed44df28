-- ===== src/Contract/Samples.antt =====
-- Samples: a contract with a card that runs and one that has ended
-- (apps/api/src/contract/contract.service.ts).
use kruze.Base.{ℕ, ◌≡◌, refl, Option, none, some, [], ◌∷◌, is_some, true, false, arith}
use kruze.Base.Rows.{find_unique}
use kruze.Base.Fixtures.{restoring}
use kruze.Domain.{PlatformRole, AuthenticatedUser}
use kruze.Billing.Store.{PricingModel, RateCard}
use kruze.Billing.Charges.{find_effective_rate_card}
use kruze.Contract.{ContractStatus, Db, Changes, card_key, update_rate_card, remove_rate_card}
use kruze.Contract.Priced.{charge_at, is_current, past_charges_kept}

abbrev manager : AuthenticatedUser
manager = record { user_id = 1; organisation_id = 10; role = PlatformRole.corporate_finance }

abbrev card : ℕ → Option ℕ → RateCard
card id until = record {
  id = id;
  contract_id = 6;
  vehicle_type = id;
  zone_id = none;
  pricing_model = PricingModel.per_km;
  pricing_rules = record {
    per_km_rate = some 1500;
    per_trip_flat = none;
    minimum_guarantee = some 20000;
    tax_rate_percent = some 5;
    base_fare = none;
    slabs = none;
    cap_amount = none;
  };
  effective_from = 0;
  effective_to = until;
  version = 1;
}

abbrev two_cards : Db
two_cards = record {
  relationships = [];
  contracts =
      record {
        id = 6;
        corporate_org_id = 10;
        vendor_org_id = 20;
        organisation_relationship_id = some 3;
        starts_at = 0;
        ends_at = none;
        status = ContractStatus.active;
      }
      ∷ [];
  rate_cards = card 7 none ∷ card 8 (some 40) ∷ [];
  next_id = 9;
}

abbrev dearer : Changes
dearer = record {
  pricing_model = some PricingModel.per_trip;
  pricing_rules = none;
  effective_from = none;
  effective_to = none;
}

card_runs :
    (found : RateCard)
    → find_unique card_key 7 two_cards.rate_cards ≡ some found
    → is_current 100 found ≡ true
card_runs found h = ground (arith, h)

past_charges_kept_example :
    (charge_at 1 12 6 7 90 (some 4) (remove_rate_card manager 7 100 two_cards).0.rate_cards
      ≡ charge_at 1 12 6 7 90 (some 4) two_cards.rate_cards)
    × (charge_at 1 12 6 7 90
          (some 4)
          (update_rate_card restoring manager 7 dearer 100 two_cards).0.rate_cards
        ≡ charge_at 1 12 6 7 90 (some 4) two_cards.rate_cards)
past_charges_kept_example =
    past_charges_kept restoring manager 7 100 dearer two_cards (ground arith) card_runs 1 12 6 7 90
      (some 4) (ground arith) (ground arith)

-- A card that ended at 40 is in force at 50 again once it is removed at 100.
ended : is_some (find_effective_rate_card 6 8 50 none two_cards.rate_cards) ≡ false
unfolding find_effective_rate_card
ended = refl

removal_revives :
    is_some
      (find_effective_rate_card 6 8 50 none (remove_rate_card manager 8 100 two_cards).0.rate_cards)
    ≡ true
unfolding remove_rate_card find_effective_rate_card kruze.Contract.get_owned_rate_card
    kruze.Contract.close_card
removal_revives = refl

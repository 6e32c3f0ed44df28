-- ===== src/Contract.antt =====
-- apps/api/src/contract/contract.service.ts: contracts and their rate cards. The card in force,
-- findEffectiveRateCard, is in Billing/Charges, which prices trips with it. The cities and the targets of
-- a contract are left out.

pub mod Priced
mod Samples
use kruze.Base.{
  ℕ, suc, ◌+◌, Bool, true, false, not, ◌&&◌, ◌||◌, Option, none, some, List, [], ◌∷◌, leb, ◌==◌,
  or_else, find?, keep,
}
use kruze.Base.Rows.{find_unique, update_row}
use kruze.Base.Effects.{
  bad_request, not_found, type_error, M, return, gets, or_throw, modify, require, ◌>>=◌, ◌>>◌,
  Transactions, transaction,
}
use kruze.Domain.{AuthenticatedUser}
use kruze.Relationship.{Relationship, RelationshipStatus, RelationshipType}
use kruze.Billing.Store.{PricingModel, PricingRules, RateCard}
use kruze.Billing.Charges.{newest_card, in_zone}

pub data ContractStatus : Type 0 where
  draft active expired terminated : ContractStatus

pub record Contract : Type 0 where
  pub id : ℕ
  pub corporate_org_id : ℕ
  pub vendor_org_id : ℕ
  pub organisation_relationship_id : Option ℕ
  pub starts_at : ℕ
  pub ends_at : Option ℕ
  pub status : ContractStatus

pub record Db : Type 0 where
  pub relationships : List Relationship
  pub contracts : List Contract
  pub rate_cards : List RateCard
  pub next_id : ℕ

abbrev pub contract_key : Contract → ℕ
contract_key c = c.id

abbrev pub card_key : RateCard → ℕ
card_key c = c.id

abbrev is_active : RelationshipStatus → Bool
is_active RelationshipStatus.active = true
is_active _ = false

abbrev is_corporate_vendor : RelationshipType → Bool
is_corporate_vendor RelationshipType.corporate_vendor = true
is_corporate_vendor _ = false

abbrev connects : ℕ → ℕ → Relationship → Bool
connects a b r =
    r.source_org_id == a && r.target_org_id == b || r.source_org_id == b && r.target_org_id == a

pub record ContractInput : Type 0 where
  pub vendor_org_id : ℕ
  pub starts_at : ℕ
  pub ends_at : Option ℕ

unfoldable pub new_contract : AuthenticatedUser → ContractInput → ℕ → ℕ → Contract
new_contract actor input relationship id = record {
  id = id;
  corporate_org_id = actor.organisation_id;
  vendor_org_id = input.vendor_org_id;
  organisation_relationship_id = some relationship;
  starts_at = input.starts_at;
  ends_at = input.ends_at;
  status = draft;
}

unfoldable pub create : AuthenticatedUser → ContractInput → M Db Contract
create actor input = do
  found ← gets (λ db.
      find?
        (λ r.
          is_active r.status
          && is_corporate_vendor r.type
          && connects actor.organisation_id input.vendor_org_id r)
        db.relationships)
  relationship ← or_throw found bad_request
  contract ← gets (λ db. new_contract actor input relationship.id db.next_id)
  modify (λ db. record db { contracts = contract ∷ db.contracts; next_id = suc db.next_id })
  return contract

-- `contract.corporateOrgId === actor.organisationId || contract.vendorOrgId === actor.organisationId`
abbrev pub is_party : AuthenticatedUser → Contract → Bool
is_party actor c =
    c.corporate_org_id == actor.organisation_id || c.vendor_org_id == actor.organisation_id

unfoldable pub get_owned_contract : AuthenticatedUser → ℕ → M Db Contract
get_owned_contract actor id = do
  found ← gets (λ db. find_unique contract_key id db.contracts)
  contract ← or_throw found not_found
  require (is_party actor contract) not_found
  return contract

unfoldable pub activate : AuthenticatedUser → ℕ → M Db (Unit {0})
activate actor id = do
  contract ← get_owned_contract actor id
  modify (λ db. record db {
    contracts =
        update_row contract_key contract.id (λ c. record c { status = ContractStatus.active })
          db.contracts;
  })

pub record CardInput : Type 0 where
  pub vehicle_type : ℕ
  pub zone_id : Option ℕ
  pub pricing_model : PricingModel
  pub pricing_rules : PricingRules
  pub effective_from : ℕ
  pub effective_to : Option ℕ

-- the newest card of the same contract, vehicle type and zone
unfoldable pub latest : ℕ → ℕ → Option ℕ → List RateCard → Option RateCard
latest contract vehicle_type zone cards = newest_card (
    keep (λ c. c.contract_id == contract && c.vehicle_type == vehicle_type && in_zone zone c) cards)

-- `(latest?.version ?? 0) + 1`
abbrev next_version : Option RateCard → ℕ
next_version none = 1
next_version (some c) = suc c.version

unfoldable pub insert_card : (ℕ → RateCard) → M Db RateCard
insert_card row = do
  card ← gets (λ db. row db.next_id)
  modify (λ db. record db { rate_cards = card ∷ db.rate_cards; next_id = suc db.next_id })
  return card

unfoldable pub first_card : ℕ → CardInput → Option RateCard → ℕ → RateCard
first_card contract input newest id = record {
  id = id;
  contract_id = contract;
  vehicle_type = input.vehicle_type;
  zone_id = input.zone_id;
  pricing_model = input.pricing_model;
  pricing_rules = input.pricing_rules;
  effective_from = input.effective_from;
  effective_to = input.effective_to;
  version = next_version newest;
}

unfoldable pub add_rate_card : AuthenticatedUser → ℕ → CardInput → M Db RateCard
add_rate_card actor id input = do
  contract ← get_owned_contract actor id
  newest ← gets (λ db. latest contract.id input.vehicle_type input.zone_id db.rate_cards)
  insert_card (first_card contract.id input newest)

-- `include: { contract: true }`; the foreign key promises the contract
unfoldable pub get_owned_rate_card : AuthenticatedUser → ℕ → M Db RateCard
get_owned_rate_card actor id = do
  found ← gets (λ db. find_unique card_key id db.rate_cards)
  card ← or_throw found not_found
  owner ← gets (λ db. find_unique contract_key card.contract_id db.contracts)
  contract ← or_throw owner type_error
  require (is_party actor contract) not_found
  return card

pub record Changes : Type 0 where
  pub pricing_model : Option PricingModel
  pub pricing_rules : Option PricingRules
  pub effective_from : Option ℕ
  pub effective_to : Option ℕ

-- `data: { effectiveTo: new Date() }`
abbrev pub closed : ℕ → RateCard → RateCard
closed now c = record c { effective_to = some now }

unfoldable pub close_card : ℕ → ℕ → M Db (Unit {0})
close_card id now =
    modify (λ db. record db { rate_cards = update_row card_key id (closed now) db.rate_cards })

unfoldable pub next_card : ℕ → Changes → RateCard → ℕ → RateCard
next_card now changes card id = record {
  id = id;
  contract_id = card.contract_id;
  vehicle_type = card.vehicle_type;
  zone_id = card.zone_id;
  pricing_model = or_else changes.pricing_model card.pricing_model;
  pricing_rules = or_else changes.pricing_rules card.pricing_rules;
  effective_from = or_else changes.effective_from now;
  effective_to = changes.effective_to;
  version = suc card.version;
}

unfoldable pub update_rate_card :
    Transactions Db → AuthenticatedUser → ℕ → Changes → ℕ → M Db RateCard
update_rate_card tx actor id changes now = do
  card ← get_owned_rate_card actor id
  transaction tx (do close_card card.id now; insert_card (next_card now changes card))

unfoldable pub remove_rate_card : AuthenticatedUser → ℕ → ℕ → M Db (Unit {0})
remove_rate_card actor id now = do card ← get_owned_rate_card actor id; close_card card.id now

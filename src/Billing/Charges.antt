-- ===== src/Billing/Charges.antt =====
-- apps/api/src/billing/trip-charge.service.ts, with the rate card of
-- apps/api/src/contract/contract.service.ts (findEffectiveRateCard).
use Prim.Native.Nat.{min, max}
use kruze.Base.{
  ℕ, ◌+◌, ◌*◌, Bool, true, false, not, ◌&&◌, Option, none, some, List, [], ◌∷◌, leb, ltb, ◌==◌,
  if◌then◌else◌, is_id, is_some, or_else, find?, keep,
}
use kruze.Base.Rows.{find_unique, update_row}
use kruze.Base.Effects.{
  bad_request, not_found, M, return, gets, or_throw, modify, require, ◌>>=◌, ◌>>◌,
}
use kruze.Domain.{AuthenticatedUser}
use kruze.Trip.Machine.{TripStatus}
use kruze.Trip.Store.{Trip, Assignment, trip_id_of, is_active, is_party}
use kruze.Billing.Store.{
  RateSlab, PricingModel, PricingRules, RateCard, TripCharge, Distance, Vehicle, Db, charge_key,
  distance_key, vehicle_key,
}

-- `distanceKm > minKm && (maxKm === undefined || distanceKm <= maxKm)`
unfoldable pub in_slab : ℕ → RateSlab → Bool
in_slab km s = ltb s.min_km km && elim s.max_km [ none ↦ true | some m ↦ leb km m ]

-- `slabs[slabs.length - 1]`
unfoldable pub last_slab : List RateSlab → Option RateSlab
last_slab [] = none
last_slab (s ∷ ss) = elim (last_slab ss) [ none ↦ some s | some t ↦ some t ]

abbrev rate_of : Option RateSlab → Option ℕ
rate_of none = none
rate_of (some s) = some s.rate

unfoldable pub slab_rate : ℕ → List RateSlab → ℕ
unfolding in_slab last_slab
slab_rate km slabs =
    or_else (rate_of (find? (in_slab km) slabs)) (or_else (rate_of (last_slab slabs)) 0)

unfoldable pub slab_amount : ℕ → PricingRules → ℕ
unfolding slab_rate
slab_amount km rules =
    let amount = or_else rules.base_fare 0 + slab_rate km (or_else rules.slabs []) in
    elim rules.cap_amount [ none ↦ amount | some cap ↦ min amount cap ]

-- the chain of tests on `pricingModel`
unfoldable pub base_amount : PricingModel → ℕ → PricingRules → ℕ
unfolding slab_amount
base_amount PricingModel.per_km km rules = km * or_else rules.per_km_rate 0
base_amount PricingModel.per_trip km rules = or_else rules.per_trip_flat 0
base_amount PricingModel.hybrid km rules =
    km * or_else rules.per_km_rate 0 + or_else rules.per_trip_flat 0
base_amount PricingModel.slab km rules = slab_amount km rules
base_amount PricingModel.other km rules = or_else rules.per_trip_flat 0

unfoldable pub amount_of : PricingModel → ℕ → PricingRules → ℕ
unfolding base_amount
amount_of model km rules = elim rules.minimum_guarantee [
  | none ↦ base_amount model km rules
  | some least ↦ max (base_amount model km rules) least
]

abbrev pub is_effective : ℕ → RateCard → Bool
is_effective at c =
    leb c.effective_from at && elim c.effective_to [ none ↦ true | some t ↦ leb at t ]

-- `orderBy: { version: "desc" }`, then the first
unfoldable pub newest_card : List RateCard → Option RateCard
newest_card [] = none
newest_card (c ∷ cs) = elim (newest_card cs) [
  | none ↦ some c
  | some d ↦ if ltb c.version d.version then some d else some c
]

abbrev pub in_zone : Option ℕ → RateCard → Bool
in_zone none c = not (is_some c.zone_id)
in_zone (some zone) c = is_id c.zone_id zone

unfoldable pub zone_card : ℕ → ℕ → ℕ → Option ℕ → List RateCard → Option RateCard
unfolding newest_card
zone_card contract vehicle_type at zone cards = newest_card (
    keep
      (λ c.
        c.contract_id == contract
        && c.vehicle_type == vehicle_type
        && in_zone zone c
        && is_effective at c)
      cards)

unfoldable pub find_effective_rate_card : ℕ → ℕ → ℕ → Option ℕ → List RateCard → Option RateCard
unfolding zone_card
find_effective_rate_card contract vehicle_type at none cards =
    zone_card contract vehicle_type at none cards
find_effective_rate_card contract vehicle_type at (some zone) cards =
    elim (zone_card contract vehicle_type at (some zone) cards) [
      | some c ↦ some c
      | none ↦ zone_card contract vehicle_type at none cards
    ]

-- the vehicle type "STANDARD"
abbrev pub standard : ℕ
standard = 0

abbrev vehicle_type_of : List Vehicle → Option Assignment → ℕ
vehicle_type_of vehicles none = standard
vehicle_type_of vehicles (some a) = elim a.vehicle_id [
  | none ↦ standard
  | some id ↦ elim (find_unique vehicle_key id vehicles) [
    | none ↦ standard
    | some v ↦ or_else v.vehicle_type standard
  ]
]

abbrev km_of : Option Distance → ℕ
km_of none = 0
km_of (some d) = or_else d.actual_km (or_else d.estimated_km 0)

abbrev pub is_completed : TripStatus → Bool
is_completed TripStatus.completed = true
is_completed _ = false

-- the columns that `computeForTrip` writes; the version is that of a new row
unfoldable pub charge_of : ℕ → RateCard → ℕ → TripCharge
charge_of trip card km =
    let amount = amount_of card.pricing_model km card.pricing_rules in
    let taxes = amount * or_else card.pricing_rules.tax_rate_percent 0 in
    record {
      trip_id = trip;
      rate_card_id = card.id;
      corporate_charge = amount * 100 + taxes;
      vendor_payable = amount;
      taxes = taxes;
      version = 1;
    }

unfoldable pub upsert_charge : TripCharge → List TripCharge → List TripCharge
upsert_charge c rows =
    if is_some (find_unique charge_key c.trip_id rows)
    then update_row charge_key c.trip_id (λ old. record c { version = old.version + 1 }) rows
    else c ∷ rows

-- the version of a row that is written over another, or as the first
abbrev pub next_version : Option TripCharge → ℕ
next_version none = 1
next_version (some c) = c.version + 1

-- the type of the vehicle of the trip's first active assignment
unfoldable pub trip_vehicle_type : ℕ → Db → ℕ
trip_vehicle_type id db =
    vehicle_type_of db.vehicles
      (find? (λ a. a.trip_id == id && is_active a.status) db.trip.assignments)

-- `actualDistanceKm ?? estimatedDistanceKm ?? 0`
unfoldable pub trip_km : ℕ → Db → ℕ
trip_km id db = km_of (find_unique distance_key id db.distances)

-- from the vehicle's type on, for a trip with a contract
unfoldable pub price_trip : ℕ → ℕ → Trip → M Db TripCharge
price_trip id contract trip = do
  vehicle_type ← gets (trip_vehicle_type id)
  priced_by ← gets (λ db.
      find_effective_rate_card contract vehicle_type trip.scheduled_start_at none db.rate_cards)
  card ← or_throw priced_by bad_request
  km ← gets (trip_km id)
  version ← gets (λ db. next_version (find_unique charge_key id db.charges))
  modify (λ db. record db { charges = upsert_charge (charge_of id card km) db.charges })
  return (record (charge_of id card km) { version = version })

unfoldable pub compute_for_trip : AuthenticatedUser → ℕ → M Db TripCharge
compute_for_trip actor id = do
  found ← gets (λ db. find_unique trip_id_of id db.trip.trips)
  trip ← or_throw found not_found
  require (is_party actor trip) not_found
  require (is_completed trip.status) bad_request
  contract ← or_throw trip.contract_id bad_request
  price_trip id contract trip

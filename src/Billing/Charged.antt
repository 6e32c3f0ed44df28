-- ===== src/Billing/Charged.antt =====
-- What a computed charge is (apps/api/src/billing/trip-charge.service.ts).
use Prim.Native.Nat.{max}
use kruze.Base.{
  ℕ, ◌+◌, ◌-◌, ◌*◌, ◌≤◌, ◌≡◌, refl, inl, inr, true, Option, none, some, or_else, List, [], ◌∷◌,
  ◌==◌, arith, Bool-cases, Option-cases,
}
use mathlib.Core.Option
use kruze.Base.Rows.{find_unique, update_row}
use kruze.Base.Effects.{Result, ok}
use kruze.Domain.{AuthenticatedUser}
use kruze.Trip.Store.{Trip, trip_id_of}
use kruze.Billing.Store.{PricingModel, PricingRules, RateCard, TripCharge, Db, charge_key}
use kruze.Billing.Charges.{
  slab_amount, base_amount, amount_of, is_completed, charge_of, upsert_charge, next_version,
  find_effective_rate_card, trip_vehicle_type, trip_km, price_trip, compute_for_trip,
}

charge_of_id : (id km : ℕ) (card : RateCard) → (charge_of id card km).trip_id ≡ id
unfolding charge_of
charge_of_id id km card = refl

charge_of_version : (id km : ℕ) (card : RateCard) → (charge_of id card km).version ≡ 1
unfolding charge_of
charge_of_version id km card = refl

-- The row keeps its key, since every row with the key gets it again.
updated_first :
    (c : TripCharge) (rows : List TripCharge) (o : TripCharge)
    → find_unique charge_key c.trip_id rows ≡ some o
    → find_unique charge_key c.trip_id
        (update_row charge_key c.trip_id (λ x. record c { version = x.version + 1 }) rows)
      ≡ some (record c { version = o.version + 1 })
updated_first c [] o h = absurd (ground arith)
updated_first c (r ∷ rows) o h = elim (Bool-cases (r.trip_id == c.trip_id)) [
  | inl here ↦ ground (arith, here, h)
  | inr there ↦ ground (arith, there, h, updated_first c rows o)
]

upsert_charge-found :
    (c : TripCharge) (rows : List TripCharge)
    → c.version ≡ 1
    → find_unique charge_key c.trip_id (upsert_charge c rows)
      ≡ some (record c { version = next_version (find_unique charge_key c.trip_id rows) })
unfolding upsert_charge
upsert_charge-found c rows first = elim (Option-cases (find_unique charge_key c.trip_id rows)) [
  | inl fresh ↦ ground (arith, fresh, first)
  | inr (o, there) ↦ ground (arith, there, updated_first c rows o there)
]

record Stored (id : ℕ) (db : Db) (r : Db × Result TripCharge) (c : TripCharge) : Type 0 where
  of_trip : c.trip_id ≡ id
  version : c.version ≡ next_version (find_unique charge_key id db.charges)
  charges : r.0.charges ≡ upsert_charge (record c { version = 1 }) db.charges

price_trip-Stored :
    (id contract : ℕ) (trip : Trip) (db : Db) (c : TripCharge)
    → (price_trip id contract trip db).1 ≡ ok c
    → Stored id db (price_trip id contract trip db) c
unfolding price_trip
price_trip-Stored id contract trip db c h =
    elim (Option-cases (
      find_effective_rate_card contract (trip_vehicle_type id db) trip.scheduled_start_at none
        db.rate_cards)) [
          | inl unpriced ↦ absurd (ground (arith, unpriced))
          | inr (card, found) ↦ record {
            of_trip = ground (arith, found, charge_of_id id (trip_km id db) card);
            version = ground (arith, found);
            charges = ground (arith, found, charge_of_version id (trip_km id db) card);
          }
        ]

compute-prices :
    (actor : AuthenticatedUser) (id : ℕ) (db : Db) (c : TripCharge)
    → (compute_for_trip actor id db).1 ≡ ok c
    → (trip : Trip) × (contract : ℕ) × (find_unique trip_id_of id db.trip.trips ≡ some trip)
      × (is_completed trip.status ≡ true)
      × (compute_for_trip actor id db ≡ price_trip id contract trip db)
unfolding compute_for_trip
compute-prices actor id db c h = elim (Option-cases (find_unique trip_id_of id db.trip.trips)) [
  | inl missing ↦ absurd (ground arith)
  | inr (trip, found) ↦ elim (Option-cases trip.contract_id) [
    | inl none_yet ↦ absurd (ground arith)
    | inr (contract, under) ↦ (trip, contract, found, ground arith, ground (arith, found, under))
  ]
]

-- A charge is computed only for a completed trip; it is then the trip's row, with the
-- version after that of the row it replaces, or 1.
pub compute_for_trip-versions :
    (actor : AuthenticatedUser) (id : ℕ) (db : Db) (c : TripCharge)
    → (compute_for_trip actor id db).1 ≡ ok c
    → (trip : Trip) × (find_unique trip_id_of id db.trip.trips ≡ some trip)
      × (is_completed trip.status ≡ true)
      × (c.version ≡ next_version (find_unique charge_key id db.charges))
      × (find_unique charge_key id (compute_for_trip actor id db).0.charges ≡ some c)
compute_for_trip-versions actor id db c h =
    let (trip, contract, found, done, same) = compute-prices actor id db c h in
    let s = price_trip-Stored id contract trip db c (rw same at h) in
    let written = upsert_charge-found (record c { version = 1 }) db.charges refl in
    (trip, found, done, s.version, ground (arith, same, s.charges, s.version, s.of_trip, written))

slab_amount-cap :
    (km cap : ℕ) (rules : PricingRules) → rules.cap_amount ≡ some cap → slab_amount km rules ≤ cap
unfolding slab_amount
slab_amount-cap km cap rules h = ground (arith, h)

-- the cap of a card, which only the slab model has
abbrev pub cap_of : PricingModel → PricingRules → Option ℕ
cap_of PricingModel.slab rules = rules.cap_amount
cap_of _ rules = none

abbrev pub AtMost : Option ℕ → ℕ → Type 0
AtMost none amount = Unit
AtMost (some most) amount = amount ≤ most

-- the guaranteed amount, 0 where none is agreed
abbrev pub guarantee : PricingRules → ℕ
guarantee rules = or_else rules.minimum_guarantee 0

amount_of-guarantee :
    (model : PricingModel) (km : ℕ) (rules : PricingRules)
    → guarantee rules ≤ amount_of model km rules
unfolding amount_of
amount_of-guarantee model km rules = elim (Option-cases rules.minimum_guarantee) [
  | inl free ↦ rw free (omega arith)
  | inr (least, agreed) ↦ ground (arith, agreed)
]

amount_of-AtMost :
    (model : PricingModel) (km : ℕ) (rules : PricingRules)
    → AtMost
        (Option.map (λ cap. max cap (guarantee rules)) (cap_of model rules))
        (amount_of model km rules)
unfolding amount_of base_amount
amount_of-AtMost PricingModel.slab km rules = elim (Option-cases rules.cap_amount) [
  | inl uncapped ↦ rw uncapped tt
  | inr (cap, capped) ↦ ground (arith, capped, slab_amount-cap km cap rules capped)
]
amount_of-AtMost PricingModel.per_km km rules = tt
amount_of-AtMost PricingModel.per_trip km rules = tt
amount_of-AtMost PricingModel.hybrid km rules = tt
amount_of-AtMost PricingModel.other km rules = tt

-- Whatever the card and the distance, the vendor is owed at least the minimum guarantee, if there is one;
-- under a slab card with a cap at most the cap, or the guarantee where that is more; and the corporate is
-- charged that amount raised by the tax rate in percent, the taxes being the difference.
pub charge_of-bounds :
    (id km : ℕ) (card : RateCard)
    → (guarantee card.pricing_rules ≤ (charge_of id card km).vendor_payable)
      × AtMost
          (Option.map
            (λ cap. max cap (guarantee card.pricing_rules))
            (cap_of card.pricing_model card.pricing_rules))
          (charge_of id card km).vendor_payable
      × ((charge_of id card km).corporate_charge
          ≡ (charge_of id card km).vendor_payable
            * (100 + or_else card.pricing_rules.tax_rate_percent 0))
      × ((charge_of id card km).taxes
          ≡ (charge_of id card km).corporate_charge - (charge_of id card km).vendor_payable * 100)
unfolding charge_of
charge_of-bounds id km card = (
  amount_of-guarantee card.pricing_model km card.pricing_rules,
  amount_of-AtMost card.pricing_model km card.pricing_rules,
  grind arith,
  omega arith,
)

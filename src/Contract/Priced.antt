-- ===== src/Contract/Priced.antt =====
-- What a change of a rate card does to the prices of the trips (apps/api/src/contract/contract.service.ts,
-- updateRateCard and removeRateCard, with apps/api/src/billing/trip-charge.service.ts).
use kruze.Base.{
  ℕ, ◌≤◌, ◌<◌, ◌≡◌, refl, sym, ap, ◌∙◌, ◌⊎◌, inl, inr, Bool, true, ◌&&◌, Option, none, some, List,
  [], ◌∷◌, leb, ◌==◌, if◌then◌else◌, or_else, keep, find?-holds, mem-All, arith, Bool-cases,
  Option-cases,
}
use mathlib.Core.Option
use mathlib.Core.Path.{subst}
use kruze.Base.Rows.{find_unique, update_row, Distinct, find_unique-mem, keep-update_where}
use kruze.Base.Effects.{Error, not_found, type_error, ok, err, Transactions}
use kruze.Domain.{AuthenticatedUser}
use kruze.Billing.Store.{RateCard, TripCharge}
use kruze.Billing.Charges.{
  is_effective, in_zone, newest_card, zone_card, find_effective_rate_card, charge_of,
}
use kruze.Contract.{
  Db, card_key, contract_key, is_party, closed, close_card, get_owned_rate_card, Changes, next_card,
  insert_card, update_rate_card, remove_rate_card,
}

-- a card that has not ended before `now`
abbrev pub is_current : ℕ → RateCard → Bool
is_current now c = elim c.effective_to [ none ↦ true | some t ↦ leb now t ]

-- what `zone_card` asks of a card
abbrev applies : ℕ → ℕ → ℕ → Option ℕ → RateCard → Bool
applies contract vehicle_type at zone c =
    c.contract_id == contract
    && c.vehicle_type == vehicle_type
    && in_zone zone c
    && is_effective at c

-- the same card, closed where it is the one of that identifier
abbrev closing : ℕ → ℕ → RateCard → RateCard
closing id now c = if c.id == id then closed now c else c

closed-applies :
    (contract vehicle_type at now : ℕ) (zone_id : Option ℕ) (c : RateCard)
    → at ≤ now
    → is_current now c ≡ true
    → applies contract vehicle_type at zone_id (closed now c)
      ≡ applies contract vehicle_type at zone_id c
closed-applies contract vehicle_type at now none c h o = ground (arith, h, o)
closed-applies contract vehicle_type at now (some z) c h o = ground (arith, h, o)

newest_card-closed :
    (id now : ℕ) (cards : List RateCard)
    → newest_card (update_row card_key id (closed now) cards)
      ≡ Option.map (closing id now) (newest_card cards)
unfolding newest_card
newest_card-closed id now [] = refl
newest_card-closed id now (c ∷ cards) = elim (Option-cases (newest_card cards)) [
  | inl nobody ↦ ground (arith, nobody, newest_card-closed id now cards)
  | inr (d, found) ↦ ground (arith, found, newest_card-closed id now cards)
]

zone_card-closed :
    (contract vehicle_type at now id : ℕ) (zone_id : Option ℕ) (cards : List RateCard)
    (card : RateCard)
    → at ≤ now
    → Distinct card_key cards
    → find_unique card_key id cards ≡ some card
    → is_current now card ≡ true
    → zone_card contract vehicle_type at zone_id (update_row card_key id (closed now) cards)
      ≡ Option.map (closing id now) (zone_card contract vehicle_type at zone_id cards)
unfolding zone_card
zone_card-closed contract vehicle_type at now id zone_id cards card early d found current =
    let same =
      mem-All
        (λ c.
          ((c.id == id) ≡ true
            → applies contract vehicle_type at zone_id (closed now c)
              ≡ applies contract vehicle_type at zone_id c))
        cards
        (λ c m hit.
          closed-applies contract vehicle_type at now zone_id c early
            (ground (arith, find_unique-mem card_key cards c d m, found, hit, current))) in
    ap newest_card (
      keep-update_where (applies contract vehicle_type at zone_id) (λ c. c.id == id) (closed now)
        cards same)
    ∙ newest_card-closed id now (keep (applies contract vehicle_type at zone_id) cards)

zone_card-later :
    (contract vehicle_type at : ℕ) (zone_id : Option ℕ) (next : RateCard) (cards : List RateCard)
    → at < next.effective_from
    → zone_card contract vehicle_type at zone_id (next ∷ cards)
      ≡ zone_card contract vehicle_type at zone_id cards
unfolding zone_card
zone_card-later contract vehicle_type at none next cards late = ground (arith, late)
zone_card-later contract vehicle_type at (some z) next cards late = ground (arith, late)

find_effective-closed :
    (contract vehicle_type at now id : ℕ) (zone_id : Option ℕ) (cards : List RateCard)
    (card : RateCard)
    → at ≤ now
    → Distinct card_key cards
    → find_unique card_key id cards ≡ some card
    → is_current now card ≡ true
    → find_effective_rate_card contract vehicle_type at zone_id
        (update_row card_key id (closed now) cards)
      ≡ Option.map
          (closing id now)
          (find_effective_rate_card contract vehicle_type at zone_id cards)
unfolding find_effective_rate_card
find_effective-closed contract vehicle_type at now id none cards card early d found current =
    zone_card-closed contract vehicle_type at now id none cards card early d found current
find_effective-closed contract vehicle_type at now id (some z) cards card early d found current =
    let own =
      zone_card-closed contract vehicle_type at now id (some z) cards card early d found current in
    elim (Option-cases (zone_card contract vehicle_type at (some z) cards)) [
      | inl nobody ↦
          rw (own, nobody, find_effective_rate_card)
            (zone_card-closed contract vehicle_type at now id none cards card early d found current)
      | inr (c, there) ↦ rw (own, there, find_effective_rate_card) refl
    ]

find_effective-later :
    (contract vehicle_type at : ℕ) (zone_id : Option ℕ) (next : RateCard) (cards : List RateCard)
    → at < next.effective_from
    → find_effective_rate_card contract vehicle_type at zone_id (next ∷ cards)
      ≡ find_effective_rate_card contract vehicle_type at zone_id cards
unfolding find_effective_rate_card
find_effective-later contract vehicle_type at none next cards late =
    zone_card-later contract vehicle_type at none next cards late
find_effective-later contract vehicle_type at (some z) next cards late =
    let own = zone_card-later contract vehicle_type at (some z) next cards late in
    elim (Option-cases (zone_card contract vehicle_type at (some z) cards)) [
      | inl nobody ↦
          rw (own, nobody, find_effective_rate_card)
            (zone_card-later contract vehicle_type at none next cards late)
      | inr (c, there) ↦ rw (own, there, find_effective_rate_card) refl
    ]

-- the charge of a trip of `km` by the card that is in force, if there is one
abbrev pub charge_at : ℕ → ℕ → ℕ → ℕ → ℕ → Option ℕ → List RateCard → Option TripCharge
charge_at trip km contract vehicle_type at zone_id cards =
    Option.map (λ c. charge_of trip c km)
      (find_effective_rate_card contract vehicle_type at zone_id cards)

charge_of-closing :
    (trip km id now : ℕ) (found : Option RateCard)
    → Option.map (λ c. charge_of trip c km) (Option.map (closing id now) found)
      ≡ Option.map (λ c. charge_of trip c km) found
unfolding charge_of
charge_of-closing trip km id now none = refl
charge_of-closing trip km id now (some c) = elim (Bool-cases (c.id == id)) [
  | inl hit ↦ rw hit refl
  | inr miss ↦ rw miss refl
]

owned_cases :
    (actor : AuthenticatedUser) (id : ℕ) (db : Db)
    → ((e : Error) × (get_owned_rate_card actor id db ≡ (db, err e)))
      ⊎ ((card : RateCard) × (find_unique card_key id db.rate_cards ≡ some card)
          × (get_owned_rate_card actor id db ≡ (db, ok card)))
unfolding get_owned_rate_card
owned_cases actor id db = elim (Option-cases (find_unique card_key id db.rate_cards)) [
  | inl missing ↦ inl (not_found, rw missing refl)
  | inr (card, found) ↦
      elim (Option-cases (find_unique contract_key card.contract_id db.contracts)) [
        | inl orphan ↦ inl (type_error, ground (arith, found, orphan))
        | inr (contract, there) ↦ elim (Bool-cases (is_party actor contract)) [
          | inl party ↦ inr (card, found, ground (arith, found, there, party))
          | inr stranger ↦ inl (not_found, ground (arith, found, there, stranger))
        ]
      ]
]

-- A card that still runs is edited or removed at `now`: what any trip that starts by then is charged
-- stays what it was, by a successful call and by one that fails. An edit must not be dated back past the
-- trip: the trip starts before the edited card does (`now` by default).
pub past_charges_kept :
    (tx : Transactions Db) (actor : AuthenticatedUser) (id now : ℕ) (changes : Changes) (db : Db)
    → Distinct card_key db.rate_cards
    → ((card : RateCard)
        → find_unique card_key id db.rate_cards ≡ some card
        → is_current now card ≡ true)
    → (trip km contract vehicle_type at : ℕ) (zone_id : Option ℕ) → at ≤ now
    → at < or_else changes.effective_from now
    → (charge_at trip km contract vehicle_type at zone_id
          (remove_rate_card actor id now db).0.rate_cards
        ≡ charge_at trip km contract vehicle_type at zone_id db.rate_cards)
      × (charge_at trip km contract vehicle_type at zone_id
            (update_rate_card tx actor id changes now db).0.rate_cards
          ≡ charge_at trip km contract vehicle_type at zone_id db.rate_cards)
unfolding remove_rate_card update_rate_card close_card insert_card next_card
past_charges_kept tx actor id now changes db d running trip km contract vehicle_type at zone_id
      early undated =
    elim (owned_cases actor id db) [
      | inl (e, refused) ↦ rw (refused) (refl, refl)
      | inr (card, found, owned) ↦
          let same : card.id ≡ id =
            ground (arith, find?-holds (λ c. c.id == id) db.rate_cards card found) in
          let own = running card found in
          let kept =
            ap (Option.map (λ c. charge_of trip c km)) (
              find_effective-closed contract vehicle_type at now card.id zone_id db.rate_cards card
                early d
                (subst (λ i. find_unique card_key i db.rate_cards ≡ some card) (sym same) found)
                own)
            ∙ charge_of-closing trip km card.id now
                (find_effective_rate_card contract vehicle_type at zone_id db.rate_cards) in
          rw owned (
            kept,
            ap (Option.map (λ c. charge_of trip c km)) (
                  find_effective-later contract vehicle_type at zone_id
                    (next_card now changes card db.next_id)
                    (update_row card_key card.id (closed now) db.rate_cards) undated)
                ∙ kept,
          )
    ]

-- ===== src/Billing/Samples.antt =====
-- Samples: an invoice with lines, a charge and a locked voucher (apps/api/src/billing,
-- apps/api/src/driver-payment).
use Prim.Native.Nat.{max}
use kruze.Base.{arith, ◌+◌, ◌-◌, ◌*◌, ◌≤◌, ◌≡◌, refl, true, false, none, some, [], ◌∷◌, Memᴰ}
use kruze.Base.Ints.{ℤ}
use kruze.Base.Rows.{find_unique}
use kruze.Base.Effects.{ok}
use kruze.Domain.{PlatformRole, AuthenticatedUser}
use kruze.Trip.Machine.{TripStatus}
use kruze.Trip.Store.{Trip, RouteAcceptance, trip_id_of}
use kruze.Billing.Store.{
  InvoiceStatus, PaymentStatus, LineStatus, VoucherStatus, Invoice, InvoiceLine, TripCharge,
  Voucher, PricingModel, RateCard, Db, invoice_key, charge_key,
}
use kruze.Billing.Invoicing.{add_line, lines_of, claimed_total, submit, is_disputed, approve}
use kruze.Billing.Charges.{is_completed, next_version, charge_of, compute_for_trip}
use kruze.Billing.Vouchers.{generate, lock}
use kruze.Billing.Reconciled.{Reconciled, add_line-Reconciled}
use kruze.Billing.Doubles.{within_tolerance, double}
use kruze.Billing.Submitted.{add_lines, Owned, submit_takes_claims}
use kruze.Billing.Charged.{compute_for_trip-versions, charge_of-bounds}
use kruze.Billing.Locked.{locked_kept}

abbrev finance : AuthenticatedUser
finance = record { user_id = 1; organisation_id = 10; role = PlatformRole.corporate_finance }

abbrev done_trip : Trip
done_trip = record {
  id = 1;
  global_trip_no = 1;
  plan_id = none;
  corporate_org_id = 10;
  vendor_org_id = some 20;
  contract_id = some 6;
  shift_id = 5;
  scheduled_start_at = 500;
  scheduled_end_at = none;
  actual_start_at = some 510;
  actual_end_at = some 900;
  status = TripStatus.completed;
  version = 1;
  route_acceptance = RouteAcceptance.pending;
  reoptimization_requested = false;
}

abbrev per_km_card : RateCard
per_km_card = record {
  id = 7;
  contract_id = 6;
  vehicle_type = 0;
  zone_id = none;
  pricing_model = PricingModel.per_km;
  pricing_rules = record {
    per_km_rate = some 1500;
    per_trip_flat = none;
    minimum_guarantee = some 20000;
    tax_rate_percent = some 5;
    base_fare = none;
    slabs = none;
    cap_amount = none;
  };
  effective_from = 0;
  effective_to = none;
  version = 1;
}

abbrev old_charge : TripCharge
old_charge = record {
  trip_id = 1;
  rate_card_id = 7;
  corporate_charge = 1575000;
  vendor_payable = 15000;
  taxes = 75000;
  version = 1;
}

abbrev claim : InvoiceLine
claim = record {
  id = 3;
  invoice_id = 2;
  trip_id = 9;
  claimed_amount = 90000;
  approved_amount = none;
  variance_amount = none;
  status = LineStatus.pending;
  dispute_reason = none;
}

abbrev locked_voucher : Voucher
locked_voucher = record {
  id = 4;
  vendor_org_id = 20;
  driver_id = 7;
  period_start = 0;
  period_end = 1000;
  gross_amount = 100;
  deductions = 0;
  net_payment = ℤ.pos 100;
  status = VoucherStatus.locked;
}

abbrev draft_invoice : Invoice
draft_invoice = record {
  id = 2;
  vendor_org_id = 20;
  corporate_org_id = 10;
  period_start = 0;
  period_end = 1000;
  status = InvoiceStatus.draft;
  claimed_total = none;
  validated_total = none;
  payment_status = PaymentStatus.unpaid;
  paid_amount = none;
}

abbrev books : Db
books = record {
  trip = record {
    compliance = record { rules = []; documents = []; evaluations = [] };
    employees = [];
    trips = done_trip ∷ [];
    trip_employees = [];
    assignments = [];
    events = [];
    outbox = [];
    next_id = 9;
  };
  distances = record { trip_id = 1; actual_km = some 12; estimated_km = none } ∷ [];
  vehicles = [];
  invoices = draft_invoice ∷ [];
  lines = claim ∷ [];
  charges = old_charge ∷ [];
  vouchers = locked_voucher ∷ [];
  rate_cards = per_km_card ∷ [];
  driver_vendors = record { resource_id = 7; vendor_org_id = 20; active = true } ∷ [];
  next_id = 9;
}

-- a claim of 150.01 against a charge of 150.00, which the doubles hold together
abbrev matched_line : InvoiceLine
matched_line = record {
  id = 9;
  invoice_id = 2;
  trip_id = 1;
  claimed_amount = 15001;
  approved_amount = some 15000;
  variance_amount = none;
  status = LineStatus.matched;
  dispute_reason = none;
}

adds : (add_line finance 2 1 15001 books).1 ≡ ok matched_line
unfolding add_line kruze.Billing.Invoicing.get_owned_invoice kruze.Billing.Invoicing.priced
    within_tolerance kruze.Billing.Invoicing.new_line
adds = refl

add_line-Reconciled_example :
    (matched_line.claimed_amount ≡ 15001)
    × Reconciled matched_line (find_unique charge_key 1 books.charges)
add_line-Reconciled_example =
    add_line-Reconciled finance 2 1 15001 books matched_line (ground arith) (ground arith, tt) adds

-- 100.01 against 100.00 is a hundredth apart as well, and the doubles are further apart than that
tells_apart : within_tolerance 10000 10001 ≡ false
unfolding within_tolerance double
tells_apart = refl

-- so are 0.01 and 0.02, whose doubles are not
holds_together : within_tolerance 1 2 ≡ true
unfolding within_tolerance double
holds_together = refl

two_apart : within_tolerance 15000 15002 ≡ false
unfolding within_tolerance double
two_apart = refl

-- an invoice without lines
abbrev unbilled : Db
unbilled = record books { lines = [] }

no_lines : lines_of 2 unbilled.lines ≡ []
unfolding lines_of
no_lines = refl

abbrev owned_invoice : Owned finance 2 unbilled
owned_invoice = record { invoice = draft_invoice; found = refl; owned = refl }

-- two trips without a charge are claimed
submit_takes_claims_example :
    ((submit finance 2 (add_lines finance 2 ((8, 70000) ∷ (9, 90000) ∷ []) unbilled)).1 ≡ ok tt)
    × (find_unique invoice_key 2
          (submit finance 2
            (add_lines finance 2 ((8, 70000) ∷ (9, 90000) ∷ []) unbilled)).0.invoices
        ≡ some (record draft_invoice {
          status = InvoiceStatus.submitted;
          claimed_total = some 160000;
          validated_total = some 160000;
        }))
submit_takes_claims_example =
    submit_takes_claims finance 2 (8, 70000) ((9, 90000) ∷ []) unbilled owned_invoice no_lines
      (refl, (refl, tt))

approves : (approve finance 2 books).1 ≡ ok tt
unfolding approve kruze.Billing.Invoicing.get_owned_invoice
approves = refl

abbrev new_charge : TripCharge
new_charge = record {
  trip_id = 1;
  rate_card_id = 7;
  corporate_charge = 2100000;
  vendor_payable = 20000;
  taxes = 100000;
  version = 2;
}

computes : (compute_for_trip finance 1 books).1 ≡ ok new_charge
unfolding compute_for_trip kruze.Billing.Charges.price_trip
    kruze.Billing.Charges.find_effective_rate_card kruze.Billing.Charges.trip_vehicle_type charge_of
    kruze.Billing.Charges.amount_of kruze.Billing.Charges.trip_km
computes = refl

compute_for_trip-versions_example :
    (trip : Trip) × (find_unique trip_id_of 1 books.trip.trips ≡ some trip)
    × (is_completed trip.status ≡ true)
    × (new_charge.version ≡ next_version (find_unique charge_key 1 books.charges))
    × (find_unique charge_key 1 (compute_for_trip finance 1 books).0.charges ≡ some new_charge)
compute_for_trip-versions_example = compute_for_trip-versions finance 1 books new_charge computes

-- a slab card with a cap and no guarantee, at 12 km over its last slab
abbrev slab_card : RateCard
slab_card = record per_km_card {
  pricing_model = PricingModel.slab;
  pricing_rules = record {
    per_km_rate = none;
    per_trip_flat = none;
    minimum_guarantee = none;
    tax_rate_percent = some 5;
    base_fare = some 10000;
    slabs = some (record { min_km = 0; max_km = some 10; rate = 40000 } ∷ []);
    cap_amount = some 30000;
  };
}

charge_of-bounds_example :
    (0 ≤ (charge_of 1 slab_card 12).vendor_payable)
    × ((charge_of 1 slab_card 12).vendor_payable ≤ max 30000 0)
    × ((charge_of 1 slab_card 12).corporate_charge
        ≡ (charge_of 1 slab_card 12).vendor_payable * (100 + 5))
    × ((charge_of 1 slab_card 12).taxes
        ≡ (charge_of 1 slab_card 12).corporate_charge
          - (charge_of 1 slab_card 12).vendor_payable * 100)
charge_of-bounds_example = charge_of-bounds 1 12 slab_card

locked_kept_example :
    Memᴰ locked_voucher (generate 20 7 0 1000 books).0.vouchers
    × Memᴰ locked_voucher (lock 20 4 books).0.vouchers
locked_kept_example =
    locked_kept 20 7 0 1000 4 books locked_voucher (tt, tt) (tt, tt) (Memᴰ.head refl) refl

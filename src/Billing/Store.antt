-- ===== src/Billing/Store.antt =====
-- The rows of InvoiceService, TripChargeService and DriverPaymentService (apps/api/src/billing,
-- apps/api/src/driver-payment). An amount is in hundredths; texts and reasons are numbers.
use kruze.Base.{ℕ, Option, List}
use kruze.Base.Ints.{ℤ}
use kruze.Maintenance.{Link}
use kruze.Trip.Store

pub data InvoiceStatus : Type 0 where
  draft submitted under_review approved disputed paid : InvoiceStatus

pub data PaymentStatus : Type 0 where
  unpaid partially_paid paid : PaymentStatus

pub data LineStatus : Type 0 where
  pending matched variance disputed approved : LineStatus

pub record Invoice : Type 0 where
  pub id : ℕ
  pub vendor_org_id : ℕ
  pub corporate_org_id : ℕ
  pub period_start : ℕ
  pub period_end : ℕ
  pub status : InvoiceStatus
  pub claimed_total : Option ℕ
  pub validated_total : Option ℕ
  pub payment_status : PaymentStatus
  pub paid_amount : Option ℕ

pub record InvoiceLine : Type 0 where
  pub id : ℕ
  pub invoice_id : ℕ
  pub trip_id : ℕ
  pub claimed_amount : ℕ
  pub approved_amount : Option ℕ
  pub variance_amount : Option ℤ
  pub status : LineStatus
  pub dispute_reason : Option ℕ

-- `corporate_charge` and `taxes` in hundredths of a hundredth, since a tax is a percentage
pub record TripCharge : Type 0 where
  pub trip_id : ℕ
  pub rate_card_id : ℕ
  pub corporate_charge : ℕ
  pub vendor_payable : ℕ
  pub taxes : ℕ
  pub version : ℕ

pub data VoucherStatus : Type 0 where
  draft locked : VoucherStatus

pub record Voucher : Type 0 where
  pub id : ℕ
  pub vendor_org_id : ℕ
  pub driver_id : ℕ
  pub period_start : ℕ
  pub period_end : ℕ
  pub gross_amount : ℕ
  pub deductions : ℕ
  pub net_payment : ℤ
  pub status : VoucherStatus

pub record RateSlab : Type 0 where
  pub min_km : ℕ
  pub max_km : Option ℕ
  pub rate : ℕ

pub data PricingModel : Type 0 where
  per_km per_trip hybrid slab other : PricingModel

pub record PricingRules : Type 0 where
  pub per_km_rate : Option ℕ
  pub per_trip_flat : Option ℕ
  pub minimum_guarantee : Option ℕ
  pub tax_rate_percent : Option ℕ
  pub base_fare : Option ℕ
  pub slabs : Option (List RateSlab)
  pub cap_amount : Option ℕ

pub record RateCard : Type 0 where
  pub id : ℕ
  pub contract_id : ℕ
  pub vehicle_type : ℕ
  pub zone_id : Option ℕ
  pub pricing_model : PricingModel
  pub pricing_rules : PricingRules
  pub effective_from : ℕ
  pub effective_to : Option ℕ
  pub version : ℕ

-- columns of a trip's row that only pricing reads
pub record Distance : Type 0 where
  pub trip_id : ℕ
  pub actual_km : Option ℕ
  pub estimated_km : Option ℕ

pub record Vehicle : Type 0 where
  pub id : ℕ
  pub vehicle_type : Option ℕ

pub record Db : Type 0 where
  pub trip : Store.Db
  pub distances : List Distance
  pub vehicles : List Vehicle
  pub invoices : List Invoice
  pub lines : List InvoiceLine
  pub charges : List TripCharge
  pub vouchers : List Voucher
  pub rate_cards : List RateCard
  pub driver_vendors : List Link
  pub next_id : ℕ

abbrev pub invoice_key : Invoice → ℕ
invoice_key i = i.id

abbrev pub line_key : InvoiceLine → ℕ
line_key l = l.id

abbrev pub charge_key : TripCharge → ℕ
charge_key c = c.trip_id

abbrev pub voucher_key : Voucher → ℕ
voucher_key v = v.id

abbrev pub distance_key : Distance → ℕ
distance_key d = d.trip_id

abbrev pub vehicle_key : Vehicle → ℕ
vehicle_key v = v.id

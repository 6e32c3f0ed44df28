-- ===== src/Billing/Invoicing.antt =====
-- apps/api/src/billing/invoice.service.ts.
use kruze.Base.{
  ℕ, suc, Bool, true, false, not, ◌&&◌, ◌||◌, Option, none, some, List, ◌∷◌, ltb, ◌==◌,
  if◌then◌else◌, is_some, or_else, keep, length, total,
}
use kruze.Base.Ints.{minus}
use kruze.Base.Rows.{find_unique, update_row}
use kruze.Base.Effects.{
  bad_request, forbidden, not_found, M, return, gets, or_throw, modify, require, ◌>>=◌, ◌>>◌,
}
use kruze.Domain.{AuthenticatedUser}
use kruze.Billing.Doubles.{within_tolerance}
use kruze.Billing.Store.{
  InvoiceStatus, PaymentStatus, LineStatus, Invoice, InvoiceLine, TripCharge, Db, invoice_key,
  line_key, charge_key,
}

abbrev pub owns : AuthenticatedUser → Invoice → Bool
owns actor i =
    i.corporate_org_id == actor.organisation_id || i.vendor_org_id == actor.organisation_id

unfoldable pub get_owned_invoice : AuthenticatedUser → ℕ → M Db Invoice
get_owned_invoice actor id = do
  found ← gets (λ db. find_unique invoice_key id db.invoices)
  invoice ← or_throw found not_found
  require (owns actor invoice) not_found
  return invoice

unfoldable pub get_owned_invoice_for_line : AuthenticatedUser → ℕ → M Db Invoice
get_owned_invoice_for_line actor id = do
  found ← gets (λ db. find_unique line_key id db.lines)
  line ← or_throw found not_found
  -- the line's invoice, which the foreign key keeps
  owner ← gets (λ db. find_unique invoice_key line.invoice_id db.invoices)
  invoice ← or_throw owner not_found
  require (owns actor invoice) not_found
  return invoice

unfoldable pub create_invoice : ℕ → ℕ → ℕ → ℕ → Db → Db
create_invoice corporate vendor period_start period_end db = record db {
  invoices =
      record {
        id = db.next_id;
        vendor_org_id = vendor;
        corporate_org_id = corporate;
        period_start = period_start;
        period_end = period_end;
        status = InvoiceStatus.draft;
        claimed_total = none;
        validated_total = none;
        payment_status = PaymentStatus.unpaid;
        paid_amount = none;
      }
      ∷ db.invoices;
  next_id = suc db.next_id;
}

-- `status`, `approvedAmount` and `varianceAmount` of a new line, by the trip's charge
unfoldable pub priced : Option TripCharge → InvoiceLine → InvoiceLine
priced none line = line
priced (some c) line =
    if within_tolerance c.vendor_payable line.claimed_amount
    then record line { status = LineStatus.matched; approved_amount = some c.vendor_payable }
    else record line {
      status = LineStatus.variance;
      approved_amount = some c.vendor_payable;
      variance_amount = some (minus line.claimed_amount c.vendor_payable);
    }

unfoldable pub new_line : ℕ → ℕ → ℕ → ℕ → InvoiceLine
new_line id invoice trip claimed = record {
  id = id;
  invoice_id = invoice;
  trip_id = trip;
  claimed_amount = claimed;
  approved_amount = none;
  variance_amount = none;
  status = LineStatus.pending;
  dispute_reason = none;
}

unfoldable pub add_line : AuthenticatedUser → ℕ → ℕ → ℕ → M Db InvoiceLine
add_line actor invoice_id trip_id claimed = do
  invoice ← get_owned_invoice actor invoice_id
  charge ← gets (λ db. find_unique charge_key trip_id db.charges)
  line ← gets (λ db. priced charge (new_line db.next_id invoice.id trip_id claimed))
  modify (λ db. record db { lines = line ∷ db.lines; next_id = suc db.next_id })
  return line

abbrev update_line : ℕ → (InvoiceLine → InvoiceLine) → Db → Db
update_line id f db = record db { lines = update_row line_key id f db.lines }

abbrev update_invoice : ℕ → (Invoice → Invoice) → Db → Db
update_invoice id f db = record db { invoices = update_row invoice_key id f db.invoices }

unfoldable pub dispute_line : AuthenticatedUser → ℕ → ℕ → M Db (Unit {0})
dispute_line actor id reason = do
  invoice ← get_owned_invoice_for_line actor id
  modify (
      update_line id (λ l. record l { status = LineStatus.disputed; dispute_reason = some reason }))

unfoldable pub approve_line : AuthenticatedUser → ℕ → M Db (Unit {0})
approve_line actor id = do
  invoice ← get_owned_invoice_for_line actor id
  require (invoice.corporate_org_id == actor.organisation_id) forbidden
  modify (update_line id (λ l. record l { status = LineStatus.approved }))

unfoldable pub lines_of : ℕ → List InvoiceLine → List InvoiceLine
lines_of id = keep (λ l. l.invoice_id == id)

-- the two `reduce`s of `submit`
abbrev pub claimed_total : List InvoiceLine → ℕ
claimed_total = total (λ l. l.claimed_amount)

abbrev pub validated_total : List InvoiceLine → ℕ
validated_total = total (λ l. or_else l.approved_amount l.claimed_amount)

unfoldable pub submit : AuthenticatedUser → ℕ → M Db (Unit {0})
submit actor id = do
  invoice ← get_owned_invoice actor id
  lines ← gets (λ db. lines_of id db.lines)
  require (not (length lines == 0)) bad_request
  modify (
      update_invoice id (λ i. record i {
        status = InvoiceStatus.submitted;
        claimed_total = some (claimed_total lines);
        validated_total = some (validated_total lines);
      }))

abbrev pub is_disputed : LineStatus → Bool
is_disputed LineStatus.disputed = true
is_disputed _ = false

unfoldable pub approve : AuthenticatedUser → ℕ → M Db (Unit {0})
approve actor id = do
  invoice ← get_owned_invoice actor id
  require (invoice.corporate_org_id == actor.organisation_id) forbidden
  disputed ← gets (λ db. length (keep (λ l. l.invoice_id == id && is_disputed l.status) db.lines))
  require (not (ltb 0 disputed)) bad_request
  modify (update_invoice id (λ i. record i { status = InvoiceStatus.approved }))

unfoldable pub set_payment_status :
    AuthenticatedUser → ℕ → PaymentStatus → Option ℕ → M Db (Unit {0})
set_payment_status actor id status paid_amount = do
  invoice ← get_owned_invoice actor id
  require (invoice.corporate_org_id == actor.organisation_id) forbidden
  -- an absent `paidAmount` leaves the column as it is
  modify (
      update_invoice invoice.id (λ i. record i {
        payment_status = status;
        paid_amount = if is_some paid_amount then paid_amount else i.paid_amount;
      }))

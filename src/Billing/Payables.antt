-- ===== src/Billing/Payables.antt =====
-- apps/api/src/billing/invoice.service.ts, vendorPayablesSummary: what a corporate owes to each vendor.
use kruze.Base.{
  ℕ, ◌+◌, ◌≡◌, Bool, true, false, ◌&&◌, List, [], ◌∷◌, ◌==◌, if◌then◌else◌, or_else, map, keep,
  total, length,
}
use kruze.Base.Ints.{ℤ, minus}
use kruze.Base.Rows.{find_unique}
use kruze.Billing.Store.{InvoiceStatus, Invoice, InvoiceLine, Db}
use kruze.Billing.Invoicing.{lines_of}

-- an entry of `byVendor`
pub record Payable : Type 0 where
  pub vendor_org_id : ℕ
  pub approved_total : ℕ
  pub paid_total : ℕ
  pub invoice_count : ℕ

abbrev pub vendor_key : Payable → ℕ
vendor_key p = p.vendor_org_id

-- `status: { in: ["APPROVED", "SUBMITTED"] }`
abbrev pub is_payable : InvoiceStatus → Bool
is_payable InvoiceStatus.approved = true
is_payable InvoiceStatus.submitted = true
is_payable _ = false

unfoldable pub approved_of : List InvoiceLine → Invoice → ℕ
approved_of lines i = total (λ l. or_else l.approved_amount 0) (lines_of i.id lines)

abbrev pub no_payable : ℕ → Payable
no_payable vendor = record {
  vendor_org_id = vendor;
  approved_total = 0;
  paid_total = 0;
  invoice_count = 0;
}

-- `byVendor.get(…) ?? { … }`
unfoldable pub entry_of : ℕ → List Payable → Payable
entry_of vendor rows = or_else (find_unique vendor_key vendor rows) (no_payable vendor)

-- `byVendor.set(…)`: in its place, or at the end
unfoldable pub put : Payable → List Payable → List Payable
put p [] = p ∷ []
put p (r ∷ rows) = if r.vendor_org_id == p.vendor_org_id then p ∷ rows else r ∷ put p rows

unfoldable pub increase : List InvoiceLine → Invoice → Payable → Payable
increase lines i p = record p {
  approved_total = p.approved_total + approved_of lines i;
  paid_total = p.paid_total + or_else i.paid_amount 0;
  invoice_count = p.invoice_count + 1;
}

-- the loop over the invoices
unfoldable pub by_vendor : List InvoiceLine → List Invoice → List Payable → List Payable
by_vendor lines [] rows = rows
by_vendor lines (i ∷ is) rows =
    by_vendor lines is (put (increase lines i (entry_of i.vendor_org_id rows)) rows)

unfoldable pub payable_invoices : ℕ → Db → List Invoice
payable_invoices corporate db =
    keep (λ i. i.corporate_org_id == corporate && is_payable i.status) db.invoices

-- the rows, each with what is outstanding
unfoldable pub vendor_payables_summary : ℕ → Db → List (Payable × ℤ)
vendor_payables_summary corporate db =
    map (λ p. (p, minus p.approved_total p.paid_total))
      (by_vendor db.lines (payable_invoices corporate db) [])

abbrev of_vendor : ℕ → List Invoice → List Invoice
of_vendor v = keep (λ i. i.vendor_org_id == v)

-- What the entry of a vendor has after the loop, from what it had before.
pub record Grown (lines : List InvoiceLine) (is : List Invoice) (v : ℕ) (before after : Payable)
    : Type 0 where
  pub approved :
      after.approved_total ≡ before.approved_total + total (approved_of lines) (of_vendor v is)
  pub paid :
      after.paid_total ≡ before.paid_total + total (λ i. or_else i.paid_amount 0) (of_vendor v is)
  pub count : after.invoice_count ≡ before.invoice_count + length (of_vendor v is)

abbrev with_outstanding : Payable → Payable × ℤ
with_outstanding p = (p, minus p.approved_total p.paid_total)

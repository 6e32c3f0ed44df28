-- ===== src/Billing/Reconciled.antt =====
-- What an invoice's reconciliation rests on (apps/api/src/billing/invoice.service.ts).
use kruze.Base.{
  ℕ, ◌≤◌, ◌<◌, ◌≡◌, refl, inl, inr, true, false, Option, none, some, List, [], ◌∷◌, ◌==◌, All,
  arith, Bool-cases, Option-cases,
}
use kruze.Base.Ints.{minus}
use kruze.Base.Rows.{find_unique}
use kruze.Base.Effects.{ok}
use kruze.Domain.{AuthenticatedUser}
use kruze.Billing.Store.{LineStatus, Invoice, InvoiceLine, TripCharge, Db, invoice_key, charge_key}
use kruze.Billing.Doubles.{distance, within_tolerance}
use kruze.Billing.Doubles.Bounds.{column_limit, within-near, within-apart}
use kruze.Billing.Invoicing.{get_owned_invoice, priced, new_line, add_line}

-- How a line stands to its trip's charge.
pub data Reconciled (line : InvoiceLine) : Option TripCharge → Type 0 where
  uncharged : line.status ≡ LineStatus.pending → line.approved_amount ≡ none → Reconciled line none
  agrees :
      (c : TripCharge)
      → line.status ≡ LineStatus.matched
      → line.approved_amount ≡ some c.vendor_payable
      → within_tolerance c.vendor_payable line.claimed_amount ≡ true
      → distance c.vendor_payable line.claimed_amount ≤ 1
      → Reconciled line (some c)
  differs :
      (c : TripCharge)
      → line.status ≡ LineStatus.variance
      → line.approved_amount ≡ some c.vendor_payable
      → line.variance_amount ≡ some (minus line.claimed_amount c.vendor_payable)
      → within_tolerance c.vendor_payable line.claimed_amount ≡ false
      → 0 < distance c.vendor_payable line.claimed_amount
      → Reconciled line (some c)

-- The charge is one that its column, Decimal(12, 2), has room for.
InColumn : Option TripCharge → Type 0
InColumn none = Unit
InColumn (some c) = c.vendor_payable < column_limit

charges-InColumn :
    (trip : ℕ) (charges : List TripCharge)
    → All (λ c. c.vendor_payable < column_limit) charges
    → InColumn (find_unique charge_key trip charges)
unfolding InColumn
charges-InColumn trip [] h = tt
charges-InColumn trip (c ∷ charges) h = elim (Bool-cases (charge_key c == trip)) [
  | inl hit ↦ rw hit (h.0)
  | inr miss ↦ rw miss (charges-InColumn trip charges h.1)
]

priced-Reconciled :
    (o : Option TripCharge) (id invoice trip claimed : ℕ)
    → claimed < column_limit
    → InColumn o
    → Reconciled (priced o (new_line id invoice trip claimed)) o
unfolding priced new_line InColumn
priced-Reconciled none id invoice trip claimed small room = Reconciled.uncharged refl refl
priced-Reconciled (some c) id invoice trip claimed small room =
    elim (Bool-cases (within_tolerance c.vendor_payable claimed)) [
      | inl near ↦ rw near (
          Reconciled.agrees c refl refl near (within-near c.vendor_payable claimed room small near))
      | inr far ↦
          rw far
            (Reconciled.differs c refl refl refl far (within-apart c.vendor_payable claimed far))
    ]

priced_claim :
    (o : Option TripCharge) (id invoice trip claimed : ℕ)
    → (priced o (new_line id invoice trip claimed)).claimed_amount ≡ claimed
unfolding priced new_line
priced_claim o id invoice trip claimed = ground arith

add_line-line :
    (actor : AuthenticatedUser) (invoice trip claimed : ℕ) (db : Db) (line : InvoiceLine)
    → (add_line actor invoice trip claimed db).1 ≡ ok line
    → (i : Invoice) × (line
        ≡ priced (find_unique charge_key trip db.charges) (new_line db.next_id i.id trip claimed))
unfolding add_line get_owned_invoice
add_line-line actor invoice trip claimed db line h =
    elim (Option-cases (find_unique invoice_key invoice db.invoices)) [
      | inl missing ↦ absurd (ground arith)
      | inr (i, found) ↦ (i, ground arith)
    ]

-- A line that is added stands reconciled with its trip's charge, amounts being below 10^10: the approved
-- amount is the charge's, whatever was claimed. The line is MATCHED when the comparison of the two as
-- doubles finds them within the tolerance, and then they are a hundredth apart at most; else it is
-- VARIANCE with the difference, and the two are not equal. It is PENDING with no approved amount when
-- the trip has no charge.
pub add_line-Reconciled :
    (actor : AuthenticatedUser) (invoice trip claimed : ℕ) (db : Db) (line : InvoiceLine)
    → claimed < column_limit
    → All (λ c. c.vendor_payable < column_limit) db.charges
    → (add_line actor invoice trip claimed db).1 ≡ ok line
    → (line.claimed_amount ≡ claimed) × Reconciled line (find_unique charge_key trip db.charges)
add_line-Reconciled actor invoice trip claimed db line small room h =
    let (i, made) = add_line-line actor invoice trip claimed db line h in
    rw made (
      priced_claim (find_unique charge_key trip db.charges) db.next_id i.id trip claimed,
      priced-Reconciled (find_unique charge_key trip db.charges) db.next_id i.id trip claimed small
          (charges-InColumn trip db.charges room),
    )

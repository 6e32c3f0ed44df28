-- ===== src/Billing/Submitted.antt =====
-- What submitting and approving an invoice rest on (apps/api/src/billing/invoice.service.ts).
use kruze.Base.{
  ℕ, suc, ◌+◌, ◌≡◌, refl, ap, ◌∙◌, ◌≢◌, inl, inr, Bool, true, false, ◌&&◌, none, some, List, [],
  ◌∷◌, Memᴰ, ◌==◌, keep, length, total, All, mem-keep, find?-holds, arith, Bool-cases,
}
use kruze.Base.Rows.{find_unique, find_unique-update_row}
use kruze.Base.Effects.{ok}
use kruze.Domain.{AuthenticatedUser}
use kruze.Billing.Store.{InvoiceStatus, Invoice, InvoiceLine, Db, invoice_key, charge_key}
use kruze.Billing.Invoicing.{
  owns, get_owned_invoice, priced, new_line, add_line, lines_of, claimed_total, validated_total,
  submit, is_disputed, approve,
}

-- a claim is a trip and the amount claimed for it
unfoldable pub add_lines : AuthenticatedUser → ℕ → List (ℕ × ℕ) → Db → Db
add_lines actor id [] db = db
add_lines actor id ((trip, claimed) ∷ claims) db =
    add_lines actor id claims (add_line actor id trip claimed db).0

abbrev pub amount : List (ℕ × ℕ) → ℕ
amount = total (λ c. c.1)

-- What the lines of an invoice come to.
record Sums (lines : List InvoiceLine) (count sum : ℕ) : Type 0 where
  counted : length lines ≡ count
  claimed : claimed_total lines ≡ sum
  validated : validated_total lines ≡ sum

Sums-change :
    {count count' sum sum' : ℕ} (lines : List InvoiceLine)
    → Sums lines count sum
    → count ≡ count'
    → sum ≡ sum'
    → Sums lines count' sum'
Sums-change lines s same_count same_sum = record {
  counted = s.counted ∙ same_count;
  claimed = s.claimed ∙ same_sum;
  validated = s.validated ∙ same_sum;
}

module _ (actor : AuthenticatedUser) (id : ℕ) where
  -- The invoice is one that the user owns.
  pub record Owned (db : Db) : Type 0 where
    pub invoice : Invoice
    pub found : find_unique invoice_key id db.invoices ≡ some invoice
    pub owned : owns actor invoice ≡ true

  added_line : ℕ → ℕ → Db → Db
  added_line trip claimed db = record db {
    lines = new_line db.next_id id trip claimed ∷ db.lines;
    next_id = suc db.next_id;
  }

  add_line-uncharged :
      (trip claimed : ℕ) (db : Db)
      → Owned db
      → find_unique charge_key trip db.charges ≡ none
      → (add_line actor id trip claimed db).0 ≡ added_line trip claimed db
  unfolding add_line get_owned_invoice priced added_line
  add_line-uncharged trip claimed db o uncharged = ground (
    arith,
    o.found,
    o.owned,
    uncharged,
    find?-holds (λ i. invoice_key i == id) db.invoices o.invoice o.found,
  )

  new_line-Sums :
      (trip claimed next count sum : ℕ) (lines : List InvoiceLine)
      → Sums (lines_of id lines) count sum
      → Sums (lines_of id (new_line next id trip claimed ∷ lines)) (suc count) (claimed + sum)
  unfolding lines_of new_line
  new_line-Sums trip claimed next count sum lines s = record {
    counted = ground (arith, s.counted);
    claimed = ground (arith, s.claimed);
    validated = ground (arith, s.validated);
  }

  record Claimed (claims : List (ℕ × ℕ)) (count sum : ℕ) (db after : Db) : Type 0 where
    invoices : after.invoices ≡ db.invoices
    sums : Sums (lines_of id after.lines) (length claims + count) (amount claims + sum)

  add_lines-Claimed :
      (claims : List (ℕ × ℕ)) (count sum : ℕ) (db : Db)
      → Owned db
      → Sums (lines_of id db.lines) count sum
      → All (λ c. find_unique charge_key c.0 db.charges ≡ none) claims
      → Claimed claims count sum db (add_lines actor id claims db)
  unfolding add_lines added_line
  add_lines-Claimed [] count sum db o s h = record {
    invoices = refl;
    sums = Sums-change _ s (ground arith) (ground arith);
  }
  add_lines-Claimed ((trip, claimed) ∷ claims) count sum db o s h =
      let step = add_line-uncharged trip claimed db o h.0 in
      let rest =
        add_lines-Claimed claims (suc count) (claimed + sum) (added_line trip claimed db)
          (record { invoice = o.invoice; found = o.found; owned = o.owned })
          (new_line-Sums trip claimed db.next_id count sum db.lines s) h.1 in
      rw step (record {
        invoices = rest.invoices;
        sums = Sums-change _ rest.sums (ground arith) (ground arith);
      })

submitted_row : ℕ → Invoice → Invoice
submitted_row sum i = record i {
  status = InvoiceStatus.submitted;
  claimed_total = some sum;
  validated_total = some sum;
}

submit-row :
    (actor : AuthenticatedUser) (id count sum : ℕ) (db : Db) (o : Owned actor id db)
    → Sums (lines_of id db.lines) (suc count) sum
    → ((submit actor id db).1 ≡ ok tt)
      × (find_unique invoice_key id (submit actor id db).0.invoices
          ≡ some (submitted_row sum o.invoice))
unfolding submit get_owned_invoice submitted_row
submit-row actor id count sum db o s = (
  ground (arith, o.found, o.owned, s.counted),
  ground (
    arith,
    o.found,
    o.owned,
    s.counted,
    s.claimed,
    s.validated,
    find_unique-update_row invoice_key id id (submitted_row sum) db.invoices (λ x. refl),
  ),
)

-- When none of the trips claimed has a charge, an invoice with these claims is submitted with the sum of
-- what the vendor claims as its validated total. The user's organisation is one of the invoice's two, the
-- invoice had no lines before, and there is at least one claim.
pub submit_takes_claims :
    (actor : AuthenticatedUser) (id : ℕ) (first : ℕ × ℕ) (claims : List (ℕ × ℕ)) (db : Db)
    (o : Owned actor id db)
    → lines_of id db.lines ≡ []
    → All (λ c. find_unique charge_key c.0 db.charges ≡ none) (first ∷ claims)
    → ((submit actor id (add_lines actor id (first ∷ claims) db)).1 ≡ ok tt)
      × (find_unique invoice_key id
            (submit actor id (add_lines actor id (first ∷ claims) db)).0.invoices
          ≡ some (record o.invoice {
            status = InvoiceStatus.submitted;
            claimed_total = some (amount (first ∷ claims));
            validated_total = some (amount (first ∷ claims));
          }))
unfolding submitted_row
submit_takes_claims actor id first claims db o empty uncharged =
    let c =
      add_lines-Claimed actor id (first ∷ claims) 0 0 db o
        (rw empty (record { counted = refl; claimed = refl; validated = refl })) uncharged in
    submit-row actor id (length claims) (amount (first ∷ claims))
      (add_lines actor id (first ∷ claims) db)
      (record {
        invoice = o.invoice;
        found = ap (find_unique invoice_key id) c.invoices ∙ o.found;
        owned = o.owned;
      })
      (Sums-change _ c.sums (ground arith) (ground arith))

not_empty : (lines : List InvoiceLine) (l : InvoiceLine) → Memᴰ l lines → length lines ≢ 0
not_empty [] l m h = elim m [ ]
not_empty (x ∷ lines) l m h = ground (arith, h)

no_rows :
    (p : InvoiceLine → Bool) (lines : List InvoiceLine) (l : InvoiceLine)
    → length (keep p lines) ≡ 0
    → Memᴰ l lines
    → p l ≡ false
no_rows p lines l h m = elim (Bool-cases (p l)) [
  | inr fails ↦ fails
  | inl holds ↦ absurd (not_empty (keep p lines) l (mem-keep p lines l m holds) h)
]

approve-count :
    (actor : AuthenticatedUser) (id : ℕ) (db : Db)
    → (approve actor id db).1 ≡ ok tt
    → length (keep (λ l. l.invoice_id == id && is_disputed l.status) db.lines) ≡ 0
unfolding approve get_owned_invoice
approve-count actor id db h = ground arith

-- An invoice is approved only when none of its lines is disputed.
approve_undisputed :
    (actor : AuthenticatedUser) (id : ℕ) (db : Db) (l : InvoiceLine)
    → (approve actor id db).1 ≡ ok tt
    → Memᴰ l db.lines
    → l.invoice_id ≡ id
    → is_disputed l.status ≡ false
approve_undisputed actor id db l h m of_invoice = ground (
  arith,
  of_invoice,
  no_rows (λ x. x.invoice_id == id && is_disputed x.status) db.lines l (approve-count actor id db h)
      m,
)

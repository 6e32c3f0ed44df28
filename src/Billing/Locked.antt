-- ===== src/Billing/Locked.antt =====
-- A locked voucher is final (apps/api/src/driver-payment/driver-payment.service.ts).
use kruze.Base.{
  ℕ, ◌≡◌, ◌⊎◌, inl, inr, true, false, ◌&&◌, Option, none, some, List, [], ◌∷◌, Memᴰ, ◌==◌, find?,
  All, All-mem, arith, Bool-cases, Option-cases,
}
use kruze.Base.Rows.{Distinct, find_unique, update_row, update_where-keeps, find_unique-mem}
use kruze.Billing.Store.{VoucherStatus, Voucher, Db, voucher_key}
use kruze.Billing.Vouchers.{
  is_draft, same_period, still_draft, gross, write_voucher, generate, get_owned, lock,
}

-- No two vouchers share a vendor, a driver and a period, nor an identifier, as the unique constraints of
-- the table demand.
abbrev pub OnePerPeriod : List Voucher → Type 0
OnePerPeriod [] = Unit
OnePerPeriod (v ∷ vs) =
    All (λ x. same_period v.vendor_org_id v.driver_id v.period_start v.period_end x ≡ false) vs
    × OnePerPeriod vs

-- The query by the unique key finds the row with that key.
find?-same_period :
    (vs : List Voucher) (v : Voucher)
    → OnePerPeriod vs
    → Memᴰ v vs
    → find? (same_period v.vendor_org_id v.driver_id v.period_start v.period_end) vs ≡ some v
find?-same_period [] v d m = elim m [ ]
find?-same_period (x ∷ vs) v d (Memᴰ.head e) = rw e (ground arith)
find?-same_period (x ∷ vs) v d (Memᴰ.tail m) = ground (
  arith,
  find?-same_period vs v d.1 m,
  All-mem (λ y. same_period x.vendor_org_id x.driver_id x.period_start x.period_end y ≡ false) vs v
      d.0 m,
)

other_period :
    (vendor driver start end : ℕ) (vs : List Voucher) (v : Voucher)
    → OnePerPeriod vs
    → Memᴰ v vs
    → is_draft v.status ≡ false
    → still_draft (find? (same_period vendor driver start end) vs) ≡ true
    → same_period vendor driver start end v ≡ false
other_period vendor driver start end vs v d m closed unlocked =
    elim (Bool-cases (same_period vendor driver start end v)) [
      | inr other ↦ other
      | inl same ↦ absurd (ground (arith, same, unlocked, closed, find?-same_period vs v d m))
    ]

write_voucher-keeps :
    (vendor driver start end amount : ℕ) (o : Option Voucher) (db : Db) (v : Voucher)
    → same_period vendor driver start end v ≡ false
    → Memᴰ v db.vouchers
    → Memᴰ v (write_voucher vendor driver start end amount o db).vouchers
unfolding write_voucher
write_voucher-keeps vendor driver start end amount none db v other m = Memᴰ.tail m
write_voucher-keeps vendor driver start end amount (some x) db v other m =
    update_where-keeps (same_period vendor driver start end) _ db.vouchers v other m

generate_cases :
    (vendor driver start end : ℕ) (db : Db)
    → ((generate vendor driver start end db).0 ≡ db)
      ⊎ ((still_draft (find? (same_period vendor driver start end) db.vouchers) ≡ true)
          × ((generate vendor driver start end db).0
              ≡ write_voucher vendor driver start end
                  (gross vendor driver start end db)
                  (find? (same_period vendor driver start end) db.vouchers)
                  db))
unfolding generate
generate_cases vendor driver start end db = ground arith

generate-keeps :
    (vendor driver start end : ℕ) (db : Db) (v : Voucher)
    → OnePerPeriod db.vouchers
    → Memᴰ v db.vouchers
    → is_draft v.status ≡ false
    → Memᴰ v (generate vendor driver start end db).0.vouchers
generate-keeps vendor driver start end db v d m closed =
    elim (generate_cases vendor driver start end db) [
      | inl same ↦ rw same m
      | inr (unlocked, wrote) ↦ rw wrote (
          write_voucher-keeps vendor driver start end _ _ db v
            (other_period vendor driver start end db.vouchers v d m closed unlocked) m)
    ]

lock_cases :
    (vendor id : ℕ) (db : Db)
    → ((lock vendor id db).0 ≡ db)
      ⊎ ((x : Voucher) × (find_unique voucher_key id db.vouchers ≡ some x)
          × (is_draft x.status ≡ true)
          × ((lock vendor id db).0.vouchers
              ≡ update_row voucher_key id
                  (λ v. record v { status = VoucherStatus.locked })
                  db.vouchers))
unfolding lock get_owned
lock_cases vendor id db = elim (Option-cases (find_unique voucher_key id db.vouchers)) [
  | inl missing ↦ inl (ground (arith, missing))
  | inr (x, found) ↦ elim (Bool-cases (x.vendor_org_id == vendor && is_draft x.status)) [
    | inl may ↦ inr (x, found, ground (arith, may), ground (arith, found, may))
    | inr not_now ↦ inl (ground (arith, found, not_now))
  ]
]

lock-keeps :
    (vendor id : ℕ) (db : Db) (v : Voucher)
    → Distinct voucher_key db.vouchers
    → Memᴰ v db.vouchers
    → is_draft v.status ≡ false
    → Memᴰ v (lock vendor id db).0.vouchers
lock-keeps vendor id db v d m closed = elim (lock_cases vendor id db) [
  | inl same ↦ rw same m
  | inr (x, found, unlocked, wrote) ↦ rw wrote (
      update_where-keeps (λ r. r.id == id) _ db.vouchers v
        (ground (arith, found, unlocked, closed, find_unique-mem voucher_key db.vouchers v d m)) m)
]

-- A voucher that is locked stays in the table unchanged when vouchers are generated again, for its own
-- period too, or locked. Vouchers have distinct identifiers and periods.
pub locked_kept :
    (vendor driver start end id : ℕ) (db : Db) (v : Voucher)
    → Distinct voucher_key db.vouchers
    → OnePerPeriod db.vouchers
    → Memᴰ v db.vouchers
    → is_draft v.status ≡ false
    → Memᴰ v (generate vendor driver start end db).0.vouchers
      × Memᴰ v (lock vendor id db).0.vouchers
locked_kept vendor driver start end id db v ids periods m closed = (
  generate-keeps vendor driver start end db v periods m closed,
  lock-keeps vendor id db v ids m closed,
)

-- ===== src/Billing/Vouchers.antt =====
-- apps/api/src/driver-payment/driver-payment.service.ts.
use kruze.Base.{
  ℕ, suc, Bool, true, false, ◌&&◌, Option, none, some, List, ◌∷◌, leb, ◌==◌, is_id, find?, keep,
  total,
}
use kruze.Base.Ints.{minus}
use kruze.Base.Rows.{find_unique, update_where, update_row}
use kruze.Base.Effects.{
  bad_request, not_found, M, return, gets, or_throw, modify, require, ◌>>=◌, ◌>>◌,
}
use kruze.Maintenance.{linked}
use kruze.Trip.Store.{Trip, Assignment, trip_id_of, is_active}
use kruze.Billing.Store.{TripCharge, VoucherStatus, Voucher, Db, charge_key, voucher_key}
use kruze.Billing.Charges.{is_completed}

abbrev pub is_draft : VoucherStatus → Bool
is_draft VoucherStatus.draft = true
is_draft VoucherStatus.locked = false

-- the unique key of a voucher
abbrev pub same_period : ℕ → ℕ → ℕ → ℕ → Voucher → Bool
same_period vendor driver start end v =
    v.vendor_org_id == vendor
    && (v.driver_id == driver && (v.period_start == start && v.period_end == end))

abbrev within : ℕ → ℕ → Option ℕ → Bool
within start end none = false
within start end (some t) = leb start t && leb t end

unfoldable pub payable_trip : ℕ → ℕ → ℕ → Option Trip → Bool
payable_trip vendor start end none = false
payable_trip vendor start end (some t) =
    is_id t.vendor_org_id vendor && is_completed t.status && within start end t.actual_end_at

abbrev payable_of : Option TripCharge → ℕ
payable_of none = 0
payable_of (some c) = c.vendor_payable

-- the driver's active assignments on completed trips of the vendor in the period
unfoldable pub paid_assignments : ℕ → ℕ → ℕ → ℕ → Db → List Assignment
unfolding payable_trip
paid_assignments vendor driver start end db =
    keep
      (λ a.
        is_id a.driver_id driver
        && is_active a.status
        && payable_trip vendor start end (find_unique trip_id_of a.trip_id db.trip.trips))
      db.trip.assignments

unfoldable pub gross : ℕ → ℕ → ℕ → ℕ → Db → ℕ
unfolding paid_assignments
gross vendor driver start end db =
    total (λ a. payable_of (find_unique charge_key a.trip_id db.charges))
      (paid_assignments vendor driver start end db)

abbrev pub still_draft : Option Voucher → Bool
still_draft none = true
still_draft (some v) = is_draft v.status

abbrev deductions_of : Option Voucher → ℕ
deductions_of none = 0
deductions_of (some v) = v.deductions

unfoldable pub new_voucher : ℕ → ℕ → ℕ → ℕ → ℕ → ℕ → Voucher
new_voucher id vendor driver start end amount = record {
  id = id;
  vendor_org_id = vendor;
  driver_id = driver;
  period_start = start;
  period_end = end;
  gross_amount = amount;
  deductions = 0;
  net_payment = minus amount 0;
  status = VoucherStatus.draft;
}

-- the `upsert`; `deductions` are those of the row that was read
unfoldable pub write_voucher : ℕ → ℕ → ℕ → ℕ → ℕ → Option Voucher → Db → Db
write_voucher vendor driver start end amount none db = record db {
  vouchers = new_voucher db.next_id vendor driver start end amount ∷ db.vouchers;
  next_id = suc db.next_id;
}
write_voucher vendor driver start end amount (some v) db = record db {
  vouchers =
      update_where (same_period vendor driver start end)
        (λ x. record x { gross_amount = amount; net_payment = minus amount v.deductions })
        db.vouchers;
}

unfoldable pub generate : ℕ → ℕ → ℕ → ℕ → M Db (Unit {0})
generate vendor driver start end = do
  relationship ← gets (λ db. linked driver vendor db.driver_vendors)
  require relationship bad_request
  amount ← gets (gross vendor driver start end)
  existing ← gets (λ db. find? (same_period vendor driver start end) db.vouchers)
  require (still_draft existing) bad_request
  modify (write_voucher vendor driver start end amount existing)

unfoldable pub get_owned : ℕ → ℕ → M Db Voucher
get_owned vendor id = do
  found ← gets (λ db. find_unique voucher_key id db.vouchers)
  voucher ← or_throw found not_found
  require (voucher.vendor_org_id == vendor) not_found
  return voucher

unfoldable pub lock : ℕ → ℕ → M Db (Unit {0})
lock vendor id = do
  voucher ← get_owned vendor id
  require (is_draft voucher.status) bad_request
  modify (λ db. record db {
    vouchers =
        update_row voucher_key id (λ v. record v { status = VoucherStatus.locked }) db.vouchers;
  })

-- ===== src/Billing.antt =====
-- apps/api/src/billing and apps/api/src/driver-payment: invoices reconciled with trip charges, the
-- charges, and the vouchers of the drivers.
pub mod Store
pub mod Doubles
pub mod Invoicing
pub mod Charges
pub mod Vouchers
pub mod Payables
pub mod Reconciled
pub mod Submitted
pub mod Charged
pub mod Locked
mod Samples

-- ===== src/Organisation.antt =====
-- apps/api/src/organisation: the tenants, their life cycle and their human-readable identifiers.
pub mod Ids
pub mod Tenants
pub mod Onboarded
mod Samples

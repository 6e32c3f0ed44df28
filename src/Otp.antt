-- ===== src/Otp.antt =====
-- apps/api/src/otp: pickup and drop challenges.
pub mod Store
pub mod Service
pub mod Verify
pub mod Guesses
pub mod Decided
pub mod Requests
mod Samples

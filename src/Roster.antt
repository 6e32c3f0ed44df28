-- ===== src/Roster.antt =====
-- apps/api/src/roster: roster entries under a booking cut-off and a lock.
pub mod Store
pub mod Service
pub mod Bulk
pub mod Shifts
pub mod Locks
pub mod Generated
pub mod Bookings
pub mod Rewritten
mod Samples

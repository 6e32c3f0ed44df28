-- ===== src/Planning.antt =====
-- apps/api/src/planning/planning.service.ts: the search for a vehicle, a driver and a guard (Search), the
-- rows (Plans), one group over the vendors (Group), the plan of a day (Generate, Publish).
pub mod Search
pub mod Plans
pub mod Group
pub mod Granted
pub mod Explored
pub mod Fit
pub mod Checked
pub mod Crews
pub mod Booked
pub mod Planned
pub mod Generate
pub mod Publish
pub mod Kept
pub mod Sequence
pub mod Published
pub mod Cleared
pub mod Days
pub mod Picked
pub mod Tested
pub mod Evaluated
mod Samples
mod Trial

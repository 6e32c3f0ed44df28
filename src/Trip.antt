-- ===== src/Trip.antt =====
-- apps/api/src/trip: the state machine of a trip, its rows, and the handlers of TripService.
pub mod Machine
pub mod Store
pub mod Service
pub mod Assign
pub mod Lifecycle
pub mod Versions
pub mod Checks
pub mod Booking
pub mod Outcome
pub mod Granted
pub mod Booked
pub mod Kept
mod Samples
pub mod History

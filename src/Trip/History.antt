-- ===== src/Trip/History.antt =====
-- The handlers of TripService in sequence (apps/api/src/trip/trip.service.ts), and what holds of the
-- tables after any such sequence.
use kruze.Base.{ℕ, List, [], ◌∷◌}
use kruze.Base.Effects.{Transactions}
use kruze.Domain.{AuthenticatedUser}
use kruze.Trip.Machine.{TripStatus}
use kruze.Trip.Store.{Db}
use kruze.Trip.Service.{
  CreateInput, create, transition, accept_route, reject_route, request_reoptimization,
}
use kruze.Trip.Assign.{AssignInput, assign}
use kruze.Trip.Booked.{Booked, creating-Booked, assigning-Booked}
use kruze.Trip.Kept.{
  transition-Booked, accept_route-Booked, reject_route-Booked, request_reoptimization-Booked,
}

-- A request to TripService that writes.
pub data Call : Type 0 where
  creates : CreateInput → Call
  transitions : ℕ → TripStatus → Call
  assigns : ℕ → AssignInput → Call
  accepts rejects reoptimizes : ℕ → Call

-- one request at a time: by whom, when, and which
unfoldable pub step : Transactions Db → Db → AuthenticatedUser × ℕ × Call → Db
step tx db (actor, now, creates input) = (create tx actor input db).0
step tx db (actor, now, transitions id to) = (transition tx actor id to now db).0
step tx db (actor, now, assigns id input) = (assign tx actor id input now db).0
step tx db (actor, now, accepts id) = (accept_route tx actor id db).0
step tx db (actor, now, rejects id) = (reject_route tx actor id db).0
step tx db (actor, now, reoptimizes id) = (request_reoptimization tx actor id db).0

unfoldable pub run : Transactions Db → Db → List (AuthenticatedUser × ℕ × Call) → Db
run tx db [] = db
run tx db (c ∷ cs) = run tx (step tx db c) cs

step-Booked :
    (tx : Transactions Db) (db : Db) (c : AuthenticatedUser × ℕ × Call)
    → Booked db
    → Booked (step tx db c)
unfolding step
step-Booked tx db (actor, now, creates input) b = creating-Booked tx actor input db b
step-Booked tx db (actor, now, transitions id to) b = transition-Booked tx actor id to now db b
step-Booked tx db (actor, now, assigns id input) b = assigning-Booked tx actor id input now db b
step-Booked tx db (actor, now, accepts id) b = accept_route-Booked tx actor id db b
step-Booked tx db (actor, now, rejects id) b = reject_route-Booked tx actor id db b
step-Booked tx db (actor, now, reoptimizes id) b = request_reoptimization-Booked tx actor id db b

-- From tables with no double booking, every sequence of requests that run one after another leads to
-- tables with none: no two active assignments share a driver, a vehicle or a guard on live trips
-- whose windows meet.
pub run-Booked :
    (tx : Transactions Db) (db : Db) (cs : List (AuthenticatedUser × ℕ × Call))
    → Booked db
    → Booked (run tx db cs)
unfolding run
run-Booked tx db [] b = b
run-Booked tx db (c ∷ cs) b = run-Booked tx (step tx db c) cs (step-Booked tx db c b)

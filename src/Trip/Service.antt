-- ===== src/Trip/Service.antt =====
-- apps/api/src/trip/trip.service.ts. `now` is the clock. An absent identifier is `none`; the empty
-- string, which a test `if (input.driverId)` also skips, is no identifier.
use kruze.Base.{
  ℕ, suc, ◌+◌, Bool, true, false, not, ◌&&◌, Option, none, some, List, [], ◌∷◌, ◌++◌, ◌==◌,
  if◌then◌else◌, is_some, length, any, all, keep, find?,
}
use kruze.Base.Rows.{find_unique, update_row}
use kruze.Base.Effects.{
  Error, bad_request, not_found, record_missing, ok, err, M, return, gets, or_throw, modify,
  require, ◌>>=◌, ◌>>◌, Transactions, transaction,
}
use kruze.Domain.{AuthenticatedUser}
use kruze.Trip.Machine.{TripStatus, same_status, can_transition}
use kruze.Trip.Store.{
  Trip, TripEmployee, TripEmployeeStatus, EventType, Message, RouteAcceptance, Db, trip_id_of,
  is_party, log_event, publish,
}

pub record CreateInput : Type 0 where
  pub shift_id : ℕ
  pub scheduled_start_at : ℕ
  pub scheduled_end_at : Option ℕ
  pub vendor_org_id : Option ℕ
  pub contract_id : Option ℕ
  pub plan_id : Option ℕ
  pub employee_ids : List ℕ

abbrev pub includes : ℕ → List ℕ → Bool
includes i = any (λ j. j == i)

unfoldable pub new_trip : AuthenticatedUser → CreateInput → Db → Trip
new_trip actor input db = record {
  id = db.next_id;
  global_trip_no = length db.trips + 1;
  plan_id = input.plan_id;
  corporate_org_id = actor.organisation_id;
  vendor_org_id = input.vendor_org_id;
  contract_id = input.contract_id;
  shift_id = input.shift_id;
  scheduled_start_at = input.scheduled_start_at;
  scheduled_end_at = input.scheduled_end_at;
  actual_start_at = none;
  actual_end_at = none;
  status = TripStatus.created;
  version = 1;
  route_acceptance = RouteAcceptance.pending;
  reoptimization_requested = false;
}

-- the nested `employees: { create: … }`, each row with an identifier of its own
new_passengers : ℕ → ℕ → List ℕ → List TripEmployee
new_passengers next trip_id [] = []
new_passengers next trip_id (e ∷ es) =
    record {
      id = next;
      trip_id = trip_id;
      employee_id = e;
      status = TripEmployeeStatus.planned;
      pickup_verified_at = none;
      drop_verified_at = none;
    }
    ∷ new_passengers (suc next) trip_id es

unfoldable pub insert_trip : AuthenticatedUser → CreateInput → M Db Trip
unfolding new_trip new_passengers
insert_trip actor input db =
    let trip = new_trip actor input db in
    (
      record db {
        trips = trip ∷ db.trips;
        trip_employees =
            new_passengers (suc db.next_id) db.next_id input.employee_ids ++ db.trip_employees;
        next_id = suc db.next_id + length input.employee_ids;
      },
      ok trip,
    )

-- `{ increment: 1 }`, and the times that RUNNING and COMPLETED set
unfoldable pub advance : TripStatus → ℕ → Trip → Trip
advance to now t = record t {
  status = to;
  version = t.version + 1;
  actual_start_at =
      if same_status to TripStatus.running && not (is_some t.actual_start_at)
      then some now
      else t.actual_start_at;
  actual_end_at = if same_status to TripStatus.completed then some now else t.actual_end_at;
}

-- `trip.update({ where: { id, version }, data })`: P2025 unless the row still has that version.
unfoldable pub update_versioned : ℕ → ℕ → (Trip → Trip) → M Db Trip
update_versioned id version f db = elim (find? (λ t. t.id == id && t.version == version) db.trips) [
  | none ↦ (db, err record_missing)
  | some t ↦ (record db { trips = update_row trip_id_of id f db.trips }, ok (f t))
]

unfoldable pub find_trip : ℕ → Error → M Db Trip
find_trip id e db = or_throw (find_unique trip_id_of id db.trips) e db

-- The write half of `transition`, from the row that was read.
unfoldable pub commit_transition : AuthenticatedUser → Trip → TripStatus → ℕ → M Db Trip
unfolding update_versioned advance
commit_transition actor trip to now = do
  updated ← update_versioned trip.id trip.version (advance to now)
  modify (
      log_event (record {
        trip_id = trip.id;
        type = EventType.trip_status to;
        actor_user_id = some actor.user_id;
      }))
  return updated

module _ (tx : Transactions Db) (actor : AuthenticatedUser) where
  -- the transaction of `create`
  unfoldable pub save_trip : CreateInput → M Db Trip
  unfolding insert_trip
  save_trip input = transaction tx (do
    trip ← insert_trip actor input
    modify (
        log_event (record {
          trip_id = trip.id;
          type = EventType.trip_created;
          actor_user_id = some actor.user_id;
        }))
    return trip)

  unfoldable pub create : CreateInput → M Db Trip
  create input = do
    employees ← gets (λ db. keep (λ e. includes e.id input.employee_ids) db.employees)
    require (length employees == length input.employee_ids) bad_request
    require (all (λ e. e.corporate_org_id == actor.organisation_id) employees) bad_request
    save_trip input

  -- the body of the transaction of `transition`
  unfoldable pub try_transition : ℕ → TripStatus → ℕ → M Db Trip
  unfolding find_trip commit_transition
  try_transition trip_id to now = do
    trip ← find_trip trip_id not_found
    require (is_party actor trip) bad_request
    require (can_transition trip.status to) bad_request
    commit_transition actor trip to now

  unfoldable pub transition : ℕ → TripStatus → ℕ → M Db Trip
  transition trip_id to now = do
    updated ← transaction tx (try_transition trip_id to now)
    modify (publish (Message.trip_status trip_id updated.status))
    return updated

  unfoldable pub assert_party : ℕ → M Db Trip
  unfolding find_trip
  assert_party trip_id = do
    trip ← find_trip trip_id not_found
    require (is_party actor trip) not_found
    return trip

  -- `acceptRoute`, `rejectRoute` and `requestReoptimization` write one field each.
  unfoldable pub set_route : (Trip → Trip) → ℕ → M Db Trip
  set_route f trip_id = do
    trip ← assert_party trip_id
    modify (λ db. record db { trips = update_row trip_id_of trip.id f db.trips })
    return (f trip)

  unfoldable pub accept_route : ℕ → M Db Trip
  accept_route = set_route (λ t. record t { route_acceptance = RouteAcceptance.accepted })

  unfoldable pub reject_route : ℕ → M Db Trip
  reject_route = set_route (λ t. record t { route_acceptance = RouteAcceptance.rejected })

  unfoldable pub request_reoptimization : ℕ → M Db Trip
  request_reoptimization = set_route (λ t. record t { reoptimization_requested = true })

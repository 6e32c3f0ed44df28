-- ===== src/Tracking/Samples.antt =====
-- Samples: a driver of a vendor on a running trip sends a point that is older than the last one
-- (apps/api/src/tracking/tracking.service.ts).
use kruze.Base.{ℕ, ◌≡◌, refl, true, false, none, some, [], ◌∷◌}
use kruze.Base.Effects.{bad_request, ok, err}
use kruze.Domain.{PlatformRole, AuthenticatedUser}
use kruze.Trip.Machine.{TripStatus}
use kruze.Trip.Store.{RouteAcceptance}
use kruze.Tracking.{Place, LocationEvent, Db, Input, ingest, latest_for_trip}
use kruze.Tracking.Recorded.{Recorded}

abbrev driver : AuthenticatedUser
driver = record { user_id = 3; organisation_id = 20; role = PlatformRole.driver }

abbrev gate : Place
gate = record { latitude = 12; longitude = 77 }

abbrev last_point : LocationEvent
last_point = record {
  id = 1;
  trip_id = some 1;
  driver_id = some 4;
  vehicle_id = none;
  place = gate;
  speed = some 9000;
  recorded_at = 700;
}

abbrev on_the_road : Db
on_the_road = record {
  trips =
      record {
        id = 1;
        global_trip_no = 1;
        plan_id = none;
        corporate_org_id = 10;
        vendor_org_id = some 20;
        contract_id = none;
        shift_id = 5;
        scheduled_start_at = 500;
        scheduled_end_at = none;
        actual_start_at = some 510;
        actual_end_at = none;
        status = TripStatus.running;
        version = 1;
        route_acceptance = RouteAcceptance.pending;
        reoptimization_requested = false;
      }
      ∷ [];
  stops = [];
  vehicle_vendors = [];
  driver_vendors = record { resource_id = 4; vendor_org_id = 20; active = true } ∷ [];
  geofences = [];
  location_events = last_point ∷ [];
  outbox = [];
  next_id = 2;
}

abbrev point_at : ℕ → Input
point_at time = record {
  trip_id = some 1;
  driver_id = some 4;
  vehicle_id = none;
  place = gate;
  speed = none;
  recorded_at = time;
}

late_point_hides_nothing :
    (latest_for_trip driver 1 (ingest driver (point_at 600) 710 on_the_road).0).1
    ≡ ok (some last_point)
unfolding latest_for_trip kruze.Tracking.assert_trip_access ingest kruze.Tracking.accessible_trip
    kruze.Tracking.accessible_vehicle kruze.Tracking.accessible_driver
    kruze.Tracking.assert_driver_access kruze.Maintenance.linked kruze.Tracking.latest
    kruze.Tracking.new_event
late_point_hides_nothing = refl

future_refused : (ingest driver (point_at 60711) 710 on_the_road).1 ≡ err bad_request
unfolding ingest kruze.Tracking.accessible_trip kruze.Tracking.assert_trip_access
    kruze.Tracking.accessible_vehicle kruze.Tracking.accessible_driver
    kruze.Tracking.assert_driver_access kruze.Maintenance.linked
future_refused = refl

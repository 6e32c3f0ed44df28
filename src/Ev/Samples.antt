-- ===== src/Ev/Samples.antt =====
-- Samples: a vendor with an electric vehicle and one that is not (apps/api/src/ev/ev.service.ts).
use kruze.Base.{◌+◌, ◌*◌, ◌≡◌, refl, true, false, none, some, [], ◌∷◌, leb, arith}
use kruze.Base.Effects.{ok}
use kruze.Domain.{PlatformRole, AuthenticatedUser}
use kruze.Ev.{Db, Input, idle, update_battery_state, range_eligible}
use kruze.Ev.Ranges.{range_reported}

abbrev vendor : AuthenticatedUser
vendor = record { user_id = 3; organisation_id = 20; role = PlatformRole.vendor_admin }

abbrev fleet : Db
fleet = record {
  vehicles =
      record { id = 1; is_electric = true; range_km = some 200 }
      ∷ record { id = 2; is_electric = false; range_km = none }
      ∷ [];
  vehicle_vendors = record { resource_id = 1; vendor_org_id = 20; active = true } ∷ [];
  battery_states = [];
  sessions = [];
}

abbrev low : Input
low = record { soc_percent = 20; estimated_range_km = some 40; charging_status = none }

accepted : (update_battery_state vendor 1 low 500 fleet).1 ≡ ok tt
unfolding update_battery_state kruze.Ev.assert_vehicle_access kruze.Maintenance.linked
accepted = refl

range_reported_example :
    (range_eligible 1 38 15 (update_battery_state vendor 1 low 500 fleet).0
      ≡ leb (38 * (100 + 15)) (40 * 100))
    × (range_eligible 2 38 15 (update_battery_state vendor 1 low 500 fleet).0
        ≡ range_eligible 2 38 15 fleet)
range_reported_example =
    range_reported vendor 1 40 low 500 fleet accepted refl 2 (ground arith) 38 15

-- A report without an estimate keeps the one before: at 5 percent 30 km still count as in reach.
stale_estimate :
    range_eligible 1 30 15
      (update_battery_state vendor 1
        (record { soc_percent = 5; estimated_range_km = none; charging_status = none })
        600
        (update_battery_state vendor 1 low 500 fleet).0).0
    ≡ true
unfolding range_eligible update_battery_state kruze.Ev.assert_vehicle_access
    kruze.Maintenance.linked kruze.Ev.available_range_km kruze.Ev.upsert_state kruze.Ev.new_state
    kruze.Ev.updated_state
stale_estimate = refl

-- ===== src/Maintenance/Samples.antt =====
-- Samples: a vehicle in the workshop (apps/api/src/maintenance/maintenance.service.ts).
use kruze.Base.{true, none, [], ◌∷◌}
use kruze.Domain.{PlatformRole, AuthenticatedUser}
use kruze.Maintenance.{RecordStatus, Db}

abbrev fleet_admin : AuthenticatedUser
fleet_admin = record { user_id = 1; organisation_id = 20; role = PlatformRole.vendor_admin }

abbrev in_workshop : Db
in_workshop = record {
  records =
      record {
        id = 1;
        vehicle_id = 8;
        type = 0;
        scheduled_at = none;
        completed_at = none;
        status = RecordStatus.in_progress;
        blocks_deployment = true;
      }
      ∷ [];
  vehicle_vendors = record { resource_id = 8; vendor_org_id = 20; active = true } ∷ [];
  next_id = 2;
}

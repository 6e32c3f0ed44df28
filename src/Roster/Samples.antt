-- ===== src/Roster/Samples.antt =====
-- Samples: a locked roster entry (apps/api/src/roster/roster.service.ts).
use kruze.Base.{◌≡◌, ◌↔◌, refl, true, false, some, List, [], ◌∷◌, Memᴰ}
use kruze.Base.Effects.{ok}
use kruze.Domain.{PlatformRole, AuthenticatedUser}
use kruze.Roster.Store.{EntryStatus, PublishStatus, Source, Entry, Employee, Db}
use kruze.Roster.Service.{upsert_entry, cancel}
use kruze.Roster.Bulk.{UploadRow, bulk_upload, bulk_upsert, auto_generate}
use kruze.Roster.Locks.{LocksKept}
use kruze.Roster.Generated.{locks_kept}
use kruze.Roster.Bookings.{Bookable, upsert_entry_iff}
use kruze.Roster.Rewritten.{From, bulk_upsert_rewrites}

abbrev admin : AuthenticatedUser
admin = record { user_id = 1; organisation_id = 10; role = PlatformRole.corporate_transport_admin }

abbrev worker : Employee
worker = record {
  id = 7;
  corporate_org_id = 10;
  employee_code = 77;
  is_active = true;
  shift_id = some 5;
}

abbrev locked_entry : Entry
locked_entry = record {
  id = 1;
  employee_id = 7;
  shift_id = 5;
  date = 100;
  status = EntryStatus.opted_out;
  publish_status = PublishStatus.locked;
  source = Source.admin;
  version = 1;
}

abbrev locked_roster : Db
locked_roster = record {
  employees = worker ∷ [];
  shifts =
      record {
        id = 5;
        corporate_org_id = 10;
        start_minutes = 540;
        cutoff_minutes_before_start = 60;
        active = true;
      }
      ∷ [];
  entries = locked_entry ∷ [];
  next_id = 2;
}

abbrev uploaded : List UploadRow
uploaded = record { employee_code = 77; shift_id = 5; date = 100 } ∷ []

upsert_entry_iff_example :
    ((upsert_entry admin 7 5 101 EntryStatus.opted_in 50 locked_roster).1 ≡ ok tt)
    ↔ Bookable admin 7 5 101 50 locked_roster
upsert_entry_iff_example = upsert_entry_iff admin 7 5 101 EntryStatus.opted_in 50 locked_roster

locks_kept_example :
    LocksKept locked_roster (upsert_entry admin 7 5 100 EntryStatus.opted_in 50 locked_roster).0
    × LocksKept locked_roster (cancel admin 1 locked_roster).0
    × LocksKept locked_roster (bulk_upload admin uploaded locked_roster).0
    × LocksKept locked_roster (auto_generate admin 99 101 false locked_roster).0
locks_kept_example =
    locks_kept admin 7 5 100 50 EntryStatus.opted_in 1 uploaded 99 101 false locked_roster (tt, tt)

bulk_opts_in : (bulk_upsert admin 5 (7 ∷ []) (100 ∷ []) locked_roster).1 ≡ ok tt
unfolding bulk_upsert kruze.Roster.Service.own_shift
bulk_opts_in = refl

bulk_upsert_rewrites_example :
    From locked_entry 2 (bulk_upsert admin 5 (7 ∷ []) (100 ∷ []) locked_roster).0.entries
bulk_upsert_rewrites_example =
    bulk_upsert_rewrites admin (7 ∷ []) (100 ∷ []) locked_roster locked_entry worker bulk_opts_in
      (Memᴰ.head refl) (Memᴰ.head refl) (Memᴰ.head refl) refl refl

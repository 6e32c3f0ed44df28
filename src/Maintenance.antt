-- ===== src/Maintenance.antt =====
-- apps/api/src/maintenance/maintenance.service.ts: a vehicle's maintenance records, and whether one
-- keeps the vehicle off the road.
pub mod Blocks
mod Samples
use kruze.Base.{
  ℕ, suc, Bool, true, false, not, ◌&&◌, ◌||◌, Option, none, some, List, [], ◌∷◌, ◌==◌, any, or_else,
}
use kruze.Base.Rows.{find_unique, update_row}
use kruze.Base.Effects.{
  forbidden, not_found, ok, M, return, gets, or_throw, modify, require, ◌>>=◌, ◌>>◌,
}
use kruze.Domain.{AuthenticatedUser}

pub data RecordStatus : Type 0 where
  scheduled in_progress completed cancelled : RecordStatus

pub record Record : Type 0 where
  pub id : ℕ
  pub vehicle_id : ℕ
  pub type : ℕ
  pub scheduled_at : Option ℕ
  pub completed_at : Option ℕ
  pub status : RecordStatus
  pub blocks_deployment : Bool

-- a vendor's relationship with a vehicle, a driver or a guard; `active` is `status === "ACTIVE"`
pub record Link : Type 0 where
  pub resource_id : ℕ
  pub vendor_org_id : ℕ
  pub active : Bool

pub record Db : Type 0 where
  pub records : List Record
  pub vehicle_vendors : List Link
  pub next_id : ℕ

pub record ScheduleInput : Type 0 where
  pub type : ℕ
  pub scheduled_at : Option ℕ
  pub blocks_deployment : Option Bool

abbrev pub record_key : Record → ℕ
record_key r = r.id

-- `status: { in: ["SCHEDULED", "IN_PROGRESS"] }`
abbrev pub is_open : RecordStatus → Bool
is_open scheduled = true
is_open in_progress = true
is_open _ = false

unfoldable pub linked : ℕ → ℕ → List Link → Bool
linked resource vendor =
    any (λ l. l.resource_id == resource && l.vendor_org_id == vendor && l.active)

unfoldable pub blocks : ℕ → Record → Bool
blocks vehicle r = r.vehicle_id == vehicle && r.blocks_deployment && is_open r.status

unfoldable pub is_deployment_blocked : ℕ → List Record → Bool
unfolding blocks
is_deployment_blocked vehicle = any (blocks vehicle)

unfoldable pub assert_vehicle_access : AuthenticatedUser → ℕ → M Db (Unit {0})
assert_vehicle_access actor vehicle = do
  relationship ← gets (λ db. linked vehicle actor.organisation_id db.vehicle_vendors)
  require relationship forbidden

unfoldable pub assert_record_access : AuthenticatedUser → ℕ → M Db (Unit {0})
assert_record_access actor id = do
  found ← gets (λ db. find_unique record_key id db.records)
  row ← or_throw found not_found
  assert_vehicle_access actor row.vehicle_id

unfoldable pub schedule : AuthenticatedUser → ℕ → ScheduleInput → M Db (Unit {0})
schedule actor vehicle input = do
  assert_vehicle_access actor vehicle
  modify (λ db. record db {
    records =
        record {
          id = db.next_id;
          vehicle_id = vehicle;
          type = input.type;
          scheduled_at = input.scheduled_at;
          completed_at = none;
          status = scheduled;
          blocks_deployment = or_else input.blocks_deployment true;
        }
        ∷ db.records;
    next_id = suc db.next_id;
  })

abbrev set_status : ℕ → (Record → Record) → Db → Db
set_status id f db = record db { records = update_row record_key id f db.records }

unfoldable pub start : AuthenticatedUser → ℕ → M Db (Unit {0})
start actor id = do
  assert_record_access actor id
  modify (set_status id (λ r. record r { status = in_progress }))

unfoldable pub complete : AuthenticatedUser → ℕ → ℕ → M Db (Unit {0})
complete actor id now = do
  assert_record_access actor id
  modify (set_status id (λ r. record r { status = completed; completed_at = some now }))

unfoldable pub cancel : AuthenticatedUser → ℕ → M Db (Unit {0})
cancel actor id = do
  assert_record_access actor id
  modify (set_status id (λ r. record r { status = cancelled }))

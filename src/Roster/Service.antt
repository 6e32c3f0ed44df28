-- ===== src/Roster/Service.antt =====
-- apps/api/src/roster/roster.service.ts, the handlers of one entry and of the lock, and
-- apps/api/src/roster/shift.service.ts, `get` and the ownership test of `update`.
use kruze.Base.{
  ℕ, suc, ◌+◌, ◌*◌, Bool, true, false, not, ◌&&◌, List, ltb, ◌==◌, if◌then◌else◌, keep, length,
}
use kruze.Base.Rows.{find_unique, update_row, update_where}
use kruze.Base.Effects.{
  bad_request, forbidden, not_found, M, return, gets, or_throw, modify, require, ◌>>=◌, ◌>>◌,
}
use kruze.Domain.{AuthenticatedUser, is_employee}
use kruze.Roster.Store.{
  EntryStatus, PublishStatus, Source, Entry, Shift, Employee, Db, employee_key, shift_key,
  entry_key, minute_ms, shift_start_at, is_locked, has_lock, upsert, new_entry,
}

-- an employee, or a shift, of the actor's corporate
unfoldable pub own_employee : AuthenticatedUser → ℕ → M Db Employee
own_employee actor id = do
  found ← gets (λ db. find_unique employee_key id db.employees)
  employee ← or_throw found not_found
  require (employee.corporate_org_id == actor.organisation_id) not_found
  return employee

unfoldable pub own_shift : AuthenticatedUser → ℕ → M Db Shift
own_shift actor id = do
  found ← gets (λ db. find_unique shift_key id db.shifts)
  shift ← or_throw found not_found
  require (shift.corporate_org_id == actor.organisation_id) not_found
  return shift

unfoldable pub assert_not_locked : ℕ → ℕ → M Db (Unit {0})
assert_not_locked shift date = do
  locked ← gets (λ db. has_lock shift date db.entries)
  require (not locked) bad_request

-- `new Date() > cutoff`; the cut-off may lie before the epoch, where the subtraction of the code is
-- negative and the test holds at any time
unfoldable pub past_cutoff : Shift → ℕ → ℕ → Bool
past_cutoff shift date now =
    ltb (shift_start_at date shift.start_minutes)
      (now + shift.cutoff_minutes_before_start * minute_ms)

abbrev pub write_entry : Entry → (Entry → Entry) → Db → Db
write_entry row change db = record db {
  entries = upsert row change db.entries;
  next_id = suc db.next_id;
}

abbrev source_of : AuthenticatedUser → Source
source_of actor = if is_employee actor.role then Source.employee_self_service else Source.admin

unfoldable pub upsert_entry : AuthenticatedUser → ℕ → ℕ → ℕ → EntryStatus → ℕ → M Db (Unit {0})
upsert_entry actor employee_id shift_id date status now = do
  employee ← own_employee actor employee_id
  shift ← own_shift actor shift_id
  require (not (is_employee actor.role && past_cutoff shift date now)) bad_request
  assert_not_locked shift_id date
  modify (λ db.
      write_entry (new_entry db.next_id employee_id shift_id date status (source_of actor))
        (λ e. record e { status = status; version = e.version + 1 }) db)

unfoldable pub cancel : AuthenticatedUser → ℕ → M Db (Unit {0})
cancel actor id = do
  found ← gets (λ db. find_unique entry_key id db.entries)
  entry ← or_throw found not_found
  owner ← gets (λ db. find_unique employee_key entry.employee_id db.employees)
  employee ← or_throw owner not_found
  require (employee.corporate_org_id == actor.organisation_id) forbidden
  require (not (is_locked entry.publish_status)) bad_request
  modify (λ db. record db {
    entries =
        update_row entry_key id
          (λ e. record e { status = EntryStatus.cancelled; version = e.version + 1 }) db.entries;
  })

-- the count of rows that `updateMany` changed
unfoldable pub set_publish_status : AuthenticatedUser → ℕ → ℕ → PublishStatus → M Db ℕ
set_publish_status actor shift_id date status = do
  shift ← own_shift actor shift_id
  updated ← gets (λ db. length (keep (λ e. e.shift_id == shift_id && e.date == date) db.entries))
  modify (λ db. record db {
    entries =
        update_where (λ e. e.shift_id == shift_id && e.date == date)
          (λ e. record e { publish_status = status }) db.entries;
  })
  return updated

abbrev pub is_opted_in : EntryStatus → Bool
is_opted_in EntryStatus.opted_in = true
is_opted_in _ = false

unfoldable pub list_demand : ℕ → ℕ → List Entry → List Entry
list_demand shift date = keep (λ e. e.shift_id == shift && e.date == date && is_opted_in e.status)

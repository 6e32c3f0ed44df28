-- ===== src/Roster/Store.antt =====
-- The rows of RosterService and ShiftService (apps/api/src/roster). A date is the number of its day,
-- a start time the minutes from midnight (UTC).
use kruze.Base.{ℕ, ◌+◌, ◌*◌, Bool, true, false, ◌&&◌, Option, List, ◌∷◌, ◌==◌, if◌then◌else◌, any}
use kruze.Base.Rows.{update_where}

pub data EntryStatus : Type 0 where
  opted_in opted_out cancelled : EntryStatus

pub data PublishStatus : Type 0 where
  draft published locked : PublishStatus

pub data Source : Type 0 where
  employee_self_service admin file_upload auto_generated : Source

pub record Entry : Type 0 where
  pub id : ℕ
  pub employee_id : ℕ
  pub shift_id : ℕ
  pub date : ℕ
  pub status : EntryStatus
  pub publish_status : PublishStatus
  pub source : Source
  pub version : ℕ

pub record Shift : Type 0 where
  pub id : ℕ
  pub corporate_org_id : ℕ
  pub start_minutes : ℕ
  pub cutoff_minutes_before_start : ℕ
  pub active : Bool

pub record Employee : Type 0 where
  pub id : ℕ
  pub corporate_org_id : ℕ
  pub employee_code : ℕ
  pub is_active : Bool
  pub shift_id : Option ℕ

pub record Db : Type 0 where
  pub employees : List Employee
  pub shifts : List Shift
  pub entries : List Entry
  pub next_id : ℕ

abbrev pub employee_key : Employee → ℕ
employee_key e = e.id

abbrev pub shift_key : Shift → ℕ
shift_key s = s.id

abbrev pub entry_key : Entry → ℕ
entry_key e = e.id

abbrev pub day_ms : ℕ
day_ms = 86400000

abbrev pub minute_ms : ℕ
minute_ms = 60000

-- `shiftStartAt`
abbrev pub shift_start_at : ℕ → ℕ → ℕ
shift_start_at date minutes = date * day_ms + minutes * minute_ms

abbrev pub is_locked : PublishStatus → Bool
is_locked locked = true
is_locked _ = false

-- the unique key of an entry
abbrev pub same_key : ℕ → ℕ → ℕ → Entry → Bool
same_key employee shift date e = e.employee_id == employee && e.shift_id == shift && e.date == date

-- `findFirst({ where: { shiftId, date, publishStatus: "LOCKED" } })`
unfoldable pub has_lock : ℕ → ℕ → List Entry → Bool
has_lock shift date = any (λ e. e.shift_id == shift && e.date == date && is_locked e.publish_status)

-- `upsert({ where, create, update })`
unfoldable pub upsert : Entry → (Entry → Entry) → List Entry → List Entry
upsert row change entries =
    if any (same_key row.employee_id row.shift_id row.date) entries
    then update_where (same_key row.employee_id row.shift_id row.date) change entries
    else row ∷ entries

unfoldable pub new_entry : ℕ → ℕ → ℕ → ℕ → EntryStatus → Source → Entry
new_entry id employee shift date status source = record {
  id = id;
  employee_id = employee;
  shift_id = shift;
  date = date;
  status = status;
  publish_status = PublishStatus.draft;
  source = source;
  version = 1;
}

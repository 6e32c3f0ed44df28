-- ===== src/Roster/Bulk.antt =====
-- apps/api/src/roster/roster.service.ts, the handlers of many entries.
use kruze.Base.{
  ℕ, zero, suc, ◌+◌, ◌-◌, ◌%◌, Bool, not, ◌&&◌, ◌||◌, none, some, List, [], ◌∷◌, ◌==◌,
  if◌then◌else◌, is_some, is_id, ◌*◌, any, keep, find?, length,
}
use kruze.Base.Effects.{bad_request, M, gets, modify, require, ◌>>=◌, ◌>>◌}
use kruze.Domain.{AuthenticatedUser}
use kruze.Roster.Store.{EntryStatus, Source, Entry, Employee, Db, is_locked, has_lock, new_entry}
use kruze.Roster.Service.{own_shift, write_entry}

-- an OPTED_IN row, or the update of the one that is there
abbrev pub opt_in : Source → ℕ → ℕ → ℕ → Db → Db
opt_in source employee shift date db =
    write_entry (new_entry db.next_id employee shift date EntryStatus.opted_in source)
      (λ e. record e { status = EntryStatus.opted_in; version = e.version + 1 }) db

-- the two loops of `bulkUpsert`: each employee on each date
unfoldable pub opt_in_dates : Source → ℕ → ℕ → List ℕ → Db → Db
opt_in_dates source employee shift [] db = db
opt_in_dates source employee shift (d ∷ ds) db =
    opt_in_dates source employee shift ds (opt_in source employee shift d db)

unfoldable pub opt_in_all : List Employee → ℕ → List ℕ → Db → Db
unfolding opt_in_dates
opt_in_all [] shift dates db = db
opt_in_all (e ∷ es) shift dates db =
    opt_in_all es shift dates (opt_in_dates Source.admin e.id shift dates db)

unfoldable pub bulk_upsert : AuthenticatedUser → ℕ → List ℕ → List ℕ → M Db (Unit {0})
bulk_upsert actor shift_id employee_ids dates = do
  shift ← own_shift actor shift_id
  valid ← gets (λ db.
      keep
        (λ (e : Employee).
          any (λ i. i == e.id) employee_ids && e.corporate_org_id == actor.organisation_id)
        db.employees)
  require (not (length valid == 0)) bad_request
  modify (opt_in_all valid shift_id dates)

pub record UploadRow : Type 0 where
  pub employee_code : ℕ
  pub shift_id : ℕ
  pub date : ℕ

pub data UploadResult : Type 0 where
  success skipped failed : UploadResult

-- one round of the loop of `bulkUpload`, the `catch` included
unfoldable pub upload_row : AuthenticatedUser → UploadRow → Db → Db × UploadResult
upload_row actor row db =
    elim (find?
      (λ (e : Employee).
        e.corporate_org_id == actor.organisation_id && e.employee_code == row.employee_code)
      db.employees) [
        | none ↦ (db, skipped)
        | some e ↦ if has_lock row.shift_id row.date db.entries then (db, failed) else (
          write_entry
              (new_entry db.next_id e.id row.shift_id row.date EntryStatus.opted_in
                Source.file_upload)
              (λ x. record x {
                status = EntryStatus.opted_in;
                source = Source.file_upload;
                version = x.version + 1;
              })
              db,
          success,
        )
      ]

unfoldable pub bulk_upload : AuthenticatedUser → List UploadRow → Db → Db × List UploadResult
bulk_upload actor [] db = (db, [])
bulk_upload actor (row ∷ rows) db =
    let (db', result) = upload_row actor row db in
    let (last, results) = bulk_upload actor rows db' in (last, result ∷ results)

-- `getUTCDay()`: day 0 of the epoch is a Thursday
abbrev pub is_weekend : ℕ → Bool
is_weekend date = (date + 4) % 7 == 0 || (date + 4) % 7 == 6

-- the `while (cursor <= end)` loop, with the count of days left
unfoldable pub dates_from : ℕ → ℕ → Bool → List ℕ
dates_from zero date weekdays_only = []
dates_from (suc days) date weekdays_only =
    let rest = dates_from days (date + 1) weekdays_only in
    if weekdays_only && is_weekend date then rest else date ∷ rest

-- `lockedKeys.has(…)`, with the set built from the LOCKED rows on the employees' shifts and the dates
unfoldable pub lock_keys : List Employee → List ℕ → List Entry → List Entry
lock_keys es dates = keep (λ (r : Entry).
    any (λ (e : Employee). is_id e.shift_id r.shift_id) es
    && any (λ d. d == r.date) dates
    && is_locked r.publish_status)

abbrev pub has_key : ℕ → ℕ → List Entry → Bool
has_key shift date = any (λ (r : Entry). r.shift_id == shift && r.date == date)

-- the inner loop of `autoGenerate` for one employee, with the count of the rows written
unfoldable pub generate_dates : List Entry → ℕ → ℕ → List ℕ → Db → Db × ℕ
generate_dates locks employee shift [] db = (db, 0)
generate_dates locks employee shift (d ∷ ds) db =
    let skipped = generate_dates locks employee shift ds db in
    let (last, created) =
      generate_dates locks employee shift ds (opt_in Source.auto_generated employee shift d db) in
    if has_key shift d locks then skipped else (last, suc created)

-- the outer loop; the query gives employees with a default shift only
unfoldable pub generate_all : List Entry → List ℕ → List Employee → Db → Db × ℕ
generate_all locks dates [] db = (db, 0)
generate_all locks dates (e ∷ es) db = elim e.shift_id [
  | none ↦ generate_all locks dates es db
  | some shift ↦
      let (next, created) = generate_dates locks e.id shift dates db in
      let (last, rest) = generate_all locks dates es next in (last, created + rest)
]

unfoldable pub auto_employees : AuthenticatedUser → Db → List Employee
auto_employees actor db =
    keep
      (λ (e : Employee).
        e.corporate_org_id == actor.organisation_id && e.is_active && is_some e.shift_id)
      db.employees

-- `{ total, created }`
unfoldable pub auto_generate : AuthenticatedUser → ℕ → ℕ → Bool → Db → Db × ℕ × ℕ
auto_generate actor from to weekdays_only db =
    let es = auto_employees actor db in
    let dates = dates_from (suc to - from) from weekdays_only in
    let (last, created) = generate_all (lock_keys es dates db.entries) dates es db in
    (last, length es * length dates, created)

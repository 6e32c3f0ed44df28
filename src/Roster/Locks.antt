-- ===== src/Roster/Locks.antt =====
-- The lock of a roster (apps/api/src/roster/roster.service.ts): which handlers leave a LOCKED entry
-- as it is.
use kruze.Base.{
  ℕ, ◌+◌, ◌≡◌, inl, inr, Bool, true, false, ◌&&◌, some, List, [], ◌∷◌, Memᴰ, ◌==◌, any, find?,
  any-false, arith, Bool-cases, Option-cases,
}
use kruze.Base.Rows.{Distinct, find_unique, update_row, update_where-keeps, find_unique-mem}
use kruze.Domain.{AuthenticatedUser}
use kruze.Roster.Store.{
  EntryStatus, Source, Entry, Employee, Db, entry_key, is_locked, same_key, has_lock, upsert,
  new_entry,
}
use kruze.Roster.Service.{
  own_employee, own_shift, assert_not_locked, write_entry, upsert_entry, cancel,
}
use kruze.Roster.Bulk.{UploadRow, upload_row, bulk_upload}

-- Every locked entry is still there, unchanged.
unfoldable pub LocksKept : Db → Db → Type 0
LocksKept db db' =
    (e : Entry) → Memᴰ e db.entries → is_locked e.publish_status ≡ true → Memᴰ e db'.entries

LocksKept-trans : (a b c : Db) → LocksKept a b → LocksKept b c → LocksKept a c
unfolding LocksKept
LocksKept-trans a b c h k e m locked = k e (h e m locked) locked

pub upsert-keeps :
    (row : Entry) (change : Entry → Entry) (rows : List Entry) (e : Entry)
    → same_key row.employee_id row.shift_id row.date e ≡ false
    → Memᴰ e rows
    → Memᴰ e (upsert row change rows)
unfolding upsert
upsert-keeps row change rows e miss m =
    elim (Bool-cases (any (same_key row.employee_id row.shift_id row.date) rows)) [
      | inl there ↦ rw there (update_where-keeps _ change rows e miss m)
      | inr free ↦ rw free (Memᴰ.tail m)
    ]

other_key :
    (employee shift date : ℕ) (rows : List Entry) (e : Entry)
    → has_lock shift date rows ≡ false
    → Memᴰ e rows
    → is_locked e.publish_status ≡ true
    → same_key employee shift date e ≡ false
unfolding has_lock
other_key employee shift date rows e free m locked = ground (arith, any-false _ rows e free m)

write_entry-LocksKept :
    (row : Entry) (change : Entry → Entry) (db : Db)
    → has_lock row.shift_id row.date db.entries ≡ false
    → LocksKept db (write_entry row change db)
unfolding LocksKept
write_entry-LocksKept row change db free e m locked =
    upsert-keeps row change db.entries e
      (other_key row.employee_id row.shift_id row.date db.entries e free m locked) m

own_employee-reads :
    (actor : AuthenticatedUser) (id : ℕ) (db : Db) → (own_employee actor id db).0 ≡ db
unfolding own_employee
own_employee-reads actor id db = ground arith

own_shift-reads : (actor : AuthenticatedUser) (id : ℕ) (db : Db) → (own_shift actor id db).0 ≡ db
unfolding own_shift
own_shift-reads actor id db = ground arith

pub upsert_entry-LocksKept :
    (actor : AuthenticatedUser) (employee shift date : ℕ) (status : EntryStatus) (now : ℕ) (db : Db)
    → LocksKept db (upsert_entry actor employee shift date status now db).0
unfolding upsert_entry assert_not_locked own_employee own_shift new_entry LocksKept
upsert_entry-LocksKept actor employee shift date status now db e m locked =
    elim (Bool-cases (has_lock shift date db.entries)) [
      | inl lock ↦ ground (arith, lock, m)
      | inr free ↦ ground (
        arith,
        free,
        m,
        upsert-keeps (new_entry db.next_id employee shift date status Source.admin)
            (λ x. record x { status = status; version = x.version + 1 }) db.entries e
            (other_key employee shift date db.entries e free m locked) m,
        upsert-keeps (new_entry db.next_id employee shift date status Source.employee_self_service)
            (λ x. record x { status = status; version = x.version + 1 }) db.entries e
            (other_key employee shift date db.entries e free m locked) m,
      )
    ]

update_row-LocksKept :
    (id : ℕ) (change : Entry → Entry) (entry : Entry) (db : Db)
    → Distinct entry_key db.entries
    → find_unique entry_key id db.entries ≡ some entry
    → is_locked entry.publish_status ≡ false
    → LocksKept db (record db { entries = update_row entry_key id change db.entries })
unfolding LocksKept
update_row-LocksKept id change entry db distinct found free e m locked =
    update_where-keeps (λ r. r.id == id) change db.entries e
      (ground (arith, found, free, locked, find_unique-mem entry_key db.entries e distinct m)) m

pub cancel-LocksKept :
    (actor : AuthenticatedUser) (id : ℕ) (db : Db)
    → Distinct entry_key db.entries
    → LocksKept db (cancel actor id db).0
unfolding cancel LocksKept
cancel-LocksKept actor id db distinct e m locked =
    elim (Option-cases (find_unique entry_key id db.entries)) [
      | inl missing ↦ ground (arith, missing, m)
      | inr (entry, found) ↦ elim (Bool-cases (is_locked entry.publish_status)) [
        | inl lock ↦ ground (arith, found, lock, m)
        | inr free ↦ ground (
          arith,
          found,
          free,
          m,
          update_row-LocksKept id
              (λ x. record x { status = EntryStatus.cancelled; version = x.version + 1 }) entry db
              distinct found free e m locked,
        )
      ]
    ]

abbrev of_code : AuthenticatedUser → UploadRow → Employee → Bool
of_code actor row e =
    e.corporate_org_id == actor.organisation_id && e.employee_code == row.employee_code

upload_row-LocksKept :
    (actor : AuthenticatedUser) (row : UploadRow) (db : Db)
    → LocksKept db (upload_row actor row db).0
unfolding upload_row LocksKept new_entry
upload_row-LocksKept actor row db e m locked =
    elim (Option-cases (find? (of_code actor row) db.employees)) [
      | inl missing ↦ ground (arith, missing, m)
      | inr (x, found) ↦ elim (Bool-cases (has_lock row.shift_id row.date db.entries)) [
        | inl lock ↦ ground (arith, found, lock, m)
        | inr free ↦ ground (
          arith,
          found,
          free,
          write_entry-LocksKept
              (new_entry db.next_id x.id row.shift_id row.date EntryStatus.opted_in
                Source.file_upload)
              (λ r. record r {
                status = EntryStatus.opted_in;
                source = Source.file_upload;
                version = r.version + 1;
              })
              db free e m locked,
        )
      ]
    ]

pub bulk_upload-LocksKept :
    (actor : AuthenticatedUser) (rows : List UploadRow) (db : Db)
    → LocksKept db (bulk_upload actor rows db).0
unfolding bulk_upload LocksKept
bulk_upload-LocksKept actor [] db = λ e m locked. m
bulk_upload-LocksKept actor (row ∷ rows) db =
    LocksKept-trans db (upload_row actor row db).0
      (bulk_upload actor rows (upload_row actor row db).0).0 (upload_row-LocksKept actor row db)
      (bulk_upload-LocksKept actor rows (upload_row actor row db).0)

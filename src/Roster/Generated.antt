-- ===== src/Roster/Generated.antt =====
-- `autoGenerate` and the lock of a roster (apps/api/src/roster/roster.service.ts).
use kruze.Base.{
  ℕ, suc, ◌+◌, ◌-◌, ◌≡◌, refl, inl, inr, Bool, true, false, ◌&&◌, some, List, [], ◌∷◌, Memᴰ, ◌==◌,
  is_id, any, any-true, mem-keep, arith, Bool-cases, Option-cases,
}
use kruze.Domain.{AuthenticatedUser}
use kruze.Roster.Store.{
  EntryStatus, Source, Entry, Employee, Db, is_locked, same_key, entry_key, new_entry,
}
use kruze.Base.Rows.{Distinct}
use kruze.Roster.Service.{upsert_entry, cancel}
use kruze.Roster.Bulk.{
  UploadRow, bulk_upload, opt_in, dates_from, lock_keys, has_key, generate_dates, generate_all,
  auto_employees, auto_generate,
}
use kruze.Roster.Locks.{
  LocksKept, upsert-keeps, upsert_entry-LocksKept, cancel-LocksKept, bulk_upload-LocksKept,
}

opt_in-keeps :
    (source : Source) (employee shift date : ℕ) (db : Db) (e : Entry)
    → same_key employee shift date e ≡ false
    → Memᴰ e db.entries
    → Memᴰ e (opt_in source employee shift date db).entries
unfolding new_entry
opt_in-keeps source employee shift date db e miss m =
    upsert-keeps (new_entry db.next_id employee shift date EntryStatus.opted_in source)
      (λ r. record r { status = EntryStatus.opted_in; version = r.version + 1 }) db.entries e miss m

-- The loop skips the key of this entry.
Skips : List Entry → Entry → ℕ → ℕ → List ℕ → Type 0
Skips locks e employee shift ds =
    (d : ℕ) → Memᴰ d ds → has_key shift d locks ≡ false → same_key employee shift d e ≡ false

generate_dates-keeps :
    (locks : List Entry) (e : Entry) (employee shift : ℕ) (ds : List ℕ) (db : Db)
    → Skips locks e employee shift ds
    → Memᴰ e db.entries
    → Memᴰ e (generate_dates locks employee shift ds db).0.entries
unfolding generate_dates Skips
generate_dates-keeps locks e employee shift [] db skips m = m
generate_dates-keeps locks e employee shift (d ∷ ds) db skips m =
    elim (Bool-cases (has_key shift d locks)) [
      | inl lock ↦
          rw lock
            (generate_dates-keeps locks e employee shift ds db (λ x n. skips x (Memᴰ.tail n)) m)
      | inr free ↦ rw free (
          generate_dates-keeps locks e employee shift ds _ (λ x n. skips x (Memᴰ.tail n))
            (opt_in-keeps Source.auto_generated employee shift d db e
              (skips d (Memᴰ.head refl) free) m))
    ]

generate_all-keeps :
    (locks : List Entry) (dates : List ℕ) (e : Entry) (es : List Employee) (db : Db)
    → ((x : Employee) (s : ℕ) → Memᴰ x es → x.shift_id ≡ some s → Skips locks e x.id s dates)
    → Memᴰ e db.entries
    → Memᴰ e (generate_all locks dates es db).0.entries
unfolding generate_all
generate_all-keeps locks dates e [] db skips m = m
generate_all-keeps locks dates e (x ∷ es) db skips m = elim (Option-cases x.shift_id) [
  | inl no_shift ↦
      rw no_shift (generate_all-keeps locks dates e es db (λ y s n. skips y s (Memᴰ.tail n)) m)
  | inr (s, default) ↦ rw default (
      generate_all-keeps locks dates e es _ (λ y s n. skips y s (Memᴰ.tail n))
        (generate_dates-keeps locks e x.id s dates db (skips x s (Memᴰ.head refl) default) m))
]

lock_keys-Skips :
    (es : List Employee) (dates : List ℕ) (rows : List Entry) (e : Entry)
    → Memᴰ e rows
    → is_locked e.publish_status ≡ true
    → (x : Employee) (s : ℕ) → Memᴰ x es
    → x.shift_id ≡ some s
    → Skips (lock_keys es dates rows) e x.id s dates
unfolding Skips lock_keys
lock_keys-Skips es dates rows e m locked x s member default d in_range free =
    elim (Bool-cases (same_key x.id s d e)) [
      | inr miss ↦ miss
      | inl same ↦
          let on_shift =
            any-true (λ (y : Employee). is_id y.shift_id e.shift_id) es x member
              (rw default (ground arith)) in
          let on_date = any-true (λ y. y == e.date) dates d in_range (ground arith) in
          let kept =
            mem-keep
              (λ (r : Entry).
                any (λ (y : Employee). is_id y.shift_id r.shift_id) es
                && any (λ y. y == r.date) dates
                && is_locked r.publish_status)
              rows e m (rw (on_shift, on_date, locked) refl) in
          let hit =
            any-true (λ (r : Entry). r.shift_id == s && r.date == d) _ e kept (ground arith) in
          absurd (ground (arith, hit, free))
    ]

auto_generate-LocksKept :
    (actor : AuthenticatedUser) (from to : ℕ) (weekdays_only : Bool) (db : Db)
    → LocksKept db (auto_generate actor from to weekdays_only db).0
unfolding auto_generate LocksKept
auto_generate-LocksKept actor from to weekdays_only db e m locked =
    let es = auto_employees actor db in
    let dates = dates_from (suc to - from) from weekdays_only in
    generate_all-keeps (lock_keys es dates db.entries) dates e es db
      (lock_keys-Skips es dates db.entries e m locked) m

-- Booking one entry, cancelling one, uploading a file and generating a range leave every locked entry of
-- the roster in the table, unchanged. Entries have distinct identifiers.
pub locks_kept :
    (actor : AuthenticatedUser) (employee shift date now : ℕ) (status : EntryStatus) (id : ℕ)
    (rows : List UploadRow) (from to : ℕ) (weekdays_only : Bool) (db : Db)
    → Distinct entry_key db.entries
    → LocksKept db (upsert_entry actor employee shift date status now db).0
      × LocksKept db (cancel actor id db).0
      × LocksKept db (bulk_upload actor rows db).0
      × LocksKept db (auto_generate actor from to weekdays_only db).0
locks_kept actor employee shift date now status id rows from to weekdays_only db distinct = (
  upsert_entry-LocksKept actor employee shift date status now db,
  cancel-LocksKept actor id db distinct,
  bulk_upload-LocksKept actor rows db,
  auto_generate-LocksKept actor from to weekdays_only db,
)

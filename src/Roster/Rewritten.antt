-- ===== src/Roster/Rewritten.antt =====
-- `bulkUpsert` and the lock of a roster (apps/api/src/roster/roster.service.ts): the handler does not
-- read the lock.
use kruze.Base.{
  ℕ, suc, ◌+◌, ◌<◌, ◌≡◌, refl, sym, ap, inl, inr, Bool, true, ◌&&◌, List, [], ◌∷◌, Memᴰ, ◌==◌, any,
  keep, any-true, mem-keep, arith, Bool-cases,
}
use mathlib.Core.Path.{subst}
use kruze.Base.Rows.{update_where-mem}
use kruze.Base.Effects.{ok}
use kruze.Domain.{AuthenticatedUser}
use kruze.Roster.Store.{EntryStatus, Source, Entry, Employee, Db, same_key, upsert, new_entry}
use kruze.Roster.Service.{own_shift}
use kruze.Roster.Bulk.{opt_in, opt_in_dates, opt_in_all, bulk_upsert}

-- A row that comes from the entry: its keys and its lock, at a version that is not older.
pub record From (e : Entry) (version : ℕ) (rows : List Entry) : Type 0 where
  pub row : Entry
  pub stored : Memᴰ row rows
  pub id : row.id ≡ e.id
  pub employee : row.employee_id ≡ e.employee_id
  pub shift : row.shift_id ≡ e.shift_id
  pub date : row.date ≡ e.date
  pub lock : row.publish_status ≡ e.publish_status
  pub newer : version < suc row.version

stored_again :
    (e : Entry) (employee shift date : ℕ) (source : Source) (db : Db) (v : ℕ)
    (f : From e v db.entries)
    → From e v (opt_in source employee shift date db).entries
unfolding upsert new_entry
stored_again e employee shift date source db v f =
    elim (Bool-cases (any (same_key employee shift date) db.entries)) [
      | inr free ↦ rw free (record {
        row = f.row;
        stored = Memᴰ.tail f.stored;
        id = f.id;
        employee = f.employee;
        shift = f.shift;
        date = f.date;
        lock = f.lock;
        newer = f.newer;
      })
      | inl there ↦
          let m =
            update_where-mem (same_key employee shift date)
              (λ x. record x { status = EntryStatus.opted_in; version = x.version + 1 }) db.entries
              f.row f.stored in
          elim (Bool-cases (same_key employee shift date f.row)) [
            | inr other ↦ rw there (record {
              row = f.row;
              stored = rw other at m;
              id = f.id;
              employee = f.employee;
              shift = f.shift;
              date = f.date;
              lock = f.lock;
              newer = f.newer;
            })
            | inl hit ↦ rw there (record {
              row = record f.row { status = EntryStatus.opted_in; version = f.row.version + 1 };
              stored = rw hit at m;
              id = f.id;
              employee = f.employee;
              shift = f.shift;
              date = f.date;
              lock = f.lock;
              newer = omega (arith, f.newer);
            })
          ]
    ]

written_again :
    (e : Entry) (source : Source) (db : Db) (v : ℕ)
    → From e v db.entries
    → From e (suc v) (opt_in source e.employee_id e.shift_id e.date db).entries
unfolding upsert new_entry
written_again e source db v f =
    let m =
      update_where-mem (same_key e.employee_id e.shift_id e.date)
        (λ x. record x { status = EntryStatus.opted_in; version = x.version + 1 }) db.entries f.row
        f.stored in
    let hit : same_key e.employee_id e.shift_id e.date f.row ≡ true =
      ground (arith, f.employee, f.shift, f.date) in
    let there = any-true (same_key e.employee_id e.shift_id e.date) db.entries f.row f.stored hit in
    rw there (record {
      row = record f.row { status = EntryStatus.opted_in; version = f.row.version + 1 };
      stored = rw hit at m;
      id = f.id;
      employee = f.employee;
      shift = f.shift;
      date = f.date;
      lock = f.lock;
      newer = omega (arith, f.newer);
    })

opt_in_dates-keeps :
    (e : Entry) (source : Source) (employee shift : ℕ) (ds : List ℕ) (db : Db) (v : ℕ)
    → From e v db.entries
    → From e v (opt_in_dates source employee shift ds db).entries
unfolding opt_in_dates
opt_in_dates-keeps e source employee shift [] db v f = f
opt_in_dates-keeps e source employee shift (d ∷ ds) db v f =
    opt_in_dates-keeps e source employee shift ds _ v
      (stored_again e employee shift d source db v f)

opt_in_dates-writes :
    (e : Entry) (source : Source) (ds : List ℕ) (db : Db) (v : ℕ)
    → Memᴰ e.date ds
    → From e v db.entries
    → From e (suc v) (opt_in_dates source e.employee_id e.shift_id ds db).entries
unfolding opt_in_dates
opt_in_dates-writes e source [] db v m f = elim m [ ]
opt_in_dates-writes e source (d ∷ ds) db v (Memᴰ.head same) f =
    opt_in_dates-keeps e source e.employee_id e.shift_id ds _ (suc v) (
      subst (λ x. From e (suc v) (opt_in source e.employee_id e.shift_id x db).entries) same
        (written_again e source db v f))
opt_in_dates-writes e source (d ∷ ds) db v (Memᴰ.tail m) f =
    opt_in_dates-writes e source ds _ v m (stored_again e e.employee_id e.shift_id d source db v f)

opt_in_all-keeps :
    (e : Entry) (es : List Employee) (shift : ℕ) (ds : List ℕ) (db : Db) (v : ℕ)
    → From e v db.entries
    → From e v (opt_in_all es shift ds db).entries
unfolding opt_in_all
opt_in_all-keeps e [] shift ds db v f = f
opt_in_all-keeps e (x ∷ es) shift ds db v f =
    opt_in_all-keeps e es shift ds _ v (opt_in_dates-keeps e Source.admin x.id shift ds db v f)

opt_in_all-writes :
    (e : Entry) (x : Employee) (es : List Employee) (ds : List ℕ) (db : Db) (v : ℕ)
    → Memᴰ x es
    → x.id ≡ e.employee_id
    → Memᴰ e.date ds
    → From e v db.entries
    → From e (suc v) (opt_in_all es e.shift_id ds db).entries
unfolding opt_in_all
opt_in_all-writes e x [] ds db v m same d f = elim m [ ]
opt_in_all-writes e x (y ∷ es) ds db v (Memᴰ.head here) same d f =
    opt_in_all-keeps e es e.shift_id ds _ (suc v) (
      rw (sym (ap (λ (z : Employee). z.id) here), same)
        (opt_in_dates-writes e Source.admin ds db v d f))
opt_in_all-writes e x (y ∷ es) ds db v (Memᴰ.tail m) same d f =
    opt_in_all-writes e x es ds _ v m same d
      (opt_in_dates-keeps e Source.admin y.id e.shift_id ds db v f)

abbrev listed : AuthenticatedUser → List ℕ → Employee → Bool
listed actor ids x = any (λ i. i == x.id) ids && x.corporate_org_id == actor.organisation_id

bulk_upsert-writes :
    (actor : AuthenticatedUser) (shift : ℕ) (ids ds : List ℕ) (db : Db)
    → (bulk_upsert actor shift ids ds db).1 ≡ ok tt
    → (bulk_upsert actor shift ids ds db).0
      ≡ opt_in_all (keep (listed actor ids) db.employees) shift ds db
unfolding bulk_upsert own_shift
bulk_upsert-writes actor shift ids ds db h = ground arith

-- A `bulkUpsert` that succeeds writes a new version of every entry of its shift on one of its dates
-- whose employee is on its list and of the actor's corporate, whether or not that entry is locked; the
-- lock itself stays.
pub bulk_upsert_rewrites :
    (actor : AuthenticatedUser) (ids ds : List ℕ) (db : Db) (e : Entry) (x : Employee)
    → (bulk_upsert actor e.shift_id ids ds db).1 ≡ ok tt
    → Memᴰ e db.entries
    → Memᴰ e.date ds
    → Memᴰ x db.employees
    → x.id ≡ e.employee_id
    → listed actor ids x ≡ true
    → From e (suc e.version) (bulk_upsert actor e.shift_id ids ds db).0.entries
bulk_upsert_rewrites actor ids ds db e x h stored date member same on_list =
    rw (bulk_upsert-writes actor e.shift_id ids ds db h) (
      opt_in_all-writes e x (keep (listed actor ids) db.employees) ds db e.version
        (mem-keep (listed actor ids) db.employees x member on_list) same date
        (record {
          row = e;
          stored = stored;
          id = refl;
          employee = refl;
          shift = refl;
          date = refl;
          lock = refl;
          newer = omega arith;
        }))

-- ===== src/Roster/Bookings.antt =====
-- What a booking writes, and that the roster of many employees ignores the lock
-- (apps/api/src/roster/roster.service.ts, upsertEntry and bulkUpsert).
use kruze.Base.{
  ℕ, ◌+◌, ◌*◌, ◌≤◌, ◌≡◌, ◌↔◌, ◌⊎◌, inl, inr, true, false, ◌&&◌, some, ◌==◌, arith, Bool-cases,
  Option-cases,
}
use kruze.Base.Rows.{find_unique}
use kruze.Base.Effects.{Error, not_found, ok, err}
use kruze.Domain.{AuthenticatedUser, is_employee}
use kruze.Roster.Store.{
  EntryStatus, Shift, Employee, Db, employee_key, shift_key, minute_ms, shift_start_at, has_lock,
}
use kruze.Roster.Service.{own_employee, own_shift, assert_not_locked, past_cutoff, upsert_entry}

-- What must hold for an employee's booking: the two are of the actor's corporate, the roster is not
-- locked, and for the role EMPLOYEE the cut-off has not passed.
pub record Bookable (actor : AuthenticatedUser) (employee_id shift_id date now : ℕ) (db : Db)
    : Type 0 where
  pub employee : Employee
  pub shift : Shift
  pub employee_found : find_unique employee_key employee_id db.employees ≡ some employee
  pub shift_found : find_unique shift_key shift_id db.shifts ≡ some shift
  pub employee_owned : employee.corporate_org_id ≡ actor.organisation_id
  pub shift_owned : shift.corporate_org_id ≡ actor.organisation_id
  pub not_locked : has_lock shift_id date db.entries ≡ false
  pub before_cutoff :
      is_employee actor.role ≡ true
      → now + shift.cutoff_minutes_before_start * minute_ms
        ≤ shift_start_at date shift.start_minutes

past_cutoff-≤ :
    (s : Shift) (date now : ℕ)
    → past_cutoff s date now ≡ false
    → now + s.cutoff_minutes_before_start * minute_ms ≤ shift_start_at date s.start_minutes
unfolding past_cutoff
past_cutoff-≤ s date now h = ground arith

≤-past_cutoff :
    (s : Shift) (date now : ℕ)
    → now + s.cutoff_minutes_before_start * minute_ms ≤ shift_start_at date s.start_minutes
    → past_cutoff s date now ≡ false
unfolding past_cutoff
≤-past_cutoff s date now h = ground arith

own_employee-ok :
    (actor : AuthenticatedUser) (id : ℕ) (db : Db)
    → ((e : Employee) × (find_unique employee_key id db.employees ≡ some e)
        × (e.corporate_org_id ≡ actor.organisation_id)
        × (own_employee actor id db ≡ (db, ok e)))
      ⊎ ((x : Error) × (own_employee actor id db ≡ (db, err x)))
unfolding own_employee
own_employee-ok actor id db = elim (Option-cases (find_unique employee_key id db.employees)) [
  | inl missing ↦ inr (not_found, ground (arith, missing))
  | inr (e, found) ↦ elim (Bool-cases (e.corporate_org_id == actor.organisation_id)) [
    | inl own ↦ inl (e, found, ground arith, ground (arith, found, own))
    | inr other ↦ inr (not_found, ground (arith, found, other))
  ]
]

own_shift-ok :
    (actor : AuthenticatedUser) (id : ℕ) (db : Db)
    → ((s : Shift) × (find_unique shift_key id db.shifts ≡ some s)
        × (s.corporate_org_id ≡ actor.organisation_id)
        × (own_shift actor id db ≡ (db, ok s)))
      ⊎ ((x : Error) × (own_shift actor id db ≡ (db, err x)))
unfolding own_shift
own_shift-ok actor id db = elim (Option-cases (find_unique shift_key id db.shifts)) [
  | inl missing ↦ inr (not_found, ground (arith, missing))
  | inr (s, found) ↦ elim (Bool-cases (s.corporate_org_id == actor.organisation_id)) [
    | inl own ↦ inl (s, found, ground arith, ground (arith, found, own))
    | inr other ↦ inr (not_found, ground (arith, found, other))
  ]
]

owned-not_locked :
    (actor : AuthenticatedUser) (employee shift date : ℕ) (status : EntryStatus) (now : ℕ) (db : Db)
    (e : Employee) (s : Shift)
    → own_employee actor employee db ≡ (db, ok e)
    → own_shift actor shift db ≡ (db, ok s)
    → (upsert_entry actor employee shift date status now db).1 ≡ ok tt
    → (has_lock shift date db.entries ≡ false)
      × ((is_employee actor.role && past_cutoff s date now) ≡ false)
unfolding upsert_entry assert_not_locked
owned-not_locked actor employee shift date status now db e s own own' h = ground arith

upsert_entry-Bookable :
    (actor : AuthenticatedUser) (employee shift date : ℕ) (status : EntryStatus) (now : ℕ) (db : Db)
    → (upsert_entry actor employee shift date status now db).1 ≡ ok tt
    → Bookable actor employee shift date now db
unfolding upsert_entry
upsert_entry-Bookable actor employee shift date status now db h =
    elim (own_employee-ok actor employee db) [
      | inr (x, refused) ↦ absurd (ground (arith, refused))
      | inl (e, e_found, e_owned, own) ↦ elim (own_shift-ok actor shift db) [
        | inr (x, refused) ↦ absurd (ground (arith, own, refused))
        | inl (s, s_found, s_owned, own') ↦
            let (free, in_time) =
              owned-not_locked actor employee shift date status now db e s own own' h in
            record {
              employee = e;
              shift = s;
              employee_found = e_found;
              shift_found = s_found;
              employee_owned = e_owned;
              shift_owned = s_owned;
              not_locked = free;
              before_cutoff = λ role. past_cutoff-≤ s date now (ground (arith, in_time, role));
            }
      ]
    ]

Bookable-in_time :
    (actor : AuthenticatedUser) (employee shift date now : ℕ) (db : Db)
    (b : Bookable actor employee shift date now db)
    → (is_employee actor.role && past_cutoff b.shift date now) ≡ false
Bookable-in_time actor employee shift date now db b = elim (Bool-cases (is_employee actor.role)) [
  | inr admin ↦ ground (arith, admin)
  | inl own ↦ ground (arith, ≤-past_cutoff b.shift date now (b.before_cutoff own))
]

Bookable-upsert_entry :
    (actor : AuthenticatedUser) (employee shift date : ℕ) (status : EntryStatus) (now : ℕ) (db : Db)
    → Bookable actor employee shift date now db
    → (upsert_entry actor employee shift date status now db).1 ≡ ok tt
unfolding upsert_entry own_employee own_shift assert_not_locked
Bookable-upsert_entry actor employee shift date status now db b = ground (
  arith,
  b.employee_found,
  b.shift_found,
  b.employee_owned,
  b.shift_owned,
  b.not_locked,
  Bookable-in_time actor employee shift date now db b,
)

-- `upsertEntry` succeeds exactly for employees and shifts of the actor's corporate on a roster that is
-- not locked, for the role EMPLOYEE up to the cut-off only.
pub upsert_entry_iff :
    (actor : AuthenticatedUser) (employee shift date : ℕ) (status : EntryStatus) (now : ℕ) (db : Db)
    → ((upsert_entry actor employee shift date status now db).1 ≡ ok tt)
      ↔ Bookable actor employee shift date now db
upsert_entry_iff actor employee shift date status now db = (
  upsert_entry-Bookable actor employee shift date status now db,
  Bookable-upsert_entry actor employee shift date status now db,
)

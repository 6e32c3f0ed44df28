-- ===== src/Roster/Shifts.antt =====
-- apps/api/src/roster/shift.service.ts. Of a shift's columns the model keeps those that bookings and
-- planning read.
use kruze.Base.{ℕ, suc, Bool, true, ◌&&◌, Option, List, ◌∷◌, ◌==◌, or_else, keep}
use kruze.Base.Rows.{find_unique, update_row}
use kruze.Base.Effects.{
  forbidden, not_found, record_missing, M, return, gets, or_throw, modify, require, ◌>>=◌, ◌>>◌,
}
use kruze.Roster.Store.{Shift, Db, shift_key}

pub record ShiftInput : Type 0 where
  pub start_minutes : Option ℕ
  pub cutoff_minutes_before_start : Option ℕ
  pub active : Option Bool

-- `create`; the start time is required there
unfoldable pub create_shift : ℕ → ℕ → Option ℕ → Db → Db
create_shift corporate start_minutes cutoff db = record db {
  shifts =
      record {
        id = db.next_id;
        corporate_org_id = corporate;
        start_minutes = start_minutes;
        cutoff_minutes_before_start = or_else cutoff 60;
        active = true;
      }
      ∷ db.shifts;
  next_id = suc db.next_id;
}

unfoldable pub list_for_corporate : ℕ → Db → List Shift
list_for_corporate corporate db = keep (λ s. s.corporate_org_id == corporate && s.active) db.shifts

-- `findUniqueOrThrow`
unfoldable pub get_shift : ℕ → M Db Shift
get_shift id = do
  found ← gets (λ db. find_unique shift_key id db.shifts)
  or_throw found record_missing

-- a field that is absent from the input stays
abbrev pub updated_shift : ShiftInput → Shift → Shift
updated_shift input s = record s {
  start_minutes = or_else input.start_minutes s.start_minutes;
  cutoff_minutes_before_start =
      or_else input.cutoff_minutes_before_start s.cutoff_minutes_before_start;
  active = or_else input.active s.active;
}

unfoldable pub update_shift : ℕ → ℕ → ShiftInput → M Db Shift
update_shift corporate id input = do
  found ← gets (λ db. find_unique shift_key id db.shifts)
  shift ← or_throw found not_found
  require (shift.corporate_org_id == corporate) forbidden
  modify (λ db. record db { shifts = update_row shift_key id (updated_shift input) db.shifts })
  return (updated_shift input shift)

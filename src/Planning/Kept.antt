-- ===== src/Planning/Kept.antt =====
-- What planning a group leaves alone, whether or not it fails
-- (apps/api/src/planning/planning.service.ts, planGroup): the plans, and that an exception is open.
use kruze.Base.{ℕ, ◌≤◌, ◌≡◌, refl, ◌∙◌, Option, none, some, List, [], ◌∷◌, ◌++◌, arith}
use kruze.Base.Effects.{M, Result, ok, err, bind_after, bind_after-keeps, Transactions}
use kruze.Domain.{AuthenticatedUser}
use kruze.Trip.Store
use kruze.Planning.Plans.{Person, PlanException, Db, raise_exception}
use kruze.Planning.Group.{Crew, Outcome, find_crew, book_crew, plan_group, record_decision_log}
use kruze.Planning.Explored.{Explored, Explored-refl, Explored-raised}
use kruze.Planning.Crews.{find_crew-Sought}
use kruze.Planning.Publish.{open_exceptions}

pub record Kept (db s : Db) : Type 0 where
  pub plans : s.plans ≡ db.plans
  pub next_id : db.next_id ≤ s.next_id
  pub opens : (id : ℕ) → open_exceptions id db.exceptions ≤ open_exceptions id s.exceptions

pub Kept-refl : (db : Db) → Kept db db
Kept-refl db = record { plans = refl; next_id = omega arith; opens = λ id. omega arith }

pub Kept-trans : {a b c : Db} → Kept a b → Kept b c → Kept a c
Kept-trans p q = record {
  plans = q.plans ∙ p.plans;
  next_id = omega (arith, p.next_id, q.next_id);
  opens = λ id. omega (arith, p.opens id, q.opens id);
}

open_exceptions-append :
    (id : ℕ) (new rows : List PlanException)
    → open_exceptions id rows ≤ open_exceptions id (new ++ rows)
unfolding open_exceptions
open_exceptions-append id [] rows = omega arith
open_exceptions-append id (e ∷ new) rows = ground (arith, open_exceptions-append id new rows)

Explored-Kept : (plan_id : ℕ) (db s : Db) → Explored plan_id db s → Kept db s
Explored-Kept plan_id db s x = record {
  plans = x.plans;
  next_id = x.next_id;
  opens = λ id. rw x.exceptions.split (open_exceptions-append id x.exceptions.new db.exceptions);
}

module _ (tx : Transactions Store.Db) (actor : AuthenticatedUser) (plan_id shift_id at now : ℕ)
    (group : List Person) where
  -- the loop after the search of one vendor
  goes_on : ℕ → List ℕ → Option Crew → M Db Outcome
  goes_on vendor vendors none = plan_group tx actor plan_id shift_id at now group vendors
  goes_on vendor vendors (some crew) = book_crew tx actor plan_id shift_id at now group vendor crew

  book_crew-Kept :
      (vendor : ℕ) (crew : Crew) (s : Db)
      → Kept s (book_crew tx actor plan_id shift_id at now group vendor crew s).0
  unfolding book_crew record_decision_log
  book_crew-Kept vendor crew s = record {
    plans = ground arith;
    next_id = ground arith;
    opens = λ id. ground arith;
  }

  goes_on_cases :
      (vendor : ℕ) (vendors : List ℕ) (r : Db × Result (Option Crew))
      → bind_after r (λ found. elim found [
        | none ↦ plan_group tx actor plan_id shift_id at now group vendors
        | some crew ↦ book_crew tx actor plan_id shift_id at now group vendor crew
      ])
        ≡ bind_after r (goes_on vendor vendors)
  unfolding goes_on
  goes_on_cases vendor vendors (s, ok none) = refl
  goes_on_cases vendor vendors (s, ok (some crew)) = refl
  goes_on_cases vendor vendors (s, err e) = refl

  goes_on_eq :
      (vendor : ℕ) (vendors : List ℕ) (s : Db)
      → plan_group tx actor plan_id shift_id at now group (vendor ∷ vendors) s
        ≡ bind_after (find_crew actor plan_id at now group vendor s) (goes_on vendor vendors)
  unfolding plan_group
  goes_on_eq vendor vendors s =
      goes_on_cases vendor vendors (find_crew actor plan_id at now group vendor s)

  goes_on-Kept :
      (vendor : ℕ) (vendors : List ℕ)
      → ((s : Db) → Kept s (plan_group tx actor plan_id shift_id at now group vendors s).0)
      → (o : Option Crew) (s : Db) → Kept s (goes_on vendor vendors o s).0
  unfolding goes_on
  goes_on-Kept vendor vendors later none s = later s
  goes_on-Kept vendor vendors later (some crew) s = book_crew-Kept vendor crew s

  pub plan_group-Kept :
      (vendors : List ℕ) (s : Db)
      → Kept s (plan_group tx actor plan_id shift_id at now group vendors s).0
  unfolding plan_group raise_exception
  plan_group-Kept [] s =
      Explored-Kept plan_id s _ (Explored-raised plan_id _ s s (Explored-refl plan_id s))
  plan_group-Kept (v ∷ vendors) s =
      let found = find_crew-Sought actor plan_id at now group s v s (Explored-refl plan_id s) in
      rw (goes_on_eq v vendors s) (
        bind_after-keeps (Kept s) (find_crew actor plan_id at now group v s) (goes_on v vendors)
          (Explored-Kept plan_id s _ found.explored)
          (λ o s' k. Kept-trans k (goes_on-Kept v vendors (plan_group-Kept vendors) o s')))

-- ===== src/Planning/Evaluated.antt =====
-- The loop of the three searches (apps/api/src/planning/planning.service.ts): what it picks, and which
-- candidates it gives a reason for.
use kruze.Base.{
  ℕ, ◌≡◌, refl, ap, inl, inr, Bool, true, false, not, Option, none, some, List, [], ◌∷◌, map, find?,
  keep, arith,
}
use kruze.Base.Effects.{M, Result, ok}
use kruze.Trip.Assign.{Field, driver_id, vehicle_id, guard_id}
use kruze.Planning.Search.{
  Candidate, Db, Reason, ResourceSearchResult, candidates, check_candidate, search, find_eligible,
  entry, push,
}
use kruze.Planning.Picked.{Same, Same-refl, is_suitable, Agrees}
use kruze.Planning.Tested.{check_candidate-Agrees}

abbrev picked_or : Option Candidate → Option Candidate → Option Candidate
picked_or (some c) later = some c
picked_or none later = later

-- the identifiers of what is picked where nothing was
abbrev pub newly : Option Candidate → Option Candidate → List ℕ
newly (some c) later = []
newly none none = []
newly none (some c) = c.id ∷ []

-- What the loop returns for candidates with these answers, when `picked` was picked before them.
pub record Searched (fit : Candidate → Bool) (cs : List Candidate) (picked : Option Candidate)
    (db : Db) (r : Db × Result ResourceSearchResult) : Type 0 where
  pub result : ResourceSearchResult
  pub returned : r.1 ≡ ok result
  pub same : Same r.0 db
  pub first : result.picked ≡ picked_or picked (find? fit cs)
  pub rejections :
      map (λ e. e.id) (keep (λ e. e.rejected) result.evaluations)
      ≡ map (λ c. c.id) (keep (λ c. not (fit c)) cs)
  pub selections :
      map (λ e. e.id) (keep (λ e. not e.rejected) result.evaluations) ≡ newly picked (find? fit cs)

search_rejects :
    (field : Field) (check : Candidate → M Db (Option Reason)) (c : Candidate) (cs : List Candidate)
    (picked : Option Candidate) (s : Db) (x : Reason) (r : ResourceSearchResult)
    → (check c s).1 ≡ ok (some x)
    → (search field check cs picked (check c s).0).1 ≡ ok r
    → search field check (c ∷ cs) picked s
      ≡ ((search field check cs picked (check c s).0).0, ok (push (entry field c true x) r))
unfolding search
search_rejects field check c cs picked s x r h later = ground (arith, h, later)

search_passes_by :
    (field : Field) (check : Candidate → M Db (Option Reason)) (c : Candidate) (cs : List Candidate)
    (first : Candidate) (s : Db)
    → (check c s).1 ≡ ok none
    → search field check (c ∷ cs) (some first) s ≡ search field check cs (some first) (check c s).0
unfolding search
search_passes_by field check c cs first s h = ground (arith, h)

search_selects :
    (field : Field) (check : Candidate → M Db (Option Reason)) (c : Candidate) (cs : List Candidate)
    (s : Db) (r : ResourceSearchResult)
    → (check c s).1 ≡ ok none
    → (search field check cs (some c) (check c s).0).1 ≡ ok r
    → search field check (c ∷ cs) none s ≡ (
      (search field check cs (some c) (check c s).0).0,
      ok (push (entry field c false Reason.selected) r),
    )
unfolding search
search_selects field check c cs s r h later = ground (arith, h, later)

rejecting-Searched :
    (field : Field) (check : Candidate → M Db (Option Reason)) (fit : Candidate → Bool) (db : Db)
    (c : Candidate) (cs : List Candidate) (picked : Option Candidate) (s : Db) (x : Reason)
    → (check c s).1 ≡ ok (some x)
    → fit c ≡ false
    → Searched fit cs picked db (search field check cs picked (check c s).0)
    → Searched fit (c ∷ cs) picked db (search field check (c ∷ cs) picked s)
rejecting-Searched field check fit db c cs picked s x said unfit rest =
    rw (search_rejects field check c cs picked s x rest.result said rest.returned) (record {
      result = push (entry field c true x) rest.result;
      returned = refl;
      same = rest.same;
      first = rw unfit rest.first;
      rejections = rw unfit (ap (λ l. c.id ∷ l) rest.rejections);
      selections = rw unfit rest.selections;
    })

passing-Searched :
    (field : Field) (check : Candidate → M Db (Option Reason)) (fit : Candidate → Bool) (db : Db)
    (c : Candidate) (cs : List Candidate) (p : Candidate) (s : Db)
    → (check c s).1 ≡ ok none
    → fit c ≡ true
    → Searched fit cs (some p) db (search field check cs (some p) (check c s).0)
    → Searched fit (c ∷ cs) (some p) db (search field check (c ∷ cs) (some p) s)
passing-Searched field check fit db c cs p s said good rest =
    rw (search_passes_by field check c cs p s said) (record {
      result = rest.result;
      returned = rest.returned;
      same = rest.same;
      first = rest.first;
      rejections = rw good rest.rejections;
      selections = rest.selections;
    })

selecting-Searched :
    (field : Field) (check : Candidate → M Db (Option Reason)) (fit : Candidate → Bool) (db : Db)
    (c : Candidate) (cs : List Candidate) (s : Db)
    → (check c s).1 ≡ ok none
    → fit c ≡ true
    → Searched fit cs (some c) db (search field check cs (some c) (check c s).0)
    → Searched fit (c ∷ cs) none db (search field check (c ∷ cs) none s)
selecting-Searched field check fit db c cs s said good rest =
    rw (search_selects field check c cs s rest.result said rest.returned) (record {
      result = push (entry field c false Reason.selected) rest.result;
      returned = refl;
      same = rest.same;
      first = rw good rest.first;
      rejections = rw good rest.rejections;
      selections = rw good (ap (λ l. c.id ∷ l) rest.selections);
    })

search-Searched :
    (field : Field) (check : Candidate → M Db (Option Reason)) (fit : Candidate → Bool) (db : Db)
    (agrees : (c : Candidate) (s : Db) → Same s db → Agrees db (fit c) (check c s))
    (cs : List Candidate) (picked : Option Candidate) (s : Db)
    → Same s db
    → Searched fit cs picked db (search field check cs picked s)
unfolding search
search-Searched field check fit db agrees [] none s h = record {
  result = record { picked = none; evaluations = [] };
  returned = refl;
  same = h;
  first = refl;
  rejections = refl;
  selections = refl;
}
search-Searched field check fit db agrees [] (some p) s h = record {
  result = record { picked = some p; evaluations = [] };
  returned = refl;
  same = h;
  first = refl;
  rejections = refl;
  selections = refl;
}
search-Searched field check fit db agrees (c ∷ cs) (some p) s h =
    let a = agrees c s h in
    let rest = search-Searched field check fit db agrees cs (some p) (check c s).0 a.same in
    elim a.verdict [
      | inr (x, said, unfit) ↦
          rejecting-Searched field check fit db c cs (some p) s x said unfit rest
      | inl (said, good) ↦ passing-Searched field check fit db c cs p s said good rest
    ]
search-Searched field check fit db agrees (c ∷ cs) none s h =
    let a = agrees c s h in
    elim a.verdict [
      | inr (x, said, unfit) ↦
          rejecting-Searched field check fit db c cs none s x said unfit
            (search-Searched field check fit db agrees cs none (check c s).0 a.same)
      | inl (said, good) ↦
          selecting-Searched field check fit db c cs s said good
            (search-Searched field check fit db agrees cs (some c) (check c s).0 a.same)
    ]

candidates-Same :
    (field : Field) (vendor : ℕ) (s db : Db)
    → Same s db
    → candidates field vendor s ≡ candidates field vendor db
unfolding candidates
candidates-Same vehicle_id vendor s db h = rw (h.vehicles, h.vehicle_vendors)
candidates-Same driver_id vendor s db h = rw (h.drivers, h.driver_vendors)
candidates-Same guard_id vendor s db h = rw (h.guards, h.guard_vendors)

pub find_eligible-Searched :
    (field : Field) (vendor min_capacity corporate at now : ℕ) (s db : Db)
    → Same s db
    → Searched
        (is_suitable field min_capacity vendor corporate at now db)
        (candidates field vendor db)
        none
        db
        (find_eligible field vendor min_capacity corporate at now s)
unfolding find_eligible
find_eligible-Searched field vendor min_capacity corporate at now s db h =
    rw (← candidates-Same field vendor s db h) (
      search-Searched field (check_candidate field min_capacity vendor corporate at now)
        (is_suitable field min_capacity vendor corporate at now db) db
        (λ c s'. check_candidate-Agrees field min_capacity vendor corporate at now c s' db)
        (candidates field vendor s) none s h)

-- A search returns the first candidate of the query that is suitable, and none only when no candidate
-- is: a vehicle has the seats and no maintenance that blocks it, and each resource is compliant for the
-- vendor and the corporate and free at the time of the trip.
pub find_eligible-first :
    (field : Field) (vendor min_capacity corporate at now : ℕ) (db : Db)
    → (r : ResourceSearchResult) × ((find_eligible field vendor min_capacity corporate at now db).1
        ≡ ok r)
      × (r.picked
          ≡ find?
              (is_suitable field min_capacity vendor corporate at now db)
              (candidates field vendor db))
find_eligible-first field vendor min_capacity corporate at now db =
    let s =
      find_eligible-Searched field vendor min_capacity corporate at now db db (Same-refl db) in
    (s.result, s.returned, s.first)

-- The evaluations of a search reject the candidates that are not suitable, in their order, and beyond
-- them name at most one candidate, the one that was picked: suitable candidates after it have none.
pub find_eligible-evaluations :
    (field : Field) (vendor min_capacity corporate at now : ℕ) (db : Db)
    → (r : ResourceSearchResult) × ((find_eligible field vendor min_capacity corporate at now db).1
        ≡ ok r)
      × (map (λ e. e.id) (keep (λ e. e.rejected) r.evaluations)
          ≡ map
              (λ c. c.id)
              (keep
                (λ c. not (is_suitable field min_capacity vendor corporate at now db c))
                (candidates field vendor db)))
      × (map (λ e. e.id) (keep (λ e. not e.rejected) r.evaluations) ≡ newly none r.picked)
find_eligible-evaluations field vendor min_capacity corporate at now db =
    let s =
      find_eligible-Searched field vendor min_capacity corporate at now db db (Same-refl db) in
    (s.result, s.returned, s.rejections, rw s.first s.selections)

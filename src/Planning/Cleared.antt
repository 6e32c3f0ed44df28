-- ===== src/Planning/Cleared.antt =====
-- The steps of publish (apps/api/src/planning/planning.service.ts): the plan that was published for the
-- day steps back before the other one is published.
use kruze.Base.{
  ℕ, ◌≤◌, ◌<◌, ◌≡◌, refl, sym, ap, ◌∙◌, ◌⊎◌, inl, inr, Bool, true, false, none, some, List, [], ◌∷◌,
  ◌==◌, ◌&&◌, Memᴰ, arith, Bool-cases, Option-cases, find?, find?-mem, find?-holds, find?-none,
  keep, is_id, if◌then◌else◌,
}
use kruze.Base.Rows.{
  find_unique, find_unique-mem, update_row, update_where-All, update_where-Distinct,
  mem-update_where,
}
use kruze.Base.Effects.{
  Error, bad_request, not_found, ok, err, return, bind_after-keeps, run-cases, Transactions,
}
use kruze.Domain.{AuthenticatedUser}
use kruze.Trip.Store
use kruze.Trip.Store.{Trip}
use kruze.Trip.Machine.{TripStatus}
use kruze.Trip.Service.{transition}
use kruze.Planning.Plans.{PlanStatus, TransportPlan, Db, plan_key, on_trips}
use kruze.Planning.Generate.{update_plan, set_status}
use kruze.Planning.Publish.{
  same_day, is_published, supersede_published, is_created, schedule_if, schedule_trips,
  publish_plan, open_exceptions, is_publishable, publish,
}
use kruze.Planning.Kept.{Kept, Kept-refl, Kept-trans}
use kruze.Planning.Sequence.{set_status-Withdraws}
use kruze.Planning.Published.{Sound, Sound-Kept, Sound-updated, was_published}

-- No other plan of the day is published.
record Cleared (plan : TransportPlan) (s : Db) : Type 0 where
  sound : Sound s
  row : (p : TransportPlan) → Memᴰ p s.plans → p.id ≡ plan.id → same_day plan p ≡ true
  others :
      (q : TransportPlan)
      → Memᴰ q s.plans
      → is_published q.status ≡ true
      → same_day plan q ≡ true
      → q.id ≡ plan.id

Cleared-Kept : (plan : TransportPlan) (a b : Db) → Kept a b → Cleared plan a → Cleared plan b
Cleared-Kept plan a b k c = record {
  sound = Sound-Kept a b k c.sound;
  row = rw k.plans c.row;
  others = rw k.plans c.others;
}

same_day_refl : (p : TransportPlan) → same_day p p ≡ true
same_day_refl p = ground arith

same_day_trans :
    (p q r : TransportPlan) → same_day p q ≡ true → same_day p r ≡ true → same_day q r ≡ true
same_day_trans p q r h k = ground (arith, h, k)

own_row :
    (plan : TransportPlan) (db : Db)
    → Sound db
    → find_unique plan_key plan.id db.plans ≡ some plan
    → (p : TransportPlan) → Memᴰ p db.plans
    → p.id ≡ plan.id
    → same_day plan p ≡ true
own_row plan db s found p m e =
    let again = find_unique-mem plan_key db.plans p s.distinct m in
    let same : p ≡ plan = ground (arith, again, found, e) in rw same (same_day_refl plan)

supersede_published_cases :
    (plan : TransportPlan) (db : Db)
    → ((find? (λ q. same_day plan q && is_published q.status) db.plans ≡ none)
        × (supersede_published plan db ≡ (db, ok tt)))
      ⊎ ((q : TransportPlan) × (find? (λ q. same_day plan q && is_published q.status) db.plans
            ≡ some q)
          × (supersede_published plan db ≡ (
              if q.id == plan.id
              then (db, ok tt)
              else (update_plan q.id (set_status PlanStatus.superseded) db, ok tt))))
unfolding supersede_published
supersede_published_cases plan db =
    elim (Option-cases (find? (λ q. same_day plan q && is_published q.status) db.plans)) [
      | inl free ↦ inl (free, ground (arith, free))
      | inr (q, found) ↦ inr (q, found, ground (arith, found))
    ]

supersede_published-ok : (plan : TransportPlan) (s : Db) → (supersede_published plan s).1 ≡ ok tt
supersede_published-ok plan s = elim (supersede_published_cases plan s) [
  | inl (free, done) ↦ rw done refl
  | inr (q, first, done) ↦ rw done (ground arith)
]

supersede_published-exceptions :
    (plan : TransportPlan) (s : Db) → (supersede_published plan s).0.exceptions ≡ s.exceptions
supersede_published-exceptions plan s = elim (supersede_published_cases plan s) [
  | inl (free, done) ↦ rw done refl
  | inr (q, first, done) ↦ rw done (ground arith)
]

-- the day's published plan, after which the others are known
day_holder :
    (plan q r : TransportPlan) (db : Db)
    → Sound db
    → find? (λ x. same_day plan x && is_published x.status) db.plans ≡ some q
    → Memᴰ r db.plans
    → is_published r.status ≡ true
    → same_day plan r ≡ true
    → q.id ≡ r.id
day_holder plan q r db s found m h day =
    let holds = find?-holds (λ x. same_day plan x && is_published x.status) db.plans q found in
    s.one q r (find?-mem (λ x. same_day plan x && is_published x.status) db.plans q found) m
      (ground arith) h (same_day_trans plan q r (ground arith) day)

superseded-Cleared :
    (plan q : TransportPlan) (db : Db)
    → Sound db
    → find_unique plan_key plan.id db.plans ≡ some plan
    → find? (λ x. same_day plan x && is_published x.status) db.plans ≡ some q
    → (q.id == plan.id) ≡ false
    → Cleared plan (update_plan q.id (set_status PlanStatus.superseded) db)
superseded-Cleared plan q db s found first other = record {
  sound = Sound-updated q.id _ db (set_status-Withdraws PlanStatus.superseded refl) s;
  row = λ p m e.
      let w = set_status-Withdraws PlanStatus.superseded refl in
      let (r, there, from) =
        mem-update_where (λ x. x.id == q.id) (set_status PlanStatus.superseded) db.plans p m in
      elim (Bool-cases (r.id == q.id)) [
        | inl hit ↦
            let same : p ≡ set_status PlanStatus.superseded r = ground (arith, from, hit) in
            rw same (
              w.own_day plan r (
                own_row plan db s found r there
                  (sym (w.same_id r) ∙ sym (ap (λ x. x.id) same) ∙ e)))
        | inr miss ↦
            let same : p ≡ r = ground (arith, from, miss) in
            rw same (own_row plan db s found r there (sym (ap (λ x. x.id) same) ∙ e))
      ];
  others = λ r m h day.
      let w = set_status-Withdraws PlanStatus.superseded refl in
      let (there, miss) = was_published q.id _ db.plans r w m h in
      absurd (ground (arith, day_holder plan q r db s first there h day, miss));
}

supersede_published-Cleared :
    (plan : TransportPlan) (db : Db)
    → Sound db
    → find_unique plan_key plan.id db.plans ≡ some plan
    → Cleared plan (supersede_published plan db).0
supersede_published-Cleared plan db s found = elim (supersede_published_cases plan db) [
  | inl (free, done) ↦ rw done (record {
    sound = s;
    row = own_row plan db s found;
    others = λ q m h day.
        let p = find?-none (λ x. same_day plan x && is_published x.status) db.plans q free m in
        absurd (ground arith);
  })
  | inr (q, first, done) ↦ elim (Bool-cases (q.id == plan.id)) [
    | inl own ↦ rw done (
        rw own (record {
          sound = s;
          row = own_row plan db s found;
          others = λ r m h day. ground (arith, day_holder plan q r db s first m h day, own);
        }))
    | inr other ↦ rw done (rw other (superseded-Cleared plan q db s found first other))
  ]
]

same_day-join :
    (p q r : TransportPlan) → same_day p q ≡ true → same_day q r ≡ true → same_day p r ≡ true
same_day-join p q r h k = ground (arith, h, k)

same_day-sym : (p q : TransportPlan) → same_day p q ≡ true → same_day q p ≡ true
same_day-sym p q h = ground (arith, h)

-- A row after the update is the plan's, or it was there.
row_after :
    (plan : TransportPlan) (s : Db) (p : TransportPlan)
    → Cleared plan s
    → Memᴰ p (update_row plan_key plan.id (set_status PlanStatus.published) s.plans)
    → ((p.id ≡ plan.id) × (same_day plan p ≡ true)) ⊎ (Memᴰ p s.plans × ((p.id == plan.id) ≡ false))
unfolding set_status
row_after plan s p c m =
    let (r, there, from) =
      mem-update_where (λ x. x.id == plan.id) (set_status PlanStatus.published) s.plans p m in
    elim (Bool-cases (r.id == plan.id)) [
      | inl hit ↦
          let same : p ≡ set_status PlanStatus.published r = ground (arith, from, hit) in
          let key : r.id ≡ plan.id = ground (arith, hit) in
          inl (ap (λ x. x.id) same ∙ key, rw same (c.row r there key))
      | inr miss ↦ let same : p ≡ r = ground (arith, from, miss) in inr (rw same (there, miss))
    ]

-- Publishing the plan of a cleared day.
published-Sound :
    (plan : TransportPlan) (s : Db)
    → Cleared plan s
    → Sound (update_plan plan.id (set_status PlanStatus.published) s)
unfolding set_status
published-Sound plan s c = record {
  below =
      update_where-All (λ p. p.id < s.next_id) (λ p. p.id == plan.id) _ s.plans (λ r hit h. h)
        c.sound.below;
  distinct =
      update_where-Distinct plan_key (λ p. p.id == plan.id) _ s.plans (λ r. refl) c.sound.distinct;
  one = λ p q m n ps qs day. elim (row_after plan s p c m) [
    | inl (p_is, p_day) ↦ elim (row_after plan s q c n) [
      | inl (q_is, q_day) ↦ p_is ∙ sym q_is
      | inr (there, miss) ↦ p_is ∙ sym (c.others q there qs (same_day-join plan p q p_day day))
    ]
    | inr (here, miss) ↦ elim (row_after plan s q c n) [
      | inl (q_is, q_day) ↦
          c.others p here ps (same_day-join plan q p q_day (same_day-sym p q day)) ∙ sym q_is
      | inr (there, miss') ↦ c.sound.one p q here there ps qs day
    ]
  ];
}

module _ (tx : Transactions Store.Db) (actor : AuthenticatedUser) (now : ℕ) where
  schedule_if-Kept : (b : Bool) (id : ℕ) (s : Db) → Kept s (schedule_if tx actor now b id s).0
  unfolding schedule_if
  schedule_if-Kept false id s = Kept-refl s
  schedule_if-Kept true id s =
      bind_after-keeps (Kept s) (on_trips (transition tx actor id TripStatus.scheduled now) s)
        (λ t. return tt) (record { plans = refl; next_id = omega arith; opens = λ j. omega arith })
        (λ t s' k. k)

  schedule_trips-Kept : (ts : List Trip) (s : Db) → Kept s (schedule_trips tx actor now ts s).0
  unfolding schedule_trips
  schedule_trips-Kept [] s = Kept-refl s
  schedule_trips-Kept (t ∷ ts) s =
      bind_after-keeps (Kept s) (schedule_if tx actor now (is_created t.status) t.id s)
        (λ u. schedule_trips tx actor now ts) (schedule_if-Kept (is_created t.status) t.id s)
        (λ u s' k. Kept-trans k (schedule_trips-Kept ts s'))

  -- the trips of the plan, and the state that the plan before leaves
  plan_trips : TransportPlan → Db → List Trip
  plan_trips plan s = keep (λ t. is_id t.plan_id plan.id) s.search.trip.trips

  publish_plan_cases :
      (plan : TransportPlan) (s : Db)
      → let s1 = (supersede_published plan s).0 in
        let r = schedule_trips tx actor now (plan_trips plan s1) s1 in
        ((supersede_published plan s).1 ≡ ok tt)
        → ((publish_plan tx actor now plan s).0 ≡ r.0)
          ⊎ ((publish_plan tx actor now plan s
              ≡ (update_plan plan.id (set_status PlanStatus.published) r.0, ok tt)))
  unfolding publish_plan plan_trips
  publish_plan_cases plan s fine =
      let s1 = (supersede_published plan s).0 in
      elim (run-cases (schedule_trips tx actor now (plan_trips plan s1) s1)) [
        | inl (u, done) ↦ inr (ground (arith, fine, done))
        | inr (e, failed) ↦ inl (ground (arith, fine, failed))
      ]

  pub publish_plan-Sound :
      (plan : TransportPlan) (s : Db)
      → Sound s
      → find_unique plan_key plan.id s.plans ≡ some plan
      → Sound (publish_plan tx actor now plan s).0
  publish_plan-Sound plan s sound found =
      let s1 = (supersede_published plan s).0 in
      let cleared =
        Cleared-Kept plan s1 _ (schedule_trips-Kept (plan_trips plan s1) s1)
          (supersede_published-Cleared plan s sound found) in
      elim (publish_plan_cases plan s (supersede_published-ok plan s)) [
        | inl same ↦ rw same cleared.sound
        | inr done ↦ rw done (published-Sound plan _ cleared)
      ]

  pub publish_plan-opens :
      (plan : TransportPlan) (s : Db) (id : ℕ)
      → open_exceptions id s.exceptions
        ≤ open_exceptions id (publish_plan tx actor now plan s).0.exceptions
  publish_plan-opens plan s id =
      let s1 = (supersede_published plan s).0 in
      let k = schedule_trips-Kept (plan_trips plan s1) s1 in
      let same : s1.exceptions ≡ s.exceptions = supersede_published-exceptions plan s in
      elim (publish_plan_cases plan s (supersede_published-ok plan s)) [
        | inl done ↦ rw done (omega (arith, k.opens id, ap (open_exceptions id) same))
        | inr done ↦ rw done (omega (arith, k.opens id, ap (open_exceptions id) same))
      ]

  pub publish_cases :
      (plan_id : ℕ) (s : Db)
      → ((e : Error) × (publish tx actor now plan_id s ≡ (s, err e)))
        ⊎ ((plan : TransportPlan) × (find_unique plan_key plan_id s.plans ≡ some plan)
            × (open_exceptions plan_id s.exceptions ≡ 0)
            × (is_publishable plan.status ≡ true)
            × (publish tx actor now plan_id s ≡ publish_plan tx actor now plan s))
  unfolding publish
  publish_cases plan_id s = elim (Option-cases (find_unique plan_key plan_id s.plans)) [
    | inl missing ↦ inl (not_found, ground (arith, missing))
    | inr (plan, found) ↦ elim (Bool-cases (plan.corporate_org_id == actor.organisation_id)) [
      | inr other ↦ inl (bad_request, ground (arith, found, other))
      | inl own ↦ elim (Bool-cases (open_exceptions plan_id s.exceptions == 0)) [
        | inr raised ↦ inl (bad_request, ground (arith, found, own, raised))
        | inl clean ↦ elim (Bool-cases (is_publishable plan.status)) [
          | inr early ↦ inl (bad_request, ground (arith, found, own, clean, early))
          | inl fit ↦
              inr (plan, found, ground (arith, clean), fit, ground (arith, found, own, clean, fit))
        ]
      ]
    ]
  ]

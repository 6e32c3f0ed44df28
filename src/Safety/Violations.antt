-- ===== src/Safety/Violations.antt =====
-- When a route passes (apps/api/src/safety/safety.service.ts, evaluateRoute).
use kruze.Base.{
  ℕ, ◌≤◌, ◌≡◌, refl, sym, ◌∙◌, ◌↔◌, ◌≢◌, inl, inr, true, false, not, Option, none, some, List, [],
  ◌∷◌, Memᴰ, arith, Bool-cases, any, all, any-false, or_else, leb,
}
use kruze.Base.Effects.{ok}
use kruze.Safety.{
  RuleType, last_drop_restriction, guard_required, max_ride_time, other, Rule, RouteEmployee,
  RouteInput, Violation, Db, Evaluation, restricted, broken, violations_of, active_rules,
  evaluate_route,
}

-- What each kind of rule asks of a route.
abbrev pub Respects : RouteInput → RuleType → Type 0
Respects input (last_drop_restriction after applies_to) =
    or_else after 24 ≤ input.drop_hour
    → (e : RouteEmployee) → Memᴰ e input.employees
    → e.is_final_passenger ≡ true
    → (g : ℕ) → e.gender ≡ some g
    → applies_to ≢ some g
Respects input (guard_required after) =
    ((hour : ℕ) → after ≡ some hour → hour ≤ input.drop_hour) → input.has_guard_assigned ≡ true
Respects input (max_ride_time most) = (m : ℕ) → most ≡ some m → input.ride_time_minutes ≤ m
Respects input other = Unit {0}

restricted_parts :
    (applies_to : Option ℕ) (e : RouteEmployee)
    → restricted applies_to e ≡ true
    → (g : ℕ) × (e.is_final_passenger ≡ true) × (e.gender ≡ some g) × (applies_to ≡ some g)
restricted_parts none e h = absurd (ground arith)
restricted_parts (some a) e h = (a, ground arith, ground arith, refl)

nobody_restricted :
    (applies_to : Option ℕ) (es : List RouteEmployee)
    → ((e : RouteEmployee)
        → Memᴰ e es
        → e.is_final_passenger ≡ true
        → (g : ℕ) → e.gender ≡ some g
        → applies_to ≢ some g)
    → any (restricted applies_to) es ≡ false
nobody_restricted applies_to [] h = refl
nobody_restricted applies_to (e ∷ es) h = elim (Bool-cases (restricted applies_to e)) [
  | inl hit ↦
      let (g, final, gender, same) = restricted_parts applies_to e hit in
      absurd (h e (Memᴰ.head refl) final g gender same)
  | inr clear ↦ rw clear (nobody_restricted applies_to es (λ x m. h x (Memᴰ.tail m)))
]

broken_iff :
    (type : RuleType) (input : RouteInput) → (broken type input ≡ false) ↔ Respects input type
unfolding broken
broken_iff (last_drop_restriction after applies_to) input = (
  λ kept late e m final g gender same.
      let clear = any-false (restricted applies_to) input.employees e (ground arith) m in
      ground (arith, clear),
  λ h. elim (Bool-cases (leb (or_else after 24) input.drop_hour)) [
    | inl late ↦ rw late (nobody_restricted applies_to input.employees (h (ground arith)))
    | inr early ↦ rw early refl
  ],
)
broken_iff (guard_required none) input =
    (λ kept h. ground arith, λ h. ground (arith, h (λ hour e. absurd (ground arith))))
broken_iff (guard_required (some hour)) input = (
  λ kept h. ground (arith, h hour refl),
  λ h. elim (Bool-cases (leb hour input.drop_hour)) [
    | inl late ↦ ground (arith, h (λ x e. ground arith))
    | inr early ↦ rw early refl
  ],
)
broken_iff (max_ride_time none) input = (λ kept m e. absurd (ground arith), λ h. refl)
broken_iff (max_ride_time (some most)) input =
    (λ kept m e. ground arith, λ h. ground (arith, h most refl))
broken_iff other input = (λ kept. tt, λ h. refl)

mandatory_kept :
    (input : RouteInput) (r : Rule) (rs : List Rule)
    → (all (λ (v : Violation). not v.mandatory) (violations_of input rs) ≡ true
        → (x : Rule) → Memᴰ x rs
        → x.mandatory ≡ true
        → broken x.type input ≡ false)
    → all (λ (v : Violation). not v.mandatory) (violations_of input (r ∷ rs)) ≡ true
    → (x : Rule) → Memᴰ x (r ∷ rs)
    → x.mandatory ≡ true
    → broken x.type input ≡ false
unfolding violations_of
mandatory_kept input r rs ih e x (Memᴰ.head same) m =
    rw same (let m' : r.mandatory ≡ true = rw same at m in ground arith)
mandatory_kept input r rs ih e x (Memᴰ.tail later) m = ih (ground arith) x later m

violations_mandatory :
    (input : RouteInput) (rs : List Rule)
    → (all (λ (v : Violation). not v.mandatory) (violations_of input rs) ≡ true)
      ↔ ((r : Rule) → Memᴰ r rs → r.mandatory ≡ true → broken r.type input ≡ false)
unfolding violations_of
violations_mandatory input [] = (λ e r m. elim m [ ], λ h. refl)
violations_mandatory input (r ∷ rs) = (
  λ e x m. mandatory_kept input r rs (violations_mandatory input rs).0 e x m,
  λ h.
      let ih = (violations_mandatory input rs).1 (λ x m. h x (Memᴰ.tail m)) in
      ground (arith, ih, h r (Memᴰ.head refl)),
)

-- A route passes exactly when it respects every mandatory rule of the corporate's newest active
-- policy; without an active policy every route passes.
pub evaluate_route_passed_iff :
    (input : RouteInput) (db : Db) (ev : Evaluation)
    → (evaluate_route input db).1 ≡ ok ev
    → (ev.passed ≡ true) ↔ (
        (r : Rule)
        → Memᴰ r (active_rules input.corporate_org_id db)
        → r.mandatory ≡ true
        → Respects input r.type)
unfolding evaluate_route
evaluate_route_passed_iff input db ev e =
    let same : ev.passed
        ≡ all (λ (v : Violation). not v.mandatory)
            (violations_of input (active_rules input.corporate_org_id db)) =
      ground arith in
    let iff = violations_mandatory input (active_rules input.corporate_org_id db) in
    (
      λ passed r m mandatory. (broken_iff r.type input).0 (iff.0 (sym same ∙ passed) r m mandatory),
      λ h. same ∙ iff.1 (λ r m mandatory. (broken_iff r.type input).1 (h r m mandatory)),
    )

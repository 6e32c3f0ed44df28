-- ===== src/Planning/Published.antt =====
-- Which plans are published (apps/api/src/planning/planning.service.ts, publish and generate).
use kruze.Base.{
  ℕ, suc, ◌≤◌, ◌<◌, ◌≡◌, ◌≢◌, refl, ap, inl, inr, true, false, Option, List, [], ◌∷◌, ◌==◌, Memᴰ,
  All, arith, Bool-cases,
}
use kruze.Base.Rows.{
  update_row, Distinct, update_where-All, update_where-Distinct, mem-update_where,
}
use kruze.Planning.Plans.{TransportPlan, Db, plan_key}
use kruze.Planning.Generate.{insert_plan, new_plan, update_plan}
use kruze.Planning.Publish.{same_day, is_published}
use kruze.Planning.Kept.{Kept}
use kruze.Planning.Sequence.{Withdraws, Edits}

-- Identifiers are unique and below the next one, and a day of a shift has one published plan at most.
pub record Sound (db : Db) : Type 0 where
  pub below : All (λ p. p.id < db.next_id) db.plans
  pub distinct : Distinct plan_key db.plans
  pub one :
      (p q : TransportPlan)
      → Memᴰ p db.plans
      → Memᴰ q db.plans
      → is_published p.status ≡ true
      → is_published q.status ≡ true
      → same_day p q ≡ true
      → p.id ≡ q.id

below_mono :
    (m n : ℕ) (rows : List TransportPlan)
    → m ≤ n
    → All (λ p. p.id < m) rows
    → All (λ p. p.id < n) rows
below_mono m n [] h all = tt
below_mono m n (p ∷ rows) h all = (omega arith, below_mono m n rows h all.1)

apart_below :
    (n : ℕ) (rows : List TransportPlan) → All (λ p. p.id < n) rows → All (λ p. plan_key p ≢ n) rows
apart_below n [] all = tt
apart_below n (p ∷ rows) all = (λ e. omega arith, apart_below n rows all.1)

pub Sound-Kept : (a b : Db) → Kept a b → Sound a → Sound b
Sound-Kept a b k s = record {
  below = rw k.plans (below_mono a.next_id b.next_id a.plans k.next_id s.below);
  distinct = rw k.plans s.distinct;
  one = rw k.plans s.one;
}

one_more :
    (row : TransportPlan) (rows : List TransportPlan)
    → is_published row.status ≡ false
    → ((p q : TransportPlan)
        → Memᴰ p rows
        → Memᴰ q rows
        → is_published p.status ≡ true
        → is_published q.status ≡ true
        → same_day p q ≡ true
        → p.id ≡ q.id)
    → (p q : TransportPlan) → Memᴰ p (row ∷ rows)
    → Memᴰ q (row ∷ rows)
    → is_published p.status ≡ true
    → is_published q.status ≡ true
    → same_day p q ≡ true
    → p.id ≡ q.id
one_more row rows h one p q (Memᴰ.head e) n ps qs day =
    absurd (ground (arith, ap (λ x. is_published x.status) e))
one_more row rows h one p q (Memᴰ.tail m) (Memᴰ.head e) ps qs day =
    absurd (ground (arith, ap (λ x. is_published x.status) e))
one_more row rows h one p q (Memᴰ.tail m) (Memᴰ.tail n) ps qs day = one p q m n ps qs day

Sound-inserted :
    (corporate shift date : ℕ) (previous : Option TransportPlan) (a : Db)
    → Sound a
    → Sound (insert_plan corporate shift date previous a).0
unfolding insert_plan new_plan
Sound-inserted corporate shift date previous a s = record {
  below = (omega arith, below_mono a.next_id (suc a.next_id) a.plans (omega arith) s.below);
  distinct = (apart_below a.next_id a.plans s.below, s.distinct);
  one = one_more _ a.plans refl s.one;
}

-- A row that is published after such an update was there, published, before it.
pub was_published :
    (id : ℕ) (f : TransportPlan → TransportPlan) (rows : List TransportPlan) (p : TransportPlan)
    → Withdraws f
    → Memᴰ p (update_row plan_key id f rows)
    → is_published p.status ≡ true
    → Memᴰ p rows × ((p.id == id) ≡ false)
was_published id f rows p w m h =
    let (r, there, e) = mem-update_where (λ x. x.id == id) f rows p m in
    elim (Bool-cases (r.id == id)) [
      | inl hit ↦ absurd (ground (arith, w.withdrawn r, ap (λ x. is_published x.status) e, hit))
      | inr miss ↦ let same : p ≡ r = ground (arith, e, miss) in rw same (there, miss)
    ]

pub Sound-updated :
    (id : ℕ) (f : TransportPlan → TransportPlan) (a : Db)
    → Withdraws f
    → Sound a
    → Sound (update_plan id f a)
Sound-updated id f a w s = record {
  below =
      update_where-All (λ p. p.id < a.next_id) (λ p. p.id == id) f a.plans
        (λ r hit h. rw (w.same_id r) h) s.below;
  distinct = update_where-Distinct plan_key (λ p. p.id == id) f a.plans w.same_id s.distinct;
  one = λ p q m n ps qs day.
      s.one p q (was_published id f a.plans p w m ps).0 (was_published id f a.plans q w n qs).0 ps
        qs day;
}

pub Sound-Edits : (a b : Db) → Edits a b → Sound a → Sound b
Sound-Edits a b (Edits.kept k) s = Sound-Kept a b k s
Sound-Edits a b (Edits.inserted corporate shift date previous c) s =
    Sound-inserted corporate shift date previous a s
Sound-Edits a b (Edits.updated id f c w) s = Sound-updated id f a w s
Sound-Edits a b (Edits.then {b = c} first second) s =
    Sound-Edits c b second (Sound-Edits a c first s)

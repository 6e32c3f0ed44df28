-- ===== src/GeoRouting/Improves.antt =====
-- One pass of the 2-opt loops (apps/api/src/planning/geo-routing.ts): the order stays a
-- rearrangement of the points from the same start, and its length falls when the pass improves.
use mathlib.Core.Path.{subst}
use mathlib.Core.List.{Perm, reverse_perm, append_assoc}
use native.Mathlib.Numerals.{add-one}
use mathlib.Core.List.Perm
use kruze.Base.{
  ℕ, zero, suc, ◌+◌, ◌-◌, ◌≤◌, ◌<◌, ◌≡◌, refl, ◌≢◌, ap, ◌∙◌, inl, inr, Bool, true, false, Option,
  none, some, List, [], ◌∷◌, ◌++◌, ◌&&◌, ◌==◌, ltb, arith, Bool-cases, take, drop, length,
  take-append-drop, take_nil, drop_nil, take_nil, drop_nil,
}
use kruze.GeoRouting.Route.{
  first, last, edge, before, after, reverse_segment, try_swap, sweep_j, sweep_i, sweep,
}
use kruze.GeoRouting.Lengths.{path_length, reversal}

-- From one state of a pass to a later one.
pub record Improves {A : Type 0} (dist : A → A → ℕ) (s s' : List A × Bool) : Type 0 where
  pub same : Perm s.0 s'.0
  pub start : first s'.0 ≡ first s.0
  pub shorter : path_length dist s'.0 ≤ path_length dist s.0
  pub strict : s.1 ≡ false → s'.1 ≡ true → path_length dist s'.0 < path_length dist s.0
  pub kept : s'.1 ≡ false → (s.1 ≡ false) × (s'.0 ≡ s.0)

module _ {A : Type 0} (dist : A → A → ℕ) where
  no_edges :
      (p : Option A) (seg : List A) (q : Option A)
      → length seg ≡ 0
      → edge dist p (first seg) + edge dist (last seg) q ≡ 0
  unfolding edge
  no_edges none [] q h = refl
  no_edges (some p) [] q h = refl
  no_edges p (x ∷ xs) q h = absurd (omega arith)

  Improves-refl : (s : List A × Bool) → Improves dist s s
  Improves-refl s = record {
    same = Perm.refl s.0;
    start = refl;
    shorter = omega arith;
    strict = λ f t. absurd (ground arith);
    kept = λ f. (f, refl);
  }

  Improves-trans :
      (s t u : List A × Bool) → Improves dist s t → Improves dist t u → Improves dist s u
  Improves-trans s t u p q = record {
    same = Perm.trans p.same q.same;
    start = q.start ∙ p.start;
    shorter = omega (arith, p.shorter, q.shorter);
    strict = λ f done. elim (Bool-cases t.1) [
      | inl mid ↦ omega (arith, p.strict f mid, q.shorter)
      | inr mid ↦ omega (arith, p.shorter, q.strict mid done)
    ];
    kept = λ f.
        let (mid, same_u) = q.kept f in
        let (before_t, same_t) = p.kept mid in (before_t, same_u ∙ same_t);
  }

  module _ (dist_symm : (p q : A) → dist p q ≡ dist q p) where
    -- the order cut at `i + 1` and `j + 1`
    cut :
        (i j : ℕ) (order : List A)
        → (take (i + 1) order ++ take (j + 1 - (i + 1)) (drop (i + 1) order))
            ++ drop (j + 1 - (i + 1)) (drop (i + 1) order)
          ≡ order
    cut i j order =
        append_assoc (take (i + 1) order) _ _
        ∙ ap (◌++◌ (take (i + 1) order)) (take-append-drop (j + 1 - (i + 1)) (drop (i + 1) order))
        ∙ take-append-drop (i + 1) order

    segment_left :
        (i j : ℕ) (order : List A)
        → after dist i j order < before dist i j order
        → length (take (j + 1 - (i + 1)) (drop (i + 1) order)) ≢ 0
    unfolding before edge
    segment_left i j order h e = omega (
      arith,
      no_edges (last (take (i + 1) order)) (take (j + 1 - (i + 1)) (drop (i + 1) order))
          (first (drop (j + 1 - (i + 1)) (drop (i + 1) order))) e,
    )

    swap_shortens :
        (i j : ℕ) (order : List A)
        → after dist i j order < before dist i j order
        → path_length dist (reverse_segment (i + 1) j order) < path_length dist order
    unfolding before after reverse_segment
    swap_shortens i j order h = omega (
      arith,
      reversal dist dist_symm (take (i + 1) order) (take (j + 1 - (i + 1)) (drop (i + 1) order))
          (drop (j + 1 - (i + 1)) (drop (i + 1) order)) (segment_left i j order h),
      ap (path_length dist) (cut i j order),
    )

    swap-perm : (i j : ℕ) (order : List A) → Perm order (reverse_segment (i + 1) j order)
    unfolding reverse_segment
    swap-perm i j order =
        subst (λ l. Perm l (reverse_segment (i + 1) j order)) (cut i j order)
          (Perm.append_right (drop (j + 1 - (i + 1)) (drop (i + 1) order))
            (Perm.append_left (take (i + 1) order) (Perm.symm (reverse_perm _))))

    swap_start : (i j : ℕ) (order : List A) → first (reverse_segment (i + 1) j order) ≡ first order
    unfolding reverse_segment
    swap_start i j [] = rw (take_nil, drop_nil, take_nil, drop_nil) refl
    swap_start i j (x ∷ xs) = rw add-one refl

    swap-Improves :
        (i j : ℕ) (order : List A) (improved : Bool)
        → after dist i j order < before dist i j order
        → Improves dist (order, improved) (reverse_segment (i + 1) j order, true)
    swap-Improves i j order improved h = record {
      same = swap-perm i j order;
      start = swap_start i j order;
      shorter = omega (arith, swap_shortens i j order h);
      strict = λ f done. swap_shortens i j order h;
      kept = λ f. absurd (ground arith);
    }

    try_swap-Improves : (i j : ℕ) (s : List A × Bool) → Improves dist s (try_swap dist i j s)
    unfolding try_swap
    try_swap-Improves i j (order, improved) = elim (Bool-cases (i == 0 && j == length order - 1)) [
      | inl whole ↦ rw whole (Improves-refl (order, improved))
      | inr part ↦ elim (Bool-cases (ltb (after dist i j order) (before dist i j order))) [
        | inl less ↦ rw part (rw less (swap-Improves i j order improved (ground arith)))
        | inr more ↦ rw part (rw more (Improves-refl (order, improved)))
      ]
    ]

    sweep_j-Improves :
        (rounds i j : ℕ) (s : List A × Bool) → Improves dist s (sweep_j dist rounds i j s)
    unfolding sweep_j
    sweep_j-Improves zero i j s = Improves-refl s
    sweep_j-Improves (suc rounds) i j s =
        Improves-trans s _ _ (try_swap-Improves i j s)
          (sweep_j-Improves rounds i (j + 1) (try_swap dist i j s))

    sweep_i-Improves :
        (rounds n i : ℕ) (s : List A × Bool) → Improves dist s (sweep_i dist rounds n i s)
    unfolding sweep_i
    sweep_i-Improves zero n i s = Improves-refl s
    sweep_i-Improves (suc rounds) n i s =
        Improves-trans s _ _ (sweep_j-Improves (n - (i + 2)) i (i + 2) s)
          (sweep_i-Improves rounds n (i + 1) _)

    -- A whole pass.
    pub sweep-Improves : (order : List A) → Improves dist (order, false) (sweep dist order)
    unfolding sweep
    sweep-Improves order = sweep_i-Improves (length order - 1) (length order) 0 (order, false)

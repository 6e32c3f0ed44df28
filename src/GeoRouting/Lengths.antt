-- ===== src/GeoRouting/Lengths.antt =====
-- The length of a route, and what a reversal of a segment does to it
-- (apps/api/src/planning/geo-routing.ts).
use mathlib.Core.List.{reverse, reverse-append, reverse-reverse}
use kruze.Base.{
  ℕ, ◌+◌, ◌≡◌, refl, ◌≢◌, sym, ap, ◌∙◌, Option, none, some, List, [], ◌∷◌, ◌++◌, arith, length,
  length-append,
}
use kruze.GeoRouting.Route.{first, last, edge}

module _ {A : Type 0} where
  last_snoc : (xs : List A) (x : A) → last (xs ++ x ∷ []) ≡ some x
  last_snoc [] x = refl
  last_snoc (y ∷ []) x = refl
  last_snoc (y ∷ z ∷ zs) x = last_snoc (z ∷ zs) x

  reverse-cons : (x : A) (xs : List A) → reverse (x ∷ xs) ≡ reverse xs ++ x ∷ []
  reverse-cons x xs = reverse-append (x ∷ []) xs

  last-reverse : (xs : List A) → last (reverse xs) ≡ first xs
  last-reverse [] = refl
  last-reverse (x ∷ xs) = ap last (reverse-cons x xs) ∙ last_snoc (reverse xs) x

  first-reverse : (xs : List A) → first (reverse xs) ≡ last xs
  first-reverse xs = sym (last-reverse (reverse xs)) ∙ ap last (reverse-reverse xs)

  last-append : (xs ys : List A) → length ys ≢ 0 → last (xs ++ ys) ≡ last ys
  last-append [] ys h = refl
  last-append (x ∷ []) [] h = absurd (h refl)
  last-append (x ∷ []) (y ∷ ys) h = refl
  last-append (x ∷ z ∷ zs) ys h = last-append (z ∷ zs) ys h

  length-reverse : (xs : List A) → length (reverse xs) ≡ length xs
  length-reverse [] = refl
  length-reverse (x ∷ xs) =
      ap length (reverse-cons x xs)
      ∙ omega (arith, length-append (reverse xs) (x ∷ []), length-reverse xs)

module _ {A : Type 0} (dist : A → A → ℕ) where
  -- the sum of the distances between neighbours
  unfoldable pub path_length : List A → ℕ
  path_length [] = 0
  path_length (x ∷ xs) = edge dist (some x) (first xs) + path_length xs

  path_length-append :
      (xs ys : List A)
      → path_length (xs ++ ys) ≡ path_length xs + edge dist (last xs) (first ys) + path_length ys
  unfolding path_length edge
  path_length-append [] ys = omega arith
  path_length-append (x ∷ []) ys = omega arith
  path_length-append (x ∷ y ∷ xs) ys = omega (arith, path_length-append (y ∷ xs) ys)

  module _ (dist_symm : (p q : A) → dist p q ≡ dist q p) where
    edge_symm : (p q : Option A) → edge dist p q ≡ edge dist q p
    unfolding edge
    edge_symm none none = refl
    edge_symm none (some q) = refl
    edge_symm (some p) none = refl
    edge_symm (some p) (some q) = dist_symm p q

    path_length-reverse : (xs : List A) → path_length (reverse xs) ≡ path_length xs
    unfolding path_length edge
    path_length-reverse [] = refl
    path_length-reverse (x ∷ xs) =
        ap path_length (reverse-cons x xs)
        ∙ omega (
          arith,
          path_length-append (reverse xs) (x ∷ []),
          path_length-reverse xs,
          ap (λ p. edge dist p (some x)) (last-reverse xs),
          edge_symm (first xs) (some x),
        )

    -- Reversing a segment changes the two edges at its ends and no other.
    pub reversal :
        (pre seg post : List A)
        → length seg ≢ 0
        → path_length ((pre ++ reverse seg) ++ post)
            + (edge dist (last pre) (first seg) + edge dist (last seg) (first post))
          ≡ path_length ((pre ++ seg) ++ post)
            + (edge dist (last pre) (last seg) + edge dist (first seg) (first post))
    reversal pre seg post h =
        let some_left = length-reverse seg in
        omega (
          arith,
          path_length-append (pre ++ reverse seg) post,
          path_length-append (pre ++ seg) post,
          path_length-append pre (reverse seg),
          path_length-append pre seg,
          path_length-reverse seg,
          ap (λ p. edge dist p (first post)) (last-append pre (reverse seg) (omega arith)),
          ap (λ p. edge dist p (first post)) (last-append pre seg h),
          ap (λ p. edge dist p (first post)) (last-reverse seg),
          ap (λ p. edge dist (last pre) p) (first-reverse seg),
        )

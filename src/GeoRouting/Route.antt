-- ===== src/GeoRouting/Route.antt =====
-- apps/api/src/planning/geo-routing.ts, orderRouteByDistance. The order of indices is the list of the
-- points at them. `dist` is as in GeoRouting/Clusters.
use mathlib.Core.List.{reverse}
use kruze.Base.{
  ℕ, zero, suc, ◌+◌, ◌-◌, Bool, true, false, not, ◌&&◌, ◌||◌, Option, none, some, List, [], ◌∷◌,
  ◌++◌, ltb, leb, ◌==◌, if◌then◌else◌, any, take, drop, length,
}
use kruze.GeoRouting.Clusters.{pick}

module _ {A : Type 0} where
  abbrev pub first : List A → Option A
  first [] = none
  first (x ∷ xs) = some x

  abbrev pub last : List A → Option A
  last [] = none
  last (x ∷ []) = some x
  last (x ∷ y ∷ ys) = last (y ∷ ys)

  -- `reverseSegment(order, start, end)`, which swaps inwards from both ends
  unfoldable pub reverse_segment : ℕ → ℕ → List A → List A
  reverse_segment start end order =
      take start order
      ++ reverse (take (end + 1 - start) (drop start order))
      ++ drop (end + 1 - start) (drop start order)

module _ {A : Type 0} (dist : A → A → ℕ) where
  -- the length of an edge; an edge past the end of the tour has none
  unfoldable pub edge : Option A → Option A → ℕ
  edge none q = 0
  edge (some p) none = 0
  edge (some p) (some q) = dist p q

  -- The nearest-neighbour construction: the nearest unvisited point is next, the first of least
  -- distance. One round of fuel for each step.
  unfoldable pub construct : ℕ → A → List A → List A
  construct fuel here [] = here ∷ []
  construct zero here (x ∷ xs) = here ∷ []
  construct (suc fuel) here (x ∷ xs) =
      let (nearest, rest) = pick (λ p. some (dist here p)) x xs in
      here ∷ construct fuel nearest rest

  -- `before` and `after` of the 2-opt test at `i` and `j`: the last point up to `i`, the first and
  -- the last of those from `i + 1` to `j`, and the first behind them are the four that it names.
  unfoldable pub before : ℕ → ℕ → List A → ℕ
  before i j order =
      edge (last (take (i + 1) order)) (first (take (j + 1 - (i + 1)) (drop (i + 1) order)))
      + edge (last (take (j + 1 - (i + 1)) (drop (i + 1) order)))
          (first (drop (j + 1 - (i + 1)) (drop (i + 1) order)))

  unfoldable pub after : ℕ → ℕ → List A → ℕ
  after i j order =
      edge (last (take (i + 1) order)) (last (take (j + 1 - (i + 1)) (drop (i + 1) order)))
      + edge (first (take (j + 1 - (i + 1)) (drop (i + 1) order)))
          (first (drop (j + 1 - (i + 1)) (drop (i + 1) order)))

  -- the body of the two `for` loops: the order, and `improved`
  unfoldable pub try_swap : ℕ → ℕ → List A × Bool → List A × Bool
  try_swap i j (order, improved) =
      if i == 0 && j == length order - 1
      then (order, improved)
      else if ltb (after i j order) (before i j order)
      then (reverse_segment (i + 1) j order, true)
      else (order, improved)

  -- `for (let j = …; j < n; j++)`, with the count of rounds left
  unfoldable pub sweep_j : ℕ → ℕ → ℕ → List A × Bool → List A × Bool
  sweep_j zero i j s = s
  sweep_j (suc rounds) i j s = sweep_j rounds i (j + 1) (try_swap i j s)

  -- `for (let i = …; i < n - 1; i++)`
  unfoldable pub sweep_i : ℕ → ℕ → ℕ → List A × Bool → List A × Bool
  sweep_i zero n i s = s
  sweep_i (suc rounds) n i s = sweep_i rounds n (i + 1) (sweep_j (n - (i + 2)) i (i + 2) s)

  unfoldable pub sweep : List A → List A × Bool
  sweep order = sweep_i (length order - 1) (length order) 0 (order, false)

  -- `while (improved)`; `none` means that the fuel ran out
  unfoldable pub two_opt : ℕ → List A → Option (List A)
  two_opt zero order = none
  two_opt (suc fuel) order =
      let rest = two_opt fuel (sweep order).0 in
      if (sweep order).1 then rest else some (sweep order).0

  -- The route, when the loop is given some fuel.
  unfoldable pub order_route_by_distance : ℕ → (A → Bool) → List A → Option (List A)
  order_route_by_distance fuel located [] = some []
  order_route_by_distance fuel located (p ∷ ps) =
      if leb (length (p ∷ ps)) 2 || any (λ q. not (located q)) (p ∷ ps)
      then some (p ∷ ps)
      else two_opt fuel (construct (length ps) p ps)

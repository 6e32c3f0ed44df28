-- ===== src/GeoRouting/Clusters.antt =====
-- apps/api/src/planning/geo-routing.ts, clusterByProximity. `located` says that a point has both
-- coordinates; `dist` stands for haversineDistanceMeters (apps/api/src/tracking/geo.util.ts, floating
-- point), as a whole number of some small unit. The set of remaining indices is the list of the
-- points that they stand for, in the order of the indices.
use kruze.Base.{
  ℕ, zero, suc, ◌-◌, Bool, true, false, Option, none, some, List, [], ◌∷◌, ◌++◌, ltb, if◌then◌else◌,
  all, take, drop, length,
}

-- a distance, or `Infinity`
abbrev pub Far : Type 0
Far = Option ℕ

-- `<`
unfoldable pub closer : Far → Far → Bool
closer none d = false
closer (some a) none = true
closer (some a) (some b) = ltb a b

-- `chunk`: `slice(i, i + size)` for `i` from 0 by `size`; one round of fuel for each group
unfoldable pub chunk : {A : Type 0} → ℕ → ℕ → List A → List (List A)
chunk zero size items = []
chunk (suc fuel) size [] = []
chunk (suc fuel) size (x ∷ xs) = take size (x ∷ xs) ∷ chunk fuel size (drop size (x ∷ xs))

module _ {A : Type 0} where
  -- The scan for the nearest: the first point of least key, and the others.
  unfoldable pub pick : (A → Far) → A → List A → A × List A
  pick key x [] = (x, [])
  pick key x (y ∷ ys) =
      let (z, zs) = pick key y ys in if closer (key z) (key x) then (z, x ∷ zs) else (x, y ∷ ys)

module _ {A : Type 0} (dist : A → A → ℕ) where
  -- `minDistanceToCluster`, from `Infinity` down
  unfoldable pub min_distance : Far → A → List A → Far
  min_distance best p [] = best
  min_distance best p (m ∷ ms) =
      min_distance (if closer (some (dist p m)) best then some (dist p m) else best) p ms

  -- the inner `while`: as many rounds as places are left
  unfoldable pub fill : ℕ → List A → List A → List A × List A
  unfolding min_distance
  fill zero cluster remaining = (cluster, remaining)
  fill (suc places) cluster [] = (cluster, [])
  fill (suc places) cluster (x ∷ xs) =
      let (nearest, rest) = pick (λ p. min_distance none p cluster) x xs in
      fill places (cluster ++ nearest ∷ []) rest

  -- the outer `while`, with one round of fuel for each cluster
  unfoldable pub clusters : ℕ → ℕ → List A → List (List A)
  clusters zero max_size remaining = []
  clusters (suc fuel) max_size [] = []
  clusters (suc fuel) max_size (seed ∷ rest) =
      let (cluster, remaining) = fill (max_size - 1) (seed ∷ []) rest in
      cluster ∷ clusters fuel max_size remaining

  unfoldable pub cluster_by_proximity : (A → Bool) → List A → ℕ → List (List A)
  cluster_by_proximity located employees max_size =
      if all located employees
      then clusters (length employees) max_size employees
      else chunk (length employees) max_size employees

-- ===== src/GeoRouting/Samples.antt =====
-- Samples: homes along a road (apps/api/src/planning/geo-routing.ts).
use mathlib.Core.List.{Perm, flatten}
use kruze.Base.{ℕ, ◌+◌, ◌-◌, arith, Bool, true, List, [], ◌∷◌}
use kruze.GeoRouting.Clusters.{cluster_by_proximity}
use kruze.GeoRouting.Partition.{cluster_by_proximity-perm}

abbrev along : ℕ → ℕ → ℕ
along a b = (a - b) + (b - a)

abbrev anywhere : ℕ → Bool
anywhere a = true

abbrev homes : List ℕ
homes = 3 ∷ 40 ∷ 5 ∷ 41 ∷ 7 ∷ []

cluster_by_proximity-perm_example :
    Perm homes (flatten (cluster_by_proximity along anywhere homes 2))
cluster_by_proximity-perm_example = cluster_by_proximity-perm along anywhere homes 2 (ground arith)

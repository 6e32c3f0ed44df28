-- ===== src/GeoRouting/Optimum.antt =====
-- The route that orderRouteByDistance returns (apps/api/src/planning/geo-routing.ts).
use mathlib.Core.List.{Perm}
use mathlib.Core.List.Perm
use kruze.Base.{ℕ, ◌≤◌, ◌≡◌, false, List}
use kruze.GeoRouting.Route.{first, sweep}
use kruze.GeoRouting.Lengths.{path_length}

-- A route that improves on a tour: the same points from the same start, no longer, and such that no
-- pair of edges that the loops look at can be exchanged for a gain.
pub record TwoOptimal {A : Type 0} (dist : A → A → ℕ) (tour route : List A) : Type 0 where
  pub same : Perm tour route
  pub start : first route ≡ first tour
  pub shorter : path_length dist route ≤ path_length dist tour
  pub local_optimum : sweep dist route ≡ (route, false)

-- ===== src/GeoRouting/Partition.antt =====
-- The groups hold every employee once and keep to the size (apps/api/src/planning/geo-routing.ts).
use mathlib.Core.List.{Perm, flatten, append_assoc}
use mathlib.Core.List.Perm
use mathlib.Core.Path.{subst}
use kruze.Base.{
  ℕ, zero, suc, ◌+◌, ◌-◌, ◌≤◌, ◌<◌, ◌≡◌, refl, ap, ◌∙◌, inl, inr, Bool, none, List, [], ◌∷◌, ◌++◌,
  arith, Bool-cases, All, all, take, drop, length, length-append, length-take, length-drop,
  take-append-drop,
}
use kruze.GeoRouting.Clusters.{
  closer, pick, min_distance, fill, clusters, chunk, Far, cluster_by_proximity,
}

module _ {A : Type 0} where
  pub pick-perm :
      (key : A → Far) (x : A) (xs : List A) → Perm (x ∷ xs) ((pick key x xs).0 ∷ (pick key x xs).1)
  unfolding pick
  pick-perm key x [] = Perm.refl (x ∷ [])
  pick-perm key x (y ∷ ys) =
      let ih = pick-perm key y ys in
      elim (Bool-cases (closer (key (pick key y ys).0) (key x))) [
        | inl later ↦ rw later (Perm.trans (Perm.cons x ih) (Perm.swap _ x _))
        | inr here ↦ rw here (Perm.refl (x ∷ y ∷ ys))
      ]

  pub pick-length : (key : A → Far) (x : A) (xs : List A) → length (pick key x xs).1 ≡ length xs
  unfolding pick
  pick-length key x [] = refl
  pick-length key x (y ∷ ys) = ground (arith, pick-length key y ys)

  -- a group of the plan
  abbrev pub IsGroup : ℕ → List A → Type 0
  IsGroup size g = (0 < length g) × (length g ≤ size)

record Filled {A : Type 0} (places : ℕ) (cluster remaining cluster' remaining' : List A)
    : Type 0 where
  same : Perm (cluster ++ remaining) (cluster' ++ remaining')
  grown : length cluster ≤ length cluster'
  bounded : length cluster' ≤ length cluster + places
  left : length remaining' ≤ length remaining

module _ {A : Type 0} (dist : A → A → ℕ) where
  fill-Filled :
      (places : ℕ) (cluster remaining : List A)
      → let r = fill dist places cluster remaining in Filled places cluster remaining r.0 r.1
  unfolding fill
  fill-Filled zero cluster remaining = record {
    same = Perm.refl _;
    grown = omega arith;
    bounded = omega arith;
    left = omega arith;
  }
  fill-Filled (suc places) cluster [] = record {
    same = Perm.refl _;
    grown = omega arith;
    bounded = omega arith;
    left = omega arith;
  }
  fill-Filled (suc places) cluster (x ∷ xs) =
      let key = λ (p : A). min_distance dist none p cluster in
      let y = (pick key x xs).0 in
      let rest = (pick key x xs).1 in
      let ih = fill-Filled places (cluster ++ y ∷ []) rest in
      record {
        same = Perm.trans (Perm.append_left cluster (pick-perm key x xs)) (
            subst
              (λ l. Perm l (
                (fill dist places (cluster ++ y ∷ []) rest).0
                ++ (fill dist places (cluster ++ y ∷ []) rest).1))
              (append_assoc cluster (y ∷ []) rest) ih.same);
        grown = omega (arith, ih.grown, length-append cluster (y ∷ []));
        bounded = omega (arith, ih.bounded, length-append cluster (y ∷ []));
        left = omega (arith, ih.left, pick-length key x xs);
      }

  clusters-perm :
      (fuel max_size : ℕ) (points : List A)
      → length points ≤ fuel
      → Perm points (flatten (clusters dist fuel max_size points))
  unfolding clusters flatten
  clusters-perm zero max_size [] h = Perm.refl []
  clusters-perm zero max_size (x ∷ xs) h = absurd (omega arith)
  clusters-perm (suc fuel) max_size [] h = Perm.refl []
  clusters-perm (suc fuel) max_size (x ∷ xs) h =
      let filled = fill-Filled (max_size - 1) (x ∷ []) xs in
      Perm.trans filled.same
        (Perm.append_left _ (clusters-perm fuel max_size _ (omega (arith, filled.left))))

  clusters-IsGroup :
      (fuel max_size : ℕ) (points : List A)
      → 0 < max_size
      → All (IsGroup max_size) (clusters dist fuel max_size points)
  unfolding clusters
  clusters-IsGroup zero max_size points h = tt
  clusters-IsGroup (suc fuel) max_size [] h = tt
  clusters-IsGroup (suc fuel) max_size (x ∷ xs) h =
      let filled = fill-Filled (max_size - 1) (x ∷ []) xs in
      (
        (omega (arith, filled.grown), omega (arith, filled.bounded)),
        clusters-IsGroup fuel max_size _ h,
      )

module _ {A : Type 0} where
  chunk-perm :
      (fuel size : ℕ) (items : List A)
      → 0 < size
      → length items ≤ fuel
      → flatten (chunk fuel size items) ≡ items
  unfolding chunk flatten
  chunk-perm zero size [] p h = refl
  chunk-perm zero size (x ∷ xs) p h = absurd (omega arith)
  chunk-perm (suc fuel) size [] p h = refl
  chunk-perm (suc fuel) size (x ∷ xs) p h =
      ap (◌++◌ (take size (x ∷ xs)))
        (chunk-perm fuel size (drop size (x ∷ xs)) p (omega (arith, length-drop size (x ∷ xs))))
      ∙ take-append-drop size (x ∷ xs)

  chunk-IsGroup :
      (fuel size : ℕ) (items : List A) → 0 < size → All (IsGroup size) (chunk fuel size items)
  unfolding chunk
  chunk-IsGroup zero size items p = tt
  chunk-IsGroup (suc fuel) size [] p = tt
  chunk-IsGroup (suc fuel) size (x ∷ xs) p = (
    (omega (arith, length-take size (x ∷ xs)), omega (arith, length-take size (x ∷ xs))),
    chunk-IsGroup fuel size (drop size (x ∷ xs)) p,
  )

-- For a positive size, whether the points have coordinates or not, every group is non-empty and within
-- the size.
cluster_by_proximity-IsGroup :
    {A : Type 0} (dist : A → A → ℕ) (located : A → Bool) (employees : List A) (max_size : ℕ)
    → 0 < max_size
    → All (IsGroup max_size) (cluster_by_proximity dist located employees max_size)
unfolding cluster_by_proximity
cluster_by_proximity-IsGroup dist located employees max_size h =
    elim (Bool-cases (all located employees)) [
      | inl near ↦ rw near (clusters-IsGroup dist (length employees) max_size employees h)
      | inr gaps ↦ rw gaps (chunk-IsGroup (length employees) max_size employees h)
    ]

-- For a positive size, the groups together are a rearrangement of the employees: the loops end, and
-- nobody is lost or counted twice.
pub cluster_by_proximity-perm :
    {A : Type 0} (dist : A → A → ℕ) (located : A → Bool) (employees : List A) (max_size : ℕ)
    → 0 < max_size
    → Perm employees (flatten (cluster_by_proximity dist located employees max_size))
unfolding cluster_by_proximity
cluster_by_proximity-perm dist located employees max_size h =
    elim (Bool-cases (all located employees)) [
      | inl near ↦ rw near (clusters-perm dist (length employees) max_size employees (omega arith))
      | inr gaps ↦
          rw (gaps, chunk-perm (length employees) max_size employees h (omega arith))
            (Perm.refl employees)
    ]

-- ===== src/Base/Rows.antt =====
-- The rows of a database table, newest first, and the queries that the services make of them.
-- Every table's key is a number; a row is read through its key by the function `key`.
use Prim.Native.Nat.{ℕ}
use mathlib.Core.Path.{◌≡◌, refl, ap}
use mathlib.Core.Bool.{Bool, true, false}
use mathlib.Core.List.{List, [], ◌∷◌, Memᴰ}
use mathlib.Core.Option.{Option, none, some}
use mathlib.Core.Option
use native.Mathlib.Omega.{arith}
use kruze.Base.Tests.{◌==◌, if◌then◌else◌, Bool-cases}
use mathlib.Core.Logic.{◌≢◌, inl, inr}
use kruze.Base.Lists.{find?, keep, All, All-mem}

module _ {A : Type 0} where
  -- `updateMany({ where, data })`: every row that passes the test is changed.
  abbrev pub update_where : (A → Bool) → (A → A) → List A → List A
  update_where p f [] = []
  update_where p f (x ∷ xs) = (if p x then f x else x) ∷ update_where p f xs

  -- `findUnique({ where: { id } })`
  abbrev pub find_unique : (A → ℕ) → ℕ → List A → Option A
  find_unique key i = find? (λ r. key r == i)

  -- `update({ where: { id }, data })`
  abbrev pub update_row : (A → ℕ) → ℕ → (A → A) → List A → List A
  update_row key i = update_where (λ r. key r == i)

  pub find_unique-update_row :
      (key : A → ℕ) (i j : ℕ) (f : A → A) (rows : List A)
      → ((r : A) → key (f r) ≡ key r)
      → find_unique key j (update_row key i f rows)
        ≡ (if i == j then Option.map f (find_unique key j rows) else find_unique key j rows)
  find_unique-update_row key i j f [] same = ground arith
  find_unique-update_row key i j f (r ∷ rows) same =
      ground (arith, same r, find_unique-update_row key i j f rows same)

  -- The primary key: no two rows have one identifier.
  abbrev pub Distinct : (A → ℕ) → List A → Type 0
  Distinct key [] = Unit
  Distinct key (x ∷ xs) = All (λ y. key y ≢ key x) xs × Distinct key xs

  pub update_where-All :
      (P : A → Type 0) (p : A → Bool) (f : A → A) (rows : List A)
      → ((r : A) → p r ≡ true → P r → P (f r))
      → All P rows
      → All P (update_where p f rows)
  update_where-All P p f [] keeps h = tt
  update_where-All P p f (r ∷ rows) keeps h = elim (Bool-cases (p r)) [
    | inl hit ↦ rw hit (keeps r hit h.0, update_where-All P p f rows keeps h.1)
    | inr miss ↦ rw miss (h.0, update_where-All P p f rows keeps h.1)
  ]

  pub mem-update_where :
      (p : A → Bool) (f : A → A) (rows : List A) (x : A)
      → Memᴰ x (update_where p f rows)
      → (y : A) × Memᴰ y rows × (x ≡ (if p y then f y else y))
  mem-update_where p f [] x m = elim m [ ]
  mem-update_where p f (r ∷ rows) x (Memᴰ.head e) = (r, Memᴰ.head refl, e)
  mem-update_where p f (r ∷ rows) x (Memᴰ.tail m) =
      let (y, later, e) = mem-update_where p f rows x m in (y, Memᴰ.tail later, e)

  pub update_where-keeps :
      (p : A → Bool) (f : A → A) (rows : List A) (x : A)
      → p x ≡ false
      → Memᴰ x rows
      → Memᴰ x (update_where p f rows)
  update_where-keeps p f [] x miss m = elim m [ ]
  update_where-keeps p f (r ∷ rows) x miss (Memᴰ.head e) = Memᴰ.head (ground (arith, ap p e, e))
  update_where-keeps p f (r ∷ rows) x miss (Memᴰ.tail m) =
      Memᴰ.tail (update_where-keeps p f rows x miss m)

  pub update_where-mem :
      (p : A → Bool) (f : A → A) (rows : List A) (x : A)
      → Memᴰ x rows
      → Memᴰ (if p x then f x else x) (update_where p f rows)
  update_where-mem p f [] x m = elim m [ ]
  update_where-mem p f (r ∷ rows) x (Memᴰ.head e) = Memᴰ.head (ap (λ y. if p y then f y else y) e)
  update_where-mem p f (r ∷ rows) x (Memᴰ.tail m) = Memᴰ.tail (update_where-mem p f rows x m)

  pub find_unique-mem :
      (key : A → ℕ) (rows : List A) (x : A)
      → Distinct key rows
      → Memᴰ x rows
      → find_unique key (key x) rows ≡ some x
  find_unique-mem key [] x d m = elim m [ ]
  find_unique-mem key (r ∷ rows) x d (Memᴰ.head e) = ground (arith, ap key e, e)
  find_unique-mem key (r ∷ rows) x d (Memᴰ.tail m) =
      ground (arith, find_unique-mem key rows x d.1 m, All-mem (λ y. key y ≢ key r) rows x d.0 m)

  pub update_where-Distinct :
      (key : A → ℕ) (p : A → Bool) (f : A → A) (rows : List A)
      → ((r : A) → key (f r) ≡ key r)
      → Distinct key rows
      → Distinct key (update_where p f rows)
  update_where-Distinct key p f [] same d = tt
  update_where-Distinct key p f (r ∷ rows) same d =
      let apart = update_where-All (λ y. key y ≢ key r) p f rows (λ y hit h. rw (same y) h) d.0 in
      let later = update_where-Distinct key p f rows same d.1 in
      elim (Bool-cases (p r)) [
        | inl hit ↦ rw (hit, same r) (apart, later)
        | inr miss ↦ rw miss (apart, later)
      ]

  pub keep-update_where :
      (q p : A → Bool) (f : A → A) (rows : List A)
      → All (λ x. (p x ≡ true → q (f x) ≡ q x)) rows
      → keep q (update_where p f rows) ≡ update_where p f (keep q rows)
  keep-update_where q p f [] same = refl
  keep-update_where q p f (x ∷ xs) same =
      let later = keep-update_where q p f xs same.1 in
      elim (Bool-cases (p x)) [
        | inl hit ↦ elim (Bool-cases (q x)) [
          | inl in_it ↦ rw (hit, same.0 hit, in_it, later, hit) refl
          | inr out ↦ rw (hit, same.0 hit, out, later) refl
        ]
        | inr miss ↦ elim (Bool-cases (q x)) [
          | inl in_it ↦ rw (miss, in_it, later, miss) refl
          | inr out ↦ rw (miss, out, later) refl
        ]
      ]

  pub find?-update_where :
      (q p : A → Bool) (f : A → A) (rows : List A)
      → ((r : A) → q (f r) ≡ q r)
      → find? q (update_where p f rows) ≡ Option.map (λ r. if p r then f r else r) (find? q rows)
  find?-update_where q p f [] same = refl
  find?-update_where q p f (r ∷ rows) same =
      ground (arith, same r, find?-update_where q p f rows same)

-- ===== src/Base/Lists.antt =====
-- Lists measured by native numbers, and the array methods that the services call
-- (`some`, `every`, `find`, `filter`, `reduce` over a sum).
use Prim.Native.Nat.{ℕ, zero, suc, ◌+◌, ◌-◌, min}
use mathlib.Core.Logic.{inl, inr}
use mathlib.Core.Path.{◌≡◌, refl, subst, sym}
use mathlib.Core.Bool.{Bool, true, false, ◌&&◌, ◌||◌}
use mathlib.Core.List.{List, [], ◌∷◌, ◌++◌, Memᴰ}
use mathlib.Core.Option.{Option, none, some}
use native.Mathlib.Omega.{arith}
use kruze.Base.Tests.{if◌then◌else◌, Bool-cases}

module _ {ℓ} {A : Type ℓ} where
  abbrev pub length : List A → ℕ
  length [] = 0
  length (x ∷ xs) = suc (length xs)

  abbrev pub any : (A → Bool) → List A → Bool
  any p [] = false
  any p (x ∷ xs) = p x || any p xs

  abbrev pub all : (A → Bool) → List A → Bool
  all p [] = true
  all p (x ∷ xs) = p x && all p xs

  abbrev pub find? : (A → Bool) → List A → Option A
  find? p [] = none
  find? p (x ∷ xs) = if p x then some x else find? p xs

  abbrev pub keep : (A → Bool) → List A → List A
  keep p [] = []
  keep p (x ∷ xs) = if p x then x ∷ keep p xs else keep p xs

  abbrev pub total : (A → ℕ) → List A → ℕ
  total f [] = 0
  total f (x ∷ xs) = f x + total f xs

  abbrev pub take : ℕ → List A → List A
  take zero xs = []
  take (suc n) [] = []
  take (suc n) (x ∷ xs) = x ∷ take n xs

  abbrev pub drop : ℕ → List A → List A
  drop zero xs = xs
  drop (suc n) [] = []
  drop (suc n) (x ∷ xs) = drop n xs

  pub length-append : (xs ys : List A) → length (xs ++ ys) ≡ length xs + length ys
  length-append [] ys = omega arith
  length-append (x ∷ xs) ys = omega (arith, length-append xs ys)

  pub length-take : (n : ℕ) (xs : List A) → length (take n xs) ≡ min n (length xs)
  length-take zero xs = omega arith
  length-take (suc n) [] = omega arith
  length-take (suc n) (x ∷ xs) = omega (arith, length-take n xs)

  pub take_nil : (n : ℕ) → take n [] ≡ []
  take_nil zero = refl
  take_nil (suc n) = refl

  pub drop_nil : (n : ℕ) → drop n [] ≡ []
  drop_nil zero = refl
  drop_nil (suc n) = refl

  pub length-drop : (n : ℕ) (xs : List A) → length (drop n xs) ≡ length xs - n
  length-drop zero xs = omega arith
  length-drop (suc n) [] = omega arith
  length-drop (suc n) (x ∷ xs) = omega (arith, length-drop n xs)

  pub take-append-drop : (n : ℕ) (xs : List A) → take n xs ++ drop n xs ≡ xs
  take-append-drop zero xs = refl
  take-append-drop (suc n) [] = refl
  take-append-drop (suc n) (x ∷ xs) = rw (take-append-drop n xs)

  pub any-false : (p : A → Bool) (xs : List A) (x : A) → any p xs ≡ false → Memᴰ x xs → p x ≡ false
  any-false p [] x h m = elim m [ ]
  any-false p (y ∷ xs) x h (Memᴰ.head e) = rw e (ground arith)
  any-false p (y ∷ xs) x h (Memᴰ.tail m) = any-false p xs x (ground arith) m

  pub any-true : (p : A → Bool) (xs : List A) (x : A) → Memᴰ x xs → p x ≡ true → any p xs ≡ true
  any-true p [] x m h = elim m [ ]
  any-true p (y ∷ xs) x (Memᴰ.head e) h = rw (rw e at h) (ground arith)
  any-true p (y ∷ xs) x (Memᴰ.tail m) h = ground (arith, any-true p xs x m h)

  pub find?-holds : (p : A → Bool) (xs : List A) (x : A) → find? p xs ≡ some x → p x ≡ true
  find?-holds p [] x h = absurd (ground arith)
  find?-holds p (y ∷ xs) x h = ground (arith, find?-holds p xs x)

  pub find?-mem : (p : A → Bool) (xs : List A) (x : A) → find? p xs ≡ some x → Memᴰ x xs
  find?-mem p [] x h = absurd (ground arith)
  find?-mem p (y ∷ xs) x h = elim (Bool-cases (p y)) [
    | inl here ↦ Memᴰ.head (ground arith)
    | inr later ↦ Memᴰ.tail (find?-mem p xs x (ground arith))
  ]

  pub find?-none :
      (p : A → Bool) (xs : List A) (x : A) → find? p xs ≡ none → Memᴰ x xs → p x ≡ false
  find?-none p [] x h m = elim m [ ]
  find?-none p (y ∷ xs) x h (Memᴰ.head e) = rw e (ground arith)
  find?-none p (y ∷ xs) x h (Memᴰ.tail m) = find?-none p xs x (ground arith) m

module _ {ℓ κ} {A : Type ℓ} where
  abbrev pub All : (A → Type κ) → List A → Type κ
  All P [] = Unit
  All P (x ∷ xs) = P x × All P xs

  pub mem-All : (P : A → Type κ) (xs : List A) → ((x : A) → Memᴰ x xs → P x) → All P xs
  mem-All P [] h = tt
  mem-All P (x ∷ xs) h = (h x (Memᴰ.head refl), mem-All P xs (λ y m. h y (Memᴰ.tail m)))

  pub All-mem : (P : A → Type κ) (xs : List A) (x : A) → All P xs → Memᴰ x xs → P x
  All-mem P [] x h m = elim m [ ]
  All-mem P (y ∷ xs) x h (Memᴰ.head e) = subst P (sym e) h.0
  All-mem P (y ∷ xs) x h (Memᴰ.tail m) = All-mem P xs x h.1 m

module _ {ℓ} {A : Type ℓ} where
  pub mem-keep : (p : A → Bool) (xs : List A) (x : A) → Memᴰ x xs → p x ≡ true → Memᴰ x (keep p xs)
  mem-keep p [] x m h = elim m [ ]
  mem-keep p (y ∷ xs) x (Memᴰ.head e) h = rw (rw e at h) (Memᴰ.head e)
  mem-keep p (y ∷ xs) x (Memᴰ.tail m) h = elim (Bool-cases (p y)) [
    | inl in_it ↦ rw in_it (Memᴰ.tail (mem-keep p xs x m h))
    | inr out ↦ rw out (mem-keep p xs x m h)
  ]

  keep-mem_step :
      (p : A → Bool) (y : A) (xs : List A) (x : A)
      → p y ≡ true
      → (Memᴰ x (keep p xs) → Memᴰ x xs × (p x ≡ true))
      → Memᴰ x (y ∷ keep p xs)
      → Memᴰ x (y ∷ xs) × (p x ≡ true)
  keep-mem_step p y xs x h ih (Memᴰ.head e) = (Memᴰ.head e, rw e h)
  keep-mem_step p y xs x h ih (Memᴰ.tail m) = (Memᴰ.tail (ih m).0, (ih m).1)

  pub keep-mem :
      (p : A → Bool) (xs : List A) (x : A) → Memᴰ x (keep p xs) → Memᴰ x xs × (p x ≡ true)
  keep-mem p [] x m = elim m [ ]
  keep-mem p (y ∷ xs) x m = elim (Bool-cases (p y)) [
    | inl in_it ↦ keep-mem_step p y xs x in_it (keep-mem p xs x) (rw in_it at m)
    | inr out ↦ let (later, holds) = keep-mem p xs x (rw out at m) in (Memᴰ.tail later, holds)
  ]

-- ===== src/Base/Effects.antt =====
-- The services as state passing: a handler takes the tables and returns them with a value or with
-- the class of the exception that it throws. What was written before a throw stays written, unless
-- a transaction undoes it.
use mathlib.Core.Path.{◌≡◌, refl}
use mathlib.Core.Logic.{◌⊎◌, inl, inr}
use mathlib.Core.Bool.{Bool, true, false}
use mathlib.Core.Option.{Option, none, some}

-- The NestJS exceptions that the services throw; `record_missing` is Prisma's P2025, thrown by an
-- `update` whose `where` matches no row, `duplicate` its P2002, thrown where a unique key is taken, and
-- `type_error` what the language throws on `undefined`.
pub data Error : Type 0 where
  bad_request forbidden not_found conflict record_missing duplicate type_error : Error

pub data Result (A : Type 0) : Type 0 where
  ok : A → Result A
  err : Error → Result A

abbrev pub M : Type 0 → Type 0 → Type 0
M S A = S → S × Result A

module _ {S A : Type 0} where
  abbrev pub return : A → M S A
  return a s = (s, ok a)

  abbrev pub throw : Error → M S A
  throw e s = (s, err e)

  abbrev pub gets : (S → A) → M S A
  gets f s = (s, ok (f s))

  -- `if (!o) throw new E(…)`, then `o` with its value
  abbrev pub or_throw : Option A → Error → M S A
  or_throw none e s = (s, err e)
  or_throw (some a) e s = (s, ok a)

module _ {S : Type 0} where
  abbrev pub modify : (S → S) → M S (Unit {0})
  modify f s = (f s, ok tt)

  -- `if (!b) throw new E(…)`
  abbrev pub require : Bool → Error → M S (Unit {0})
  require true e s = (s, ok tt)
  require false e s = (s, err e)

abbrev pub bind_after : {S A B : Type 0} → S × Result A → (A → M S B) → S × Result B
bind_after (s, ok a) f = f a s
bind_after (s, err e) f = (s, err e)

infixl 5 ◌>>=◌ ◌>>◌
abbrev pub ◌>>=◌ : {S A B : Type 0} → M S A → (A → M S B) → M S B
◌>>=◌ m f s = bind_after (m s) f

abbrev pub ◌>>◌ : {S B : Type 0} → M S (Unit {0}) → M S B → M S B
◌>>◌ m k s = bind_after (m s) (λ _. k)

-- What an interactive transaction of the database leaves behind when its body throws. Prisma
-- documents that it rolls back: `rolls_back` is that promise.
pub record Transactions (S : Type 0) : Type 0 where
  pub undo : S → S → S
  pub rolls_back : (before during : S) → undo before during ≡ before

abbrev pub settle : {S A : Type 0} → (S → S) → S × Result A → S × Result A
settle undo (s, ok a) = (s, ok a)
settle undo (s, err e) = (undo s, err e)

-- `prisma.$transaction(async (tx) => …)`
abbrev pub transaction : {S A : Type 0} → Transactions S → M S A → M S A
transaction tx m s = settle (tx.undo s) (m s)

-- To split on a handler's result and keep the equation.
pub run-cases :
    {S A : Type 0} (r : S × Result A)
    → ((a : A) × (r ≡ (r.0, ok a))) ⊎ ((e : Error) × (r ≡ (r.0, err e)))
run-cases (s, ok a) = inl (a, refl)
run-cases (s, err e) = inr (e, refl)

-- What holds of the tables after the first handler, and is kept by the rest.
pub bind_after-keeps {κ} :
    {S A B : Type 0} (P : S → Type κ) (r : S × Result A) (f : A → M S B)
    → P r.0
    → ((a : A) (s : S) → P s → P (f a s).0)
    → P (bind_after r f).0
bind_after-keeps P (s, ok a) f h keeps = keeps a s h
bind_after-keeps P (s, err e) f h keeps = h

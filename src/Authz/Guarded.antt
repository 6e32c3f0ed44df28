-- ===== src/Authz/Guarded.antt =====
-- What RolesGuard lets through (apps/api/src/authz/roles.guard.ts).
use kruze.Base.{
  ◌≡◌, refl, sym, ◌⊎◌, inl, inr, true, Option, none, some, List, [], ◌∷◌, Memᴰ, ◌==◌, any-true,
  arith, Bool-cases,
}
use kruze.Base.Effects.{ok, err, forbidden}
use kruze.Domain.{PlatformRole}
use kruze.Authz.Roles.{role_code, includes, Route, check_roles, can_activate}

-- Whom a list of roles admits: everybody if there is none or it is empty, and else the users that have one
-- of its roles.
pub data Admits : Option (List PlatformRole) → Option PlatformRole → Type 0 where
  unlisted : (role : Option PlatformRole) → Admits none role
  empty : (role : Option PlatformRole) → Admits (some []) role
  listed :
      (roles : List PlatformRole) (role : PlatformRole)
      → Memᴰ role roles
      → Admits (some roles) (some role)

role_code-injective : (r s : PlatformRole) → role_code r ≡ role_code s → r ≡ s
role_code-injective r s h = ground (arith, h)

includes-Mem :
    (roles : List PlatformRole) (role : PlatformRole) → includes roles role ≡ true → Memᴰ role roles
includes-Mem [] role h = absurd (ground (arith, h))
includes-Mem (r ∷ rs) role h = elim (Bool-cases (role_code r == role_code role)) [
  | inl same ↦ Memᴰ.head (sym (role_code-injective r role (ground (arith, same))))
  | inr other ↦ Memᴰ.tail (includes-Mem rs role (ground (arith, h, other)))
]

Mem-includes :
    (roles : List PlatformRole) (role : PlatformRole) → Memᴰ role roles → includes roles role ≡ true
Mem-includes roles role m =
    any-true (λ r. role_code r == role_code role) roles role m (ground arith)

Admits-Mem :
    (r : PlatformRole) (rs : List PlatformRole) (role : PlatformRole)
    → Admits (some (r ∷ rs)) (some role)
    → Memᴰ role (r ∷ rs)
Admits-Mem r rs role (listed _ _ m) = m

no_user : (r : PlatformRole) (rs : List PlatformRole) → ¬ Admits (some (r ∷ rs)) none
no_user r rs a = elim a [ ]

check_roles-Admits :
    (roles : Option (List PlatformRole)) (role : Option PlatformRole)
    → (Admits roles role × (check_roles roles role ≡ ok true))
      ⊎ ((¬ Admits roles role) × (check_roles roles role ≡ err forbidden))
check_roles-Admits none role = inl (unlisted role, refl)
check_roles-Admits (some []) role = inl (empty role, refl)
check_roles-Admits (some (r ∷ rs)) none = inr (no_user r rs, refl)
check_roles-Admits (some (r ∷ rs)) (some role) = elim (Bool-cases (includes (r ∷ rs) role)) [
  | inl there ↦
      inl (listed (r ∷ rs) role (includes-Mem (r ∷ rs) role there), rw (there, check_roles) refl)
  | inr missing ↦ inr (
    λ a. ground (arith, missing, Mem-includes (r ∷ rs) role (Admits-Mem r rs role a)),
    rw (missing, check_roles) refl,
  )
]

-- The guard lets a request through exactly where the method that handles it lists no roles, or the
-- request has a user whose role is one of those listed; every other request is refused. The list is that
-- of the method alone, whatever the controller's class lists.
pub can_activate-Admits :
    (route : Route) (role : Option PlatformRole)
    → (Admits route.handler_roles role × (can_activate route role ≡ ok true))
      ⊎ ((¬ Admits route.handler_roles role) × (can_activate route role ≡ err forbidden))
unfolding can_activate
can_activate-Admits route role = check_roles-Admits route.handler_roles role

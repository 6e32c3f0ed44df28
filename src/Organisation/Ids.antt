-- ===== src/Organisation/Ids.antt =====
-- apps/api/src/organisation/global-id.util.ts. An identifier `KZ-COR-000001` is its prefix with the
-- digits of its number; the constant parts of the text are left out.
use kruze.Base.{ℕ, zero, suc, ◌-◌, ◌/◌, ◌%◌, List, [], ◌∷◌, ◌++◌, ltb, if◌then◌else◌, length}

-- packages/domain/src/organisation.ts
pub data OrganisationRole : Type 0 where
  kruze_platform corporate fleet_operator vendor sub_vendor : OrganisationRole

pub data Prefix : Type 0 where
  krz cor fop vnd : Prefix

-- `ROLE_PREFIX`
unfoldable pub role_prefix : OrganisationRole → Prefix
role_prefix kruze_platform = krz
role_prefix corporate = cor
role_prefix fleet_operator = fop
role_prefix vendor = vnd
role_prefix sub_vendor = vnd

pub record GlobalId : Type 0 where
  pub prefix : Prefix
  pub digits : List ℕ

-- `String(sequence)`, with as many rounds as the fuel
unfoldable pub decimal : ℕ → ℕ → List ℕ
decimal zero n = []
decimal (suc fuel) n =
    let front = decimal fuel (n / 10) in if ltb n 10 then n ∷ [] else front ++ n % 10 ∷ []

unfoldable pub zeros : ℕ → List ℕ
zeros zero = []
zeros (suc n) = 0 ∷ zeros n

-- `padStart(width, "0")`
unfoldable pub pad_start : ℕ → List ℕ → List ℕ
pad_start width digits = zeros (width - length digits) ++ digits

unfoldable pub format_global_org_id : OrganisationRole → ℕ → GlobalId
format_global_org_id role sequence = record {
  prefix = role_prefix role;
  digits = pad_start 6 (decimal (suc sequence) sequence);
}

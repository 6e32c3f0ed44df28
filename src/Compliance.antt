-- ===== src/Compliance.antt =====
-- apps/api/src/compliance: the eligibility gate (compliance.service.ts) over the rules that apply to
-- a subject (compliance-rule.service.ts). Document types and identifiers are numbers, times are
-- milliseconds; `now` is the clock, read once.
pub mod Eligible
pub mod Dated
pub mod Documents
pub mod Uploaded
mod Samples
use kruze.Base.{
  ℕ, ◌+◌, ◌*◌, Bool, true, false, not, ◌&&◌, ◌||◌, Option, none, some, List, [], ◌∷◌, ltb, ◌==◌,
  if◌then◌else◌, is_id, or_else, keep, length,
}
use kruze.Base.Effects.{M, Result, ok, ◌>>=◌, return}

pub data SubjectType : Type 0 where
  driver vehicle guard vendor : SubjectType

pub data Scope : Type 0 where
  global vendor corporate trip : Scope

pub data Severity : Type 0 where
  warning blocking : Severity

pub data Status : Type 0 where
  pending under_review compliant expiring non_compliant suspended : Status

pub data DocumentStatus : Type 0 where
  pending verified rejected : DocumentStatus

pub record Rule : Type 0 where
  pub id : ℕ
  pub scope : Scope
  pub scope_org_id : Option ℕ
  pub subject_type : SubjectType
  pub doc_type : ℕ
  pub max_expiry_grace_days : ℕ
  pub severity : Severity
  pub active : Bool

pub record Document : Type 0 where
  pub id : ℕ
  pub entity_type : SubjectType
  pub entity_id : ℕ
  pub doc_type : ℕ
  pub expiry_date : Option ℕ
  pub status : DocumentStatus

pub record Evaluation : Type 0 where
  pub subject_type : SubjectType
  pub subject_id : ℕ
  pub rule_id : ℕ
  pub status : Status
  pub matching_document_id : Option ℕ

pub record Db : Type 0 where
  pub rules : List Rule
  pub documents : List Document
  pub evaluations : List Evaluation

-- the `context` argument
pub record Context : Type 0 where
  pub vendor_org_id : Option ℕ
  pub corporate_org_id : Option ℕ

pub record Report : Type 0 where
  pub status : Status
  pub blocking_failures : List ℕ
  pub warnings : List ℕ

abbrev pub same_subject : SubjectType → SubjectType → Bool
same_subject SubjectType.driver SubjectType.driver = true
same_subject SubjectType.vehicle SubjectType.vehicle = true
same_subject SubjectType.guard SubjectType.guard = true
same_subject SubjectType.vendor SubjectType.vendor = true
same_subject _ _ = false

abbrev pub is_verified : DocumentStatus → Bool
is_verified DocumentStatus.verified = true
is_verified _ = false

abbrev pub is_blocking : Severity → Bool
is_blocking blocking = true
is_blocking warning = false

abbrev pub is_non_compliant : Status → Bool
is_non_compliant Status.non_compliant = true
is_non_compliant _ = false

abbrev pub is_compliant : Status → Bool
is_compliant Status.compliant = true
is_compliant _ = false

-- a scoped clause of the `OR`, present only when the context names the organisation
scope_org : Option ℕ → Option ℕ → Bool
scope_org none asked = false
scope_org (some org) asked = is_id asked org

in_scope : Scope → Option ℕ → Context → Bool
unfolding scope_org
in_scope Scope.global org c = true
in_scope Scope.vendor org c = scope_org c.vendor_org_id org
in_scope Scope.corporate org c = scope_org c.corporate_org_id org
in_scope Scope.trip org c = false

unfoldable pub applicable_rules : SubjectType → Context → List Rule → List Rule
unfolding in_scope
applicable_rules t c =
    keep (λ r. same_subject r.subject_type t && r.active && in_scope r.scope r.scope_org_id c)

-- The head of the stable sort by falling `expiryDate?.getTime() ?? 0`: the first row of greatest key.
unfoldable pub latest : List Document → Option Document
latest [] = none
latest (d ∷ ds) = elim (latest ds) [
  | none ↦ some d
  | some e ↦ if ltb (or_else d.expiry_date 0) (or_else e.expiry_date 0) then some e else some d
]

abbrev pub day_ms : ℕ
day_ms = 86400000

unfoldable pub expiry_status : Rule → ℕ → Option ℕ → Status
expiry_status r now none = Status.compliant
expiry_status r now (some expiry) =
    if ltb now expiry
    then Status.compliant
    else if ltb now (expiry + r.max_expiry_grace_days * day_ms)
    then Status.expiring
    else Status.non_compliant

-- the chain of tests on `matchingDoc` in the loop of `evaluate`
unfoldable pub document_status : Rule → ℕ → Option Document → Status
unfolding expiry_status
document_status r now none = Status.non_compliant
document_status r now (some d) = expiry_status r now d.expiry_date

unfoldable pub matching_document : ℕ → List Document → Option Document
unfolding latest
matching_document doc_type docs = latest (keep (λ d. d.doc_type == doc_type) docs)

unfoldable pub rule_status : Rule → ℕ → List Document → Status
unfolding matching_document document_status
rule_status r now docs = document_status r now (matching_document r.doc_type docs)

abbrev document_id : Option Document → Option ℕ
document_id none = none
document_id (some d) = some d.id

evaluation : SubjectType → ℕ → Rule → ℕ → List Document → Evaluation
evaluation t subject r now docs = record {
  subject_type = t;
  subject_id = subject;
  rule_id = r.id;
  status = rule_status r now docs;
  matching_document_id = document_id (matching_document r.doc_type docs);
}

-- `blockingFailures` and `warnings`, each grown at its end by `push`
unfoldable pub failures : ℕ → List Document → List Rule → List ℕ
unfolding rule_status
failures now docs [] = []
failures now docs (r ∷ rs) =
    if is_non_compliant (rule_status r now docs) && is_blocking r.severity
    then r.doc_type ∷ failures now docs rs
    else failures now docs rs

unfoldable pub warnings_of : ℕ → List Document → List Rule → List ℕ
unfolding rule_status
warnings_of now docs [] = []
warnings_of now docs (r ∷ rs) =
    if is_non_compliant (rule_status r now docs) && is_blocking r.severity
    then warnings_of now docs rs
    else if is_compliant (rule_status r now docs)
    then warnings_of now docs rs
    else r.doc_type ∷ warnings_of now docs rs

-- the rows that the loop creates, newest first
logged : SubjectType → ℕ → ℕ → List Document → List Rule → List Evaluation → List Evaluation
logged t subject now docs [] log = log
logged t subject now docs (r ∷ rs) log =
    logged t subject now docs rs (evaluation t subject r now docs ∷ log)

abbrev overall : List ℕ → List ℕ → Status
overall (b ∷ bs) ws = Status.non_compliant
overall [] (w ∷ ws) = Status.expiring
overall [] [] = Status.compliant

unfoldable pub verified_documents : SubjectType → ℕ → List Document → List Document
verified_documents t subject =
    keep (λ d. same_subject d.entity_type t && d.entity_id == subject && is_verified d.status)

unfoldable pub evaluate : SubjectType → ℕ → Context → ℕ → M Db Report
unfolding logged evaluation applicable_rules verified_documents failures warnings_of
evaluate t subject c now db =
    let rules = applicable_rules t c db.rules in
    let docs = verified_documents t subject db.documents in
    let bad = failures now docs rules in
    let ws = warnings_of now docs rules in
    (
      record db { evaluations = logged t subject now docs rules db.evaluations },
      ok (record { status = overall bad ws; blocking_failures = bad; warnings = ws }),
    )

unfoldable pub is_eligible : SubjectType → ℕ → Context → ℕ → M Db Bool
is_eligible t subject c now = do
  result ← evaluate t subject c now
  return (not (is_non_compliant result.status))

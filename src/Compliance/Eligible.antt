-- ===== src/Compliance/Eligible.antt =====
-- What an answer of the gate rests on (apps/api/src/compliance/compliance.service.ts).
use kruze.Base.{
  ℕ, ◌+◌, ◌*◌, ◌≤◌, ◌<◌, ◌≡◌, refl, ◌⊎◌, inl, inr, true, false, none, some, List, [], ◌∷◌, Memᴰ,
  ltb, ◌==◌, or_else, arith, Bool-cases, Option-cases, keep-mem,
}
use kruze.Base.Effects.{ok}
use kruze.Compliance.{
  SubjectType, blocking, Rule, Document, Db, Context, same_subject, is_verified, is_non_compliant,
  day_ms, applicable_rules, latest, document_status, matching_document, rule_status, failures,
  verified_documents, evaluate, is_eligible,
}

-- A document that satisfies a rule at a time: of its type, and undated or not past its grace.
abbrev pub InDate : Rule → ℕ → Document → Type 0
InDate r now d =
    (d.expiry_date ≡ none)
    ⊎ ((e : ℕ) × (d.expiry_date ≡ some e) × (now < e + r.max_expiry_grace_days * day_ms))

-- The subject holds a verified document that satisfies the rule.
pub record Covered (t : SubjectType) (subject now : ℕ) (docs : List Document) (r : Rule)
    : Type 0 where
  pub document : Document
  pub listed : Memᴰ document docs
  pub owned : (same_subject document.entity_type t ≡ true) × (document.entity_id ≡ subject)
  pub verified : is_verified document.status ≡ true
  pub typed : document.doc_type ≡ r.doc_type
  pub in_date : InDate r now document

pub latest-mem : (ds : List Document) (d : Document) → latest ds ≡ some d → Memᴰ d ds
unfolding latest
latest-mem [] d h = absurd (ground arith)
latest-mem (x ∷ ds) d h = elim (Option-cases (latest ds)) [
  | inl empty ↦ Memᴰ.head (ground arith)
  | inr (e, found) ↦ elim (Bool-cases (ltb (or_else x.expiry_date 0) (or_else e.expiry_date 0))) [
    | inl later ↦ Memᴰ.tail (latest-mem ds d (ground arith))
    | inr first ↦ Memᴰ.head (ground arith)
  ]
]

pub latest-max :
    (ds : List Document) (x : Document)
    → Memᴰ x ds
    → (d : Document) × (latest ds ≡ some d) × (or_else x.expiry_date 0 ≤ or_else d.expiry_date 0)
unfolding latest
latest-max [] x m = elim m [ ]
latest-max (y ∷ ds) x (Memᴰ.head e) = elim (Option-cases (latest ds)) [
  | inl empty ↦ rw (empty, latest) (y, refl, rw e (omega arith))
  | inr (d, found) ↦ elim (Bool-cases (ltb (or_else y.expiry_date 0) (or_else d.expiry_date 0))) [
    | inl later ↦ (d, ground arith, rw e (ground arith))
    | inr first ↦ (y, ground arith, rw e (omega arith))
  ]
]
latest-max (y ∷ ds) x (Memᴰ.tail m) =
    let (d, found, most) = latest-max ds x m in
    elim (Bool-cases (ltb (or_else y.expiry_date 0) (or_else d.expiry_date 0))) [
      | inl later ↦ (d, ground arith, most)
      | inr first ↦ (y, ground arith, ground arith)
    ]

failures-nil :
    (now : ℕ) (docs : List Document) (rs : List Rule) (r : Rule)
    → failures now docs rs ≡ []
    → Memᴰ r rs
    → r.severity ≡ blocking
    → is_non_compliant (rule_status r now docs) ≡ false
unfolding failures
failures-nil now docs [] r h m b = elim m [ ]
failures-nil now docs (x ∷ rs) r h (Memᴰ.head e) b =
    rw e (let b' : x.severity ≡ blocking = rw e at b in ground arith)
failures-nil now docs (x ∷ rs) r h (Memᴰ.tail m) b = failures-nil now docs rs r (ground arith) m b

InDate-of_status :
    (r : Rule) (now : ℕ) (d : Document)
    → is_non_compliant (document_status r now (some d)) ≡ false
    → InDate r now d
unfolding document_status
InDate-of_status r now d h = elim (Option-cases d.expiry_date) [
  | inl undated ↦ inl undated
  | inr (e, dated) ↦ inr (e, dated, ground arith)
]

failures_of_eligible :
    (t : SubjectType) (subject : ℕ) (c : Context) (now : ℕ) (db : Db)
    → (is_eligible t subject c now db).1 ≡ ok true
    → failures now (verified_documents t subject db.documents) (applicable_rules t c db.rules) ≡ []
unfolding is_eligible evaluate
failures_of_eligible t subject c now db h = ground arith

Covered-of_document :
    (t : SubjectType) (subject now : ℕ) (docs : List Document) (r : Rule) (d : Document)
    → matching_document r.doc_type (verified_documents t subject docs) ≡ some d
    → InDate r now d
    → Covered t subject now docs r
unfolding matching_document verified_documents
Covered-of_document t subject now docs r d found dated =
    let (kept, typed) = keep-mem (λ x. x.doc_type == r.doc_type) _ d (latest-mem _ d found) in
    let (listed, passed) = keep-mem _ docs d kept in
    record {
      document = d;
      listed = listed;
      owned = ground arith;
      verified = ground arith;
      typed = ground arith;
      in_date = dated;
    }

Covered-of_status :
    (t : SubjectType) (subject now : ℕ) (docs : List Document) (r : Rule)
    → is_non_compliant (rule_status r now (verified_documents t subject docs)) ≡ false
    → Covered t subject now docs r
unfolding rule_status document_status
Covered-of_status t subject now docs r h =
    elim (Option-cases (matching_document r.doc_type (verified_documents t subject docs))) [
      | inl missing ↦ absurd (ground arith)
      | inr (d, found) ↦
          Covered-of_document t subject now docs r d found
            (InDate-of_status r now d (rw found at h))
    ]

-- A subject that the gate clears holds, for each blocking rule that applies to it, a verified
-- document of the rule's type that is undated or not past its grace period.
pub is_eligible-Covered :
    (t : SubjectType) (subject : ℕ) (c : Context) (now : ℕ) (db : Db)
    → (is_eligible t subject c now db).1 ≡ ok true
    → (r : Rule) → Memᴰ r (applicable_rules t c db.rules)
    → r.severity ≡ blocking
    → Covered t subject now db.documents r
is_eligible-Covered t subject c now db h r m b = Covered-of_status t subject now db.documents r (
    failures-nil now (verified_documents t subject db.documents) (applicable_rules t c db.rules) r
      (failures_of_eligible t subject c now db h) m b)

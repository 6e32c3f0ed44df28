-- ===== src/Compliance/Dated.antt =====
-- When the gate clears a subject, and how an undated document is passed over
-- (apps/api/src/compliance/compliance.service.ts).
use kruze.Base.{
  ℕ, ◌+◌, ◌*◌, ◌≤◌, ◌<◌, ◌≡◌, refl, ◌≢◌, true, false, none, some, List, [], ◌∷◌, Memᴰ, ◌==◌,
  or_else, keep, arith, mem-keep, keep-mem,
}
use kruze.Base.Effects.{ok}
use kruze.Compliance.{
  SubjectType, blocking, Rule, Document, Db, Context, is_non_compliant, day_ms, applicable_rules,
  document_status, matching_document, rule_status, failures, verified_documents, evaluate,
  is_eligible,
}
use kruze.Compliance.Eligible.{Covered, InDate, latest-mem, latest-max}

failures_empty :
    (now : ℕ) (docs : List Document) (rs : List Rule)
    → ((r : Rule)
        → Memᴰ r rs
        → r.severity ≡ blocking
        → is_non_compliant (rule_status r now docs) ≡ false)
    → failures now docs rs ≡ []
unfolding failures
failures_empty now docs [] h = refl
failures_empty now docs (r ∷ rs) h =
    ground (arith, h r (Memᴰ.head refl), failures_empty now docs rs (λ x m. h x (Memᴰ.tail m)))

covering-mem :
    (t : SubjectType) (subject now : ℕ) (docs : List Document) (r : Rule)
    → (v : Covered t subject now docs r)
    → Memᴰ v.document (keep (λ d. d.doc_type == r.doc_type) (verified_documents t subject docs))
unfolding verified_documents
covering-mem t subject now docs r v =
    mem-keep (λ d. d.doc_type == r.doc_type) (verified_documents t subject docs) v.document
      (mem-keep _ docs v.document v.listed (ground (arith, v.owned, v.verified)))
      (ground (arith, v.typed))

status_of_latest :
    (r : Rule) (now : ℕ) (x d : Document)
    → InDate r now x
    → x.expiry_date ≢ none
    → d.expiry_date ≢ none
    → or_else x.expiry_date 0 ≤ or_else d.expiry_date 0
    → is_non_compliant (document_status r now (some d)) ≡ false
unfolding document_status
status_of_latest r now x d good xd dd most = ground arith

status_of_Covered :
    (t : SubjectType) (subject now : ℕ) (docs : List Document) (r : Rule)
    → ((d : Document) → Memᴰ d docs → d.expiry_date ≢ none)
    → Covered t subject now docs r
    → is_non_compliant (rule_status r now (verified_documents t subject docs)) ≡ false
unfolding rule_status verified_documents
status_of_Covered t subject now docs r dated v =
    let (d, found, most) = latest-max _ v.document (covering-mem t subject now docs r v) in
    let (kept, typed) = keep-mem (λ x. x.doc_type == r.doc_type) _ d (latest-mem _ d found) in
    let (listed, passed) = keep-mem _ docs d kept in
    rw found (
      status_of_latest r now v.document d v.in_date (dated v.document v.listed) (dated d listed)
        most)

-- Where every document carries an expiry date, a subject that holds for each blocking rule that
-- applies to it a verified document not past its grace period is cleared.
pub Covered-is_eligible :
    (t : SubjectType) (subject : ℕ) (c : Context) (now : ℕ) (db : Db)
    → ((d : Document) → Memᴰ d db.documents → d.expiry_date ≢ none)
    → ((r : Rule)
        → Memᴰ r (applicable_rules t c db.rules)
        → r.severity ≡ blocking
        → Covered t subject now db.documents r)
    → (is_eligible t subject c now db).1 ≡ ok true
unfolding is_eligible evaluate
Covered-is_eligible t subject c now db dated covered =
    rw
      (failures_empty now (verified_documents t subject db.documents)
        (applicable_rules t c db.rules)
        (λ r m b. status_of_Covered t subject now db.documents r dated (covered r m b)))
      (ground arith)

-- An expiry date past its grace period at a time.
abbrev pub Lapsed : Rule → ℕ → Document → Type 0
Lapsed r now d =
    (e : ℕ) × (d.expiry_date ≡ some e) × (0 < e) × (e + r.max_expiry_grace_days * day_ms ≤ now)

dated_of_latest :
    (x d : Document) {e : ℕ}
    → x.expiry_date ≡ some e
    → 0 < e
    → or_else x.expiry_date 0 ≤ or_else d.expiry_date 0
    → d.expiry_date ≢ none
dated_of_latest x d dated pos most = ground arith

Lapsed-dated :
    (r : Rule) (now : ℕ) (d : Document)
    → Lapsed r now d
    → is_non_compliant (document_status r now (some d)) ≡ true
unfolding document_status
Lapsed-dated r now d (e, dated, pos, past) = ground arith

-- Where some document of a rule's type has lapsed and every dated one has, the rule is not met,
-- whatever undated documents of that type the subject also holds.
pub undated_passed_over :
    (r : Rule) (now : ℕ) (docs : List Document) (x : Document)
    → Memᴰ x docs
    → x.doc_type ≡ r.doc_type
    → Lapsed r now x
    → ((d : Document)
        → Memᴰ d docs
        → d.doc_type ≡ r.doc_type
        → d.expiry_date ≢ none
        → Lapsed r now d)
    → is_non_compliant (rule_status r now docs) ≡ true
unfolding rule_status matching_document
undated_passed_over r now docs x listed typed lapsed all_lapsed =
    let (d, found, most) = latest-max _ x (mem-keep _ docs x listed (ground arith)) in
    let (member, same) = keep-mem (λ y. y.doc_type == r.doc_type) docs d (latest-mem _ d found) in
    rw found (
      Lapsed-dated r now d
        (all_lapsed d member (ground arith) (dated_of_latest x d lapsed.1 lapsed.2 most)))

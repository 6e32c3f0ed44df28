-- ===== src/Compliance/Samples.antt =====
-- Samples: a driver with a licence (apps/api/src/compliance/compliance.service.ts).
use kruze.Base.{
  ℕ, ◌≡◌, ◌≢◌, refl, ap, Bool, true, false, Option, none, some, List, [], ◌∷◌, Memᴰ, arith,
}
use kruze.Base.Effects.{ok, err, forbidden}
use kruze.Domain.{AuthenticatedUser, PlatformRole, is_super_admin}
use kruze.Compliance.Documents
use kruze.Compliance.Documents.{create, verify}
use kruze.Compliance.Uploaded.{upload_inert}
use kruze.Compliance.{
  SubjectType, Scope, blocking, DocumentStatus, Rule, Document, Db, Context, is_non_compliant,
  applicable_rules, rule_status, evaluate, is_eligible,
}
use kruze.Compliance.Eligible.{Covered, is_eligible-Covered}
use kruze.Compliance.Dated.{Lapsed, Covered-is_eligible, undated_passed_over}

abbrev licence_rule : Rule
licence_rule = record {
  id = 1;
  scope = Scope.global;
  scope_org_id = none;
  subject_type = SubjectType.driver;
  doc_type = 3;
  max_expiry_grace_days = 0;
  severity = blocking;
  active = true;
}

abbrev licence : ℕ → Option ℕ → Document
licence id expiry = record {
  id = id;
  entity_type = SubjectType.driver;
  entity_id = 7;
  doc_type = 3;
  expiry_date = expiry;
  status = DocumentStatus.verified;
}

abbrev licensed : Db
licensed = record {
  rules = licence_rule ∷ [];
  documents = licence 5 (some 1000) ∷ [];
  evaluations = [];
}

abbrev any_context : Context
any_context = record { vendor_org_id = none; corporate_org_id = some 10 }

cleared : (is_eligible SubjectType.driver 7 any_context 900 licensed).1 ≡ ok true
unfolding is_eligible evaluate
cleared = refl

licence_applies : Memᴰ licence_rule (applicable_rules SubjectType.driver any_context licensed.rules)
unfolding applicable_rules
licence_applies = Memᴰ.head refl

is_eligible-Covered_example : Covered SubjectType.driver 7 900 licensed.documents licence_rule
is_eligible-Covered_example =
    is_eligible-Covered SubjectType.driver 7 any_context 900 licensed cleared licence_rule
      licence_applies refl

only_rule :
    (r : Rule)
    → Memᴰ r (applicable_rules SubjectType.driver any_context licensed.rules)
    → r ≡ licence_rule
unfolding applicable_rules
only_rule r (Memᴰ.head e) = e
only_rule r (Memᴰ.tail m) = elim m [ ]

dated_licence : (d : Document) → Memᴰ d licensed.documents → d.expiry_date ≢ none
dated_licence d (Memᴰ.head e) h = ground (arith, ap (λ x. x.expiry_date) e, h)
dated_licence d (Memᴰ.tail m) h = elim m [ ]

Covered-is_eligible_example :
    (is_eligible SubjectType.driver 7 any_context 900 licensed).1 ≡ ok true
Covered-is_eligible_example =
    Covered-is_eligible SubjectType.driver 7 any_context 900 licensed dated_licence
      (λ r m b. rw (only_rule r m) is_eligible-Covered_example)

abbrev lapsed_and_undated : List Document
lapsed_and_undated = licence 5 (some 1000) ∷ licence 6 none ∷ []

Lapsed-licence : Lapsed licence_rule 2000 (licence 5 (some 1000))
Lapsed-licence = (1000, refl, ground arith, ground arith)

each_dated-Lapsed :
    (d : Document)
    → Memᴰ d lapsed_and_undated
    → d.doc_type ≡ licence_rule.doc_type
    → d.expiry_date ≢ none
    → Lapsed licence_rule 2000 d
each_dated-Lapsed d (Memᴰ.head e) typed dated = rw e Lapsed-licence
each_dated-Lapsed d (Memᴰ.tail (Memᴰ.head e)) typed dated =
    absurd (dated (ap (λ x. x.expiry_date) e))
each_dated-Lapsed d (Memᴰ.tail (Memᴰ.tail m)) typed dated = elim m [ ]

undated_passed_over_example :
    is_non_compliant (rule_status licence_rule 2000 lapsed_and_undated) ≡ true
undated_passed_over_example =
    undated_passed_over licence_rule 2000 lapsed_and_undated (licence 5 (some 1000))
      (Memᴰ.head refl) refl Lapsed-licence each_dated-Lapsed

-- A vendor's upload of a licence that has not lapsed, for its driver.
abbrev vendor_admin : AuthenticatedUser
vendor_admin = record { user_id = 2; organisation_id = 20; role = PlatformRole.vendor_admin }

abbrev filed : Documents.Db
filed = record {
  gate = record { rules = licence_rule ∷ []; documents = []; evaluations = [] };
  driver_vendors = record { resource_id = 7; vendor_org_id = 20; active = true } ∷ [];
  vehicle_vendors = [];
  guard_vendors = [];
  next_id = 1;
}

upload_inert_example :
    ((t : SubjectType) (subject : ℕ) (c : Context) (now : ℕ)
      → (is_eligible t subject c now
          (create vendor_admin SubjectType.driver 7 3 (some 9000) filed).0.gate).1
        ≡ (is_eligible t subject c now filed.gate).1)
    × ((id : ℕ) (approve : Bool)
        → is_super_admin vendor_admin.role ≡ false
        → verify vendor_admin id approve filed ≡ (filed, err forbidden))
upload_inert_example = upload_inert vendor_admin SubjectType.driver 7 3 (some 9000) filed

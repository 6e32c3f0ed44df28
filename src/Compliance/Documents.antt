-- ===== src/Compliance/Documents.antt =====
-- apps/api/src/compliance/document.service.ts, resource-ownership.util.ts and the `create` of
-- compliance-rule.service.ts. Of a document's columns the model keeps those that the gate reads, and
-- who verified it is left out.
use kruze.Base.{
  ℕ, suc, Bool, true, false, ◌||◌, Option, List, [], ◌∷◌, map, ◌==◌, any, keep, or_else, ◌&&◌,
}
use kruze.Base.Rows.{find_unique, update_row}
use kruze.Base.Effects.{
  forbidden, record_missing, ok, M, gets, or_throw, modify, require, ◌>>=◌, ◌>>◌,
}
use kruze.Domain.{AuthenticatedUser, is_super_admin}
use kruze.Maintenance.{Link}
use kruze.Compliance
use kruze.Compliance.{SubjectType, Scope, Severity, DocumentStatus, Rule, Document}

pub record Db : Type 0 where
  pub gate : Compliance.Db
  pub driver_vendors : List Link
  pub vehicle_vendors : List Link
  pub guard_vendors : List Link
  pub next_id : ℕ

abbrev pub document_key : Document → ℕ
document_key d = d.id

abbrev vendors_of : ℕ → List Link → List ℕ
vendors_of id links = map (λ l. l.vendor_org_id) (keep (λ l. l.resource_id == id && l.active) links)

-- `resolveOwningVendorOrgIds`
unfoldable pub owning_vendor_org_ids : SubjectType → ℕ → Db → List ℕ
owning_vendor_org_ids SubjectType.driver id db = vendors_of id db.driver_vendors
owning_vendor_org_ids SubjectType.vehicle id db = vendors_of id db.vehicle_vendors
owning_vendor_org_ids SubjectType.guard id db = vendors_of id db.guard_vendors
owning_vendor_org_ids SubjectType.vendor id db = id ∷ []

-- the negation of the test that `create` and `listForEntity` refuse by
unfoldable pub manages : AuthenticatedUser → SubjectType → ℕ → Db → Bool
manages actor type id db =
    any (λ o. o == actor.organisation_id) (owning_vendor_org_ids type id db)
    || is_super_admin actor.role

unfoldable pub new_document : ℕ → SubjectType → ℕ → ℕ → Option ℕ → Document
new_document id type entity doc_type expiry = record {
  id = id;
  entity_type = type;
  entity_id = entity;
  doc_type = doc_type;
  expiry_date = expiry;
  status = DocumentStatus.pending;
}

unfoldable pub insert_document : SubjectType → ℕ → ℕ → Option ℕ → M Db Document
unfolding new_document
insert_document type entity doc_type expiry db =
    let document = new_document db.next_id type entity doc_type expiry in
    (
      record db {
        gate = record db.gate { documents = document ∷ db.gate.documents };
        next_id = suc db.next_id;
      },
      ok document,
    )

unfoldable pub create : AuthenticatedUser → SubjectType → ℕ → ℕ → Option ℕ → M Db Document
create actor type entity doc_type expiry = do
  owned ← gets (manages actor type entity)
  require owned forbidden
  insert_document type entity doc_type expiry

abbrev pub verdict : Bool → DocumentStatus
verdict true = DocumentStatus.verified
verdict false = DocumentStatus.rejected

unfoldable pub verify : AuthenticatedUser → ℕ → Bool → M Db (Unit {0})
verify actor id approve = do
  require (is_super_admin actor.role) forbidden
  found ← gets (λ db. find_unique document_key id db.gate.documents)
  d ← or_throw found record_missing
  modify (λ db. record db {
    gate = record db.gate {
      documents =
          update_row document_key id (λ x. record x { status = verdict approve }) db.gate.documents;
    };
  })

unfoldable pub list_for_entity : AuthenticatedUser → SubjectType → ℕ → M Db (List Document)
list_for_entity actor type entity = do
  owned ← gets (manages actor type entity)
  require owned forbidden
  gets (λ db.
      keep (λ d. Compliance.same_subject d.entity_type type && d.entity_id == entity)
        db.gate.documents)

pub record RuleInput : Type 0 where
  pub scope : Scope
  pub scope_org_id : Option ℕ
  pub subject_type : SubjectType
  pub doc_type : ℕ
  pub max_expiry_grace_days : Option ℕ
  pub severity : Option Severity
  pub active : Option Bool

unfoldable pub create_rule : RuleInput → Db → Db
create_rule input db = record db {
  gate = record db.gate {
    rules =
        record {
          id = db.next_id;
          scope = input.scope;
          scope_org_id = input.scope_org_id;
          subject_type = input.subject_type;
          doc_type = input.doc_type;
          max_expiry_grace_days = or_else input.max_expiry_grace_days 0;
          severity = or_else input.severity Severity.blocking;
          active = or_else input.active true;
        }
        ∷ db.gate.rules;
  };
  next_id = suc db.next_id;
}

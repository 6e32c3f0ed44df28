-- ===== src/Compliance/Uploaded.antt =====
-- What an upload changes for the gate (apps/api/src/compliance/document.service.ts).
use kruze.Base.{ℕ, ◌≡◌, refl, ◌⊎◌, inl, inr, Bool, false, Option, List, ◌∷◌, arith, Bool-cases}
use kruze.Base.Effects.{forbidden, err}
use kruze.Domain.{AuthenticatedUser, is_super_admin}
use kruze.Compliance
use kruze.Compliance.{SubjectType, Context, Document, verified_documents, is_eligible}
use kruze.Compliance.Documents.{Db, create, insert_document, new_document, verify, manages}

gate_same :
    (t : SubjectType) (subject : ℕ) (c : Context) (now : ℕ) (a b : Compliance.Db)
    → a.rules ≡ b.rules
    → verified_documents t subject a.documents ≡ verified_documents t subject b.documents
    → (is_eligible t subject c now a).1 ≡ (is_eligible t subject c now b).1
unfolding is_eligible Compliance.evaluate
gate_same t subject c now a b rules documents = rw (rules, documents) refl

pending_unseen :
    (t : SubjectType) (subject id : ℕ) (type : SubjectType) (entity doc_type : ℕ)
    (expiry : Option ℕ) (rows : List Document)
    → verified_documents t subject (new_document id type entity doc_type expiry ∷ rows)
      ≡ verified_documents t subject rows
unfolding verified_documents new_document
pending_unseen t subject id type entity doc_type expiry rows = ground arith

create_cases :
    (actor : AuthenticatedUser) (type : SubjectType) (entity doc_type : ℕ) (expiry : Option ℕ)
    (db : Db)
    → ((create actor type entity doc_type expiry db).0.gate ≡ db.gate)
      ⊎ ((create actor type entity doc_type expiry db).0.gate ≡ record db.gate {
        documents = new_document db.next_id type entity doc_type expiry ∷ db.gate.documents;
      })
unfolding create insert_document
create_cases actor type entity doc_type expiry db =
    elim (Bool-cases (manages actor type entity db)) [
      | inl owned ↦ inr (ground (arith, owned))
      | inr not_owned ↦ inl (ground (arith, not_owned))
    ]

verify_refused :
    (actor : AuthenticatedUser) (db : Db) (id : ℕ) (approve : Bool)
    → is_super_admin actor.role ≡ false
    → verify actor id approve db ≡ (db, err forbidden)
unfolding verify
verify_refused actor db id approve h = ground (arith, h)

-- Nobody's upload moves the gate: whatever is uploaded, by whom, for which subject, every subject is as
-- eligible as before, in every context and at every time. And no one but a super admin changes a document
-- that is there.
pub upload_inert :
    (actor : AuthenticatedUser) (type : SubjectType) (entity doc_type : ℕ) (expiry : Option ℕ)
    (db : Db)
    → ((t : SubjectType) (subject : ℕ) (c : Context) (now : ℕ)
        → (is_eligible t subject c now (create actor type entity doc_type expiry db).0.gate).1
          ≡ (is_eligible t subject c now db.gate).1)
      × ((id : ℕ) (approve : Bool)
          → is_super_admin actor.role ≡ false
          → verify actor id approve db ≡ (db, err forbidden))
upload_inert actor type entity doc_type expiry db = (
  λ t subject c now. elim (create_cases actor type entity doc_type expiry db) [
    | inl same ↦ rw same refl
    | inr added ↦ rw added (
        gate_same t subject c now _ db.gate refl
          (pending_unseen t subject db.next_id type entity doc_type expiry db.gate.documents))
  ],
  verify_refused actor db,
)

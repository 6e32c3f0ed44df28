-- ===== src/Fleet/Taken.antt =====
-- A number whose identity has a login, and what the requests to the service leave of that
-- (apps/api/src/driver/driver.service.ts).
use kruze.Base.{
  ℕ, ◌≡◌, refl, sym, ap, ◌∙◌, ◌⊎◌, inl, inr, Bool, true, false, ◌||◌, none, some, List, [], ◌∷◌,
  ◌==◌, any, any-false, is_some, find?, find?-mem, find?-holds, arith, Bool-cases, Option-cases,
}
use mathlib.Core.Path.{subst}
use kruze.Base.Rows.{update_row, find?-update_where}
use kruze.Base.Effects.{Error, run-cases, bad_request, conflict, ok, err}
use kruze.Domain.{PlatformRole}
use kruze.Organisation.Tenants.{same_digits}
use kruze.Employee.{User}
use kruze.Fleet.{
  Identity, Db, identity_key, has_number, active_vendors, insert_user, link_user, create_for_vendor,
  new_identity, claim_account,
}

same_digits-eq : (ds es : List ℕ) → same_digits ds es ≡ true → ds ≡ es
same_digits-eq [] [] h = refl
same_digits-eq [] (e ∷ es) h = absurd (ground (arith, h))
same_digits-eq (d ∷ ds) [] h = absurd (ground (arith, h))
same_digits-eq (d ∷ ds) (e ∷ es) h = ground (arith, h, same_digits-eq ds es (ground (arith, h)))

-- a request to the service, of any caller
pub data Request : Type 0 where
  creates : ℕ → ℕ → ℕ → Request
  claims : List ℕ → ℕ → ℕ → Request

module _ (role : PlatformRole) where
  unfoldable step : Db → Request → Db
  step db (creates vendor name phone) = (create_for_vendor vendor name phone db).0
  step db (claims number phone email) = (claim_account role number phone email db).0

  unfoldable pub run : Db → List Request → Db
  unfolding step
  run db [] = db
  run db (r ∷ rs) = run (step db r) rs

module _ (role : PlatformRole) (global_no : List ℕ) where
  -- the tables after a claim that succeeds
  abbrev pub after_claim : (email : ℕ) (i : Identity) (db : Db) → Db
  after_claim email i db =
      link_user role i.id db.next_id (active_vendors i.id db.vendors) (insert_user email db).0

  pub claimed_cases :
      (phone email : ℕ) (db : Db) (u : User)
      → (claim_account role global_no phone email db).1 ≡ ok u
      → (i : Identity) × (find? (has_number global_no) db.identities ≡ some i)
        × (i.user_id ≡ none)
        × (u.id ≡ db.next_id)
        × ((claim_account role global_no phone email db).0 ≡ after_claim email i db)
  unfolding claim_account insert_user
  claimed_cases phone email db u done =
      elim (Option-cases (find? (has_number global_no) db.identities)) [
        | inl missing ↦ absurd (ground arith)
        | inr (i, found) ↦ (i, found, ground arith, ground arith, ground arith)
      ]

  refused-unchanged :
      (phone email : ℕ) (db : Db) (e : Error)
      → (claim_account role global_no phone email db).1 ≡ err e
      → (claim_account role global_no phone email db).0 ≡ db
  unfolding claim_account insert_user
  refused-unchanged phone email db e refused =
      elim (Option-cases (find? (has_number global_no) db.identities)) [
        | inl missing ↦ ground arith
        | inr (i, found) ↦ ground arith
      ]

  -- Of the identities, a claim changes the logins of those with one identifier, if any.
  claim-rows :
      (phone email : ℕ) (db : Db)
      → ((claim_account role global_no phone email db).0 ≡ db)
        ⊎ ((id : ℕ) × (user : ℕ) × ((claim_account role global_no phone email db).0.identities
              ≡ update_row identity_key id (λ i. record i { user_id = some user }) db.identities))
  unfolding link_user insert_user
  claim-rows phone email db = elim (run-cases (claim_account role global_no phone email db)) [
    | inr (e, refused) ↦ inl (refused-unchanged phone email db e (ap (λ r. r.1) refused))
    | inl (u, done) ↦
        let (i, found, free, new_id, result) =
          claimed_cases phone email db u (ap (λ r. r.1) done) in
        inr (i.id, db.next_id, ap (λ s. s.identities) result)
  ]

module _ (role : PlatformRole) (global_no : List ℕ) where
  -- the number is that of an identity which has a login
  pub record Taken (db : Db) : Type 0 where
    pub identity : Identity
    pub found : find? (has_number global_no) db.identities ≡ some identity
    pub taken : is_some identity.user_id ≡ true

  pub refused_again :
      (phone email : ℕ) (db : Db)
      → Taken db
      → (e : Error) × (claim_account role global_no phone email db ≡ (db, err e))
  unfolding claim_account
  refused_again phone email db t = elim (Bool-cases (t.identity.phone == phone)) [
    | inl known ↦ (conflict, ground (arith, t.found, t.taken, known))
    | inr other ↦ (bad_request, ground (arith, t.found, other))
  ]

  -- a login that is given to any identity leaves those that have one with one
  linked_still :
      (id user : ℕ) (rows : List Identity) (i : Identity)
      → find? (has_number global_no) rows ≡ some i
      → is_some i.user_id ≡ true
      → (j : Identity) × (find?
            (has_number global_no)
            (update_row identity_key id (λ x. record x { user_id = some user }) rows)
          ≡ some j)
        × (is_some j.user_id ≡ true)
  linked_still id user rows i found taken =
      let moved =
        find?-update_where (has_number global_no) (λ j. identity_key j == id)
          (λ j. record j { user_id = some user }) rows (λ j. refl) in
      elim (Bool-cases (identity_key i == id)) [
        | inl hit ↦ (record i { user_id = some user }, moved ∙ rw found (ground (arith, hit)), refl)
        | inr miss ↦ (i, moved ∙ rw found (ground (arith, miss)), taken)
      ]

  own_number :
      (new old : Identity) (rows : List Identity)
      → find? (has_number global_no) rows ≡ some old
      → has_number new.global_no old ≡ false
      → has_number global_no new ≡ false
  own_number new old rows found other = elim (Bool-cases (has_number global_no new)) [
    | inr apart ↦ apart
    | inl hit ↦
        let same = same_digits-eq new.global_no global_no hit in
        absurd (
          ground (
            arith,
            find?-holds (has_number global_no) rows old found,
            ap (λ ds. same_digits old.global_no ds) same,
            other,
          ))
  ]

  create-Taken :
      (vendor name phone : ℕ) (db : Db)
      → Taken db
      → Taken (create_for_vendor vendor name phone db).0
  unfolding create_for_vendor
  create-Taken vendor name phone db t =
      let i = new_identity name phone db in
      let p : Identity → Bool = λ j. has_number i.global_no j || j.phone == phone in
      elim (Bool-cases (any p db.identities)) [
        | inl used ↦ rw (used, create_for_vendor) t
        | inr fresh ↦
            let other =
              any-false p db.identities t.identity fresh
                (find?-mem (has_number global_no) db.identities t.identity t.found) in
            let apart : has_number global_no i ≡ false =
              own_number i t.identity db.identities t.found (ground (arith, other)) in
            rw (fresh, create_for_vendor)
              (record {
                identity = t.identity;
                found = ground (arith, apart, t.found);
                taken = t.taken;
              })
      ]

  claim-Taken :
      (number : List ℕ) (phone email : ℕ) (db : Db)
      → Taken db
      → Taken (claim_account role number phone email db).0
  claim-Taken number phone email db t = elim (claim-rows role number phone email db) [
    | inl same ↦ subst Taken (sym same) t
    | inr (id, user, rows) ↦
        let (j, found, taken) = linked_still id user db.identities t.identity t.found t.taken in
        record {
          identity = j;
          found = ap (find? (has_number global_no)) rows ∙ found;
          taken = taken;
        }
  ]

  pub run-Taken : (rs : List Request) (db : Db) → Taken db → Taken (run role db rs)
  unfolding run step
  run-Taken [] db t = t
  run-Taken (creates vendor name phone ∷ rs) db t =
      run-Taken rs _ (create-Taken vendor name phone db t)
  run-Taken (claims number phone email ∷ rs) db t =
      run-Taken rs _ (claim-Taken number phone email db t)

-- ===== src/ClaimStore/Keys.antt =====
-- Idempotency keys under `CreateClaim` (internal/store/claim.go): a retry of a request makes no second
-- claim.
use claw_hub.Prelude.{
  ◌⊎◌, ok-injective, ◌∙◌, sym, ℕ, Bool, true, false, some, List, [], ◌∷◌, any, find?, ok, is_ok,
  ◌≡◌, ◌≢◌, ap, inl, inr, arith, Bool-cases,
}
use claw_hub.Prelude.Texts.{text_eq_refl}
use claw_hub.ClaimStore.Table.{
  insert_claim, Row, Db, CreateClaimInput, CreateClaimResult, Look, inserted, same_key,
  claim_by_key, create_claim, create_outcome, inserted_row,
}

any-find? {ℓ} :
    {A : Type ℓ} (p : A → Bool) (xs : List A) → any p xs ≡ true → (x : A) × (find? p xs ≡ some x)
any-find? p [] h = cc
any-find? p (x ∷ xs) h = elim (Bool-cases (p x)) [
  | inl e ↦ (x, rw e)
  | inr e ↦ let (y, q) = any-find? p xs (rw e at h) in (y, rw e q)
]

find?-any {ℓ} :
    {A : Type ℓ} (p : A → Bool) (xs : List A) {x : A} → find? p xs ≡ some x → any p xs ≡ true
find?-any p [] h = cc
find?-any p (x ∷ xs) h = elim (Bool-cases (p x)) [
  | inl e ↦ rw e
  | inr e ↦ rw e (find?-any p xs (rw e at h))
]

module _ (in' : CreateClaimInput) (id now : ℕ) (db : Db) where
  -- Where nothing fails and no other transaction is under way `CreateClaim` gives a claim, new or old.
  pub create_claim_total : is_ok (create_claim in' id now db) ≡ true
  unfolding create_claim claim_by_key
  create_claim_total =
      elim (Bool-cases (any (same_key in'.row.claim.store_id in'.row.key) db.claims)) [
        | inr new ↦ rw new
        | inl old ↦ let (r, e) = any-find? _ db.claims old in rw (old, e)
      ]

  abbrev own : Row → Bool
  own = same_key in'.row.claim.store_id in'.row.key

  -- The result of `CreateClaim`, by whether the key is there.
  create_claim_new :
      any own db.claims ≡ false
      → create_claim in' id now db
        ≡ ok (
          record { id = id; status = in'.row.claim.status; created_at = now; existing = false },
          insert_claim in' id now db,
        )
  unfolding create_claim
  create_claim_new new = rw new

  create_claim_old :
      {r : Row}
      → find? own db.claims ≡ some r
      → create_claim in' id now db
        ≡ ok (
          record {
            id = r.claim.id;
            status = r.claim.status;
            created_at = r.claim.created_at;
            existing = true;
          },
          db,
        )
  unfolding create_claim claim_by_key
  create_claim_old e = rw (find?-any own db.claims e, e)

same_key_refl : (r : Row) → same_key r.claim.store_id r.key r ≡ true
unfolding same_key
same_key_refl r = rw (text_eq_refl r.key) (ground arith)

-- After `CreateClaim` the first row with the key is the claim that it returned.
create_claim_holder :
    (in' : CreateClaimInput) (id now : ℕ) (db db' : Db) (res : CreateClaimResult)
    → create_claim in' id now db ≡ ok (res, db')
    → (r : Row) × (find? (own in' id now db) db'.claims ≡ some r)
      × (r.claim.id ≡ res.id)
      × (r.claim.status ≡ res.status)
      × (r.claim.created_at ≡ res.created_at)
unfolding insert_claim
create_claim_holder in' id now db db' res h =
    elim (Bool-cases (any (own in' id now db) db.claims)) [
      | inr new ↦
          let q = ok-injective (sym (create_claim_new in' id now db new) ∙ h) in
          (
            inserted_row in' id now,
            rw (← ap (λ p. p.1.claims) q, same_key_refl (inserted_row in' id now)),
            ap (λ p. p.0.id) q,
            ap (λ p. p.0.status) q,
            ap (λ p. p.0.created_at) q,
          )
      | inl old ↦
          let (r, e) = any-find? _ db.claims old in
          let q = ok-injective (sym (create_claim_old in' id now db e) ∙ h) in
          (
            r,
            rw (← ap (λ p. p.1.claims) q) e,
            ap (λ p. p.0.id) q,
            ap (λ p. p.0.status) q,
            ap (λ p. p.0.created_at) q,
          )
    ]

-- A second call with the same store and key, with whatever else in it and at any time, returns the
-- claim of the first one, marked as existing, and writes nothing.
pub create_claim_retry :
    (in' again : CreateClaimInput) (id now id' later : ℕ) (db db' : Db) (res : CreateClaimResult)
    → again.row.claim.store_id ≡ in'.row.claim.store_id
    → again.row.key ≡ in'.row.key
    → create_claim in' id now db ≡ ok (res, db')
    → create_claim again id' later db' ≡ ok (record res { existing = true }, db')
create_claim_retry in' again id now id' later db db' res s k h =
    let (r, e, i, t, c) = create_claim_holder in' id now db db' res h in
    create_claim_old again id' later db' {r = r} (rw (s, k) e) ∙ rw (i, t, c)

-- Where another transaction already holds the key in both rounds, `CreateClaim` inserts nothing: it
-- returns a claim that it could read, or gives up.
pub create_outcome_race :
    (in' : CreateClaimInput) (id now : ℕ) (first second : Look) (res : CreateClaimResult)
    → any (same_key in'.row.claim.store_id in'.row.key) first.indexed ≡ true
    → any (same_key in'.row.claim.store_id in'.row.key) second.indexed ≡ true
    → create_outcome in' id now first second ≢ inserted res
unfolding create_outcome inserted_row
create_outcome_race in' id now first second res h k e = ground arith

-- `CreateClaim` writes nothing, or one new claim.
pub create_claim_writes :
    (in' : CreateClaimInput) (id now : ℕ) (db db' : Db) (res : CreateClaimResult)
    → create_claim in' id now db ≡ ok (res, db')
    → (db ≡ db') ⊎ (insert_claim in' id now db ≡ db')
create_claim_writes in' id now db db' res h =
    elim (Bool-cases (any (own in' id now db) db.claims)) [
      | inr new ↦ inr (ap (λ p. p.1) (ok-injective (sym (create_claim_new in' id now db new) ∙ h)))
      | inl old ↦
          let (r, e) = any-find? _ db.claims old in
          inl (ap (λ p. p.1) (ok-injective (sym (create_claim_old in' id now db e) ∙ h)))
    ]

-- It says which by `existing`.
pub create_claim_cases :
    (in' : CreateClaimInput) (id now : ℕ) (db db' : Db) (res : CreateClaimResult)
    → create_claim in' id now db ≡ ok (res, db')
    → ((res.existing ≡ true) × (db ≡ db'))
      ⊎ ((res.existing ≡ false) × (res.id ≡ id) × (insert_claim in' id now db ≡ db'))
create_claim_cases in' id now db db' res h = elim (Bool-cases (any (own in' id now db) db.claims)) [
  | inr new ↦
      let q = ok-injective (sym (create_claim_new in' id now db new) ∙ h) in
      inr (sym (ap (λ p. p.0.existing) q), sym (ap (λ p. p.0.id) q), ap (λ p. p.1) q)
  | inl old ↦
      let (r, e) = any-find? _ db.claims old in
      let q = ok-injective (sym (create_claim_old in' id now db e) ∙ h) in
      inl (sym (ap (λ p. p.0.existing) q), ap (λ p. p.1) q)
]

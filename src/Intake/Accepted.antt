-- ===== src/Intake/Accepted.antt =====
-- What `handleCreateClaim` of internal/httpapi/public.go leaves behind, in each of its outcomes.
use claw_hub.Risk.Verdict.{evaluate-IsOpening}
use claw_hub.Prelude.{
  ◌∷◌, Option-cases, any, Bool-cases, ◌⊎◌, if◌then◌else◌, inl, inr, ℕ, Bool, true, false, Option,
  none, some, take, length, Result, ok, err, ◌≡◌, refl, ltb,
}
use claw_hub.Prelude.Texts.{Text}
use claw_hub.ClaimStore.Table.{
  Row, settle, StoreError, same_key, found, gave_up, inserted, inserted_row, Look, attempt, Outcome,
  create_outcome, insert_claim, CreateClaimInput, CreateClaimResult, StoreError, claim_by_key,
}
use claw_hub.ClaimStore.Trail.{IsOpening}
use claw_hub.Risk.Rules.{Policy}
use claw_hub.Limits.Memory.{Memory, incr}
use claw_hub.Intake.Photos.{Media, cleanup_photos, IsFresh, cleanup-write, write_photos}
use claw_hub.Intake.Handler.{
  with_claims, machine_key, Reply, Refusal, hour, machine_claims_per_hour, unless_found, conclude,
  proceed, Request, Chance, World, Reply, created, Admitted, handle_create_claim, store_claim,
  write_claim, admit, claim_input, assess,
}

unfoldable pub is_created : Reply → Bool
is_created (created id) = true
is_created _ = false

-- No claim is announced, and the database and the storage of photos are as they were.
abbrev pub IsUntouched : World → Reply × World → Type 0
IsUntouched w out = (is_created out.0 ≡ false) × (out.1.db ≡ w.db) × (out.1.media ≡ w.media)

module _ (wide : ℕ → ℕ) (parse_time : Text → Option ℕ) (phone_hash account_hash : Text → ℕ)
    (policy : Policy) (req : Request) (c : Chance) (w : World) where
  -- The claim of the request is inserted, with its photos, which the storage has, in an opening status.
  pub record IsInserted (out : Reply × World) : Type 0 where
    pub admitted : Admitted
    pub checked : admit wide parse_time phone_hash account_hash policy req w ≡ ok admitted
    pub whole :
        (write_photos c.put_ok (take (length admitted.photos) c.keys) w.media).complete ≡ true
    pub answer : out.0 ≡ created c.id
    pub inserted : out.1.db ≡ (
        let photos = write_photos c.put_ok (take (length admitted.photos) c.keys) w.media in
        insert_claim
          (claim_input wide parse_time phone_hash account_hash policy admitted c w photos.keys)
          c.id
          c.now
          w.db)
    pub stored :
        out.1.media ≡ (write_photos c.put_ok (take (length admitted.photos) c.keys) w.media).media
    pub row : Row
    pub first : out.1.db.claims ≡ row ∷ w.db.claims
    pub opening : IsOpening row.claim.status
    pub whose :
        (row.claim.store_id ≡ admitted.machine.store_id)
        × (row.claim.machine_id ≡ admitted.machine.id)
        × (row.key ≡ admitted.key)
        × (row.phone_hash ≡ phone_hash admitted.form.phone)
        × (row.account_hash ≡ account_hash admitted.form.account)
    pub what :
        (row.claim.amount_krw ≡ admitted.form.amount_krw)
        × (row.claim.payment_method ≡ admitted.form.payment_method)
        × (row.claim.description ≡ admitted.form.description)
        × (row.claim.card_last4 ≡ admitted.form.card_last4)
        × (row.claim.paid_at_guess ≡ admitted.form.paid_at_guess)
        × (row.claim.created_at ≡ c.now)

  unfoldable pub IsAccounted : Reply × World → Type 0
  IsAccounted out = IsUntouched w out ⊎ IsInserted out

-- What the loop of `CreateClaim` can come to.
IsShaped : CreateClaimInput → ℕ → ℕ → Outcome → Type 0
IsShaped in' id now (inserted res) =
    res ≡ record { id = id; status = in'.row.claim.status; created_at = now; existing = false }
IsShaped in' id now (found res) = res.existing ≡ true
IsShaped in' id now gave_up = Unit

attempt-IsShaped :
    (in' : CreateClaimInput) (id now : ℕ) (look : Look) (rest : Outcome)
    → IsShaped in' id now rest
    → IsShaped in' id now (attempt in' id now look rest)
unfolding attempt inserted_row IsShaped
attempt-IsShaped in' id now look rest h =
    let store = in'.row.claim.store_id in
    elim (Bool-cases (any (same_key store in'.row.key) look.indexed)) [
      | inr n ↦ rw n refl
      | inl o ↦ elim (Option-cases (claim_by_key store in'.row.key look.readable)) [
        | inl e ↦ rw (o, e) h
        | inr e ↦ rw (o, e.1) refl
      ]
    ]

create_outcome-IsShaped :
    (in' : CreateClaimInput) (id now : ℕ) (first second : Look)
    → IsShaped in' id now (create_outcome in' id now first second)
unfolding create_outcome IsShaped
create_outcome-IsShaped in' id now first second =
    attempt-IsShaped in' id now first _ (attempt-IsShaped in' id now second gave_up tt)

pick : {X : Type 0} (P : X → Type 0) (b : Bool) (x y : X) → P x → P y → P (if b then x else y)
pick P true x y f g = f
pick P false x y f g = g

module _ (wide : ℕ → ℕ) (parse_time : Text → Option ℕ) (phone_hash account_hash : Text → ℕ)
    (policy : Policy) (req : Request) (c : Chance) (w : World) where
  abbrev Accounted : Reply × World → Type 0
  Accounted = IsAccounted wide parse_time phone_hash account_hash policy req c w

  untouched :
      (r : Reply) (w1 : World)
      → is_created r ≡ false
      → w1.db ≡ w.db
      → w1.media ≡ w.media
      → Accounted (r, w1)
  unfolding IsAccounted
  untouched r w1 n d m = inl (n, d, m)

  outcome-Accounted :
      (stores : Bool) (cache : Memory) (kept clean : Media) (in' : CreateClaimInput) (o : Outcome)
      → clean ≡ w.media
      → IsShaped in' c.id c.now o
      → IsInserted wide parse_time phone_hash account_hash policy req c w (
        created c.id,
        record w { cache = cache; db = insert_claim in' c.id c.now w.db; media = kept },
      )
      → Accounted (
          conclude
            (record w { cache = cache })
            kept
            clean
            (if stores then settle in' c.id c.now w.db o else err StoreError.failed))
  unfolding IsAccounted IsShaped is_created
  outcome-Accounted false cache kept clean in' o m h new = inl (refl, refl, m)
  outcome-Accounted true cache kept clean in' (inserted res) m h new = rw h (inr new)
  outcome-Accounted true cache kept clean in' (found res) m h new = rw h (inl (refl, refl, m))
  outcome-Accounted true cache kept clean in' gave_up m h new = inl (refl, refl, m)

  write-Accounted :
      (a : Admitted) (cache : Memory)
      → admit wide parse_time phone_hash account_hash policy req w ≡ ok a
      → ((k : Text) → c.delete_ok k ≡ true)
      → IsFresh (take (length a.photos) c.keys) w.media
      → Accounted (
          write_claim wide parse_time phone_hash account_hash policy a c
            (record w { cache = cache }))
  unfolding write_claim is_created insert_claim inserted_row claim_input assess
  write-Accounted a cache checked del f =
      let keys = take (length a.photos) c.keys in
      let out = write_photos c.put_ok keys w.media in
      let clean = cleanup-write c.put_ok c.delete_ok keys w.media del f in
      let in' = claim_input wide parse_time phone_hash account_hash policy a c w out.keys in
      elim (Bool-cases out.complete) [
        | inr e ↦ rw e (untouched _ _ refl refl clean)
        | inl e ↦
            let first = with_claims w.db c.first in
            let second = with_claims w.db c.second in
            rw e (
              outcome-Accounted c.stores cache out.media
                (cleanup_photos c.delete_ok out.keys out.media) in'
                (create_outcome in' c.id c.now first second) clean
                (create_outcome-IsShaped in' c.id c.now first second)
                (record {
                  admitted = a;
                  checked = checked;
                  whole = e;
                  answer = refl;
                  inserted = refl;
                  stored = refl;
                  row = inserted_row in' c.id c.now;
                  first = refl;
                  opening = evaluate-IsOpening _ policy;
                  whose = (refl, refl, refl, refl, refl);
                  what = (refl, refl, refl, refl, refl, refl);
                }))
      ]

  found-Accounted :
      (cache : Memory) (o : Option CreateClaimResult) (next : Reply × World)
      → Accounted next
      → Accounted (unless_found (record w { cache = cache }) o next)
  unfolding is_created
  found-Accounted cache (some e) next h = untouched _ _ refl refl refl
  found-Accounted cache none next h = h

  store-Accounted :
      (a : Admitted)
      → admit wide parse_time phone_hash account_hash policy req w ≡ ok a
      → ((k : Text) → c.delete_ok k ≡ true)
      → IsFresh (take (length a.photos) c.keys) w.media
      → Accounted (store_claim wide parse_time phone_hash account_hash policy a c w)
  unfolding store_claim is_created
  store-Accounted a checked del f =
      let n = incr c.now (machine_key a.machine) hour w.cache in
      let w1 = record w { cache = n.1 } in
      pick Accounted (ltb machine_claims_per_hour n.0) _ _ (untouched _ _ refl refl refl) (
        found-Accounted n.1 (claim_by_key a.machine.store_id a.key w.db.claims) _ (
          pick Accounted
            (assess wide parse_time phone_hash account_hash policy a c w1).reject_duplicate _ _
            (untouched _ _ refl refl refl) (write-Accounted a n.1 checked del f)))

  proceed-Accounted :
      (r : Result Refusal Admitted)
      → admit wide parse_time phone_hash account_hash policy req w ≡ r
      → ((k : Text) → c.delete_ok k ≡ true)
      → ((n : ℕ) → IsFresh (take n c.keys) w.media)
      → Accounted
          (proceed w r (λ a. store_claim wide parse_time phone_hash account_hash policy a c w))
  unfolding is_created
  proceed-Accounted (err e) h del f = untouched _ _ refl refl refl
  proceed-Accounted (ok a) h del f = store-Accounted a h del (f (length a.photos))

  -- A request that is answered with a new claim has passed the checks, and has made exactly the writes
  -- of the insertion of the claim that it asks for, in an opening status, with its photos in the
  -- storage. Any other leaves the database and the storage of photos as they were, whether it failed
  -- at a check, at a photo or in `CreateClaim`, or `CreateClaim` found a claim with its key that
  -- another request had written meanwhile. The names drawn for the photos are new to the storage, and
  -- no delete fails.
  pub handle_create_claim-Accounted :
      ((k : Text) → c.delete_ok k ≡ true)
      → ((n : ℕ) → IsFresh (take n c.keys) w.media)
      → IsAccounted wide parse_time phone_hash account_hash policy req c w
          (handle_create_claim wide parse_time phone_hash account_hash policy req c w)
  unfolding handle_create_claim
  handle_create_claim-Accounted del f =
      proceed-Accounted (admit wide parse_time phone_hash account_hash policy req w) refl del f

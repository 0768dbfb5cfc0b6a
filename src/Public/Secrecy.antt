-- ===== src/Public/Secrecy.antt =====
-- What the answer to a customer does not tell: internal/httpapi/public_status.go.
use mathlib.Core.List.{map-append}
use claw_hub.Prelude.{
  keep, ℕ, not, ◌&&◌, Option, none, some, List, [], ◌∷◌, ◌++◌, any, all, take, map, find?, ◌==◌,
  ◌≡◌, refl, Bool-cases, inl, inr,
}
use claw_hub.Prelude.Texts.{Text, text_eq, trim_space, byte_len}
use claw_hub.ClaimStore.Table.{Row}
use claw_hub.Limits.Memory.{Memory}
use claw_hub.Domain.MachineCode.{normalize_machine_code}
use claw_hub.Domain.Issue.{normalize_store_type}
use claw_hub.Intake.Handler.{MachineRow}
use claw_hub.Public.Status.{
  PublicStatus, StoreColumns, Response, Reply, missing, found, respond, joined, only, reply_to,
  is_asked, select_status, public_status_by_receipt, handle_public_claim_status, with_store, is_hex,
  stage_of, minute_stamp, settled_stamp, selected,
}

-- Two rows of one claim that differ only in what a customer is not to see: the status within a stage,
-- the risk, the description, the account and the telephone number.
unfoldable pub IsAlike : Row → Row → Type 0
IsAlike r s =
    (r.claim.id ≡ s.claim.id)
    × (r.claim.machine_id ≡ s.claim.machine_id)
    × (r.claim.store_id ≡ s.claim.store_id)
    × (r.claim.issue_type ≡ s.claim.issue_type)
    × (r.claim.amount_krw ≡ s.claim.amount_krw)
    × (r.claim.payment_method ≡ s.claim.payment_method)
    × (r.claim.created_at ≡ s.claim.created_at)
    × (r.claim.resolved_at ≡ s.claim.resolved_at)
    × (r.claim.paid_at ≡ s.claim.paid_at)
    × (stage_of r.claim.status ≡ stage_of s.claim.status)

respond-IsAlike :
    (st : StoreColumns) (r s : Row) → IsAlike r s → respond (joined st r) ≡ respond (joined st s)
unfolding IsAlike respond joined minute_stamp
respond-IsAlike st r s a = λ i. record {
  stage = a.9 i;
  issue_type = a.3 i;
  amount_krw = a.4 i;
  payment_method = a.5 i;
  store_name = st.name;
  store_phone = st.phone;
  store_type = normalize_store_type st.store_type;
  received_at = minute_stamp (a.6 i);
  reviewed_at = minute_stamp (a.7 i);
  settled_at = settled_stamp (a.9 i) (minute_stamp (a.8 i));
}

-- What a query that must give one row comes to.
only_reply : List Response → Reply
only_reply [] = missing
only_reply (a ∷ []) = found a
only_reply (a ∷ b ∷ rest) = missing

reply-only : (ps : List PublicStatus) → reply_to (only (take 2 ps)) ≡ only_reply (map respond ps)
unfolding only_reply
reply-only [] = refl
reply-only (a ∷ []) = refl
reply-only (a ∷ b ∷ ps) = refl

module _ (uuid : ℕ → Text) (lower : Text → Text) (wide : ℕ → ℕ) (machines : List MachineRow)
    (stores : List StoreColumns) where
  asked-IsAlike :
      (code prefix : Text) (r s : Row)
      → IsAlike r s
      → is_asked uuid lower wide machines stores code prefix r
        ≡ is_asked uuid lower wide machines stores code prefix s
  unfolding IsAlike is_asked
  asked-IsAlike code prefix r s a = λ i.
      any (λ m. m.id == a.1 i && text_eq m.code code) machines
      && text_eq (take 8 (keep (λ c. not (c == b'-')) (uuid (a.0 i)))) prefix

  with_store-IsAlike :
      (r s : Row) (o : Option StoreColumns)
      → IsAlike r s
      → map respond (with_store uuid lower wide machines stores r o)
        ≡ map respond (with_store uuid lower wide machines stores s o)
  with_store-IsAlike r s none a = refl
  with_store-IsAlike r s (some st) a = λ i. respond-IsAlike st r s a i ∷ []

  answer : Text → Text → Row → List Response
  unfolding selected
  answer code prefix r = map respond (selected uuid lower wide machines stores code prefix r)

  answer-IsAlike :
      (code prefix : Text) (r s : Row) → IsAlike r s → answer code prefix r ≡ answer code prefix s
  unfolding answer IsAlike
  answer-IsAlike code prefix r s a =
      let asked = asked-IsAlike code prefix r s a in
      let same_store : find? (λ st. st.id == r.claim.store_id) stores
          ≡ find? (λ st. st.id == s.claim.store_id) stores =
        λ i. find? (λ (st : StoreColumns). st.id == a.2 i) stores in
      elim (Bool-cases (is_asked uuid lower wide machines stores code prefix s)) [
        | inl e ↦
            rw (asked, e, same_store)
              (with_store-IsAlike r s (find? (λ st. st.id == s.claim.store_id) stores) a)
        | inr e ↦ rw (asked, e) refl
      ]

  answers : Text → Text → List Row → List Response
  answers code prefix rows =
      map respond (select_status uuid lower wide machines stores code prefix rows)

  answers_cons :
      (code prefix : Text) (r : Row) (rows : List Row)
      → answers code prefix (r ∷ rows) ≡ answer code prefix r ++ answers code prefix rows
  unfolding answers answer select_status
  answers_cons code prefix r rows =
      map-append respond (selected uuid lower wide machines stores code prefix r)
        (select_status uuid lower wide machines stores code prefix rows)

  answers-IsAlike :
      (code prefix : Text) (xs : List Row) (r s : Row) (ys : List Row)
      → IsAlike r s
      → answers code prefix (xs ++ r ∷ ys) ≡ answers code prefix (xs ++ s ∷ ys)
  answers-IsAlike code prefix [] r s ys a =
      rw
        (
          answers_cons code prefix r ys,
          answers_cons code prefix s ys,
          answer-IsAlike code prefix r s a,
        )
        refl
  answers-IsAlike code prefix (x ∷ xs) r s ys a =
      rw
        (
          answers_cons code prefix x (xs ++ r ∷ ys),
          answers_cons code prefix x (xs ++ s ∷ ys),
          answers-IsAlike code prefix xs r s ys a,
        )
        refl

  by_receipt-IsAlike :
      (code receipt : Text) (xs : List Row) (r s : Row) (ys : List Row)
      → IsAlike r s
      → reply_to
          (public_status_by_receipt uuid lower wide machines stores code receipt (xs ++ r ∷ ys))
        ≡ reply_to
            (public_status_by_receipt uuid lower wide machines stores code receipt (xs ++ s ∷ ys))
  unfolding public_status_by_receipt answers
  by_receipt-IsAlike code receipt xs r s ys a =
      let prefix = lower (trim_space receipt) in
      let rows = select_status uuid lower wide machines stores code prefix (xs ++ r ∷ ys) in
      let rows' = select_status uuid lower wide machines stores code prefix (xs ++ s ∷ ys) in
      elim (Bool-cases (byte_len prefix == 8 && all is_hex prefix)) [
        | inr e ↦ rw e refl
        | inl e ↦
            rw (e, reply-only rows, reply-only rows', answers-IsAlike code prefix xs r s ys a) refl
      ]

  -- An answer to a customer is the same whatever the status of a claim is among those of one stage, so
  -- that a claim that is put on hold for its risk cannot be told from one that waits; and it is the
  -- same whatever the claim's risk, description, account and telephone number are.
  pub handle_public_claim_status-IsAlike :
      (now : ℕ) (ip machine receipt : Text) (xs : List Row) (r s : Row) (ys : List Row)
      (cache : Memory)
      → IsAlike r s
      → handle_public_claim_status uuid lower wide machines stores now ip machine receipt
          (xs ++ r ∷ ys)
          cache
        ≡ handle_public_claim_status uuid lower wide machines stores now ip machine receipt
            (xs ++ s ∷ ys)
            cache
  unfolding handle_public_claim_status
  handle_public_claim_status-IsAlike now ip machine receipt xs r s ys cache a =
      let code = normalize_machine_code wide machine in
      rw (handle_public_claim_status, by_receipt-IsAlike code receipt xs r s ys a) refl

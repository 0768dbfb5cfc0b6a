-- ===== src/Refund/Page.antt =====
-- internal/httpapi/admin_claims.go: the handlers that read a claim: `handleClaimDetail`,
-- `handlePayoutLinks` and `handlePhoto`. Labels and what is only formatted are left out. `uuid` writes
-- an id as the database does, `photo_id` is the id that the database gave a photo.
use claw_hub.Prelude.{
  ℕ, Bool, Option, none, some, List, [], ◌++◌, map, any, find?, keep, if◌then◌else◌, Result, ok,
  err,
}
use claw_hub.Prelude.Int.{ℤ, pos}
use claw_hub.Prelude.Texts.{Text, codes, text_eq, is_empty}
use claw_hub.Claim.Status.{Status, approved, status_eq, all_statuses, Actor, nobody, is_card, cash}
use claw_hub.Claim.Machine.{
  PayoutMethod, no_method, deeplink, manual, card_void, Claim, can_transition,
}
use claw_hub.ClaimStore.Table.{Photo, Db}
use claw_hub.ClaimStore.Detail.{Shelf, ClaimDetail, DetailError, missing, broken, read_claim}
use claw_hub.Risk.Rules.{Policy, requires_photo}
use claw_hub.Payout.Banks.{Bank, bank_by_code}
use claw_hub.Payout.Links.{Link, LinkError, links}
use claw_hub.Accounts.Stores.{Cipher, StoreRow, StoreDetail, StoreError, store_by_id}
use claw_hub.Accounts.Desk.{payout_for}
use claw_hub.Intake.Photos.{Media}
use claw_hub.Refund.Handlers.{Access}

-- `domain.Claim{Status: …}`
abbrev pub blank_claim : Status → Claim
blank_claim st = record {
  id = 0;
  store_id = 0;
  machine_id = 0;
  issue_type = "";
  payment_method = cash;
  amount_krw = pos 0;
  description = [];
  card_last4 = [];
  paid_at_guess = 0;
  status = st;
  risk_score = 0;
  created_at = 0;
  resolved_at = 0;
  paid_at = 0;
  payout_method = no_method;
  paid_amount_krw = pos 0;
}

-- The moves that the page offers.
unfoldable pub allowed_transitions : Status → List Status
allowed_transitions st = keep (can_transition (blank_claim st)) all_statuses

-- The name of a bank, or its code.
unfoldable pub bank_name : Text → Text
bank_name code = elim (bank_by_code code) [ none ↦ code | some b ↦ b.name ]

-- `claimDetailResponse`, but for what is copied from the claim.
pub record ClaimDetailResponse : Type 0 where
  pub detail : ClaimDetail
  pub bank : Text
  pub call_recommended : Bool
  pub photo_ids : List Text
  pub allowed : List Status

unfoldable pub claim_detail_response :
    (ℕ × Photo → Text) → Policy → ClaimDetail → ClaimDetailResponse
unfolding allowed_transitions bank_name
claim_detail_response photo_id policy d = record {
  detail = d;
  bank = bank_name d.bank_code;
  call_recommended = requires_photo d.claim.amount_krw policy;
  photo_ids = map photo_id d.photos;
  allowed = allowed_transitions d.claim.status;
}

pub data PageError : Type 0 where
  not_found internal not_approved no_photo no_file : PageError

abbrev page_error : DetailError → PageError
page_error missing = not_found
page_error broken = internal

-- What follows a read, on the tables after it.
abbrev pub answer :
    {A : Type 0}
    → (ClaimDetail → Result PageError A)
    → Result DetailError ClaimDetail × Db
    → Result PageError A × Db
answer k (ok d, db) = (k d, db)
answer k (err e, db) = (err (page_error e), db)

-- `payoutLinksResponse`: what to look for on the terminal, or where to send the money.
pub record Transfer : Type 0 where
  pub links : List Link
  pub bank_name : Text
  pub account_no : Text
  pub holder : Text
  pub amount_krw : ℤ
  pub copy_text : Text
  pub from_account : Text

pub data PayoutSheet : Type 0 where
  void_card : Text → ℕ → ℤ → PayoutSheet
  transfer : Transfer → PayoutSheet

-- The ways of paying that a sheet offers.
abbrev pub Offers : PayoutSheet → PayoutMethod → Type 0
Offers (void_card last4 guess amount) card_void = Unit
Offers (transfer t) deeplink = Unit
Offers (transfer t) manual = Unit
Offers _ _ = ⊥

-- Links that cannot be made are left out.
abbrev links_or_none : Result LinkError (List Link) → List Link
links_or_none (ok ls) = ls
links_or_none (err e) = []

abbrev sender : Option Bank → Text → Text
sender none account = account
sender (some b) account = b.name ++ codes " " ++ account

-- The account to send from.
abbrev from_account : Result StoreError StoreDetail → Text
from_account (err e) = []
from_account (ok st) =
    if is_empty st.payout_account
    then []
    else sender (bank_by_code st.row.payout_bank_code) st.payout_account

-- The sheet of an approved claim.
unfoldable pub payout_sheet :
    List (Text × Text) → Result StoreError StoreDetail → ClaimDetail → PayoutSheet
unfolding bank_name
payout_sheet templates st d =
    if is_card d.claim.payment_method
    then void_card d.claim.card_last4 d.claim.paid_at_guess d.claim.amount_krw
    else transfer (record {
      links = links_or_none (
          links templates (record {
            bank_code = d.bank_code;
            account_no = d.account;
            holder = d.holder;
            amount_krw = d.claim.amount_krw;
          }));
      bank_name = bank_name d.bank_code;
      account_no = d.account;
      holder = d.holder;
      amount_krw = d.claim.amount_krw;
      copy_text = bank_name d.bank_code ++ codes " " ++ d.account ++ codes " " ++ d.holder;
      from_account = from_account st;
    })

-- The refusal of a claim that is not approved.
unfoldable pub if_approved :
    (ClaimDetail → PayoutSheet) → ClaimDetail → Result PageError PayoutSheet
if_approved sheet d = if status_eq d.claim.status approved then ok (sheet d) else err not_approved

-- `domain.Actor{}`
abbrev pub anonymous : Actor
anonymous = record { kind = nobody; id = none }

-- A photo's file, by the id of the photo: the key that is opened.
unfoldable pub open_photo : (ℕ × Photo → Text) → Media → Text → ClaimDetail → Result PageError Text
open_photo photo_id m id d = elim (find? (λ p. text_eq (photo_id p) id) d.photos) [
  | none ↦ err no_photo
  | some p ↦
      if is_empty p.1.object_key
      then err no_photo
      else if any (λ k. text_eq k p.1.object_key) m
      then ok p.1.object_key
      else err no_file
]

module _ (s : Shelf) (written : Bool) (a : Access) (id now : ℕ) (db : Db) where
  -- `handleClaimDetail`
  unfoldable pub handle_claim_detail :
      (ℕ × Photo → Text) → Policy → Result PageError ClaimDetailResponse × Db
  unfolding read_claim claim_detail_response
  handle_claim_detail photo_id policy =
      answer (λ d. ok (claim_detail_response photo_id policy d))
        (read_claim s written a.store_id id a.actor now db)

  -- `handlePayoutLinks`
  unfoldable pub handle_payout_links :
      Cipher → (ℕ → Text) → List (Text × Text) → List StoreRow → Result PageError PayoutSheet × Db
  unfolding read_claim payout_sheet if_approved
  handle_payout_links cipher uuid default stores =
      answer
        (if_approved (
          payout_sheet (payout_for cipher default (uuid a.store_id) stores)
            (store_by_id cipher (uuid a.store_id) stores)))
        (read_claim s written a.store_id id a.actor now db)

  -- `handlePhoto`
  unfoldable pub handle_photo : (ℕ × Photo → Text) → Media → Text → Result PageError Text × Db
  unfolding read_claim open_photo
  handle_photo photo_id m wanted =
      answer (open_photo photo_id m wanted) (read_claim s written a.store_id id anonymous now db)

-- ===== src/Refund/Handlers.antt =====
-- internal/httpapi/admin_claims.go: handleApprove, handleReject, handleHold, handleMarkPaid and the
-- `transition` that they share. A request is read from the database, checked, and written; the two
-- halves are `prepare` and `commit`, since other requests may come between them. The JSON of the body
-- is decoded; a body that cannot be decoded is the request `none`.
use claw_hub.Prelude.{
  ℕ, Bool, true, false, ◌&&◌, Option, none, some, ◌==◌, find?, if◌then◌else◌, Result, ok, err,
  ◌>>=◌, ◌>>◌, refuse_if,
}
use claw_hub.Prelude.Int.{ℤ, pos, eqb_ℤ, leb_ℤ, ltb_ℤ}
use claw_hub.Prelude.Texts.{Text, trim_space}
use claw_hub.Claim.Status.{PaymentMethod, Status, approved, rejected, on_hold, paid, Actor, is_card}
use claw_hub.Claim.Machine.{
  Event, PayoutMethod, deeplink, manual, card_void, Claim, TransitionError, transition,
}
use claw_hub.ClaimStore.Table.{Row, Db, StoreError, not_found, duplicate, apply_transition}

-- `access`, less `viaLink`: the store and the actor that a request acts for.
pub record Access : Type 0 where
  pub store_id : ℕ
  pub actor : Actor

-- `transitionRequest`
pub record TransitionRequest : Type 0 where
  pub note : Text
  pub method : PayoutMethod
  pub amount_krw : ℤ

-- The errors that the check of handleMarkPaid gives.
pub data PaymentError : Type 0 where
  card_must_be_voided cash_is_not_voided method_missing amount_missing : PaymentError
  more_than_asked : ℤ → PaymentError

-- What a handler answers.
pub data Reply : Type 0 where
  done : ℕ → Status → Reply
  bad_body no_such_claim stale failed : Reply
  bad_payment : PaymentError → Reply
  conflict : TransitionError → Reply

abbrev is_card_void : PayoutMethod → Bool
is_card_void card_void = true
is_card_void _ = false

-- The method of a claim that was not paid by card.
abbrev pub transfer_method : PayoutMethod → Result PaymentError PayoutMethod
transfer_method deeplink = ok deeplink
transfer_method manual = ok manual
transfer_method card_void = err cash_is_not_voided
transfer_method _ = err method_missing

unfoldable pub method_for : PaymentMethod → PayoutMethod → Result PaymentError PayoutMethod
method_for paid_by m =
    if is_card paid_by
    then if is_card_void m then ok m else err card_must_be_voided
    else transfer_method m

-- The amount that a request stands for: 0 is the amount that was asked for.
abbrev pub sent : Claim → TransitionRequest → ℤ
sent c req = if eqb_ℤ req.amount_krw (pos 0) then c.amount_krw else req.amount_krw

unfoldable pub record_payment : Claim → PayoutMethod → ℤ → Result PaymentError Claim
record_payment c method amount = do
  refuse_if (leb_ℤ amount (pos 0)) amount_missing
  refuse_if (ltb_ℤ c.amount_krw amount) (more_than_asked c.amount_krw)
  ok (record c { payout_method = method; paid_amount_krw = amount })

-- The function that handleMarkPaid passes to `transition`.
unfoldable pub mark_paid_extra : Claim → TransitionRequest → Result PaymentError Claim
unfolding method_for record_payment
mark_paid_extra c req = do
  method ← method_for c.payment_method req.method
  record_payment c method (sent c req)

pub data Command : Type 0 where
  approve reject hold mark_paid : Command

-- The status that each handler asks for.
abbrev pub target : Command → Status
target approve = approved
target reject = rejected
target hold = on_hold
target mark_paid = paid

abbrev pub extra : Command → Claim → TransitionRequest → Result PaymentError Claim
extra mark_paid c req = mark_paid_extra c req
extra _ c req = ok c

-- The row that `ClaimByID` reads: only of the store that the request acts for.
unfoldable pub claim_by_id : ℕ → ℕ → Db → Option Row
claim_by_id store id db = find? (λ r. r.claim.id == id && r.claim.store_id == store) db.claims

abbrev pub from_row : Option Row → Result Reply Row
from_row none = err no_such_claim
from_row (some r) = ok r

abbrev pub from_body : Option TransitionRequest → Result Reply TransitionRequest
from_body none = err bad_body
from_body (some req) = ok req

abbrev pub from_extra : Result PaymentError Claim → Result Reply Claim
from_extra (ok c) = ok c
from_extra (err e) = err (bad_payment e)

abbrev pub from_transition : Result TransitionError (Claim × Event) → Result Reply (Claim × Event)
from_transition (ok p) = ok p
from_transition (err e) = err (conflict e)

-- `transition` once the claim is read: the check of the handler, and `Transition`.
unfoldable pub decide :
    Command → Actor → Claim → TransitionRequest → ℕ → Result Reply (Claim × Event)
unfolding mark_paid_extra
decide cmd by c req now = do
  c' ← from_extra (extra cmd c req)
  from_transition (transition c' (target cmd) by (trim_space req.note) now)

-- `transition` up to the write.
unfoldable pub prepare :
    Command → Access → ℕ → Option TransitionRequest → ℕ → Db → Result Reply (Claim × Event)
unfolding claim_by_id decide
prepare cmd a id body now db = do
  req ← from_body body
  r ← from_row (claim_by_id a.store_id id db)
  decide cmd a.actor r.claim req now

-- The write, and the answer.
unfoldable pub commit : Access → Claim × Event → Db → Reply × Db
commit a p db = elim (apply_transition a.store_id p.0 p.1 db) [
  | ok db' ↦ (done p.0.id p.0.status, db')
  | err not_found ↦ (stale, db)
  | err duplicate ↦ (failed, db)
  | err StoreError.failed ↦ (failed, db)
]

-- `transition`, where no other request comes between its halves.
unfoldable pub handle : Command → Access → ℕ → Option TransitionRequest → ℕ → Db → Reply × Db
unfolding prepare commit
handle cmd a id body now db = elim (prepare cmd a id body now db) [
  | ok p ↦ commit a p db
  | err reply ↦ (reply, db)
]

-- ===== src/Refund/Payment.antt =====
-- What handleMarkPaid (internal/httpapi/admin_claims.go) lets through.
use claw_hub.Prelude.{
  ok-injective, inr, inl, is_ok-value, bind-ok, Bool-cases, ◌≢◌, true, ok, is_ok, ◌≡◌, ◌↔◌, refl,
  arith,
}
use claw_hub.Prelude.Int.{ltb_ℤ, leb_ℤ, ℤ, pos, ◌≤ℤ◌, ◌<ℤ◌}
use claw_hub.Claim.Status.{PaymentMethod, card}
use claw_hub.Claim.Machine.{PayoutMethod, deeplink, manual, card_void, Claim}
use claw_hub.Refund.Handlers.{record_payment, sent, method_for, TransitionRequest, mark_paid_extra}

-- A way of refunding fits the way the customer paid: a card payment is voided, any other is sent.
pub data Fits : PaymentMethod → PayoutMethod → Type 0 where
  voided : Fits card card_void
  linked : {m : PaymentMethod} → m ≢ card → Fits m deeplink
  by_hand : {m : PaymentMethod} → m ≢ card → Fits m manual

pub method_for-Fits :
    (p : PaymentMethod) (m : PayoutMethod) {m' : PayoutMethod}
    → method_for p m ≡ ok m'
    → Fits p m' × (m' ≡ m)
unfolding method_for
method_for-Fits p m h = grind (arith, voided, linked, by_hand)

Fits-method_for : {p : PaymentMethod} {m : PayoutMethod} → Fits p m → method_for p m ≡ ok m
unfolding method_for
Fits-method_for voided = refl
Fits-method_for (linked n) = ground arith
Fits-method_for (by_hand n) = ground arith

module _ (c : Claim) (method : PayoutMethod) (amount : ℤ) where
  record_payment-ok :
      {c' : Claim}
      → record_payment c method amount ≡ ok c'
      → (pos 0 <ℤ amount)
        × (amount ≤ℤ c.amount_krw)
        × (record c { payout_method = method; paid_amount_krw = amount } ≡ c')
  unfolding record_payment
  record_payment-ok h = elim (Bool-cases (leb_ℤ amount (pos 0))) [
    | inl none_sent ↦ absurd (cc (rw none_sent at h))
    | inr some_sent ↦ elim (Bool-cases (ltb_ℤ c.amount_krw amount)) [
      | inl too_much ↦ absurd (cc (rw (some_sent, too_much) at h))
      | inr enough ↦ (ground arith, ground arith, ok-injective (rw (some_sent, enough) at h))
    ]
  ]

  record_payment-accepts :
      pos 0 <ℤ amount → amount ≤ℤ c.amount_krw → is_ok (record_payment c method amount) ≡ true
  unfolding record_payment
  record_payment-accepts h k = ground arith

module _ (c : Claim) (req : TransitionRequest) where
  -- What an accepted payment records: an amount above zero and not above the one asked for, a way
  -- that fits how the customer paid, and nothing else of the claim.
  pub mark_paid_extra_records :
      {c' : Claim}
      → mark_paid_extra c req ≡ ok c'
      → (pos 0 <ℤ c'.paid_amount_krw)
        × (c'.paid_amount_krw ≤ℤ c.amount_krw)
        × Fits c.payment_method c'.payout_method
        × (record c { payout_method = req.method; paid_amount_krw = sent c req } ≡ c')
  unfolding mark_paid_extra
  mark_paid_extra_records h =
      let (m, em, er) = bind-ok (method_for c.payment_method req.method) _ h in
      let (fits, same) = method_for-Fits c.payment_method req.method em in
      let (above, within, e) = record_payment-ok c m (sent c req) er in
      (rw (← e) above, rw (← e) within, rw (← e) fits, rw (← same) e)

  -- A payment is accepted exactly when its way fits and its amount is above zero and not above the
  -- one asked for.
  pub mark_paid_extra_iff :
      (is_ok (mark_paid_extra c req) ≡ true)
      ↔ (Fits c.payment_method req.method × (pos 0 <ℤ sent c req) × (sent c req ≤ℤ c.amount_krw))
  unfolding mark_paid_extra
  mark_paid_extra_iff = (
    forth,
    λ h. rw (Fits-method_for h.0) (record_payment-accepts c req.method (sent c req) h.1 h.2),
  )
    where
      forth :
          is_ok (mark_paid_extra c req) ≡ true
          → Fits c.payment_method req.method × (pos 0 <ℤ sent c req) × (sent c req ≤ℤ c.amount_krw)
      forth h =
          let (m, em, er) =
            bind-ok (method_for c.payment_method req.method) _ (is_ok-value _ h).1 in
          let (fits, same) = method_for-Fits c.payment_method req.method em in
          let (above, within, e) = record_payment-ok c m (sent c req) er in
          (rw (← same) fits, above, within)

-- ===== src/Risk/Verdict.antt =====
-- What `Evaluate` (internal/domain/risk.go) decides.
use claw_hub.ClaimStore.Trail.{IsOpening}
use claw_hub.Prelude.{
  none, some, ◌∷◌, ltb, if◌then◌else◌, Option, All, ◌-◌, ◌+◌, ℕ, ◌≤◌, true, false, List, [], ◌≡◌,
  ◌≢◌, ◌↔◌, ◌⊎◌, arith,
}
use claw_hub.Prelude.Int.{pos, ◌≤ℤ◌, ◌<ℤ◌}
use claw_hub.Claim.Status.{pending, on_hold}
use claw_hub.Risk.Rules.{
  is_rapid_duplicate, rules, Hit, add_rules, add_hit, status_rank, RiskResult, watch, ContactStatus,
  requires_photo, normal, blocked, rule_high_amount, rule_payout_ceiling, rule_account_sharing,
  rule_repeat, rule_manual, Policy, RiskInput, evaluate,
}

module _ (r : RiskInput) (p : Policy) where
  -- A new claim is put on hold exactly when the owner has blocked the contact or the phone has filed
  -- as many claims in 30 days as the policy holds for.
  pub on_hold_iff :
      ((evaluate r p).status ≡ on_hold)
      ↔ ((r.manual_status ≡ blocked) ⊎ (p.repeat_hold_count ≤ℤ r.phone_claims_30d))
  unfolding evaluate rule_manual rule_repeat rule_account_sharing rule_payout_ceiling
      rule_high_amount
  on_hold_iff = ground arith

  -- A new claim is left to ordinary approval exactly when no rule speaks against it: the contact is
  -- normal, the phone is below both counts and not above the ceiling, the account, if there is one,
  -- is not shared by too many phones, and the amount is below the threshold.
  pub pending_iff : ((evaluate r p).status ≡ pending) ↔ (
      (r.manual_status ≡ normal)
      × (r.phone_claims_30d <ℤ p.repeat_hold_count)
      × (r.phone_claims_30d <ℤ p.repeat_watch_count)
      × ((r.has_account ≡ false) ⊎ (r.account_distinct_phones <ℤ p.account_sharing_phones))
      × (r.phone_paid_total_30d ≤ℤ p.payout_ceiling_krw)
      × (r.amount_krw <ℤ p.review_threshold_krw))
  unfolding evaluate rule_manual rule_repeat rule_account_sharing rule_payout_ceiling
      rule_high_amount
  pending_iff = (
    λ h. (ground arith, ground arith, ground arith, ground arith, ground arith, ground arith),
    λ h. ground arith,
  )

  -- A new claim begins in one of the three statuses that wait for the owner.
  pub evaluate-IsOpening : IsOpening (evaluate r p).status
  unfolding evaluate rule_manual rule_repeat rule_account_sharing rule_payout_ceiling
      rule_high_amount
  evaluate-IsOpening = ground arith

  -- The owner is told a reason exactly when the claim is not left to ordinary approval.
  pub reasons_iff : ((evaluate r p).reasons ≡ []) ↔ ((evaluate r p).status ≡ pending)
  unfolding evaluate rule_manual rule_repeat rule_account_sharing rule_payout_ceiling
      rule_high_amount
  reasons_iff = ground arith

  -- The score lies between 0 and 100, and is 0 exactly when there is no reason.
  pub score_bounds :
      ((evaluate r p).score ≤ 100) × (((evaluate r p).score ≡ 0) ↔ ((evaluate r p).reasons ≡ []))
  unfolding evaluate rule_manual rule_repeat rule_account_sharing rule_payout_ceiling
      rule_high_amount
  score_bounds = (ground arith, ground arith)

  -- A claim that needs a photo is never left to ordinary approval.
  pub photo-not_pending : requires_photo r.amount_krw p ≡ true → (evaluate r p).status ≢ pending
  photo-not_pending h e = ground (arith, (pending_iff.0 e).5)

  -- A claim is refused as a rapid duplicate exactly when the phone has an earlier claim of the same
  -- machine, and less than the window has passed since then, as long as the clock has not gone back
  -- and the difference fits a duration.
  pub rapid_duplicate_iff :
      r.last_same_machine_at ≤ r.now
      → r.now ≤ r.last_same_machine_at + 9223372036854775807
      → ((evaluate r p).reject_duplicate ≡ true) ↔ (
          (r.last_same_machine_at ≢ 0)
          × (pos (r.now - r.last_same_machine_at) <ℤ p.rapid_duplicate_window))
  unfolding evaluate rule_manual rule_repeat rule_account_sharing rule_payout_ceiling
      rule_high_amount
  rapid_duplicate_iff h k = ground arith

-- Facts that are at least as grave: the same contact status or a graver one, and no count or amount
-- smaller.
abbrev gravity : ContactStatus → ℕ
gravity normal = 0
gravity watch = 1
gravity blocked = 2

pub record IsGraver (r s : RiskInput) : Type 0 where
  pub contact : gravity r.manual_status ≤ gravity s.manual_status
  pub claims : r.phone_claims_30d ≤ℤ s.phone_claims_30d
  pub paid_out : r.phone_paid_total_30d ≤ℤ s.phone_paid_total_30d
  pub phones : r.account_distinct_phones ≤ℤ s.account_distinct_phones
  pub account : r.has_account ≡ true → s.has_account ≡ true
  pub amount : r.amount_krw ≤ℤ s.amount_krw

abbrev weight_of : Option Hit → ℕ
weight_of none = 0
weight_of (some h) = h.weight

abbrev rank_of : Option Hit → ℕ
rank_of none = 0
rank_of (some h) = status_rank h.status

abbrev IsNotMilder : Option Hit → Option Hit → Type 0
IsNotMilder a b = (weight_of a ≤ weight_of b) × (rank_of a ≤ rank_of b)

abbrev IsStricter : RiskResult → RiskResult → Type 0
IsStricter a b = (a.score ≤ b.score) × (status_rank a.status ≤ status_rank b.status)

add_hit-IsStricter :
    (h k : Option Hit) (a b : RiskResult)
    → IsNotMilder h k
    → IsStricter a b
    → IsStricter (add_hit h a) (add_hit k b)
unfolding add_hit
add_hit-IsStricter none none a b m s = s
add_hit-IsStricter none (some k) a b m s = ground arith
add_hit-IsStricter (some h) none a b m s = ground arith
add_hit-IsStricter (some h) (some k) a b m s = ground arith

module _ (r s : RiskInput) (p : Policy) where
  add_rules-IsStricter :
      (rs : List (RiskInput → Policy → Option Hit)) (a b : RiskResult)
      → All (λ rule. IsNotMilder (rule r p) (rule s p)) rs
      → IsStricter a b
      → IsStricter (add_rules rs r p a) (add_rules rs s p b)
  unfolding add_rules
  add_rules-IsStricter [] a b m h = h
  add_rules-IsStricter (rule ∷ rs) a b m h =
      add_rules-IsStricter rs (add_hit (rule r p) a) (add_hit (rule s p) b) m.1
        (add_hit-IsStricter (rule r p) (rule s p) a b m.0 h)

  rules-IsNotMilder : IsGraver r s → All (λ rule. IsNotMilder (rule r p) (rule s p)) rules
  unfolding rule_manual rule_repeat rule_account_sharing rule_payout_ceiling rule_high_amount
  rules-IsNotMilder g = (
    (ground arith, ground arith),
    (
      (ground arith, ground arith),
      (
        (ground arith, ground arith),
        ((ground arith, ground arith), ((ground arith, ground arith), tt)),
      ),
    ),
  )

  -- Graver facts never make the verdict milder: the score does not fall, and neither does the rank of
  -- the status.
  pub evaluate-IsStricter :
      IsGraver r s
      → ((evaluate r p).score ≤ (evaluate s p).score)
        × (status_rank (evaluate r p).status ≤ status_rank (evaluate s p).status)
  unfolding evaluate
  evaluate-IsStricter g =
      let h =
        add_rules-IsStricter rules
          (record {
            score = 0;
            reasons = [];
            status = pending;
            reject_duplicate = is_rapid_duplicate r p;
          })
          (record {
            score = 0;
            reasons = [];
            status = pending;
            reject_duplicate = is_rapid_duplicate s p;
          })
          (rules-IsNotMilder g) (omega arith, omega arith) in
      (capped _ _ h.0, h.1)
    where
      capped : (x y : ℕ) → x ≤ y → (if ltb 100 x then 100 else x) ≤ (if ltb 100 y then 100 else y)
      capped x y h = ground arith

-- ===== src/Risk/Rules.antt =====
-- internal/domain/policy.go and internal/domain/risk.go. A reason keeps the numbers that its message
-- shows; the Korean words around them are left out.
use claw_hub.Prelude.{
  ℕ, ◌+◌, String, Bool, false, not, Option, none, some, List, [], ◌∷◌, ◌++◌, ◌==◌, ltb, str_eq,
  if◌then◌else◌,
}
use claw_hub.Prelude.Int.{ℤ, pos, negsuc, sub_ℕ, ltb_ℤ, leb_ℤ}
use claw_hub.Claim.Status.{Status, pending, needs_review, on_hold}

-- The manual status of a contact.
pub data ContactStatus : Type 0 where
  normal watch blocked : ContactStatus

-- `ParseContactStatus`
unfoldable pub parse_contact_status : String → Option ContactStatus
parse_contact_status s =
    if str_eq s "normal"
    then some normal
    else if str_eq s "watch"
    then some watch
    else if str_eq s "blocked"
    then some blocked
    else none

-- `Policy`; the window is a duration in nanoseconds.
pub record Policy : Type 0 where
  pub review_threshold_krw : ℤ
  pub repeat_watch_count : ℤ
  pub repeat_hold_count : ℤ
  pub account_sharing_phones : ℤ
  pub payout_ceiling_krw : ℤ
  pub max_amount_krw : ℤ
  pub rapid_duplicate_window : ℤ

-- `DefaultPolicy`
abbrev pub default_policy : Policy
default_policy = record {
  review_threshold_krw = pos 10000;
  repeat_watch_count = pos 3;
  repeat_hold_count = pos 5;
  account_sharing_phones = pos 3;
  payout_ceiling_krw = pos 50000;
  max_amount_krw = pos 1000000;
  rapid_duplicate_window = pos 600000000000;
}

pub data AmountError : Type 0 where
  no_amount : AmountError
  too_much : ℤ → AmountError

-- `ValidateAmount`; none is nil.
unfoldable pub validate_amount : ℤ → Policy → Option AmountError
validate_amount krw p =
    if leb_ℤ krw (pos 0)
    then some no_amount
    else if ltb_ℤ p.max_amount_krw krw
    then some (too_much p.max_amount_krw)
    else none

-- `RequiresPhoto`
abbrev pub requires_photo : ℤ → Policy → Bool
requires_photo krw p = leb_ℤ p.review_threshold_krw krw

pub data ReasonCode : Type 0 where
  manual_block manual_watch repeat_watch repeat_hold account_sharing payout_ceiling high_amount :
      ReasonCode

-- `RiskReason`
pub record RiskReason : Type 0 where
  pub code : ReasonCode
  pub figures : List ℤ

-- `RiskInput`
pub record RiskInput : Type 0 where
  pub amount_krw : ℤ
  pub phone_claims_30d : ℤ
  pub phone_paid_total_30d : ℤ
  pub account_distinct_phones : ℤ
  pub has_account : Bool
  pub manual_status : ContactStatus
  pub last_same_machine_at : ℕ
  pub now : ℕ

-- `RiskResult`
pub record RiskResult : Type 0 where
  pub score : ℕ
  pub reasons : List RiskReason
  pub status : Status
  pub reject_duplicate : Bool

-- What a rule gives when it fires: the reason, the status and the weight.
pub record Hit : Type 0 where
  pub reason : RiskReason
  pub status : Status
  pub weight : ℕ

abbrev hit : ReasonCode → List ℤ → Status → ℕ → Option Hit
hit c figures s w =
    some (record { reason = record { code = c; figures = figures }; status = s; weight = w })

-- `time.Time.Sub`, which stays within what a duration can hold.
unfoldable pub sub_time : ℕ → ℕ → ℤ
sub_time a b =
    let d = sub_ℕ a b in
    if ltb_ℤ (pos 9223372036854775807) d
    then pos 9223372036854775807
    else if ltb_ℤ d (negsuc 9223372036854775807)
    then negsuc 9223372036854775807
    else d

-- `isRapidDuplicate`
unfoldable pub is_rapid_duplicate : RiskInput → Policy → Bool
unfolding sub_time
is_rapid_duplicate r p =
    if r.last_same_machine_at == 0
    then false
    else ltb_ℤ (sub_time r.now r.last_same_machine_at) p.rapid_duplicate_window

abbrev manual_hit : ContactStatus → Option Hit
manual_hit blocked = hit manual_block [] on_hold 60
manual_hit watch = hit manual_watch [] needs_review 20
manual_hit normal = none

unfoldable pub rule_manual : RiskInput → Policy → Option Hit
rule_manual r p = manual_hit r.manual_status

unfoldable pub rule_repeat : RiskInput → Policy → Option Hit
rule_repeat r p =
    if leb_ℤ p.repeat_hold_count r.phone_claims_30d
    then hit repeat_hold (r.phone_claims_30d ∷ p.repeat_hold_count ∷ []) on_hold 50
    else if leb_ℤ p.repeat_watch_count r.phone_claims_30d
    then hit repeat_watch (r.phone_claims_30d ∷ p.repeat_watch_count ∷ []) needs_review 25
    else none

unfoldable pub rule_account_sharing : RiskInput → Policy → Option Hit
rule_account_sharing r p =
    if not r.has_account
    then none
    else if ltb_ℤ r.account_distinct_phones p.account_sharing_phones
    then none
    else hit account_sharing (r.account_distinct_phones ∷ []) needs_review 30

unfoldable pub rule_payout_ceiling : RiskInput → Policy → Option Hit
rule_payout_ceiling r p =
    if leb_ℤ r.phone_paid_total_30d p.payout_ceiling_krw
    then none
    else hit payout_ceiling (r.phone_paid_total_30d ∷ p.payout_ceiling_krw ∷ []) needs_review 20

unfoldable pub rule_high_amount : RiskInput → Policy → Option Hit
rule_high_amount r p =
    if ltb_ℤ r.amount_krw p.review_threshold_krw
    then none
    else hit high_amount (r.amount_krw ∷ p.review_threshold_krw ∷ []) needs_review 15

-- `rules`
abbrev pub rules : List (RiskInput → Policy → Option Hit)
rules =
    rule_manual ∷ rule_repeat ∷ rule_account_sharing ∷ rule_payout_ceiling ∷ rule_high_amount ∷ []

-- `statusRank`; a status that is no key has rank 0.
abbrev pub status_rank : Status → ℕ
status_rank needs_review = 1
status_rank on_hold = 2
status_rank _ = 0

-- `strongerStatus`
abbrev pub stronger_status : Status → Status → Status
stronger_status a b = if ltb (status_rank a) (status_rank b) then b else a

-- One round of the loop of `Evaluate`.
unfoldable pub add_hit : Option Hit → RiskResult → RiskResult
add_hit none res = res
add_hit (some h) res = record res {
  reasons = res.reasons ++ h.reason ∷ [];
  status = stronger_status res.status h.status;
  score = res.score + h.weight;
}

unfoldable pub add_rules :
    List (RiskInput → Policy → Option Hit) → RiskInput → Policy → RiskResult → RiskResult
unfolding add_hit
add_rules [] r p res = res
add_rules (rule ∷ rest) r p res = add_rules rest r p (add_hit (rule r p) res)

-- `Evaluate`
unfoldable pub evaluate : RiskInput → Policy → RiskResult
unfolding is_rapid_duplicate add_rules
evaluate r p =
    let all = add_rules rules r p (record {
      score = 0;
      reasons = [];
      status = pending;
      reject_duplicate = is_rapid_duplicate r p;
    }) in
    record all { score = if ltb 100 all.score then 100 else all.score }

-- ===== src/Risk/Facts.antt =====
-- internal/store/query.go: `RiskFactsFor`, `strongestContactStatus`. The database's NULL in
-- paid_amount_krw is 0; hashes are numbers; a sum of amounts stays far below 64 bits and is not
-- wrapped.
use claw_hub.Prelude.{
  ◌⊎◌, inl, In, ℕ, ◌+◌, Bool, true, ◌&&◌, not, List, [], ◌∷◌, ◌==◌, leb, ltb, any, keep, count_if,
  if◌then◌else◌, ◌≡◌, inr, refl, subst, arith,
}
use claw_hub.Prelude.Int.{ℤ, pos, eqb_ℤ, ◌+ℤ◌, ◌≤ℤ◌}
use claw_hub.Claim.Status.{status_eq, paid, on_hold}
use claw_hub.ClaimStore.Table.{Row}
use claw_hub.Risk.Rules.{ContactStatus, normal, watch, blocked, RiskInput, Policy, evaluate}
use claw_hub.Risk.Verdict.{on_hold_iff}

-- A row of `contact_flags`: whether the identity is a phone, its hash and its manual status.
pub record Flag : Type 0 where
  pub store_id : ℕ
  pub is_phone : Bool
  pub identity_hash : ℕ
  pub manual_status : ContactStatus

-- `RiskQuery`, the phone and the account hashed; no account is the empty text.
pub record RiskQuery : Type 0 where
  pub store_id : ℕ
  pub machine_id : ℕ
  pub phone_hash : ℕ
  pub account_hash : ℕ
  pub has_account : Bool
  pub now : ℕ

-- 30 days in nanoseconds.
abbrev pub window30d : ℕ
window30d = 2592000000000000

abbrev by_phone_since : ℕ → ℕ → Row → Bool
by_phone_since phone now r = r.phone_hash == phone && leb now (r.claim.created_at + window30d)

-- COALESCE(paid_amount_krw, amount_krw) of the paid rows.
abbrev pub paid_sum : List Row → ℤ
paid_sum [] = pos 0
paid_sum (r ∷ rows) =
    let rest = paid_sum rows in
    if status_eq r.claim.status paid
    then (if eqb_ℤ r.claim.paid_amount_krw (pos 0)
        then r.claim.amount_krw
        else r.claim.paid_amount_krw)
      +ℤ rest
    else rest

-- COUNT(DISTINCT …)
abbrev distinct : List ℕ → ℕ
distinct [] = 0
distinct (x ∷ xs) = (if any (λ y. x == y) xs then 0 else 1) + distinct xs

abbrev other_phones : RiskQuery → List Row → List ℕ
other_phones q [] = []
other_phones q (r ∷ rows) =
    let rest = other_phones q rows in
    if r.account_hash == q.account_hash && not (r.phone_hash == q.phone_hash)
    then r.phone_hash ∷ rest
    else rest

-- MAX(created_at) of the phone's claims of the machine; the zero time if there is none.
abbrev last_same_machine : RiskQuery → List Row → ℕ
last_same_machine q [] = 0
last_same_machine q (r ∷ rows) =
    let rest = last_same_machine q rows in
    if r.phone_hash == q.phone_hash
      && r.claim.machine_id == q.machine_id
      && ltb rest r.claim.created_at
    then r.claim.created_at
    else rest

abbrev contact_rank : ContactStatus → ℕ
contact_rank normal = 0
contact_rank watch = 1
contact_rank blocked = 2

abbrev pub stronger_contact : ContactStatus → ContactStatus → ContactStatus
stronger_contact best st = if ltb (contact_rank best) (contact_rank st) then st else best

abbrev pub is_about : RiskQuery → Flag → Bool
is_about q f =
    f.store_id == q.store_id
    && (if f.is_phone then f.identity_hash == q.phone_hash else f.identity_hash == q.account_hash)

-- The loop of `strongestContactStatus`.
unfoldable pub strongest_from : RiskQuery → ContactStatus → List Flag → ContactStatus
strongest_from q best [] = best
strongest_from q best (f ∷ flags) =
    strongest_from q (if is_about q f then stronger_contact best f.manual_status else best) flags

-- `strongestContactStatus`
unfoldable pub strongest_contact_status : RiskQuery → List Flag → ContactStatus
unfolding strongest_from
strongest_contact_status q flags = strongest_from q normal flags

-- `RiskFactsFor`; the caller sets the amount.
unfoldable pub risk_facts_for : RiskQuery → List Row → List Flag → ℤ → RiskInput
unfolding strongest_contact_status
risk_facts_for q rows flags amount = record {
  amount_krw = amount;
  phone_claims_30d = pos (count_if (by_phone_since q.phone_hash q.now) rows + 1);
  phone_paid_total_30d = paid_sum (keep (by_phone_since q.phone_hash q.now) rows);
  account_distinct_phones = pos (distinct (other_phones q rows) + 1);
  has_account = q.has_account;
  manual_status = strongest_contact_status q flags;
  last_same_machine_at = last_same_machine q rows;
  now = q.now;
}

strongest_from-blocked :
    (q : RiskQuery) (flags : List Flag) → strongest_from q blocked flags ≡ blocked
unfolding strongest_from
strongest_from-blocked q [] = refl
strongest_from-blocked q (f ∷ flags) = ground (arith, strongest_from-blocked q flags)

next_best : RiskQuery → ContactStatus → Flag → ContactStatus
next_best q best f = if is_about q f then stronger_contact best f.manual_status else best

next_best-blocked :
    (q : RiskQuery) (best : ContactStatus) (f : Flag)
    → is_about q f ≡ true
    → f.manual_status ≡ blocked
    → next_best q best f ≡ blocked
unfolding next_best
next_best-blocked q best f a b = ground arith

strongest_from-finds :
    (q : RiskQuery) (flags : List Flag) (best : ContactStatus) (f : Flag)
    → In f flags
    → is_about q f ≡ true
    → f.manual_status ≡ blocked
    → strongest_from q best flags ≡ blocked
unfolding strongest_from next_best
strongest_from-finds q [] best f i a b = absurd i
strongest_from-finds q (g ∷ flags) best f (inl e) a b =
    rw
      (next_best-blocked q best g (subst (λ x. is_about q x ≡ true) e a)
        (subst (λ x. x.manual_status ≡ blocked) e b))
      (strongest_from-blocked q flags)
strongest_from-finds q (g ∷ flags) best f (inr i) a b =
    strongest_from-finds q flags (next_best q best g) f i a b

-- A claim is put on hold when the owner has blocked its phone or its account, whichever of the two
-- the customer has changed since, and when the phone's claims of the last 30 days, this one among
-- them, reach the count that the policy holds for.
pub risk_facts-on_hold :
    (q : RiskQuery) (rows : List Row) (flags : List Flag) (amount : ℤ) (p : Policy)
    → ((f : Flag) × In f flags × (is_about q f ≡ true) × (f.manual_status ≡ blocked))
      ⊎ (p.repeat_hold_count ≤ℤ pos (count_if (by_phone_since q.phone_hash q.now) rows + 1))
    → (evaluate (risk_facts_for q rows flags amount) p).status ≡ on_hold
unfolding risk_facts_for strongest_contact_status
risk_facts-on_hold q rows flags amount p (inl (f, i, a, b)) =
    (on_hold_iff (risk_facts_for q rows flags amount) p).1
      (inl (strongest_from-finds q flags normal f i a b))
risk_facts-on_hold q rows flags amount p (inr many) =
    (on_hold_iff (risk_facts_for q rows flags amount) p).1 (inr many)

-- ===== src/Figures/Sums.antt =====
-- internal/store/settlement.go: the days of a period against its totals.
use claw_hub.Prelude.{
  all-keep, keep-all, subst, ℕ, zero, suc, ◌+◌, ◌-◌, ◌*◌, ◌/◌, ◌≤◌, Bool, true, List, [], ◌∷◌, keep,
  length, ltb, ◌==◌, ◌≡◌, refl, sym, ap, ◌∙◌, arith, Bool-cases, inl, inr,
}
use claw_hub.Prelude.Int.{ℤ, pos, ◌+ℤ◌}
use claw_hub.Prelude.Texts.{Text}
use claw_hub.ClaimStore.Table.{Row}
use claw_hub.Machines.Table.{Machine}
use claw_hub.Worker.Alerts.{day_long}
use claw_hub.Figures.Settlement.{
  SettlementDay, settlement_for, day_of, within, asked_sum, by_day, or_empty, fill_days,
}
use claw_hub.Figures.Split.{
  on_day, IsMidnight, asked_sum-empty, IsSplit, split-length, split-asked, nothing-within,
  within_cases, line_step,
}

abbrev pub claims_of : List SettlementDay → ℕ
claims_of [] = 0
claims_of (d ∷ days) = d.claim_count + claims_of days

abbrev pub refunds_of : List SettlementDay → ℤ
refunds_of [] = pos 0
refunds_of (d ∷ days) = d.paid_total_krw +ℤ refunds_of days

-- The line of a day, be it filled in or read, counts the rows of the day.
line-claims :
    (d k : ℕ) (rows : List Row)
    → (or_empty d (by_day rows k)).claim_count ≡ length (keep (on_day k) rows)
unfolding by_day
line-claims d k rows = elim (Bool-cases (length (keep (on_day k) rows) == 0)) [
  | inl e ↦ rw e (ground (arith, e))
  | inr e ↦ rw e refl
]

line-refunds :
    (d k : ℕ) (rows : List Row)
    → (or_empty d (by_day rows k)).paid_total_krw ≡ asked_sum (keep (on_day k) rows)
unfolding by_day
line-refunds d k rows = elim (Bool-cases (length (keep (on_day k) rows) == 0)) [
  | inl e ↦ rw e (sym (asked_sum-empty (keep (on_day k) rows) e))
  | inr e ↦ rw e refl
]

-- The days from a midnight to `n` days later.
within-IsSplit :
    (d to : ℕ)
    → IsMidnight d
    → d + day_long ≤ to
    → IsSplit (within d to) (on_day d) (within (d + day_long) to)
within-IsSplit d to m h r = within_cases d to r.claim.created_at m h

fill_days-claims :
    (n d : ℕ) (rows : List Row)
    → IsMidnight d
    → claims_of (fill_days n d (d + n * day_long) rows)
      ≡ length (keep (within d (d + n * day_long)) rows)
unfolding fill_days
fill_days-claims zero d rows m = sym (nothing-within d (d + 0) rows (omega arith))
fill_days-claims (suc n) d rows m =
    let to = d + suc n * day_long in
    let same : d + day_long + n * day_long ≡ to = omega arith in
    let rest = fill_days-claims n (d + day_long) rows (omega (arith, m)) in
    let shifted =
      subst
        (λ e.
          claims_of (fill_days n (d + day_long) e rows)
          ≡ length (keep (within (d + day_long) e) rows))
        same rest in
    let here : ltb d to ≡ true = ground arith in
    let first : day_of d ≡ d = omega (arith, m) in
    rw here (
      line_step (line-claims d (day_of d) rows) shifted
      ∙ ap (λ k. length (keep (on_day k) rows) + length (keep (within (d + day_long) to) rows))
          first
      ∙ sym (
          split-length (within d to) (on_day d) (within (d + day_long) to)
            (within-IsSplit d to m (omega arith)) rows))

sum_step : {a b c e : ℤ} → a ≡ b → c ≡ e → a +ℤ c ≡ b +ℤ e
sum_step {a} {b} {c} {e} h k = ap (λ x. x +ℤ c) h ∙ ap (λ x. b +ℤ x) k

fill_days-refunds :
    (n d : ℕ) (rows : List Row)
    → IsMidnight d
    → refunds_of (fill_days n d (d + n * day_long) rows)
      ≡ asked_sum (keep (within d (d + n * day_long)) rows)
unfolding fill_days
fill_days-refunds zero d rows m = sym (
    asked_sum-empty (keep (within d (d + 0)) rows)
      (ground (arith, nothing-within d (d + 0) rows (omega arith))))
fill_days-refunds (suc n) d rows m =
    let to = d + suc n * day_long in
    let same : d + day_long + n * day_long ≡ to = omega arith in
    let rest = fill_days-refunds n (d + day_long) rows (omega (arith, m)) in
    let shifted =
      subst
        (λ e.
          refunds_of (fill_days n (d + day_long) e rows)
          ≡ asked_sum (keep (within (d + day_long) e) rows))
        same rest in
    let here : ltb d to ≡ true = ground arith in
    let first : day_of d ≡ d = omega (arith, m) in
    rw here (
      sum_step (line-refunds d (day_of d) rows) shifted
      ∙ ap
          (λ k.
            asked_sum (keep (on_day k) rows) +ℤ asked_sum (keep (within (d + day_long) to) rows))
          first
      ∙ sym (
          split-asked (within d to) (on_day d) (within (d + day_long) to)
            (within-IsSplit d to m (omega arith)) rows))

keep-again : (p : Row → Bool) (rows : List Row) → keep p (keep p rows) ≡ keep p rows
keep-again p rows = keep-all p (keep p rows) (all-keep p rows)

-- Of a period that does not end before it begins, the lines of the days, those without a claim among
-- them, add up to its number of claims and to its sum of refunds: no claim falls between two days
-- and none is counted twice.
pub settlement_for-days :
    (before : Text → Text → Bool) (store from to : ℕ) (alert_count : ℤ) (rows : List Row)
    (machines : List Machine)
    → from ≤ to
    → (claims_of (settlement_for before store from to alert_count rows machines).days
        ≡ (settlement_for before store from to alert_count rows machines).claim_count)
      × (refunds_of (settlement_for before store from to alert_count rows machines).days
          ≡ (settlement_for before store from to alert_count rows machines).paid_total_krw)
unfolding settlement_for
settlement_for-days before store from to alert_count rows machines h =
    let own = keep (λ r. r.claim.store_id == store) rows in
    let from_d = day_of from in
    let to_d = day_of to + day_long in
    let n = (to_d - from_d) / day_long in
    let now = keep (within from_d to_d) own in
    let end : from_d + n * day_long ≡ to_d = omega (arith, h) in
    let start : IsMidnight from_d = omega arith in
    (
      subst (λ e. claims_of (fill_days n from_d e now) ≡ length (keep (within from_d e) now)) end
            (fill_days-claims n from_d now start)
          ∙ ap (λ xs. length xs) (keep-again (within from_d to_d) own),
      subst (λ e. refunds_of (fill_days n from_d e now) ≡ asked_sum (keep (within from_d e) now))
            end (fill_days-refunds n from_d now start)
          ∙ ap asked_sum (keep-again (within from_d to_d) own),
    )

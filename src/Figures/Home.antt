-- ===== src/Figures/Home.antt =====
-- internal/store/home.go: the counts of the home screen. `start_of_day` is the start of a time's day on
-- the shop's clock.
use claw_hub.Prelude.{
  ℕ, ◌-◌, Bool, ◌&&◌, List, [], ◌∷◌, map, any, keep, count_if, ltb, leb, ◌==◌, if◌then◌else◌,
}
use claw_hub.Prelude.Int.{ℤ, pos, ◌+ℤ◌}
use claw_hub.Prelude.Texts.{Text}
use claw_hub.Claim.Status.{Status, status_eq, approved, paid}
use claw_hub.Claim.Machine.{Event}
use claw_hub.ClaimStore.Table.{Row}
use claw_hub.Machines.Table.{Machine}
use claw_hub.Risk.Facts.{paid_sum}
use claw_hub.Worker.Alerts.{day_long}

-- `HomeSummary`; no time is Go's zero time, 0.
pub record HomeSummary : Type 0 where
  pub pending : ℕ
  pub needs_review : ℕ
  pub on_hold : ℕ
  pub approved : ℕ
  pub approved_amount_krw : ℤ
  pub oldest_approved_at : ℕ
  pub stale_on_hold : ℕ
  pub today_claims : ℕ
  pub today_paid : ℕ
  pub today_paid_krw : ℤ

abbrev pub in_status : Status → Row → Bool
in_status st r = status_eq r.claim.status st

-- SUM(amount_krw)
abbrev amount_sum : List Row → ℤ
amount_sum [] = pos 0
amount_sum (r ∷ rows) = r.claim.amount_krw +ℤ amount_sum rows

-- MIN(created_at); none for no event, which reads as the zero time.
abbrev oldest : List Event → ℕ
oldest [] = 0
oldest (e ∷ []) = e.at
oldest (e ∷ f ∷ es) = let rest = oldest (f ∷ es) in if ltb e.at rest then e.at else rest

-- The events by which claims that are approved now came to be so.
abbrev approvals : List Row → List Event → List Event
approvals rows events =
    keep
      (λ e.
        status_eq e.to approved && any (λ r. r.claim.id == e.claim_id && in_status approved r) rows)
      events

-- `HomeSummaryFor`
unfoldable pub home_summary_for : (ℕ → ℕ) → ℕ → ℕ → List Row → List Event → HomeSummary
home_summary_for start_of_day store now all_rows events =
    let rows = keep (λ r. r.claim.store_id == store) all_rows in
    let day_start = start_of_day now in
    let paid_today = λ (r : Row). in_status paid r && leb day_start r.claim.paid_at in
    record {
      pending = count_if (in_status Status.pending) rows;
      needs_review = count_if (in_status Status.needs_review) rows;
      on_hold = count_if (in_status Status.on_hold) rows;
      approved = count_if (in_status Status.approved) rows;
      approved_amount_krw = amount_sum (keep (in_status Status.approved) rows);
      oldest_approved_at =
          if ltb 0 (count_if (in_status Status.approved) rows)
          then oldest (approvals rows events)
          else 0;
      stale_on_hold =
          count_if (λ r. in_status Status.on_hold r && ltb r.claim.created_at (now - day_long))
            rows;
      today_claims = count_if (λ r. leb day_start r.claim.created_at) rows;
      today_paid = count_if paid_today rows;
      today_paid_krw = paid_sum (keep paid_today rows);
    }

-- `MachineAlert`
pub record MachineAlert : Type 0 where
  pub machine_id : ℕ
  pub label : Text
  pub count : ℕ

abbrev alert_of : ℕ → List Row → Machine → MachineAlert
alert_of since rows m = record {
  machine_id = m.id;
  label = m.label;
  count = count_if (λ r. r.claim.machine_id == m.id && leb since r.claim.created_at) rows;
}

-- `ORDER BY COUNT(*) DESC`
unfoldable pub insert_alert : MachineAlert → List MachineAlert → List MachineAlert
insert_alert a [] = a ∷ []
insert_alert a (x ∷ xs) =
    let rest = insert_alert a xs in if ltb a.count x.count then x ∷ rest else a ∷ x ∷ xs

unfoldable pub sort_alerts : List MachineAlert → List MachineAlert
unfolding insert_alert
sort_alerts [] = []
sort_alerts (a ∷ alerts) = insert_alert a (sort_alerts alerts)

-- `MachineAlertsFor`: the claims of the store, with the machine of each.
unfoldable pub machine_alerts_for : ℕ → ℕ → ℕ → List Row → List Machine → List MachineAlert
unfolding sort_alerts
machine_alerts_for store threshold now rows machines =
    let own = keep (λ r. r.claim.store_id == store) rows in
    sort_alerts (
      keep (λ a. ltb 0 a.count && leb threshold a.count)
        (map (alert_of (now - day_long) own) machines))

-- ===== src/Figures/Settlement.antt =====
-- internal/store/settlement.go: `SettlementFor` and `SettlementRange`. The session of the database and the
-- times that come in have UTC's days, so a day is 24 hours since Go's zero time. What the time package
-- says of the calendar are parameters.
use claw_hub.Prelude.{
  ℕ, zero, suc, ◌+◌, ◌-◌, ◌*◌, ◌/◌, ◌%◌, Bool, true, false, ◌&&◌, ◌||◌, String, str_eq, Option,
  none, some, List, [], ◌∷◌, map, keep, count_if, length, ltb, leb, ◌==◌, if◌then◌else◌,
}
use claw_hub.Prelude.Int.{ℤ, pos, ◌+ℤ◌, ltb_ℤ, leb_ℤ}
use claw_hub.Prelude.Texts.{Text}
use claw_hub.Claim.Status.{
  status_eq, pending, needs_review, on_hold, rejected, paid, PaymentMethod, cash, is_card,
}
use claw_hub.ClaimStore.Table.{Row}
use claw_hub.Machines.Table.{Machine}
use claw_hub.Worker.Alerts.{day_long}

-- `SettlementDay`
pub record SettlementDay : Type 0 where
  pub day : ℕ
  pub claim_count : ℕ
  pub paid_total_krw : ℤ

-- `SettlementMachine`
pub record SettlementMachine : Type 0 where
  pub machine_id : ℕ
  pub label : Text
  pub claim_count : ℕ
  pub paid_total_krw : ℤ
  pub needs_check : Bool

-- `Settlement`
pub record Settlement : Type 0 where
  pub from : ℕ
  pub to : ℕ
  pub prev_from : ℕ
  pub prev_to : ℕ
  pub claim_count : ℕ
  pub paid_count : ℕ
  pub paid_total_krw : ℤ
  pub prev_claim_count : ℕ
  pub prev_paid_count : ℕ
  pub prev_paid_total_krw : ℤ
  pub days : List SettlementDay
  pub machines : List SettlementMachine
  pub paid_by_cash : ℕ
  pub paid_by_card : ℕ
  pub rejected_count : ℕ
  pub open_count : ℕ

-- `Truncate(24 * time.Hour)`
abbrev pub day_of : ℕ → ℕ
day_of t = t - t % day_long

-- `created_at >= from AND created_at < to`
abbrev pub within : ℕ → ℕ → Row → Bool
within from to r = leb from r.claim.created_at && ltb r.claim.created_at to

abbrev pub is_paid : Row → Bool
is_paid r = status_eq r.claim.status paid

abbrev pub is_open : Row → Bool
is_open r =
    status_eq r.claim.status pending
    || status_eq r.claim.status needs_review
    || status_eq r.claim.status on_hold

abbrev is_cash : PaymentMethod → Bool
is_cash cash = true
is_cash _ = false

-- SUM(amount_krw) FILTER (WHERE status='paid')
unfoldable pub asked_sum : List Row → ℤ
asked_sum [] = pos 0
asked_sum (r ∷ rows) =
    let rest = asked_sum rows in if is_paid r then r.claim.amount_krw +ℤ rest else rest

abbrev pub day_line : ℕ → List Row → SettlementDay
day_line d rows = record { day = d; claim_count = length rows; paid_total_krw = asked_sum rows }

-- The query by day, read into the map `byDay`: a day without a claim is no key.
unfoldable pub by_day : List Row → ℕ → Option SettlementDay
unfolding asked_sum
by_day rows d =
    let group = keep (λ r. day_of r.claim.created_at == d) rows in
    if length group == 0 then none else some (day_line d group)

abbrev pub or_empty : ℕ → Option SettlementDay → SettlementDay
or_empty d none = record { day = d; claim_count = 0; paid_total_krw = pos 0 }
or_empty d (some line) = record line { day = d }

-- The loop that fills the days up to `to`; the fuel is their number.
unfoldable pub fill_days : ℕ → ℕ → ℕ → List Row → List SettlementDay
unfolding by_day
fill_days zero d to rows = []
fill_days (suc n) d to rows =
    let rest = fill_days n (d + day_long) to rows in
    if ltb d to then or_empty d (by_day rows (day_of d)) ∷ rest else []

-- One line of the query by machine; the claims of the machine, in the period.
unfoldable pub machine_line : ℤ → ℕ → ℕ → List Row → Machine → SettlementMachine
unfolding asked_sum
machine_line alert_count from to rows m =
    let group = keep (λ r. r.claim.machine_id == m.id && within from to r) rows in
    record {
      machine_id = m.id;
      label = m.label;
      claim_count = length group;
      paid_total_krw = asked_sum group;
      needs_check = ltb_ℤ (pos 0) alert_count && leb_ℤ alert_count (pos (length group));
    }

-- `ORDER BY 4 DESC, 3 DESC, m.label`; `before` is the order of the database's texts.
unfoldable pub dearer : (Text → Text → Bool) → SettlementMachine → SettlementMachine → Bool
dearer before a b =
    ltb_ℤ b.paid_total_krw a.paid_total_krw
    || (leb_ℤ b.paid_total_krw a.paid_total_krw
        && (ltb b.claim_count a.claim_count
            || (b.claim_count == a.claim_count && before a.label b.label)))

unfoldable pub insert_machine :
    (Text → Text → Bool) → SettlementMachine → List SettlementMachine → List SettlementMachine
unfolding dearer
insert_machine before m [] = m ∷ []
insert_machine before m (x ∷ xs) =
    let rest = insert_machine before m xs in if dearer before x m then x ∷ rest else m ∷ x ∷ xs

unfoldable pub sort_machines :
    (Text → Text → Bool) → List SettlementMachine → List SettlementMachine
unfolding insert_machine
sort_machines before [] = []
sort_machines before (m ∷ ms) = insert_machine before m (sort_machines before ms)

-- `SettlementFor`
unfoldable pub settlement_for :
    (Text → Text → Bool) → ℕ → ℕ → ℕ → ℤ → List Row → List Machine → Settlement
unfolding fill_days machine_line sort_machines asked_sum
settlement_for before store from to alert_count all_rows machines =
    let rows = keep (λ r. r.claim.store_id == store) all_rows in
    let from_d = day_of from in
    let to_d = day_of to + day_long in
    let prev = from_d - (to_d - from_d) in
    let now = keep (within from_d to_d) rows in
    let last = keep (within prev from_d) rows in
    record {
      from = from_d;
      to = to_d - 1;
      prev_from = prev;
      prev_to = from_d - 1;
      claim_count = length now;
      paid_count = count_if is_paid now;
      paid_total_krw = asked_sum now;
      prev_claim_count = length last;
      prev_paid_count = count_if is_paid last;
      prev_paid_total_krw = asked_sum last;
      days = fill_days ((to_d - from_d) / day_long) from_d to_d now;
      machines = sort_machines before (
          map (machine_line alert_count from_d to_d all_rows)
            (keep (λ m. m.store_id == store && m.active) machines));
      paid_by_cash = count_if (λ r. is_paid r && is_cash r.claim.payment_method) now;
      paid_by_card = count_if (λ r. is_paid r && is_card r.claim.payment_method) now;
      rejected_count = count_if (λ r. status_eq r.claim.status rejected) now;
      open_count = count_if is_open now;
    }

-- What the time package says of a time, in the location of the server.
pub record Calendar : Type 0 where
  -- The start of its day, and of its month.
  pub today : ℕ → ℕ
  pub month : ℕ → ℕ
  -- `AddDate(0, -1, 0)` of the start of a month, and `Weekday`, with Sunday as 0.
  pub month_before : ℕ → ℕ
  pub weekday : ℕ → ℕ

-- `SettlementRange`
unfoldable pub settlement_range : Calendar → String → ℕ → ℕ × ℕ
settlement_range cal period now =
    let today = cal.today now in
    let first = cal.month now in
    if str_eq period "month"
    then (first, today)
    else if str_eq period "last_month"
    then (cal.month_before first, first - day_long)
    else (today - (cal.weekday today + 6) % 7 * day_long, today)

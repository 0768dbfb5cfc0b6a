-- ===== src/Figures/Report.antt =====
-- internal/httpapi/admin_settlement.go: the answer with the figures of a period, and the file for the
-- accountant as the fields of its lines; how a field is quoted is the csv package's. `date` writes the
-- date of a time.
use claw_hub.Prelude.{ℕ, Bool, ◌||◌, String, str_eq, List, [], ◌∷◌, ◌++◌, map, if◌then◌else◌}
use claw_hub.Prelude.Int.{ℤ, pos}
use claw_hub.Prelude.Texts.{Text, codes}
use claw_hub.Prelude.Decimal.{format_int}
use claw_hub.ClaimStore.Table.{Row}
use claw_hub.Machines.Table.{Machine}
use claw_hub.Figures.Settlement.{
  Settlement, SettlementDay, SettlementMachine, Calendar, settlement_for, settlement_range,
}

-- `settlementDay`
pub record DayItem : Type 0 where
  pub day : Text
  pub claim_count : ℕ
  pub paid_total_krw : ℤ

-- `settlementResponse`; the machines have the same fields as in the store.
pub record SettlementResponse : Type 0 where
  pub period : String
  pub from : Text
  pub to : Text
  pub claim_count : ℕ
  pub paid_count : ℕ
  pub paid_total_krw : ℤ
  pub prev_claim_count : ℕ
  pub prev_paid_count : ℕ
  pub prev_paid_total_krw : ℤ
  pub days : List DayItem
  pub machines : List SettlementMachine
  pub paid_by_cash : ℕ
  pub paid_by_card : ℕ
  pub rejected_count : ℕ
  pub open_count : ℕ

-- `periodOf`
unfoldable pub period_of : String → String
period_of p = if str_eq p "month" || str_eq p "last_month" || str_eq p "week" then p else "week"

module _ (cal : Calendar) (before : Text → Text → Bool) (date : ℕ → Text) where
  -- The figures that both handlers read.
  unfoldable pub asked_settlement : ℕ → ℤ → String → ℕ → List Row → List Machine → Settlement
  unfolding period_of settlement_range settlement_for
  asked_settlement store alert_count period now rows machines =
      let range = settlement_range cal (period_of period) now in
      settlement_for before store range.0 range.1 alert_count rows machines

  -- `handleSettlement`
  unfoldable pub handle_settlement :
      ℕ → ℤ → String → ℕ → List Row → List Machine → SettlementResponse
  unfolding asked_settlement
  handle_settlement store alert_count period now rows machines =
      let st = asked_settlement store alert_count period now rows machines in
      record {
        period = period_of period;
        from = date st.from;
        to = date st.to;
        claim_count = st.claim_count;
        paid_count = st.paid_count;
        paid_total_krw = st.paid_total_krw;
        prev_claim_count = st.prev_claim_count;
        prev_paid_count = st.prev_paid_count;
        prev_paid_total_krw = st.prev_paid_total_krw;
        days =
            map
              (λ d. record {
                day = date d.day;
                claim_count = d.claim_count;
                paid_total_krw = d.paid_total_krw;
              })
              st.days;
        machines = st.machines;
        paid_by_cash = st.paid_by_cash;
        paid_by_card = st.paid_by_card;
        rejected_count = st.rejected_count;
        open_count = st.open_count;
      }

  abbrev itoa : ℕ → Text
  itoa n = format_int (pos n)

  abbrev machine_fields : SettlementMachine → List Text
  machine_fields m = codes "기계" ∷ m.label ∷ itoa m.claim_count ∷ format_int m.paid_total_krw ∷ []

  abbrev day_fields : SettlementDay → List Text
  day_fields d = codes "날짜" ∷ date d.day ∷ itoa d.claim_count ∷ format_int d.paid_total_krw ∷ []

  abbrev count_fields : String → ℕ → List Text
  count_fields name n = codes name ∷ [] ∷ itoa n ∷ [] ∷ []

  -- The lines that `handleSettlementCSV` writes after the mark of UTF-8.
  unfoldable pub handle_settlement_csv :
      ℕ → ℤ → String → ℕ → List Row → List Machine → List (List Text)
  unfolding asked_settlement
  handle_settlement_csv store alert_count period now rows machines =
      let st = asked_settlement store alert_count period now rows machines in
      (codes "구분" ∷ codes "이름" ∷ codes "민원 수" ∷ codes "환불액(원)" ∷ [])
        ∷ map machine_fields st.machines
      ++ map day_fields st.days
      ++ (codes "합계" ∷ [] ∷ itoa st.claim_count ∷ format_int st.paid_total_krw ∷ [])
        ∷ count_fields "계좌 송금" st.paid_by_cash
        ∷ count_fields "카드 취소" st.paid_by_card
        ∷ count_fields "거절" st.rejected_count
        ∷ count_fields "대기" st.open_count
        ∷ []

-- ===== src/Figures/Actions.antt =====
-- internal/httpapi/admin_home.go: the list of what the owner has to do now. `uuid` writes an id; the type
-- of the shop, which only chooses a picture, is left out.
use claw_hub.Prelude.{
  ℕ, ◌-◌, ◌/◌, Bool, ◌||◌, String, Option, none, some, List, [], ◌∷◌, ◌++◌, map, ltb, leb, ◌==◌,
  if◌then◌else◌,
}
use claw_hub.Prelude.Int.{ℤ, pos}
use claw_hub.Prelude.Texts.{Text, codes, is_empty, text_eq}
use claw_hub.Prelude.Decimal.{format_int}
use claw_hub.Claim.Machine.{Event}
use claw_hub.ClaimStore.Table.{Row}
use claw_hub.Machines.Table.{Machine}
use claw_hub.Worker.Alerts.{day_long}
use claw_hub.Notify.Channels.{comma}
use claw_hub.Accounts.Stores.{StoreRow}
use claw_hub.Figures.Home.{HomeSummary, MachineAlert, home_summary_for, machine_alerts_for}

-- `homeAction`
pub record HomeAction : Type 0 where
  pub kind : String
  pub severity : String
  pub title : Text
  pub detail : Text
  pub count : ℕ
  pub href : Text

abbrev itoa : ℕ → Text
itoa n = format_int (pos n)

-- `payoutPendingDetail`; a duration before the zero time is no whole day.
unfoldable pub payout_pending_detail : HomeSummary → ℕ → Text
unfolding comma
payout_pending_detail sum now =
    let amount = codes "합계 " ++ comma sum.approved_amount_krw ++ codes "원" in
    let days = (now - sum.oldest_approved_at) / day_long in
    if sum.oldest_approved_at == 0
    then amount
    else if leb 1 days
    then amount ++ codes " · 가장 오래된 건은 " ++ itoa days ++ codes "일째"
    else amount

abbrev action_if : Bool → HomeAction → List HomeAction → List HomeAction
action_if there a rest = if there then a ∷ rest else rest

abbrev pub alert_action : (ℕ → Text) → MachineAlert → HomeAction
alert_action uuid a = record {
  kind = "machine_alert";
  severity = "warn";
  title = a.label ++ codes "에 오늘 " ++ itoa a.count ++ codes "건";
  detail = codes "기계를 한 번 봐주세요. 계속 먹으면 전원을 빼는 게 쌉니다.";
  count = a.count;
  href = codes "/admin/claims?machineId=" ++ uuid a.machine_id;
}

-- `buildHomeActions`
unfoldable pub build_home_actions :
    (ℕ → Text) → HomeSummary → List MachineAlert → ℕ → List HomeAction
unfolding payout_pending_detail
build_home_actions uuid sum alerts now =
    action_if (ltb 0 sum.approved)
      (record {
        kind = "payout_pending";
        severity = "stop";
        title = codes "환불 " ++ itoa sum.approved ++ codes "건이 아직 안 나갔어요";
        detail = payout_pending_detail sum now;
        count = sum.approved;
        href = codes "/admin/claims?status=approved";
      })
      (action_if (ltb 0 sum.needs_review)
        (record {
          kind = "needs_review";
          severity = "warn";
          title = codes "확인이 필요한 " ++ itoa sum.needs_review ++ codes "건";
          detail = codes "고액이거나 반복 신고로 걸러진 건입니다.";
          count = sum.needs_review;
          href = codes "/admin/claims?status=needs_review";
        })
        (action_if (ltb 0 sum.pending)
          (record {
            kind = "pending";
            severity = "warn";
            title = codes "새 신고 " ++ itoa sum.pending ++ codes "건";
            detail = codes "아직 아무도 열어보지 않았습니다.";
            count = sum.pending;
            href = codes "/admin/claims?status=pending";
          })
          (action_if (ltb 0 sum.stale_on_hold)
            (record {
              kind = "stale_on_hold";
              severity = "warn";
              title = codes "하루 넘게 보류 중인 " ++ itoa sum.stale_on_hold ++ codes "건";
              detail = codes "손님은 접수한 순간부터 기다리고 있습니다.";
              count = sum.stale_on_hold;
              href = codes "/admin/claims?status=on_hold";
            })
            (map (alert_action uuid) alerts))))

abbrev pub machine_alert_threshold : ℕ
machine_alert_threshold = 3

-- `homeResponse`
pub record HomeResponse : Type 0 where
  pub store_name : Text
  pub actions : List HomeAction
  pub today_claims : ℕ
  pub today_paid : ℕ
  pub today_paid_krw : ℤ

abbrev pub setup_payout : HomeAction
setup_payout = record {
  kind = "setup_payout";
  severity = "neutral";
  title = codes "송금 앱을 정해주세요";
  detail = codes "토스나 카카오뱅크를 고르면 환불 버튼이 앱을 바로 엽니다.";
  count = 0;
  href = codes "/admin/settings";
}

-- The end of `handleHome`: the shop's row, when it can be read.
abbrev pub with_store : Option StoreRow → HomeResponse → HomeResponse
with_store none res = res
with_store (some st) res = record res {
  store_name = st.name;
  actions =
      if is_empty st.payout_provider || text_eq st.payout_provider (codes "none")
      then res.actions ++ setup_payout ∷ []
      else res.actions;
}

-- `handleHome`; `st` is what `StoreByID` gives.
unfoldable pub handle_home :
    (ℕ → Text)
    → (ℕ → ℕ)
    → ℕ
    → ℕ
    → Option StoreRow
    → List Row
    → List Event
    → List Machine
    → HomeResponse
unfolding home_summary_for machine_alerts_for build_home_actions
handle_home uuid start_of_day store now st rows events machines =
    let sum = home_summary_for start_of_day store now rows events in
    let alerts = machine_alerts_for store machine_alert_threshold now rows machines in
    with_store st (record {
      store_name = [];
      actions = build_home_actions uuid sum alerts now;
      today_claims = sum.today_claims;
      today_paid = sum.today_paid;
      today_paid_krw = sum.today_paid_krw;
    })

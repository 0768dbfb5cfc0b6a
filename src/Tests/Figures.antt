-- ===== src/Tests/Figures.antt =====
-- A browser that is subscribed and goes, a notice to it, the figures of a few days, the first line of the
-- home screen, and a customer who is blocked.
use claw_hub.Prelude.{
  ℕ, ◌+◌, true, false, Bool, Option, none, some, List, [], ◌∷◌, any, ◌≡◌, refl, ok, arith, str_eq,
  str_eq,
}
use claw_hub.Prelude.Int.{pos}
use claw_hub.Prelude.Texts.{Text, codes, trim_space, is_space, trim_left}
use claw_hub.Claim.Status.{Status, approved, on_hold, paid, cash}
use claw_hub.Claim.Machine.{no_method}
use claw_hub.ClaimStore.Table.{Row}
use claw_hub.Notify.Subscriptions.{
  PushSubscription, PushRow, PushSubscribeRequest, handle_push_subscribe, push_subscriptions_for,
  requested, save_push_subscription, has_id,
}
use claw_hub.Notify.Channels.{ClaimNotice, Outbox, PushPayload, noop, web_push, claim_payload}
use claw_hub.Notify.Multi.{claim_created}
use claw_hub.Notify.Live.{AreLive, Subscribed, nobody, later, subscribe, Subscribed-AreLive}
use claw_hub.Notify.Delivery.{claim_created-reaches}
use claw_hub.Notify.Three.{Message, send_all, gones, three_gone, send_all-three_gone}
use claw_hub.Figures.Settlement.{settlement_for}
use claw_hub.Figures.Sums.{claims_of, refunds_of, settlement_for-days}
use claw_hub.Figures.Actions.{handle_home}
use claw_hub.Figures.First.{first_kind, handle_home-first}
use claw_hub.Risk.Rules.{blocked, parse_contact_status, default_policy, evaluate}
use claw_hub.Risk.Facts.{Flag, RiskQuery, risk_facts_for}
use claw_hub.Risk.Contacts.{
  ContactStatusRequest, handle_set_contact_status, set_contact_status, parse_kind, upsert_flag,
}
use claw_hub.Risk.Blocked.{handle_set_contact_status-blocks}

abbrev subscription : PushSubscribeRequest
subscription = record { endpoint = codes "https://push/1"; p256dh = codes "p"; auth = codes "a" }

abbrev browser : PushSubscription
browser = requested 4 1 9 subscription

abbrev push_row : PushRow
push_row = record { sub = browser; failures = 0; last_sent_at = none }

subscribe_run : handle_push_subscribe 4 1 9 subscription [] ≡ ok (push_row ∷ [])
unfolding handle_push_subscribe save_push_subscription trim_space trim_left is_space
subscribe_run = refl

subscribed : Subscribed (push_row ∷ [])
subscribed = later nobody (subscribe 4 1 9 subscription refl subscribe_run)

Subscribed-AreLive_example : AreLive (push_row ∷ [])
Subscribed-AreLive_example = Subscribed-AreLive (push_row ∷ []) subscribed

push_row-AreLive : AreLive (push_row ∷ [])
push_row-AreLive = Subscribed-AreLive (push_row ∷ []) subscribed

abbrev gone_service : PushSubscription → PushPayload → Option ℕ
gone_service s p = some 410

abbrev payload : PushPayload
payload = record { title = []; body = []; url = []; tag = [] }

abbrev told : Message
told = record { deliver = gone_service; now = 100; payload = payload }

abbrev outbox : Outbox
outbox = record { rows = push_row ∷ []; calls = [] }

send_all-three_gone_example :
    any (has_id 4) (send_all 1 (told ∷ told ∷ told ∷ []) outbox).rows ≡ false
unfolding three_gone gones has_id
send_all-three_gone_example =
    send_all-three_gone 1 4 (told ∷ told ∷ told ∷ []) outbox push_row push_row-AreLive refl refl
      refl

abbrev uuid : ℕ → Text
uuid id = (b'0' + id) ∷ []

abbrev notice : ClaimNotice
notice = record {
  claim_id = 5;
  store_id = some 1;
  url = [];
  machine_label = codes "M7";
  issue_label = codes "i";
  payment_label = codes "cash";
  amount_krw = pos 3000;
}

claim_created-reaches_example :
    (claim_created
      (noop ∷ web_push gone_service 100 uuid (codes "https://shop") ∷ [])
      notice
      outbox).1.calls
    ≡ (browser, claim_payload uuid (codes "https://shop") notice) ∷ []
unfolding noop push_subscriptions_for
claim_created-reaches_example =
    claim_created-reaches gone_service 100 uuid (codes "https://shop") (noop ∷ []) notice 1 outbox
      ((λ n w. refl), tt) refl

abbrev row_at : ℕ → ℕ → Status → Row
row_at id at status = record {
  claim = record {
    id = id;
    store_id = 1;
    machine_id = 7;
    issue_type = "cash_eaten";
    payment_method = cash;
    amount_krw = pos 3000;
    description = [];
    card_last4 = [];
    paid_at_guess = 0;
    status = status;
    risk_score = 0;
    created_at = at;
    resolved_at = 0;
    paid_at = 0;
    payout_method = no_method;
    paid_amount_krw = pos 0;
  };
  phone_hash = 3;
  account_hash = 4;
  key = codes "k";
  resolved_by = none;
}

-- One claim on the second day and one on the fourth.
abbrev rows : List Row
rows = row_at 2 260000000000000 approved ∷ row_at 1 86400000000001 paid ∷ []

abbrev before : Text → Text → Bool
before a b = false

settlement_for-days_example :
    (claims_of (settlement_for before 1 86400000000000 260000000000000 (pos 3) rows []).days
      ≡ (settlement_for before 1 86400000000000 260000000000000 (pos 3) rows []).claim_count)
    × (refunds_of (settlement_for before 1 86400000000000 260000000000000 (pos 3) rows []).days
        ≡ (settlement_for before 1 86400000000000 260000000000000 (pos 3) rows []).paid_total_krw)
settlement_for-days_example =
    settlement_for-days before 1 86400000000000 260000000000000 (pos 3) rows [] (omega arith)

handle_home-first_example :
    str_eq
      (first_kind (handle_home uuid (λ t. 0) 1 260000000000001 none rows [] []).actions)
      "payout_pending"
    ≡ true
handle_home-first_example = handle_home-first uuid (λ t. 0) 1 260000000000001 none rows [] []

abbrev query : RiskQuery
query = record {
  store_id = 1;
  machine_id = 2;
  phone_hash = 3;
  account_hash = 4;
  has_account = true;
  now = 1600000000000;
}

abbrev blocking : ContactStatusRequest
blocking = record { status = "blocked"; note = []; kind = "" }

abbrev flag : Flag
flag = record { store_id = 1; is_phone = true; identity_hash = 3; manual_status = blocked }

blocking_run : handle_set_contact_status (λ h. some 3) 1 (codes "03") blocking [] ≡ ok (flag ∷ [])
unfolding handle_set_contact_status set_contact_status parse_contact_status parse_kind upsert_flag
blocking_run = refl

handle_set_contact_status-blocks_example :
    (evaluate (risk_facts_for query [] (flag ∷ []) (pos 3000)) default_policy).status ≡ on_hold
unfolding parse_contact_status parse_kind
handle_set_contact_status-blocks_example =
    handle_set_contact_status-blocks (λ h. some 3) 1 (codes "03") blocking [] (flag ∷ []) 3 true
      query [] (pos 3000) default_policy blocking_run refl refl refl refl refl

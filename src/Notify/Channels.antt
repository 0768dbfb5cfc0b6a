-- ===== src/Notify/Channels.antt =====
-- internal/notify: the notices of notify.go, the web push of webpush.go and the channels of multi.go.
-- `deliver` is the push library's call: the status code that a push service answers with, or nothing
-- when the call fails. `uuid` writes an id.
use claw_hub.Prelude.{
  ℕ, ◌%◌, Bool, true, false, not, ◌&&◌, ◌||◌, Option, none, some, List, [], ◌∷◌, ◌++◌, length, ◌==◌,
  if◌then◌else◌,
}
use claw_hub.Prelude.Int.{ℤ, pos}
use claw_hub.Prelude.Texts.{Text, codes, is_empty}
use claw_hub.Prelude.Decimal.{format_int}
use claw_hub.Notify.Subscriptions.{
  PushSubscription, PushRow, PushError, no_store, push_subscriptions_for, mark_push_sent,
}

-- `ClaimNotice`, less what only the message to Slack shows. A store that is not known is none.
pub record ClaimNotice : Type 0 where
  pub claim_id : ℕ
  pub store_id : Option ℕ
  pub url : Text
  pub machine_label : Text
  pub issue_label : Text
  pub payment_label : Text
  pub amount_krw : ℤ

-- `MachineNotice`, less the counts by issue.
pub record MachineNotice : Type 0 where
  pub store_id : Option ℕ
  pub machine_label : Text
  pub count : ℕ

-- `DigestNotice`, less the machines.
pub record DigestNotice : Type 0 where
  pub store_id : Option ℕ
  pub day : Text
  pub claim_count : ℕ
  pub paid_count : ℕ
  pub paid_total_krw : ℤ

-- The loop of `comma`; `start` says that no digit is written yet.
unfoldable pub commas : Bool → Text → Text
commas start [] = []
commas start (c ∷ cs) =
    let rest = c ∷ commas false cs in
    if not start && (length (c ∷ cs) % 3 == 0) then b',' ∷ rest else rest

-- `comma`
unfoldable pub comma : ℤ → Text
unfolding commas
comma n = commas true (format_int n)

-- `pushPayload`
pub record PushPayload : Type 0 where
  pub title : Text
  pub body : Text
  pub url : Text
  pub tag : Text

-- The tables that a push reads and writes, and the calls that have been made, the last one at the end.
pub record Outbox : Type 0 where
  pub rows : List PushRow
  pub calls : List (PushSubscription × PushPayload)

-- A channel: each notice gives an error or none, and what it has sent.
pub record Notifier : Type 0 where
  pub claim_created : ClaimNotice → Outbox → Option PushError × Outbox
  pub machine_alert : MachineNotice → Outbox → Option PushError × Outbox
  pub daily_digest : DigestNotice → Outbox → Option PushError × Outbox

-- 404 and 410.
abbrev pub is_gone : ℕ → Bool
is_gone code = code == 404 || code == 410

module _ (uuid : ℕ → Text) (base_url : Text) where
  -- What `WebPush.ClaimCreated` sends.
  unfoldable pub claim_payload : ClaimNotice → PushPayload
  unfolding comma
  claim_payload n = record {
    title = n.machine_label ++ codes " · " ++ n.issue_label;
    body = comma n.amount_krw ++ codes "원 · " ++ n.payment_label;
    url = if is_empty n.url then base_url ++ codes "/admin/claims" else n.url;
    tag = codes "claim-" ++ uuid n.claim_id;
  }

  -- What `WebPush.MachineAlert` sends.
  unfoldable pub machine_payload : MachineNotice → PushPayload
  machine_payload n = record {
    title = n.machine_label ++ codes " 점검이 필요해 보여요";
    body = codes "24시간 내 " ++ format_int (pos n.count) ++ codes "건 접수됐어요.";
    url = base_url ++ codes "/admin/machines";
    tag = codes "machine-" ++ n.machine_label;
  }

module _ (deliver : PushSubscription → PushPayload → Option ℕ) (now : ℕ) where
  abbrev pub after_answer : PushSubscription → Option ℕ → Outbox → Outbox
  after_answer s none w = w
  after_answer s (some code) w = record w { rows = mark_push_sent s.id (is_gone code) now w.rows }

  -- The loop of `send`.
  unfoldable pub send_each : PushPayload → List PushSubscription → Outbox → Outbox
  unfolding mark_push_sent
  send_each p [] w = w
  send_each p (s ∷ ss) w =
      send_each p ss (after_answer s (deliver s p) (record w { calls = w.calls ++ (s, p) ∷ [] }))

  -- `send`
  unfoldable pub send : Option ℕ → PushPayload → Outbox → Option PushError × Outbox
  unfolding send_each push_subscriptions_for
  send none p w = (some no_store, w)
  send (some store) p w = (none, send_each p (push_subscriptions_for store w.rows) w)

  module _ (uuid : ℕ → Text) (base_url : Text) where
    -- `WebPush`; the digest is not sent.
    unfoldable pub web_push : Notifier
    unfolding send claim_payload machine_payload
    web_push = record {
      claim_created = λ n w. send n.store_id (claim_payload uuid base_url n) w;
      machine_alert = λ n w. send n.store_id (machine_payload uuid base_url n) w;
      daily_digest = λ n w. (none, w);
    }

-- `Noop`
unfoldable pub noop : Notifier
noop = record {
  claim_created = λ n w. (none, w);
  machine_alert = λ n w. (none, w);
  daily_digest = λ n w. (none, w);
}

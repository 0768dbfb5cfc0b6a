-- ===== src/Notify/Subscriptions.antt =====
-- internal/store/push.go and internal/httpapi/admin_push.go: the subscriptions of browsers.
use claw_hub.Prelude.{
  ℕ, ◌+◌, Bool, not, ◌&&◌, ◌||◌, Option, none, some, List, ◌∷◌, map, any, keep, ltb, leb, ◌==◌,
  if◌then◌else◌, Result, ok, ◌>>◌, refuse_if,
}
use claw_hub.Prelude.Texts.{Text, codes, text_eq, trim_space, byte_len, is_empty}
use claw_hub.Domain.Phone.{has_prefix}

-- `PushSubscription`
pub record PushSubscription : Type 0 where
  pub id : ℕ
  pub store_id : ℕ
  pub user_id : ℕ
  pub endpoint : Text
  pub p256dh : Text
  pub auth : Text

-- A row of `push_subscriptions`.
pub record PushRow : Type 0 where
  pub sub : PushSubscription
  pub failures : ℕ
  pub last_sent_at : Option ℕ

unfoldable pub has_endpoint : Text → PushRow → Bool
has_endpoint endpoint r = text_eq r.sub.endpoint endpoint

unfoldable pub has_id : ℕ → PushRow → Bool
has_id id r = r.sub.id == id

-- The row of an endpoint that is subscribed again keeps its id.
unfoldable pub renewed : PushSubscription → PushRow → PushRow
renewed sub r = record r { sub = record sub { id = r.sub.id }; failures = 0 }

-- `SavePushSubscription`; the database gives a new row its id, the one of `sub`.
unfoldable pub save_push_subscription : PushSubscription → List PushRow → List PushRow
unfolding has_endpoint renewed
save_push_subscription sub rows =
    if any (has_endpoint sub.endpoint) rows
    then map (λ r. if has_endpoint sub.endpoint r then renewed sub r else r) rows
    else record { sub = sub; failures = 0; last_sent_at = none } ∷ rows

-- `DeletePushSubscription`
unfoldable pub delete_push_subscription : Text → List PushRow → List PushRow
unfolding has_endpoint
delete_push_subscription endpoint rows = keep (λ r. not (has_endpoint endpoint r)) rows

-- `PushSubscriptionsFor`
unfoldable pub push_subscriptions_for : ℕ → List PushRow → List PushSubscription
push_subscriptions_for store rows = map (λ r. r.sub) (keep (λ r. r.sub.store_id == store) rows)

abbrev pub most_failures : ℕ
most_failures = 3

unfoldable pub struck : ℕ → PushRow → PushRow
unfolding has_id
struck id r = if has_id id r then record r { failures = r.failures + 1 } else r

unfoldable pub reached : ℕ → ℕ → PushRow → PushRow
unfolding has_id
reached id now r = if has_id id r then record r { failures = 0; last_sent_at = some now } else r

-- `MarkPushSent`
unfoldable pub mark_push_sent : ℕ → Bool → ℕ → List PushRow → List PushRow
unfolding struck reached
mark_push_sent id gone now rows =
    if not gone
    then map (reached id now) rows
    else keep (λ r. not (has_id id r && leb most_failures r.failures)) (map (struck id) rows)

pub data PushError : Type 0 where
  bad_subscription no_store : PushError

-- `pushSubscribeRequest`
pub record PushSubscribeRequest : Type 0 where
  pub endpoint : Text
  pub p256dh : Text
  pub auth : Text

abbrev most_endpoint_bytes : ℕ
most_endpoint_bytes = 2000

abbrev pub is_bad_endpoint : Text → Bool
is_bad_endpoint endpoint =
    not (has_prefix (codes "https://") endpoint) || ltb most_endpoint_bytes (byte_len endpoint)

abbrev pub lacks_keys : PushSubscribeRequest → Bool
lacks_keys req = is_empty req.p256dh || is_empty req.auth

-- The subscription of a request, by a user of a store.
abbrev pub requested : ℕ → ℕ → ℕ → PushSubscribeRequest → PushSubscription
requested new_id store user req = record {
  id = new_id;
  store_id = store;
  user_id = user;
  endpoint = trim_space req.endpoint;
  p256dh = req.p256dh;
  auth = req.auth;
}

-- `handlePushSubscribe`, for a user of a store.
unfoldable pub handle_push_subscribe :
    ℕ → ℕ → ℕ → PushSubscribeRequest → List PushRow → Result PushError (List PushRow)
unfolding save_push_subscription
handle_push_subscribe new_id store user req rows = do
  refuse_if (is_bad_endpoint (trim_space req.endpoint)) bad_subscription
  refuse_if (lacks_keys req) bad_subscription
  ok (save_push_subscription (requested new_id store user req) rows)

-- `handlePushUnsubscribe`
unfoldable pub handle_push_unsubscribe : PushSubscribeRequest → List PushRow → List PushRow
unfolding delete_push_subscription
handle_push_unsubscribe req rows = delete_push_subscription (trim_space req.endpoint) rows

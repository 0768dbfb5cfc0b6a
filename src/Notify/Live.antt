-- ===== src/Notify/Live.antt =====
-- internal/store/push.go: what holds of the subscriptions after any number of subscriptions, cancellations
-- and messages.
use claw_hub.Prelude.{
  ◌⊎◌, refuse_if, ℕ, ◌<◌, Bool, true, false, not, ◌&&◌, Option, none, some, List, [], ◌∷◌, map, any,
  keep, ◌==◌, leb, if◌then◌else◌, ok, ◌≡◌, refl, sym, arith, All, All-keep, Bool-cases, inl, inr,
  bind-ok, ok-injective, subst,
}
use claw_hub.Prelude.Texts.{trim_space, text_eq, text_eq_eq}
use claw_hub.Notify.Subscriptions.{
  push_subscriptions_for, is_bad_endpoint, lacks_keys, requested, bad_subscription,
  PushSubscription, PushRow, PushSubscribeRequest, has_endpoint, has_id, renewed,
  save_push_subscription, handle_push_subscribe, handle_push_unsubscribe, mark_push_sent, struck,
  reached,
}
use claw_hub.Notify.Channels.{PushPayload, Outbox, after_answer, send_each, send, is_gone}
use claw_hub.Notify.Apart.{
  AreApart, IsSteady, keep-AreApart, All-change, change-AreApart, any-none, All-both, All-kept,
}

-- No browser and no id is there twice, and no row has failed as often as it may.
pub record AreLive (rows : List PushRow) : Type 0 where
  pub apart : AreApart rows
  pub few : All (λ r. r.failures < 3) rows

pub data PushStep : List PushRow → List PushRow → Type 0 where
  subscribe :
      {rows rows' : List PushRow} (new_id store user : ℕ) (req : PushSubscribeRequest)
      → any (has_id new_id) rows ≡ false
      → handle_push_subscribe new_id store user req rows ≡ ok rows'
      → PushStep rows rows'
  unsubscribe :
      {rows : List PushRow} (req : PushSubscribeRequest)
      → PushStep rows (handle_push_unsubscribe req rows)
  message :
      {rows : List PushRow} (deliver : PushSubscription → PushPayload → Option ℕ) (now : ℕ)
      (store : Option ℕ) (p : PushPayload) (calls : List (PushSubscription × PushPayload))
      → PushStep rows (send deliver now store p (record { rows = rows; calls = calls })).1.rows

pub data Subscribed : List PushRow → Type 0 where
  nobody : Subscribed []
  later : {rows rows' : List PushRow} → Subscribed rows → PushStep rows rows' → Subscribed rows'

keep-AreLive : (t : PushRow → Bool) (rows : List PushRow) → AreLive rows → AreLive (keep t rows)
keep-AreLive t rows a = record {
  apart = keep-AreApart t rows a.apart;
  few = All-keep _ t rows a.few;
}

renewed-IsSteady :
    (sub : PushSubscription)
    → IsSteady (λ r. if has_endpoint sub.endpoint r then renewed sub r else r)
unfolding has_endpoint renewed
renewed-IsSteady sub r = elim (Bool-cases (text_eq r.sub.endpoint sub.endpoint)) [
  | inl e ↦ rw e (sym (text_eq_eq r.sub.endpoint sub.endpoint e), refl)
  | inr e ↦ rw e (refl, refl)
]

renewed-few :
    (sub : PushSubscription) (r : PushRow)
    → r.failures < 3
    → (if has_endpoint sub.endpoint r then renewed sub r else r).failures < 3
unfolding renewed
renewed-few sub r h = ground arith

save_push_subscription-AreLive :
    (sub : PushSubscription) (rows : List PushRow)
    → any (has_id sub.id) rows ≡ false
    → AreLive rows
    → AreLive (save_push_subscription sub rows)
unfolding save_push_subscription AreApart
save_push_subscription-AreLive sub rows fresh a =
    let change = λ (r : PushRow). if has_endpoint sub.endpoint r then renewed sub r else r in
    elim (Bool-cases (any (has_endpoint sub.endpoint) rows)) [
      | inl e ↦ rw e (record {
        apart = change-AreApart change rows (renewed-IsSteady sub) a.apart;
        few = All-change _ _ change (renewed-few sub) rows a.few;
      })
      | inr e ↦ rw e (record {
        apart = (All-both _ _ rows (any-none _ rows e) (any-none _ rows fresh), a.apart);
        few = (omega arith, a.few);
      })
    ]

reached-IsSteady : (id now : ℕ) → IsSteady (reached id now)
unfolding reached
reached-IsSteady id now r = elim (Bool-cases (has_id id r)) [
  | inl e ↦ rw e (refl, refl)
  | inr e ↦ rw e (refl, refl)
]

struck-IsSteady : (id : ℕ) → IsSteady (struck id)
unfolding struck
struck-IsSteady id r = elim (Bool-cases (has_id id r)) [
  | inl e ↦ rw e (refl, refl)
  | inr e ↦ rw e (refl, refl)
]

reached-few : (id now : ℕ) (r : PushRow) → r.failures < 3 → (reached id now r).failures < 3
unfolding reached
reached-few id now r h = ground arith

-- A row that was struck has less than three failures, or is of that id.
abbrev MayGo : ℕ → PushRow → Type 0
MayGo id r = (has_id id r ≡ true) ⊎ (r.failures < 3)

struck-MayGo : (id : ℕ) (r : PushRow) → r.failures < 3 → MayGo id (struck id r)
unfolding struck has_id
struck-MayGo id r h = elim (Bool-cases (r.sub.id == id)) [
  | inl e ↦ rw e (inl e)
  | inr e ↦ rw e (inr h)
]

MayGo-few :
    (id : ℕ) (r : PushRow)
    → MayGo id r
    → not (has_id id r && leb 3 r.failures) ≡ true
    → r.failures < 3
MayGo-few id r (inl own) stays = ground arith
MayGo-few id r (inr few) stays = few

mark_push_sent-AreLive :
    (id : ℕ) (gone : Bool) (now : ℕ) (rows : List PushRow)
    → AreLive rows
    → AreLive (mark_push_sent id gone now rows)
unfolding mark_push_sent
mark_push_sent-AreLive id false now rows a = record {
  apart = change-AreApart (reached id now) rows (reached-IsSteady id now) a.apart;
  few = All-change _ _ (reached id now) (reached-few id now) rows a.few;
}
mark_push_sent-AreLive id true now rows a = record {
  apart = keep-AreApart _ _ (change-AreApart (struck id) rows (struck-IsSteady id) a.apart);
  few =
      All-kept (MayGo id) _ _ (MayGo-few id) (map (struck id) rows)
        (All-change _ _ (struck id) (struck-MayGo id) rows a.few);
}

module _ (deliver : PushSubscription → PushPayload → Option ℕ) (now : ℕ) where
  pub after_answer-AreLive :
      (s : PushSubscription) (o : Option ℕ) (w : Outbox)
      → AreLive w.rows
      → AreLive (after_answer deliver now s o w).rows
  after_answer-AreLive s none w a = a
  after_answer-AreLive s (some code) w a = mark_push_sent-AreLive s.id (is_gone code) now w.rows a

  send_each-AreLive :
      (p : PushPayload) (ss : List PushSubscription) (w : Outbox)
      → AreLive w.rows
      → AreLive (send_each deliver now p ss w).rows
  unfolding send_each
  send_each-AreLive p [] w a = a
  send_each-AreLive p (s ∷ ss) w a =
      send_each-AreLive p ss _ (after_answer-AreLive s (deliver s p) _ a)

  pub send-AreLive :
      (store : Option ℕ) (p : PushPayload) (w : Outbox)
      → AreLive w.rows
      → AreLive (send deliver now store p w).1.rows
  unfolding send
  send-AreLive none p w a = a
  send-AreLive (some store) p w a = send_each-AreLive p (push_subscriptions_for store w.rows) w a

handle_push_subscribe-AreLive :
    (new_id store user : ℕ) (req : PushSubscribeRequest) (rows rows' : List PushRow)
    → any (has_id new_id) rows ≡ false
    → handle_push_subscribe new_id store user req rows ≡ ok rows'
    → AreLive rows
    → AreLive rows'
unfolding handle_push_subscribe
handle_push_subscribe-AreLive new_id store user req rows rows' fresh e a =
    let is_bad = is_bad_endpoint (trim_space req.endpoint) in
    let (u, _, e1) = bind-ok (refuse_if is_bad bad_subscription) _ e in
    let (v, _, e2) = bind-ok (refuse_if (lacks_keys req) bad_subscription) _ e1 in
    subst AreLive (ok-injective e2)
      (save_push_subscription-AreLive (requested new_id store user req) rows fresh a)

-- However browsers subscribe and cancel and whatever the push services answer, where each new row is
-- given an id that no other has: no endpoint and no id is on two rows, so that no message goes to a
-- browser twice, and every row has less than three failures on record.
pub Subscribed-AreLive : (rows : List PushRow) → Subscribed rows → AreLive rows
unfolding AreApart handle_push_unsubscribe
Subscribed-AreLive rows nobody = record { apart = tt; few = tt }
Subscribed-AreLive rows (later s (subscribe new_id store user req fresh e)) =
    handle_push_subscribe-AreLive new_id store user req _ rows fresh e (Subscribed-AreLive _ s)
Subscribed-AreLive rows (later s (unsubscribe req)) = keep-AreLive _ _ (Subscribed-AreLive _ s)
Subscribed-AreLive rows (later s (message deliver now store p calls)) =
    send-AreLive deliver now store p _ (Subscribed-AreLive _ s)

-- ===== src/Notify/Delivery.antt =====
-- internal/notify: what a notice of a claim sends, whatever the channels before the push answer.
use mathlib.Core.List.{append-nil, append_assoc}
use claw_hub.Prelude.{ℕ, Option, none, some, List, [], ◌∷◌, ◌++◌, map, ◌≡◌, refl, sym, ap, ◌∙◌, All}
use claw_hub.Prelude.Texts.{Text}
use claw_hub.Notify.Subscriptions.{PushSubscription, push_subscriptions_for}
use claw_hub.Notify.Channels.{
  ClaimNotice, Notifier, Outbox, PushPayload, after_answer, send_each, send, claim_payload,
  web_push,
}
use claw_hub.Notify.Multi.{fan, claim_created}

-- A channel that writes nothing into the tables of subscriptions and makes no call of a push service.
abbrev pub IsElsewhere : Notifier → Type 0
IsElsewhere t = (n : ClaimNotice) (w : Outbox) → (t.claim_created n w).1 ≡ w

fan-after :
    (n : ClaimNotice) (before : List Notifier) (t : Notifier) (w : Outbox)
    → All IsElsewhere before
    → (fan (λ c. c.claim_created n) (before ++ t ∷ []) w).1 ≡ (t.claim_created n w).1
unfolding fan
fan-after n [] t w a = refl
fan-after n (b ∷ before) t w a =
    ap (λ v. (fan (λ c. c.claim_created n) (before ++ t ∷ []) v).1) (a.0 n w)
    ∙ fan-after n before t w a.1

module _ (deliver : PushSubscription → PushPayload → Option ℕ) (now : ℕ) where
  after_answer-calls :
      (s : PushSubscription) (o : Option ℕ) (w : Outbox)
      → (after_answer deliver now s o w).calls ≡ w.calls
  after_answer-calls s none w = refl
  after_answer-calls s (some code) w = refl

  send_each-calls :
      (p : PushPayload) (ss : List PushSubscription) (w : Outbox)
      → (send_each deliver now p ss w).calls ≡ w.calls ++ map (λ s. (s, p)) ss
  unfolding send_each
  send_each-calls p [] w = sym (append-nil w.calls)
  send_each-calls p (s ∷ ss) w =
      let called = record w { calls = w.calls ++ (s, p) ∷ [] } in
      send_each-calls p ss (after_answer deliver now s (deliver s p) called)
      ∙ ap (λ c. c ++ map (λ x. (x, p)) ss) (after_answer-calls s (deliver s p) called)
      ∙ append_assoc w.calls ((s, p) ∷ []) (map (λ x. (x, p)) ss)

  -- A notice of a claim that names its store is pushed once for every subscription of the store, and for
  -- no other, whatever the channels before the push answer, as long as they leave the subscriptions
  -- alone, and whatever the push services answer on the way; all are sent the same text.
  pub claim_created-reaches :
      (uuid : ℕ → Text) (base_url : Text) (before : List Notifier) (n : ClaimNotice) (store : ℕ)
      (w : Outbox)
      → All IsElsewhere before
      → n.store_id ≡ some store
      → (claim_created (before ++ web_push deliver now uuid base_url ∷ []) n w).1.calls
        ≡ w.calls
          ++ map (λ s. (s, claim_payload uuid base_url n)) (push_subscriptions_for store w.rows)
  unfolding claim_created web_push send
  claim_created-reaches uuid base_url before n store w a h =
      let push = web_push deliver now uuid base_url in
      ap (λ o. o.calls) (fan-after n before push w a)
      ∙ rw h
          (send_each-calls (claim_payload uuid base_url n) (push_subscriptions_for store w.rows) w)

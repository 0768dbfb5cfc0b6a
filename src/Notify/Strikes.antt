-- ===== src/Notify/Strikes.antt =====
-- internal/store/push.go with internal/notify/webpush.go: which answers of a push service make a
-- subscription go.
use claw_hub.Prelude.{
  ℕ, Bool, true, false, Option, none, some, List, [], ◌∷◌, ◌++◌, map, keep, find?, ◌==◌, ==_iff,
  ◌≡◌, refl, sym, ap, ◌∙◌, arith, All-map, Bool-cases, inl, inr, subst, eq_of_some,
}
use claw_hub.Notify.Subscriptions.{
  PushSubscription, PushRow, has_id, mark_push_sent, push_subscriptions_for,
}
use claw_hub.Notify.Channels.{PushPayload, Outbox, after_answer, send_each, send, is_gone}
use claw_hub.Notify.Apart.{AreApart}
use claw_hub.Notify.Live.{AreLive, after_answer-AreLive}
use claw_hub.Notify.Marks.{
  IsAbsent, answered, mark_push_sent-IsAbsent, mark_push_sent-other, mark_push_sent-own,
}

has_id-eq : (id : ℕ) (r : PushRow) → has_id id r ≡ true → r.sub.id ≡ id
unfolding has_id
has_id-eq id r e = ground (arith, e)

has_id-other : (id : ℕ) (r : PushRow) → has_id id r ≡ false → (r.sub.id == id) ≡ false
unfolding has_id
has_id-other id r e = e

module _ (deliver : PushSubscription → PushPayload → Option ℕ) (now : ℕ) where
  -- What a row becomes by one message to its browser.
  abbrev pub after : Option ℕ → PushRow → Option PushRow
  after none r = some r
  after (some code) r = answered (is_gone code) now r

  after_answer-IsAbsent :
      (id : ℕ) (s : PushSubscription) (o : Option ℕ) (w : Outbox)
      → IsAbsent id w.rows
      → IsAbsent id (after_answer deliver now s o w).rows
  after_answer-IsAbsent id s none w a = a
  after_answer-IsAbsent id s (some code) w a =
      mark_push_sent-IsAbsent id s.id (is_gone code) now w.rows a

  send_each-IsAbsent :
      (id : ℕ) (p : PushPayload) (ss : List PushSubscription) (w : Outbox)
      → IsAbsent id w.rows
      → IsAbsent id (send_each deliver now p ss w).rows
  unfolding send_each
  send_each-IsAbsent id p [] w a = a
  send_each-IsAbsent id p (s ∷ ss) w a =
      send_each-IsAbsent id p ss _ (after_answer-IsAbsent id s (deliver s p) _ a)

  after_answer-other :
      (id : ℕ) (s : PushSubscription) (o : Option ℕ) (w : Outbox)
      → (s.id == id) ≡ false
      → find? (has_id id) (after_answer deliver now s o w).rows ≡ find? (has_id id) w.rows
  after_answer-other id s none w n = refl
  after_answer-other id s (some code) w n = mark_push_sent-other id s.id (is_gone code) now w.rows n

  after_answer-own :
      (id : ℕ) (s : PushSubscription) (o : Option ℕ) (w : Outbox) (r : PushRow)
      → AreApart w.rows
      → s.id ≡ id
      → find? (has_id id) w.rows ≡ some r
      → find? (has_id id) (after_answer deliver now s o w).rows ≡ after o r
  after_answer-own id s none w r a e h = h
  after_answer-own id s (some code) w r a e h =
      subst
        (λ i.
          find? (has_id id) (mark_push_sent i (is_gone code) now w.rows)
          ≡ answered (is_gone code) now r)
        (sym e) (mark_push_sent-own id (is_gone code) now w.rows r a h)

  -- Messages to browsers of which none has the id.
  send_each-other :
      (id : ℕ) (p : PushPayload) (t : PushRow → Bool) (to : List PushRow) (w : Outbox)
      → IsAbsent id to
      → find? (has_id id) (send_each deliver now p (map (λ r. r.sub) (keep t to)) w).rows
        ≡ find? (has_id id) w.rows
  unfolding send_each has_id
  send_each-other id p t [] w a = refl
  send_each-other id p t (x ∷ to) w a = elim (Bool-cases (t x)) [
    | inr e ↦ rw e (send_each-other id p t to w a.1)
    | inl e ↦ rw e (
        send_each-other id p t to _ a.1
        ∙ after_answer-other id x.sub (deliver x.sub p)
            (record w { calls = w.calls ++ (x.sub, p) ∷ [] }) a.0)
  ]

  send_each-own :
      (id : ℕ) (p : PushPayload) (t : PushRow → Bool) (to : List PushRow) (w : Outbox)
      (r0 r : PushRow)
      → AreApart to
      → AreLive w.rows
      → find? (has_id id) to ≡ some r0
      → t r0 ≡ true
      → find? (has_id id) w.rows ≡ some r
      → find? (has_id id) (send_each deliver now p (map (λ r. r.sub) (keep t to)) w).rows
        ≡ after (deliver r0.sub p) r
  unfolding send_each AreApart
  send_each-own id p t [] w r0 r a live f h row = absurd (cc f)
  send_each-own id p t (x ∷ to) w r0 r a live f h row =
      let called : Outbox = record w { calls = w.calls ++ (x.sub, p) ∷ [] } in
      elim (Bool-cases (has_id id x)) [
        | inl e ↦
            let same : x ≡ r0 = eq_of_some (rw e at f) in
            let own_id : x.sub.id ≡ id = has_id-eq id x e in
            let absent : IsAbsent id to =
              All-map _ _ (λ y k. subst (λ i. has_id i y ≡ false) own_id k.1) to a.0 in
            rw (subst (λ y. t y ≡ true) (sym same) h) (
              send_each-other id p t to (after_answer deliver now x.sub (deliver x.sub p) called)
                absent
              ∙ after_answer-own id x.sub (deliver x.sub p) called r live.apart own_id row
              ∙ ap (λ y. after (deliver y.sub p) r) same)
        | inr e ↦
            let later : find? (has_id id) to ≡ some r0 = rw e at f in
            elim (Bool-cases (t x)) [
              | inr skip ↦ rw skip (send_each-own id p t to w r0 r a.1 live later h row)
              | inl sent ↦ rw sent (
                  send_each-own id p t to (after_answer deliver now x.sub (deliver x.sub p) called)
                    r0 r a.1
                    (after_answer-AreLive deliver now x.sub (deliver x.sub p) called
                      (record { apart = live.apart; few = live.few }))
                    later h
                    (after_answer-other id x.sub (deliver x.sub p) called (has_id-other id x e)
                      ∙ row))
            ]
      ]

  -- One message to the browsers of a store.
  pub send-row :
      (id store : ℕ) (p : PushPayload) (w : Outbox) (r : PushRow)
      → AreLive w.rows
      → find? (has_id id) w.rows ≡ some r
      → r.sub.store_id ≡ store
      → find? (has_id id) (send deliver now (some store) p w).1.rows ≡ after (deliver r.sub p) r
  unfolding send push_subscriptions_for
  send-row id store p w r live h own =
      send_each-own id p (λ x. x.sub.store_id == store) w.rows w r r live.apart live h
        ((==_iff r.sub.store_id store).1 own) h

  pub send-IsAbsent :
      (id : ℕ) (store : ℕ) (p : PushPayload) (w : Outbox)
      → IsAbsent id w.rows
      → IsAbsent id (send deliver now (some store) p w).1.rows
  unfolding send
  send-IsAbsent id store p w a = send_each-IsAbsent id p (push_subscriptions_for store w.rows) w a

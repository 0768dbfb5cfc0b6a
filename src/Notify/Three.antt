-- ===== src/Notify/Three.antt =====
-- internal/store/push.go with internal/notify/webpush.go: when a subscription is given up.
use claw_hub.Prelude.{
  ℕ, ◌+◌, Bool, true, false, not, ◌&&◌, ◌||◌, Option, none, some, List, [], ◌∷◌, any, find?, leb,
  ◌≡◌, refl, ap, ◌∙◌, Bool-cases, inl, inr, Option-cases,
}
use claw_hub.Notify.Subscriptions.{PushSubscription, PushRow, has_id}
use claw_hub.Notify.Channels.{PushPayload, Outbox, send, is_gone}
use claw_hub.Notify.Strikes.{send-row, send-IsAbsent}
use claw_hub.Notify.Marks.{IsAbsent}
use claw_hub.Notify.Live.{AreLive, send-AreLive}

-- A message to all browsers of a store: what the push services answer, when, and the text.
pub record Message : Type 0 where
  pub deliver : PushSubscription → PushPayload → Option ℕ
  pub now : ℕ
  pub payload : PushPayload

unfoldable pub send_all : ℕ → List Message → Outbox → Outbox
unfolding send
send_all store [] w = w
send_all store (m ∷ ms) w = send_all store ms (send m.deliver m.now (some store) m.payload w).1

abbrev gone_of : Option ℕ → List Bool → List Bool
gone_of none rest = rest
gone_of (some code) rest = is_gone code ∷ rest

-- Whether each answer to a subscription's messages said that it is gone; calls that failed have none.
unfoldable pub gones : PushSubscription → List Message → List Bool
gones s [] = []
gones s (m ∷ ms) = gone_of (m.deliver s m.payload) (gones s ms)

abbrev two_gone : List Bool → Bool
two_gone [] = false
two_gone (a ∷ []) = false
two_gone (a ∷ b ∷ rest) = a && b

-- Whether three answers one after the other said so.
unfoldable pub three_gone : List Bool → Bool
three_gone [] = false
three_gone (a ∷ rest) = (a && two_gone rest) || three_gone rest

-- Whether a row with so many failures goes.
dropped : ℕ → List Bool → Bool
dropped f [] = false
dropped f (true ∷ rest) = leb 3 (f + 1) || dropped (f + 1) rest
dropped f (false ∷ rest) = dropped 0 rest

-- A row that has failed twice, once or not at all.
dropped_lem :
    (answers : List Bool)
    → (dropped 0 answers ≡ three_gone answers)
      × (dropped 1 answers ≡ three_gone (true ∷ answers))
      × (dropped 2 answers ≡ three_gone (true ∷ true ∷ answers))
unfolding dropped three_gone
dropped_lem [] = (refl, refl, refl)
dropped_lem (true ∷ answers) = (let r = dropped_lem answers in (r.1, r.2, refl))
dropped_lem (false ∷ []) = (refl, refl, refl)
dropped_lem (false ∷ a ∷ answers) = (let r = dropped_lem (a ∷ answers) in (r.0, r.0, r.0))

any-absent : (id : ℕ) (rows : List PushRow) → IsAbsent id rows → any (has_id id) rows ≡ false
any-absent id [] a = refl
any-absent id (r ∷ rows) a = rw a.0 (any-absent id rows a.1)

any-found :
    (id : ℕ) (rows : List PushRow) {r : PushRow}
    → find? (has_id id) rows ≡ some r
    → any (has_id id) rows ≡ true
any-found id [] h = absurd (cc h)
any-found id (x ∷ rows) h = elim (Bool-cases (has_id id x)) [
  | inl e ↦ rw e refl
  | inr e ↦ rw e (any-found id rows (rw e at h))
]

none-IsAbsent : (id : ℕ) (rows : List PushRow) → find? (has_id id) rows ≡ none → IsAbsent id rows
none-IsAbsent id [] h = tt
none-IsAbsent id (x ∷ rows) h = elim (Bool-cases (has_id id x)) [
  | inl e ↦ absurd (cc (rw e at h))
  | inr e ↦ (e, none-IsAbsent id rows (rw e at h))
]

send_all-absent :
    (store id : ℕ) (ms : List Message) (w : Outbox)
    → IsAbsent id w.rows
    → any (has_id id) (send_all store ms w).rows ≡ false
unfolding send_all
send_all-absent store id [] w a = any-absent id w.rows a
send_all-absent store id (m ∷ ms) w a =
    send_all-absent store id ms _ (send-IsAbsent m.deliver m.now id store m.payload w a)

send_all-row :
    (store id : ℕ) (ms : List Message) (w : Outbox) (r : PushRow)
    → AreLive w.rows
    → find? (has_id id) w.rows ≡ some r
    → r.sub.store_id ≡ store
    → any (has_id id) (send_all store ms w).rows ≡ not (dropped r.failures (gones r.sub ms))
unfolding send_all gones dropped
send_all-row store id [] w r live h own = any-found id w.rows h
send_all-row store id (m ∷ ms) w r live h own =
    let v = (send m.deliver m.now (some store) m.payload w).1 in
    let still : AreLive v.rows = send-AreLive m.deliver m.now (some store) m.payload w live in
    let row = send-row m.deliver m.now id store m.payload w r live h own in
    let next = λ (x : PushRow) (e : find? (has_id id) v.rows ≡ some x) (o : x.sub.store_id ≡ store).
      send_all-row store id ms v x still e o in
    elim (Option-cases (m.deliver r.sub m.payload)) [
      | inl e ↦ rw e (next r (rw e at row) own)
      | inr (code, e) ↦ elim (Bool-cases (is_gone code)) [
        | inr g ↦
            rw (e, g)
              (next (record r { failures = 0; last_sent_at = some m.now }) (rw (e, g) at row) own)
        | inl g ↦ elim (Bool-cases (leb 3 (r.failures + 1))) [
          | inl last ↦
              rw (e, g, last)
                (send_all-absent store id ms v (none-IsAbsent id v.rows (rw (e, g, last) at row)))
          | inr more ↦
              rw (e, g, more)
                (next (record r { failures = r.failures + 1 }) (rw (e, g, more) at row) own)
        ]
      ]
    ]

-- Among rows of which no two share an id or an endpoint and none has failed three times, a
-- subscription with no failure on record outlives a series of messages to its store exactly when no
-- three answers of its push service in a row are a 404 or a 410. Every other answer sets the count of
-- failures back to zero, an error such as 500 included; only calls that fail without an answer count
-- neither way.
pub send_all-three_gone :
    (store id : ℕ) (ms : List Message) (w : Outbox) (r : PushRow)
    → AreLive w.rows
    → find? (has_id id) w.rows ≡ some r
    → r.sub.store_id ≡ store
    → r.failures ≡ 0
    → any (has_id id) (send_all store ms w).rows ≡ not (three_gone (gones r.sub ms))
send_all-three_gone store id ms w r live h own fresh =
    send_all-row store id ms w r live h own
    ∙ ap (λ f. not (dropped f (gones r.sub ms))) fresh
    ∙ ap not (dropped_lem (gones r.sub ms)).0

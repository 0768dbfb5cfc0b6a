-- ===== src/Refund/Rows.antt =====
-- What an update of internal/store/claim.go does to the rows of the table and to what the log says of
-- them.
use claw_hub.Prelude.{
  ◌∙◌, ℕ, ◌<◌, true, false, List, [], ◌∷◌, map, All, count_if, ◌≡◌, ◌≢◌, refl, sym, inl, inr, arith,
  Bool-cases,
}
use claw_hub.Prelude.Int.{pos, ◌≤ℤ◌, ◌<ℤ◌}
use native.Mathlib.Decide.{ℕ_discrete}
use claw_hub.Claim.Status.{PaymentMethod, eq_of_status_eq, paid, Action}
use claw_hub.Claim.Machine.{PayoutMethod, Event, Claim}
use claw_hub.Claim.Lifecycle.{◌⟶◌}
use claw_hub.ClaimStore.Table.{method_or, Row, is_affected, updated, update_row}
use claw_hub.ClaimStore.Trail.{Trail, other, went}
use claw_hub.Refund.Payment.{voided, by_hand, linked, Fits}

-- A paid claim records an amount above zero, not above the one asked for, and a way that fits.
abbrev pub IsPaidRight : Claim → Type 0
IsPaidRight c =
    c.status ≡ paid
    → (pos 0 <ℤ c.paid_amount_krw)
      × (c.paid_amount_krw ≤ℤ c.amount_krw)
      × Fits c.payment_method c.payout_method

-- What a row of the database has to do with the log.
pub record IsSound (log : List Event) (r : Row) : Type 0 where
  pub trail : Trail r.claim.id r.claim.status log
  pub paid_right : IsPaidRight r.claim

abbrev pub HasUniqueIds : List Row → Type 0
HasUniqueIds [] = Unit
HasUniqueIds (r ∷ rows) = All (λ s. s.claim.id ≢ r.claim.id) rows × HasUniqueIds rows

-- The parts of a claim that no request changes.
pub record SameTerms (c d : Claim) : Type 0 where
  pub amount : c.amount_krw ≡ d.amount_krw
  pub method : c.payment_method ≡ d.payment_method

-- A decision not yet written: its event follows the diagram and speaks of its claim, which has the
-- terms of the row, and is paid right if it is a payment.
pub record IsPrepared (rows : List Row) (p : Claim × Event) : Type 0 where
  pub about : p.1.claim_id ≡ p.0.id
  pub moved_on : p.1.action ≡ Action.transition
  pub edge : p.1.from ⟶ p.1.to
  pub at_end : p.0.status ≡ p.1.to
  pub paid_right : IsPaidRight p.0
  pub terms : All (λ r. r.claim.id ≡ p.0.id → SameTerms r.claim p.0) rows

-- Where an update finds a row, it finds every row that has the claim's id.
module _ (store : ℕ) (c : Claim) (ev : Event) where
  affected_id : (r : Row) → is_affected store c ev r ≡ true → r.claim.id ≡ c.id
  unfolding is_affected
  affected_id r h = ground arith

  absent :
      (k : ℕ) (rows : List Row)
      → All (λ s. s.claim.id ≢ k) rows
      → 0 < count_if (is_affected store c ev) rows
      → k ≢ c.id
  absent k [] h n = absurd (omega arith)
  absent k (r ∷ rows) h n = elim (Bool-cases (is_affected store c ev r)) [
    | inl hit ↦ λ e. h.0 (affected_id r hit ∙ sym e)
    | inr miss ↦ absent k rows h.1 (ground arith)
  ]

  none_other :
      (rows : List Row) (k : ℕ)
      → k ≡ c.id
      → All (λ s. s.claim.id ≢ k) rows
      → All (λ r. r.claim.id ≡ c.id → is_affected store c ev r ≡ true) rows
  none_other [] k e h = tt
  none_other (r ∷ rows) k e h = (λ i. absurd (h.0 (i ∙ sym e)), none_other rows k e h.1)

  pub only_affected :
      (rows : List Row)
      → HasUniqueIds rows
      → 0 < count_if (is_affected store c ev) rows
      → All (λ r. r.claim.id ≡ c.id → is_affected store c ev r ≡ true) rows
  only_affected [] u n = tt
  only_affected (r ∷ rows) u n = elim (Bool-cases (is_affected store c ev r)) [
    | inl hit ↦ (λ _. hit, none_other rows r.claim.id (affected_id r hit) u.0)
    | inr miss ↦
        let more : 0 < count_if (is_affected store c ev) rows = ground arith in
        (λ i. absurd (absent r.claim.id rows u.0 more i), only_affected rows u.1 more)
  ]

pub updated_id :
    (store : ℕ) (c : Claim) (ev : Event) (r : Row) → (update_row store c ev r).claim.id ≡ r.claim.id
unfolding update_row updated
updated_id store c ev r = ground arith

pub updated_terms :
    (store : ℕ) (c : Claim) (ev : Event) (r : Row)
    → SameTerms (update_row store c ev r).claim r.claim
unfolding update_row updated
updated_terms store c ev r = ground arith

All-updated_id :
    (store : ℕ) (c : Claim) (ev : Event) (k : ℕ) (rows : List Row)
    → All (λ s. s.claim.id ≢ k) rows
    → All (λ s. s.claim.id ≢ k) (map (update_row store c ev) rows)
All-updated_id store c ev k [] h = tt
All-updated_id store c ev k (r ∷ rows) h =
    (rw (updated_id store c ev r) h.0, All-updated_id store c ev k rows h.1)

pub update-HasUniqueIds :
    (store : ℕ) (c : Claim) (ev : Event) (rows : List Row)
    → HasUniqueIds rows
    → HasUniqueIds (map (update_row store c ev) rows)
update-HasUniqueIds store c ev [] u = tt
update-HasUniqueIds store c ev (r ∷ rows) u = (
  rw (updated_id store c ev r) (All-updated_id store c ev r.claim.id rows u.0),
  update-HasUniqueIds store c ev rows u.1,
)

-- A payment method that fits is not the empty one, so the update writes it.
Fits-written :
    {p : PaymentMethod} {m : PayoutMethod} (old : PayoutMethod) → Fits p m → method_or m old ≡ m
Fits-written old voided = refl
Fits-written old (linked n) = refl
Fits-written old (by_hand n) = refl

affected_from :
    (store : ℕ) (c : Claim) (ev : Event) (r : Row)
    → is_affected store c ev r ≡ true
    → r.claim.status ≡ ev.from
unfolding is_affected
affected_from store c ev r h = ground (arith, eq_of_status_eq r.claim.status ev.from)

updated-IsPaidRight :
    (c : Claim) (ev : Event) (r : Row)
    → IsPaidRight c
    → SameTerms r.claim c
    → IsPaidRight (updated c ev r).claim
unfolding updated
updated-IsPaidRight c ev r pr t e =
    let (above, within, fits) = pr e in
    let written : (updated c ev r).claim.paid_amount_krw ≡ c.paid_amount_krw = ground arith in
    (
      rw written above,
      rw (written, t.amount) within,
      rw (Fits-written r.claim.payout_method fits, t.method) fits,
    )

-- A row that an update finds goes on along the event's edge; any other row keeps its trail.
module _ (store : ℕ) (c : Claim) (ev : Event) (log : List Event) (r : Row) where
  hit-IsSound :
      ev.claim_id ≡ c.id
      → ev.action ≡ Action.transition
      → ev.from ⟶ ev.to
      → c.status ≡ ev.to
      → IsPaidRight c
      → SameTerms r.claim c
      → is_affected store c ev r ≡ true
      → IsSound log r
      → IsSound (ev ∷ log) (update_row store c ev r)
  unfolding update_row updated
  hit-IsSound about act edge end pr terms hit s = rw hit (record {
    trail = rw end (
        went ev.from (about ∙ sym (affected_id store c ev r hit)) act refl refl edge
          (rw (affected_from store c ev r hit) at s.trail));
    paid_right = updated-IsPaidRight c ev r pr terms;
  })

  missed-IsSound :
      ev.claim_id ≡ c.id
      → r.claim.id ≢ c.id
      → IsSound log r
      → IsSound (ev ∷ log) (update_row store c ev r)
  unfolding update_row is_affected
  missed-IsSound about other_claim s =
      let miss : is_affected store c ev r ≡ false = ground arith in
      rw miss (record {
        trail = other (λ e. other_claim (sym e ∙ about)) s.trail;
        paid_right = s.paid_right;
      })

  pub updated-IsSound :
      ev.claim_id ≡ c.id
      → ev.action ≡ Action.transition
      → ev.from ⟶ ev.to
      → c.status ≡ ev.to
      → IsPaidRight c
      → (r.claim.id ≡ c.id → SameTerms r.claim c)
      → (r.claim.id ≡ c.id → is_affected store c ev r ≡ true)
      → IsSound log r
      → IsSound (ev ∷ log) (update_row store c ev r)
  updated-IsSound about act edge end pr terms hit s = elim (ℕ_discrete r.claim.id c.id) [
    | yes e ↦ hit-IsSound about act edge end pr (terms e) (hit e) s
    | no n ↦ missed-IsSound about n s
  ]

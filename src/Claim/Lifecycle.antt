-- ===== src/Claim/Lifecycle.antt =====
-- What holds of one claim under `Transition` (internal/domain/claim.go).
use claw_hub.Prelude.{ap, ℕ, true, false, some, List, ok, is_ok, ◌≡◌, ◌≢◌, ◌↔◌, refl, arith}
use claw_hub.Claim.Status.{
  Status, pending, needs_review, on_hold, approved, rejected, paid, unlisted, is_terminal, IsListed,
  Actor, is_nobody, Action, parse_status, parse_status_iff, status_string,
}
use claw_hub.Claim.Machine.{moved, Claim, Event, transition, transition_error, can_transition}

-- The diagram of a claim's life, drawn without the table.
infix 40 ◌⟶◌
pub data ◌⟶◌ : Status → Status → Type 0 where
  doubt : pending ⟶ needs_review
  shelve : pending ⟶ on_hold
  approve : pending ⟶ approved
  reject : pending ⟶ rejected
  shelve_reviewed : needs_review ⟶ on_hold
  approve_reviewed : needs_review ⟶ approved
  reject_reviewed : needs_review ⟶ rejected
  resume : on_hold ⟶ needs_review
  approve_held : on_hold ⟶ approved
  reject_held : on_hold ⟶ rejected
  pay : approved ⟶ paid
  withdraw : approved ⟶ rejected

pub ruleset edges = (
  doubt, shelve, approve, reject, shelve_reviewed, approve_reviewed, reject_reviewed, resume,
  approve_held, reject_held, pay, withdraw,
)

can_transition-edge : (c : Claim) (to : Status) → can_transition c to ≡ true → c.status ⟶ to
unfolding can_transition
can_transition-edge c to h = grind (arith, edges)

edge-can_transition :
    {a b : Status} → a ⟶ b → (c : Claim) → c.status ≡ a → can_transition c b ≡ true
unfolding can_transition
edge-can_transition doubt c e = ground arith
edge-can_transition _ c e = ground arith

abbrev IsSource : Status → Type 0
IsSource rejected = ⊥
IsSource paid = ⊥
IsSource (unlisted s) = ⊥
IsSource _ = Unit

source : {a b : Status} → a ⟶ b → IsSource a
source doubt = tt
source _ = tt

edge-IsListed : {a b : Status} → a ⟶ b → IsListed b
edge-IsListed doubt = tt
edge-IsListed _ = tt

-- A claim may move to a status exactly when the diagram has that edge.
pub can_transition_iff : (c : Claim) (to : Status) → (can_transition c to ≡ true) ↔ (c.status ⟶ to)
can_transition_iff c to = (can_transition-edge c to, λ e. edge-can_transition e c refl)

module _ (c : Claim) (to : Status) (by : Actor) (note : List ℕ) (now : ℕ) where
  accepted_needs :
      is_ok (transition c to by note now) ≡ true
      → (is_nobody by.kind ≡ false) × (can_transition c to ≡ true)
  unfolding transition can_transition
  accepted_needs h = ground arith

  accepted_if :
      is_nobody by.kind ≡ false
      → parse_status (status_string to) ≡ some to
      → can_transition c to ≡ true
      → is_ok (transition c to by note now) ≡ true
  unfolding transition can_transition
  accepted_if someone listed can = ground arith

  -- `Transition` accepts a status exactly when somebody asks for it and the diagram has an edge from
  -- the claim's status to it.
  pub transition_iff :
      (is_ok (transition c to by note now) ≡ true) ↔ ((is_nobody by.kind ≡ false) × (c.status ⟶ to))
  transition_iff = (
    λ h. let (someone, can) = accepted_needs h in (someone, can_transition-edge c to can),
    λ h.
        accepted_if h.0 ((parse_status_iff (status_string to) to).1 (edge-IsListed h.1, refl))
          (edge-can_transition h.1 c refl),
  )

  -- What an accepted transition returns.
  pub ok_moved :
      {p : Claim × Event} → transition c to by note now ≡ ok p → p ≡ moved c to by note now
  unfolding transition
  ok_moved h = ground arith

  pub ok_edge : {p : Claim × Event} → transition c to by note now ≡ ok p → c.status ⟶ to
  ok_edge h = (transition_iff.0 (ap is_ok h)).1

  -- An accepted transition leads along an edge of the diagram, and its event tells the truth: which
  -- claim, who, from where to where, and when. The claim's money and origin stay as they were.
  pub transition_event :
      {c' : Claim} {ev : Event}
      → transition c to by note now ≡ ok (c', ev)
      → (ev.from ≡ c.status)
        × (ev.to ≡ c'.status)
        × (ev.claim_id ≡ c'.id)
        × (ev.actor ≡ by)
        × (ev.action ≡ Action.transition)
        × (ev.at ≡ now)
        × (c'.id ≡ c.id)
        × (c'.store_id ≡ c.store_id)
        × (c'.payment_method ≡ c.payment_method)
        × (c'.amount_krw ≡ c.amount_krw)
        × (c'.paid_amount_krw ≡ c.paid_amount_krw)
        × (c'.payout_method ≡ c.payout_method)
  unfolding moved
  transition_event h =
      rw (ap (λ p. p.0) (ok_moved h), ap (λ p. p.1) (ok_moved h))
        (refl, refl, refl, refl, refl, refl, refl, refl, refl, refl, refl, refl)

edge-open : (a b : Status) → a ⟶ b → is_terminal a ≡ false
edge-open pending b e = refl
edge-open needs_review b e = refl
edge-open on_hold b e = refl
edge-open approved b e = refl
edge-open rejected b e = elim (source e) [ ]
edge-open paid b e = elim (source e) [ ]
edge-open (unlisted s) b e = elim (source e) [ ]

-- A claim is stamped: it has a time of resolution exactly when its status is a last one, and a time
-- of payment exactly when it is paid.
pub record IsStamped (c : Claim) : Type 0 where
  pub resolved : is_terminal c.status ≡ true → c.resolved_at ≢ 0
  pub unresolved : is_terminal c.status ≡ false → c.resolved_at ≡ 0
  pub was_paid : c.status ≡ paid → c.paid_at ≢ 0
  pub not_paid : c.status ≢ paid → c.paid_at ≡ 0

moved_stamps :
    (c : Claim) (to : Status) (by : Actor) (note : List ℕ) (now : ℕ)
    → now ≢ 0
    → IsStamped c
    → c.status ⟶ to
    → IsStamped (moved c to by note now).0
unfolding moved
moved_stamps c to by note now running s e = ground (arith, edge-open c.status to e)

-- `Transition` keeps the stamps right, whatever is asked of it, while the clock is past zero.
pub transition-IsStamped :
    (c : Claim) (to : Status) (by : Actor) (note : List ℕ) (now : ℕ)
    → now ≢ 0
    → IsStamped c
    → {c' : Claim} {ev : Event} → transition c to by note now ≡ ok (c', ev)
    → IsStamped c'
unfolding moved
transition-IsStamped c to by note now running s h =
    rw (ap (λ p. p.0) (ok_moved c to by note now h))
      (moved_stamps c to by note now running s (ok_edge c to by note now h))

-- Nothing moves a paid or a rejected claim: whatever is asked, by anybody, is an error.
pub transition_terminal :
    (c : Claim) (to : Status) (by : Actor) (note : List ℕ) (now : ℕ)
    → is_terminal c.status ≡ true
    → is_ok (transition c to by note now) ≡ false
unfolding transition transition_error
transition_terminal c to by note now done = ground arith

-- ===== src/ClaimStore/Trail.antt =====
-- The audit log of internal/store/claim.go, its newest entry first: what `CreateClaim` and
-- `ApplyTransition` write of one claim is a path through the diagram of statuses.
use claw_hub.Prelude.{
  All, ℕ, Bool, ◌&&◌, List, [], ◌∷◌, ◌==◌, count_if, if◌then◌else◌, ◌≡◌, ◌≢◌, refl, arith,
}
use claw_hub.Claim.Status.{
  Status, pending, needs_review, on_hold, paid, status_eq, Action, create, view_contact,
}
use claw_hub.Claim.Machine.{Event}
use claw_hub.Claim.Lifecycle.{◌⟶◌, doubt}

-- The statuses that a claim can begin in.
abbrev pub IsOpening : Status → Type 0
IsOpening pending = Unit
IsOpening needs_review = Unit
IsOpening on_hold = Unit
IsOpening _ = ⊥

abbrev pub Untouched : ℕ → List Event → Type 0
Untouched k log = All (λ ev. ev.claim_id ≢ k) log

-- The log tells how claim `k` came to status `s`: it was created in an opening status, and each later
-- transition leads along an edge of the diagram from where the one before it ended.
pub data Trail (k : ℕ) : Status → List Event → Type 0 where
  born :
      {s : Status} {log : List Event} {ev : Event}
      → ev.claim_id ≡ k
      → ev.action ≡ create
      → ev.to ≡ s
      → IsOpening s
      → Untouched k log
      → Trail k s (ev ∷ log)
  other :
      {s : Status} {log : List Event} {ev : Event}
      → ev.claim_id ≢ k
      → Trail k s log
      → Trail k s (ev ∷ log)
  viewed :
      {s : Status} {log : List Event} {ev : Event}
      → ev.action ≡ view_contact
      → Trail k s log
      → Trail k s (ev ∷ log)
  went :
      {s : Status} {log : List Event} {ev : Event} (from : Status)
      → ev.claim_id ≡ k
      → ev.action ≡ Action.transition
      → ev.from ≡ from
      → ev.to ≡ s
      → from ⟶ s
      → Trail k from log
      → Trail k s (ev ∷ log)

abbrev is_transition : Action → Bool
is_transition Action.transition = Bool.true
is_transition _ = Bool.false

-- An event that says that claim `k` came to status `s`.
abbrev reaches : ℕ → Status → Event → Bool
reaches k s ev = ev.claim_id == k && is_transition ev.action && status_eq ev.to s

-- How often the log says that claim `k` was paid.
abbrev pub payments : ℕ → List Event → ℕ
payments k log = count_if (reaches k paid) log

payments-Untouched : (k : ℕ) (log : List Event) → Untouched k log → payments k log ≡ 0
payments-Untouched k [] h = refl
payments-Untouched k (ev ∷ log) h = ground (arith, payments-Untouched k log h.1)

edge_not_from_paid : {a b : Status} → a ⟶ b → status_eq a paid ≡ Bool.false
edge_not_from_paid doubt = refl
edge_not_from_paid _ = refl

-- Of a claim with a trail the log has one payment if it is paid, and none if it is not.
pub payments-Trail :
    {k : ℕ} {s : Status} {log : List Event}
    → Trail k s log
    → payments k log ≡ (if status_eq s paid then 1 else 0)
payments-Trail {k} {s} (born {log = log} i c t o u) = ground (arith, payments-Untouched k log u)
payments-Trail {k} {s} (other {log = log} n t) = ground (arith, payments-Trail t)
payments-Trail (viewed v t) = ground (arith, payments-Trail t)
payments-Trail (went from i a f e edge t) =
    ground (arith, payments-Trail t, edge_not_from_paid edge)

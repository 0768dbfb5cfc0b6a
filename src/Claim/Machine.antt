-- ===== src/Claim/Machine.antt =====
-- internal/domain/claim.go: a claim, its audit events, the table of transitions and `Transition`.
-- Times are nanoseconds since Go's zero time, which is 0; ids are numbers, since they are only
-- compared; the messages of errors are the constructors of `TransitionError`.
use claw_hub.Prelude.{
  ℕ, String, Bool, Option, none, some, List, [], ◌∷◌, any, if◌then◌else◌, Result, ok, err,
  refuse_if, ◌>>◌,
}
use claw_hub.Prelude.Int.{ℤ}
use claw_hub.Claim.Status.{
  Status, pending, needs_review, on_hold, approved, rejected, paid, status_eq, is_terminal,
  status_string, parse_status, Actor, is_nobody, Action, PaymentMethod,
}

-- `Event`
pub record Event : Type 0 where
  pub claim_id : ℕ
  pub actor : Actor
  pub action : Action
  pub from : Status
  pub to : Status
  pub note : List ℕ
  pub at : ℕ

-- How a refund was made: `Claim.PayoutMethod`, empty until it is known.
pub data PayoutMethod : Type 0 where
  no_method deeplink manual card_void : PayoutMethod
  other_method : String → PayoutMethod

-- `Claim`
pub record Claim : Type 0 where
  pub id : ℕ
  pub store_id : ℕ
  pub machine_id : ℕ
  pub issue_type : String
  pub payment_method : PaymentMethod
  pub amount_krw : ℤ
  pub description : List ℕ
  pub card_last4 : List ℕ
  pub paid_at_guess : ℕ
  pub status : Status
  pub risk_score : ℕ
  pub created_at : ℕ
  pub resolved_at : ℕ
  pub paid_at : ℕ
  pub payout_method : PayoutMethod
  pub paid_amount_krw : ℤ

-- The table `transitions`; a status that is no key of the map has the nil slice.
abbrev pub transitions : Status → List Status
transitions pending = needs_review ∷ on_hold ∷ approved ∷ rejected ∷ []
transitions needs_review = on_hold ∷ approved ∷ rejected ∷ []
transitions on_hold = needs_review ∷ approved ∷ rejected ∷ []
transitions approved = paid ∷ rejected ∷ []
transitions _ = []

pub data TransitionError : Type 0 where
  no_actor : TransitionError
  unknown_status : String → TransitionError
  already : Status → TransitionError
  not_allowed : Status → Status → TransitionError

-- `Claim.transitionError`; none is nil.
unfoldable pub transition_error : Claim → Status → Option TransitionError
transition_error c to =
    if status_eq to c.status
    then some (already c.status)
    else if any (λ allowed. status_eq allowed to) (transitions c.status)
    then none
    else some (not_allowed c.status to)

-- `Claim.CanTransition`
unfoldable pub can_transition : Claim → Status → Bool
unfolding transition_error
can_transition c to = elim (transition_error c to) [ none ↦ Bool.true | some e ↦ Bool.false ]

abbrev refuse_with : Option TransitionError → Result TransitionError (Unit {0})
refuse_with none = ok tt
refuse_with (some e) = err e

abbrev refuse_unknown : String → Option Status → Result TransitionError (Unit {0})
refuse_unknown s none = err (unknown_status s)
refuse_unknown s (some v) = ok tt

-- The end of `Claim.Transition`: the claim with its new status and stamps, and the event.
unfoldable pub moved : Claim → Status → Actor → List ℕ → ℕ → Claim × Event
moved c to by note now = (
  record c {
    status = to;
    resolved_at = if is_terminal to then now else c.resolved_at;
    paid_at = if status_eq to paid then now else c.paid_at;
  },
  record {
    claim_id = c.id;
    actor = by;
    action = Action.transition;
    from = c.status;
    to = to;
    note = note;
    at = now;
  },
)

-- `Claim.Transition`: the claim and the event, or the error.
unfoldable pub transition :
    Claim → Status → Actor → List ℕ → ℕ → Result TransitionError (Claim × Event)
unfolding transition_error
transition c to by note now = do
  refuse_if (is_nobody by.kind) no_actor
  refuse_unknown (status_string to) (parse_status (status_string to))
  refuse_with (transition_error c to)
  ok (moved c to by note now)

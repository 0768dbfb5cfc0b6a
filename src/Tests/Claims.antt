-- ===== src/Tests/Claims.antt =====
-- A claim of 3,000 won through its life: stored, approved, paid; the same request again.
use claw_hub.Refund.Safety.{Reach-payments, Reach-Trail, Reach-IsPaidRight}
use claw_hub.ClaimStore.Keys.{create_claim_retry}
use claw_hub.Refund.Rows.{IsPaidRight}
use claw_hub.ClaimStore.Trail.{payments, Trail}
use claw_hub.Claim.Lifecycle.{transition_iff, ◌⟶◌, IsStamped}
use claw_hub.Refund.World.{Step, World, Reach}
use claw_hub.Prelude.Int.{pos}
use claw_hub.Prelude.Texts.{trim_space, codes}
use claw_hub.Claim.Machine.{Event, already, transition, no_method, deeplink, moved, Claim}
use claw_hub.ClaimStore.Table.{
  create_claim, updated, update_row, is_affected, apply_transition, insert_claim, Db,
  CreateClaimInput,
}
use claw_hub.Refund.Handlers.{
  conflict, claim_by_id, commit, prepare, decide, Command, Access, handle, TransitionRequest,
}
use claw_hub.Claim.Status.{
  status_eq, is_nobody, paid, status_string, parse_status, pending, approved, ActorKind, cash,
  Actor,
}
use claw_hub.Prelude.{
  false, inl, if◌then◌else◌, arith, true, ok, ◌↔◌, is_ok, All, ◌∷◌, ◌≡◌, map, some, none, [], refl,
}

abbrev owner : Actor
owner = record { kind = ActorKind.owner; id = some 9 }

abbrev access : Access
access = record { store_id = 1; actor = owner }

abbrev new_claim : Claim
new_claim = record {
  id = 0;
  store_id = 1;
  machine_id = 7;
  issue_type = "cash_eaten";
  payment_method = cash;
  amount_krw = pos 3000;
  description = [];
  card_last4 = [];
  paid_at_guess = 0;
  status = pending;
  risk_score = 0;
  created_at = 0;
  resolved_at = 0;
  paid_at = 0;
  payout_method = no_method;
  paid_amount_krw = pos 0;
}

abbrev request : CreateClaimInput
request = record {
  row = record {
    claim = new_claim;
    phone_hash = 100;
    account_hash = 200;
    key = codes "k-1";
    resolved_by = none;
  };
  photos = [];
}

abbrev empty_db : Db
empty_db = record { claims = []; photos = []; events = [] }

abbrev stored : Db
stored = insert_claim request 5 1000 empty_db

abbrev approval : TransitionRequest
approval = record { note = []; method = no_method; amount_krw = pos 0 }

abbrev payment : TransitionRequest
payment = record { note = codes " 2000 only "; method = deeplink; amount_krw = pos 2000 }

abbrev stored_claim : Claim
stored_claim = record new_claim { id = 5; created_at = 1000 }

abbrev approved_claim : Claim
approved_claim = (moved stored_claim approved owner [] 2000).0

abbrev approved_db : Db
approved_db = (handle Command.approve access 5 (some approval) 2000 stored).1

abbrev paid_db : Db
paid_db = (handle Command.mark_paid access 5 (some payment) 3000 approved_db).1

pay_run :
    map (λ r. r.claim) paid_db.claims
    ≡ (moved
        (record approved_claim { payout_method = deeplink; paid_amount_krw = pos 2000 })
        paid
        owner
        []
        3000).0
      ∷ []
unfolding handle insert_claim moved transition parse_status status_string apply_transition decide
    prepare commit trim_space claim_by_id is_affected update_row updated
pay_run = refl

pay_again :
    (handle Command.mark_paid access 5 (some payment) 4000 paid_db).0 ≡ conflict (already paid)
unfolding handle insert_claim moved transition parse_status status_string apply_transition decide
    prepare commit trim_space claim_by_id is_affected update_row updated
pay_again = refl

-- The same life as steps of the world.
abbrev approving : Claim × Event
approving = moved stored_claim approved owner [] 2000

abbrev paying : Claim × Event
paying =
    moved (record approved_claim { payout_method = deeplink; paid_amount_krw = pos 2000 }) paid
      owner (codes "2000 only") 3000

abbrev world_stored : World
world_stored = record { db = stored; decided = [] }

abbrev world_approved : World
world_approved = record {
  db = (commit access approving stored).1;
  decided = (access, approving) ∷ [];
}

abbrev world_paid : World
world_paid = record {
  db = (commit access paying world_approved.db).1;
  decided = (access, paying) ∷ (access, approving) ∷ [];
}

reached_stored : Reach world_stored
unfolding create_claim insert_claim
reached_stored = Reach.next Reach.start (
    Step.submit request 5 1000
      (record { id = 5; status = pending; created_at = 1000; existing = false })
      (record { no_row = tt; no_event = tt; no_decision = tt }) tt refl)

reached_approved : Reach world_approved
unfolding insert_claim prepare decide transition parse_status status_string trim_space claim_by_id
reached_approved =
    Reach.next
      (Reach.next reached_stored
        (Step.decide Command.approve access 5 (some approval) 2000 {p = approving} refl))
      (Step.write access approving (inl refl))

reached_paid : Reach world_paid
unfolding insert_claim prepare decide transition parse_status status_string trim_space claim_by_id
    moved commit apply_transition is_affected update_row updated
reached_paid =
    Reach.next
      (Reach.next reached_approved
        (Step.decide Command.mark_paid access 5 (some payment) 3000 {p = paying} refl))
      (Step.write access paying (inl refl))

Reach-Trail_example :
    All (λ r. Trail r.claim.id r.claim.status world_paid.db.events) world_paid.db.claims
Reach-Trail_example = Reach-Trail reached_paid

Reach-payments_example :
    All
      (λ r.
        payments r.claim.id world_paid.db.events ≡ (if status_eq r.claim.status paid then 1 else 0))
      world_paid.db.claims
Reach-payments_example = Reach-payments reached_paid

Reach-IsPaidRight_example : All (λ r. IsPaidRight r.claim) world_paid.db.claims
Reach-IsPaidRight_example = Reach-IsPaidRight reached_paid

transition_iff_example :
    (is_ok (transition stored_claim approved owner [] 2000) ≡ true)
    ↔ ((is_nobody owner.kind ≡ false) × (pending ⟶ approved))
transition_iff_example = transition_iff stored_claim approved owner [] 2000

new_claim-IsStamped : IsStamped new_claim
new_claim-IsStamped = ground arith

create_claim_retry_example :
    create_claim request 6 5000 stored
    ≡ ok (record { id = 5; status = pending; created_at = 1000; existing = true }, stored)
unfolding create_claim
create_claim_retry_example =
    create_claim_retry request request 5 1000 6 5000 empty_db stored
      (record { id = 5; status = pending; created_at = 1000; existing = false }) refl refl refl

-- ===== src/Refund/World.antt =====
-- The requests of many people at once (internal/httpapi/admin_claims.go, internal/store/claim.go): the
-- database, and the decisions that handlers have made from what they read and have not written yet.
-- Between the two halves of a request any number of others may run; one may also never write.
use claw_hub.Prelude.{In, ℕ, Option, List, [], ◌∷◌, All, ok, ◌≡◌, ◌≢◌}
use claw_hub.Claim.Status.{view_contact}
use claw_hub.Claim.Machine.{Event, Claim}
use claw_hub.ClaimStore.Table.{Db, CreateClaimInput, CreateClaimResult, create_claim, append_event}
use claw_hub.ClaimStore.Trail.{IsOpening, Untouched}
use claw_hub.Refund.Handlers.{Access, TransitionRequest, Command, prepare, commit}

pub record World : Type 0 where
  pub db : Db
  pub decided : List (Access × (Claim × Event))

abbrev pub empty_world : World
empty_world = record { db = record { claims = []; photos = []; events = [] }; decided = [] }

-- An id that the database has never given out.
pub record IsFresh (id : ℕ) (w : World) : Type 0 where
  pub no_row : All (λ r. r.claim.id ≢ id) w.db.claims
  pub no_event : Untouched id w.db.events
  pub no_decision : All (λ d. d.1.0.id ≢ id) w.decided

pub data Step : World → World → Type 0 where
  -- A customer's claim is stored, or found by its key.
  submit :
      {w : World} {db : Db} (in' : CreateClaimInput) (id now : ℕ) (res : CreateClaimResult)
      → IsFresh id w
      → IsOpening in'.row.claim.status
      → create_claim in' id now w.db ≡ ok (res, db)
      → Step w (record w { db = db })
  -- A handler reads the claim and decides.
  decide :
      {w : World} (cmd : Command) (a : Access) (id : ℕ) (body : Option TransitionRequest) (now : ℕ)
      {p : Claim × Event}
      → prepare cmd a id body now w.db ≡ ok p
      → Step w (record w { decided = (a, p) ∷ w.decided })
  -- A handler writes what it decided, at any later time.
  write :
      {w : World} (a : Access) (p : Claim × Event)
      → In (a, p) w.decided
      → Step w (record w { db = (commit a p w.db).1 })
  -- Somebody looks at a customer's account, which is logged.
  view :
      {w : World} (ev : Event)
      → ev.action ≡ view_contact
      → Step w (record w { db = append_event ev w.db })

pub data Reach : World → Type 0 where
  start : Reach empty_world
  next : {w v : World} → Reach w → Step w v → Reach v

-- ===== src/ClaimStore/Table.antt =====
-- internal/store/claim.go: the tables claims, claim_photos and claim_events, `CreateClaim`,
-- `claimByIdempotencyKey`, `ApplyTransition` and `AppendEvent`. A transaction that fails leaves the
-- tables as they were, so an error returns no tables. The log of events has its newest entry first.
-- The codes that encryption and hashing give (internal/crypto) come in with the input, as numbers
-- that are only compared.
use claw_hub.Prelude.{
  ℕ, Bool, true, false, ◌&&◌, Option, none, some, List, [], ◌∷◌, ◌++◌, map, ◌==◌, any, find?,
  count_if, if◌then◌else◌, Result, ok, err,
}
use claw_hub.Prelude.Int.{pos, eqb_ℤ}
use claw_hub.Prelude.Texts.{Text, text_eq}
use claw_hub.Claim.Status.{Status, unlisted, status_eq, ActorKind, create}
use claw_hub.Claim.Machine.{Event, PayoutMethod, no_method, Claim}

-- A row of `claims`: the claim and the columns that `domain.Claim` does not have.
pub record Row : Type 0 where
  pub claim : Claim
  pub phone_hash : ℕ
  pub account_hash : ℕ
  pub key : Text
  pub resolved_by : Option ℕ

-- `PhotoInput`, and a row of `claim_photos`.
pub record Photo : Type 0 where
  pub object_key : Text
  pub expires_at : ℕ

pub record Db : Type 0 where
  pub claims : List Row
  pub photos : List (ℕ × Photo)
  pub events : List Event

pub data StoreError : Type 0 where
  not_found duplicate failed : StoreError

-- `CreateClaimInput`: the row to be written, but for its id and time, and its photos.
pub record CreateClaimInput : Type 0 where
  pub row : Row
  pub photos : List Photo

-- `CreateClaimResult`
pub record CreateClaimResult : Type 0 where
  pub id : ℕ
  pub status : Status
  pub created_at : ℕ
  pub existing : Bool

-- The columns of the unique index `claims_idempotency_uniq`.
unfoldable pub same_key : ℕ → Text → Row → Bool
same_key store key r = r.claim.store_id == store && text_eq r.key key

-- `claimByIdempotencyKey`
unfoldable pub claim_by_key : ℕ → Text → List Row → Option CreateClaimResult
unfolding same_key
claim_by_key store key rows = elim (find? (same_key store key) rows) [
  | none ↦ none
  | some r ↦ some (record {
    id = r.claim.id;
    status = r.claim.status;
    created_at = r.claim.created_at;
    existing = false;
  })
]

-- The row as it is inserted: the database gives it an id and a time.
unfoldable pub inserted_row : CreateClaimInput → ℕ → ℕ → Row
inserted_row in' id now = record in'.row {
  claim = record (in'.row.claim) { id = id; created_at = now };
}

-- The event that `CreateClaim` writes in the same transaction.
unfoldable pub create_event : Row → ℕ → Event
create_event r now = record {
  claim_id = r.claim.id;
  actor = record { kind = ActorKind.customer; id = none };
  action = create;
  from = unlisted "";
  to = r.claim.status;
  note = [];
  at = now;
}

-- What one attempt of `CreateClaim` meets: the rows that the unique index knows, those of
-- transactions not yet committed among them, and the rows that the SELECT afterwards sees.
pub record Look : Type 0 where
  pub indexed : List Row
  pub readable : List Row

pub data Outcome : Type 0 where
  inserted : CreateClaimResult → Outcome
  found : CreateClaimResult → Outcome
  gave_up : Outcome

-- One round of the loop: INSERT … ON CONFLICT DO NOTHING, and the read of the winner's row if the
-- insert gave none. The last argument is the rest of the loop.
unfoldable pub attempt : CreateClaimInput → ℕ → ℕ → Look → Outcome → Outcome
unfolding same_key inserted_row
attempt in' id now look rest =
    let r = inserted_row in' id now in
    if any (same_key r.claim.store_id r.key) look.indexed
    then elim (claim_by_key r.claim.store_id r.key look.readable) [
      | some e ↦ found (record e { existing = true })
      | none ↦ rest
    ]
    else inserted (record { id = id; status = r.claim.status; created_at = now; existing = false })

-- `CreateClaim`: two rounds at most.
unfoldable pub create_outcome : CreateClaimInput → ℕ → ℕ → Look → Look → Outcome
unfolding attempt
create_outcome in' id now first second =
    attempt in' id now first (attempt in' id now second gave_up)

-- What the transaction of an insert writes.
unfoldable pub insert_claim : CreateClaimInput → ℕ → ℕ → Db → Db
unfolding inserted_row
insert_claim in' id now db =
    let r = inserted_row in' id now in
    record {
      claims = r ∷ db.claims;
      photos = map (λ p. (id, p)) in'.photos ++ db.photos;
      events = create_event r now ∷ db.events;
    }

abbrev pub settle :
    CreateClaimInput → ℕ → ℕ → Db → Outcome → Result StoreError (CreateClaimResult × Db)
settle in' id now db (inserted res) = ok (res, insert_claim in' id now db)
settle in' id now db (found res) = ok (res, db)
settle in' id now db gave_up = err duplicate

-- `CreateClaim`, on whether the database and the cipher do what they are asked (`stores`), and what its
-- rounds meet.
abbrev pub run_create_claim :
    Bool → Look → Look → CreateClaimInput → ℕ → ℕ → Db → Result StoreError (CreateClaimResult × Db)
run_create_claim stores first second in' id now db =
    if stores then settle in' id now db (create_outcome in' id now first second) else err failed

-- `CreateClaim` where nothing fails and no other transaction is under way.
unfoldable pub create_claim :
    CreateClaimInput → ℕ → ℕ → Db → Result StoreError (CreateClaimResult × Db)
unfolding create_outcome insert_claim
create_claim in' id now db =
    let look : Look = record { indexed = db.claims; readable = db.claims } in
    run_create_claim true look look in' id now db

-- The WHERE clause of the UPDATE in `ApplyTransition`.
unfoldable pub is_affected : ℕ → Claim → Event → Row → Bool
is_affected store c ev r =
    r.claim.id == c.id && r.claim.store_id == store && status_eq r.claim.status ev.from

abbrev or_else : Option ℕ → Option ℕ → Option ℕ
or_else none old = old
or_else (some x) old = some x

abbrev pub method_or : PayoutMethod → PayoutMethod → PayoutMethod
method_or no_method old = old
method_or new old = new

-- Its SET clause: a zero time, an empty method and an amount of 0 keep the column.
unfoldable pub updated : Claim → Event → Row → Row
updated c ev r = record r {
  claim = record (r.claim) {
    status = c.status;
    resolved_at = if c.resolved_at == 0 then r.claim.resolved_at else c.resolved_at;
    paid_at = if c.paid_at == 0 then r.claim.paid_at else c.paid_at;
    payout_method = method_or c.payout_method r.claim.payout_method;
    paid_amount_krw =
        if eqb_ℤ c.paid_amount_krw (pos 0) then r.claim.paid_amount_krw else c.paid_amount_krw;
  };
  resolved_by = or_else ev.actor.id r.resolved_by;
}

unfoldable pub update_row : ℕ → Claim → Event → Row → Row
unfolding is_affected updated
update_row store c ev r = if is_affected store c ev r then updated c ev r else r

-- `ApplyTransition`
unfoldable pub apply_transition : ℕ → Claim → Event → Db → Result StoreError Db
unfolding is_affected update_row
apply_transition store c ev db =
    if count_if (is_affected store c ev) db.claims == 0
    then err not_found
    else ok (record db { claims = map (update_row store c ev) db.claims; events = ev ∷ db.events })

-- `AppendEvent`
unfoldable pub append_event : Event → Db → Db
append_event ev db = record db { events = ev ∷ db.events }

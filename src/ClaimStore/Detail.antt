-- ===== src/ClaimStore/Detail.antt =====
-- internal/store/claim.go: `ClaimByID`, `photosFor` and `eventsFor`: a claim with all that its page
-- shows, and the entry in the log that somebody looked. The photos of a claim are written at one time,
-- and the times in the log of one claim do not go back.
use claw_hub.Prelude.{
  ℕ, ◌+◌, Bool, true, false, not, ◌&&◌, Option, none, some, List, [], ◌∷◌, ◌==◌, ltb, find?, keep,
  count_if, if◌then◌else◌, Result, ok, err, ◌>>=◌,
}
use mathlib.Core.List.{reverse}
use claw_hub.Prelude.Int.{ℤ}
use claw_hub.Prelude.Texts.{Text, codes, is_empty}
use claw_hub.Claim.Status.{
  Status, approved, paid, unlisted, status_eq, Actor, ActorKind, link, is_nobody, Action,
  transition, view_contact,
}
use claw_hub.Claim.Machine.{Event, Claim}
use claw_hub.ClaimStore.Table.{Row, Photo, Db, append_event}
use claw_hub.Risk.Rules.{RiskReason}
use claw_hub.Risk.Facts.{paid_sum}

-- The columns of `claims` that `Row` leaves out.
pub record Sealed : Type 0 where
  pub phone_enc : Text
  pub account_enc : Text
  pub holder_enc : Text
  pub bank_code : Text
  pub risk_reasons : Text

-- A row of `machines`, as the query reads it.
pub record MachineColumns : Type 0 where
  pub id : ℕ
  pub label : Text
  pub code : Text

-- What `ClaimByID` reads besides the rows: the sealed columns of each claim, the machines, the names
-- of users; `Decrypt` of internal/crypto and `json.Unmarshal`.
pub record Shelf : Type 0 where
  pub sealed : ℕ → Sealed
  pub machines : List MachineColumns
  pub user_name : ℕ → Text
  pub decrypt : Text → Option Text
  pub reasons : Text → Option (List RiskReason)

-- `ClaimDetail`
pub record ClaimDetail : Type 0 where
  pub claim : Claim
  pub machine_label : Text
  pub machine_code : Text
  pub risk_reasons : List RiskReason
  pub approved_by : Text
  pub paid_by : Text
  pub phone : Text
  pub bank_code : Text
  pub account : Text
  pub holder : Text
  pub photos : List (ℕ × Photo)
  pub events : List Event
  pub phone_claims_30d : ℕ
  pub phone_paid_total_30d : ℤ

pub data DetailError : Type 0 where
  missing broken : DetailError

-- `photosFor`
unfoldable pub photos_for : ℕ → List (ℕ × Photo) → List (ℕ × Photo)
photos_for id photos = keep (λ p. p.0 == id) photos

-- `eventsFor`, the oldest first.
unfoldable pub events_for : ℕ → List Event → List Event
events_for id events = reverse (keep (λ e. e.claim_id == id) events)

abbrev is_link : ActorKind → Bool
is_link link = true
is_link _ = false

abbrev is_transition : Action → Bool
is_transition transition = true
is_transition _ = false

abbrev name_of : Shelf → Option ℕ → Text
name_of s none = []
name_of s (some i) = s.user_name i

-- Whom the page names for an event.
unfoldable pub who : Shelf → Actor → Text
who s a = if is_empty (name_of s a.id) && is_link a.kind then codes "Slack 링크" else name_of s a.id

-- Whether an event is a transition to a status.
unfoldable pub leads_to : Status → Event → Bool
leads_to st e = is_transition e.action && status_eq e.to st

-- The loop over the events, for one of the two names.
unfoldable pub named_by : Shelf → Status → Text → List Event → Text
unfolding leads_to who
named_by s st name [] = name
named_by s st name (e ∷ es) = named_by s st (if leads_to st e then who s e.actor else name) es

-- The claims of one phone in the last 30 days, in all stores.
abbrev by_phone_after : ℕ → ℕ → Row → Bool
by_phone_after phone now r =
    r.phone_hash == phone && ltb now (r.claim.created_at + 2592000000000000)

abbrev pub or_missing : {A : Type 0} → Option A → Result DetailError A
or_missing none = err missing
or_missing (some a) = ok a

abbrev pub or_broken : {A : Type 0} → Option A → Result DetailError A
or_broken none = err broken
or_broken (some a) = ok a

abbrev pub own_row : ℕ → ℕ → Row → Bool
own_row store id r = r.claim.id == id && r.claim.store_id == store

-- `ClaimByID` up to the entry in the log.
unfoldable pub claim_detail : Shelf → ℕ → ℕ → ℕ → Db → Result DetailError ClaimDetail
unfolding photos_for events_for named_by
claim_detail s store id now db = do
  r ← or_missing (find? (own_row store id) db.claims)
  m ← or_missing (find? (λ m. m.id == r.claim.machine_id) s.machines)
  reasons ← or_broken (s.reasons (s.sealed id).risk_reasons)
  phone ← or_broken (s.decrypt (s.sealed id).phone_enc)
  account ← or_broken (s.decrypt (s.sealed id).account_enc)
  holder ← or_broken (s.decrypt (s.sealed id).holder_enc)
  ok (record {
    claim = r.claim;
    machine_label = m.label;
    machine_code = m.code;
    risk_reasons = reasons;
    approved_by = named_by s approved [] (events_for id db.events);
    paid_by = named_by s paid [] (events_for id db.events);
    phone = phone;
    bank_code = (s.sealed id).bank_code;
    account = account;
    holder = holder;
    photos = photos_for id db.photos;
    events = events_for id db.events;
    phone_claims_30d = count_if (by_phone_after r.phone_hash now) db.claims;
    phone_paid_total_30d = paid_sum (keep (by_phone_after r.phone_hash now) db.claims);
  })

-- The entry that somebody looked.
unfoldable pub view_event : ℕ → Actor → ℕ → Event
view_event id by now = record {
  claim_id = id;
  actor = by;
  action = view_contact;
  from = unlisted "";
  to = unlisted "";
  note = codes "계좌·연락처 열람";
  at = now;
}

-- The end of `ClaimByID`: an entry that cannot be written does not stop the read.
abbrev pub log_view : Bool → ℕ → Actor → ℕ → Db → Db
log_view written id by now db =
    if not (is_nobody by.kind) && written then append_event (view_event id by now) db else db

abbrev pub after_read : Bool → ℕ → Actor → ℕ → Db → Result DetailError ClaimDetail → Db
after_read written id by now db (err e) = db
after_read written id by now db (ok d) = log_view written id by now db

-- `ClaimByID`; `written` says whether the database takes the entry.
unfoldable pub read_claim :
    Shelf → Bool → ℕ → ℕ → Actor → ℕ → Db → Result DetailError ClaimDetail × Db
unfolding claim_detail
read_claim s written store id by now db =
    let d = claim_detail s store id now db in (d, after_read written id by now db d)

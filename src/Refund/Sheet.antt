-- ===== src/Refund/Sheet.antt =====
-- internal/httpapi/admin_claims.go: what the page of a claim offers is what the handlers accept, and
-- what it shows is the asker's own.
use claw_hub.Prelude.{
  ℕ, Bool, true, false, not, ◌&&◌, some, List, any, find?, All, if◌then◌else◌, Result, ok, err,
  is_ok, ◌≡◌, ◌≢◌, ◌↔◌, refl, sym, ap, ◌∙◌, arith, ok-injective, is_ok-value, find?-In, In-All,
  subst, Bool-cases, inl, inr,
}
use claw_hub.Prelude.Int.{ℤ, pos, ◌<ℤ◌}
use claw_hub.Prelude.Texts.{trim_space, Text}
use claw_hub.Claim.Status.{
  Status, PaymentMethod, cash, card, unknown, approved, paid, status_eq, eq_of_status_eq, is_card,
  Actor, is_nobody,
}
use claw_hub.Claim.Machine.{
  no_method, Event, other_method, TransitionError, PayoutMethod, deeplink, manual, card_void, Claim,
  can_transition, transition,
}
use claw_hub.Claim.Lifecycle.{pay, ◌⟶◌, transition_iff, can_transition_iff}
use claw_hub.ClaimStore.Table.{append_event, Row, Db}
use claw_hub.ClaimStore.Detail.{
  Shelf, ClaimDetail, DetailError, claim_detail, read_claim, after_read, own_row,
}
use claw_hub.ClaimStore.Viewed.{claim_detail-Backed}
use claw_hub.Refund.Handlers.{
  from_transition, Access, TransitionRequest, mark_paid, mark_paid_extra, decide, prepare,
  claim_by_id,
}
use claw_hub.Refund.Payment.{
  Fits, voided, linked, by_hand, mark_paid_extra_iff, mark_paid_extra_records,
}
use claw_hub.Accounts.Stores.{StoreDetail, StoreError, Cipher, StoreRow, store_by_id}
use claw_hub.Accounts.Desk.{payout_for}
use claw_hub.Refund.Page.{
  transfer, Transfer, void_card, blank_claim, allowed_transitions, PageError, PayoutSheet, Offers,
  payout_sheet, if_approved, answer, handle_payout_links,
}

offered_status :
    (st to : Status)
    → any (status_eq to) (allowed_transitions st) ≡ can_transition (blank_claim st) to
unfolding allowed_transitions can_transition
offered_status Status.pending to = ground arith
offered_status Status.needs_review to = ground arith
offered_status Status.on_hold to = ground arith
offered_status Status.approved to = ground arith
offered_status _ to = ground arith

same_moves :
    (c : Claim) (to : Status) → can_transition (blank_claim c.status) to ≡ can_transition c to
unfolding can_transition
same_moves c to = refl

-- The page of a claim offers a status exactly when a request of its reader for that status passes
-- `Transition`.
pub allowed_transitions_iff :
    (c : Claim) (to : Status) (by : Actor) (note : Text) (now : ℕ)
    → is_nobody by.kind ≡ false
    → (any (status_eq to) (allowed_transitions c.status) ≡ true)
      ↔ (is_ok (transition c to by note now) ≡ true)
allowed_transitions_iff c to by note now someone =
    let e = offered_status c.status to ∙ same_moves c to in
    (
      λ h. (transition_iff c to by note now).1 (someone, (can_transition_iff c to).0 (sym e ∙ h)),
      λ h. e ∙ (can_transition_iff c to).1 ((transition_iff c to by note now).0 h).1,
    )

pub answer-ok :
    {A : Type 0} (k : ClaimDetail → Result PageError A) (p : Result DetailError ClaimDetail × Db)
    {x : A}
    → (answer k p).0 ≡ ok x
    → (d : ClaimDetail) × (p.0 ≡ ok d) × (k d ≡ ok x) × ((answer k p).1 ≡ p.1)
answer-ok k (ok d, db) h = (d, refl, h, refl)
answer-ok k (err e, db) h = absurd (cc h)

after_read-claims :
    (written : Bool) (id : ℕ) (by : Actor) (now : ℕ) (db : Db) (r : Result DetailError ClaimDetail)
    → (after_read written id by now db r).claims ≡ db.claims
unfolding append_event
after_read-claims written id by now db (err e) = refl
after_read-claims written id by now db (ok d) =
    elim (Bool-cases (not (is_nobody by.kind) && written)) [ inl e ↦ rw e refl | inr e ↦ rw e refl ]

if_approved-ok :
    (sheet : ClaimDetail → PayoutSheet) (d : ClaimDetail) {p : PayoutSheet}
    → if_approved sheet d ≡ ok p
    → (d.claim.status ≡ approved) × (sheet d ≡ p)
unfolding if_approved
if_approved-ok sheet d h = elim (Bool-cases (status_eq d.claim.status approved)) [
  | inl e ↦ (eq_of_status_eq d.claim.status approved e, ok-injective (rw e at h))
  | inr e ↦ absurd (cc (rw e at h))
]

void_card-Fits :
    (last4 : Text) (guess : ℕ) (amount : ℤ) (m : PayoutMethod)
    → Offers (void_card last4 guess amount) m
    → Fits card m
void_card-Fits last4 guess amount card_void o = voided
void_card-Fits last4 guess amount no_method o = absurd o
void_card-Fits last4 guess amount deeplink o = absurd o
void_card-Fits last4 guess amount manual o = absurd o
void_card-Fits last4 guess amount (other_method x) o = absurd o

transfer-Fits :
    (p : PaymentMethod) (t : Transfer) (m : PayoutMethod)
    → p ≢ card
    → Offers (transfer t) m
    → Fits p m
transfer-Fits p t deeplink n o = linked n
transfer-Fits p t manual n o = by_hand n
transfer-Fits p t no_method n o = absurd o
transfer-Fits p t card_void n o = absurd o
transfer-Fits p t (other_method x) n o = absurd o

offered-Fits :
    (paid_by : PaymentMethod) (m : PayoutMethod) (last4 : Text) (guess : ℕ) (amount : ℤ)
    (t : Transfer)
    → Offers (if is_card paid_by then void_card last4 guess amount else transfer t) m
    → Fits paid_by m
offered-Fits card m last4 guess amount t o = void_card-Fits last4 guess amount m o
offered-Fits cash m last4 guess amount t o = transfer-Fits cash t m (λ e. cc) o
offered-Fits unknown m last4 guess amount t o = transfer-Fits unknown t m (λ e. cc) o

-- What a sheet offers fits how the customer paid.
payout_sheet-Fits :
    (templates : List (Text × Text)) (st : Result StoreError StoreDetail) (d : ClaimDetail)
    (m : PayoutMethod)
    → Offers (payout_sheet templates st d) m
    → Fits d.claim.payment_method m
unfolding payout_sheet
payout_sheet-Fits templates st d m o = offered-Fits d.claim.payment_method m _ _ _ _ o

is_ok-from_transition :
    (r : Result TransitionError (Claim × Event)) → is_ok (from_transition r) ≡ is_ok r
is_ok-from_transition (ok p) = refl
is_ok-from_transition (err e) = refl

decide_paid :
    (by : Actor) (c : Claim) (req : TransitionRequest) (now : ℕ)
    → is_nobody by.kind ≡ false
    → c.status ≡ approved
    → is_ok (mark_paid_extra c req) ≡ true
    → is_ok (decide mark_paid by c req now) ≡ true
unfolding decide
decide_paid by c req now someone st h =
    let (c', e) = is_ok-value (mark_paid_extra c req) h in
    let same = (mark_paid_extra_records c req e).3 in
    let edge : c'.status ⟶ paid =
      subst (λ x. x.status ⟶ paid) same (subst (λ s. s ⟶ paid) (sym st) pay) in
    rw (decide, e)
      (is_ok-from_transition (transition c' paid by (trim_space req.note) now)
        ∙ (transition_iff c' paid by (trim_space req.note) now).1 (someone, edge))

prepare_found :
    (a : Access) (id : ℕ) (req : TransitionRequest) (now : ℕ) (db : Db) (r : Row)
    → claim_by_id a.store_id id db ≡ some r
    → prepare mark_paid a id (some req) now db ≡ decide mark_paid a.actor r.claim req now
unfolding prepare
prepare_found a id req now db r e = rw (prepare, e) refl

read_claim-detail :
    (s : Shelf) (written : Bool) (a : Access) (id now : ℕ) (db : Db) {d : ClaimDetail}
    → (read_claim s written a.store_id id a.actor now db).0 ≡ ok d
    → claim_detail s a.store_id id now db ≡ ok d
unfolding read_claim
read_claim-detail s written a id now db h = h

read_claim-claims :
    (s : Shelf) (written : Bool) (a : Access) (id now : ℕ) (db : Db)
    → (read_claim s written a.store_id id a.actor now db).1.claims ≡ db.claims
unfolding read_claim
read_claim-claims s written a id now db =
    after_read-claims written id a.actor now db (claim_detail s a.store_id id now db)

-- The request that a sheet leads to: one of its ways, and the whole amount.
abbrev pub whole : Text → PayoutMethod → TransitionRequest
whole note m = record { note = note; method = m; amount_krw = pos 0 }

accepted_whole :
    (by : Actor) (c : Claim) (note : Text) (m : PayoutMethod) (now : ℕ)
    → is_nobody by.kind ≡ false
    → c.status ≡ approved
    → pos 0 <ℤ c.amount_krw
    → Fits c.payment_method m
    → is_ok (decide mark_paid by c (whole note m) now) ≡ true
accepted_whole by c note m now someone st some' fits =
    decide_paid by c (whole note m) now someone st
      ((mark_paid_extra_iff c (whole note m)).1 (fits, some', omega arith))

module _ (s : Shelf) (written : Bool) (a : Access) (id now : ℕ) (db : Db) where
  -- Where the tables hold no claim of nothing and somebody asks, the sheet of a claim is shown only if
  -- every way of paying that it offers, recorded next for the whole amount, passes all checks of
  -- `handleMarkPaid`: a card is voided, anything else is sent.
  pub handle_payout_links-IsAccepted :
      (cipher : Cipher) (uuid : ℕ → Text) (default : List (Text × Text)) (stores : List StoreRow)
      (note : Text) (m : PayoutMethod) (later : ℕ) {sheet : PayoutSheet}
      → is_nobody a.actor.kind ≡ false
      → All (λ r. pos 0 <ℤ r.claim.amount_krw) db.claims
      → (handle_payout_links s written a id now db cipher uuid default stores).0 ≡ ok sheet
      → Offers sheet m
      → is_ok (
          prepare mark_paid a id
            (some (whole note m))
            later
            (handle_payout_links s written a id now db cipher uuid default stores).1)
        ≡ true
  unfolding handle_payout_links claim_by_id
  handle_payout_links-IsAccepted cipher uuid default stores note m later someone some' h o =
      let templates = payout_for cipher default (uuid a.store_id) stores in
      let st = store_by_id cipher (uuid a.store_id) stores in
      let read = read_claim s written a.store_id id a.actor now db in
      let (d, got, shown, after) = answer-ok (if_approved (payout_sheet templates st)) read h in
      let b =
        claim_detail-Backed s a.store_id id now db (read_claim-detail s written a id now db got) in
      let (ready, sheet') = if_approved-ok (payout_sheet templates st) d shown in
      let fits = payout_sheet-Fits templates st d m (subst (λ p. Offers p m) (sym sheet') o) in
      let e = b.same_claim in
      let r = b.row in
      let positive =
        In-All (λ r. pos 0 <ℤ r.claim.amount_krw) r db.claims (find?-In _ db.claims b.found)
          some' in
      let found =
        ap (find? (own_row a.store_id id))
          (ap (λ x. x.claims) after ∙ read_claim-claims s written a id now db)
        ∙ b.found in
      ap is_ok (prepare_found a id (whole note m) later _ r found)
      ∙ accepted_whole a.actor r.claim note m later someone
          (subst (λ c. c.status ≡ approved) e ready) positive
          (subst (λ c. Fits c.payment_method m) e fits)

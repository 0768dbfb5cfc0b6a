-- ===== src/Refund/Decisions.antt =====
-- What a handler of internal/httpapi/admin_claims.go has decided once it has read a claim.
use claw_hub.Prelude.{eq_of_some, ◌∙◌, [], ◌≢◌, sym, All-map, none, err, inr, subst, refl}
use claw_hub.ClaimStore.Table.{Db, Row}
use claw_hub.Refund.Payment.{mark_paid_extra_records, Fits}
use claw_hub.Claim.Lifecycle.{ok_edge, ok_moved, ◌⟶◌}
use claw_hub.Prelude.Int.{◌≤ℤ◌, ◌<ℤ◌, pos}
use claw_hub.Claim.Status.{Actor, Action, paid}
use claw_hub.Prelude.{
  inl, Bool-cases, ◌∷◌, some, bind-ok, ℕ, find?, List, Bool, Option, Result, ok-injective, ap, ok,
  ◌≡◌, All,
}
use claw_hub.Refund.Handlers.{
  from_extra, from_transition, from_row, Access, claim_by_id, PaymentError, decide, prepare,
  mark_paid, target, sent, extra, TransitionRequest, Command,
}
use claw_hub.Claim.Machine.{moved, TransitionError, Event, Claim}
use claw_hub.Refund.Rows.{IsPaidRight, IsPrepared, SameTerms, HasUniqueIds}

record_terms :
    (c : Claim) (req : TransitionRequest) (d : Claim)
    → record c { payout_method = req.method; paid_amount_krw = sent c req } ≡ d
    → (c.id ≡ d.id) × SameTerms c d
record_terms c req d e = (
  ap (λ x. x.id) e,
  record { amount = ap (λ x. x.amount_krw) e; method = ap (λ x. x.payment_method) e },
)

-- What `transition` does to a claim between the read and the write.
record IsDecided (c : Claim) (p : Claim × Event) : Type 0 where
  same_claim : c.id ≡ p.0.id
  about : p.1.claim_id ≡ p.0.id
  moved_on : p.1.action ≡ Action.transition
  edge : p.1.from ⟶ p.1.to
  at_end : p.0.status ≡ p.1.to
  terms : SameTerms c p.0
  paid_right : IsPaidRight p.0

abbrev IsChecked : Claim → Type 0
IsChecked d =
    (pos 0 <ℤ d.paid_amount_krw)
    × (d.paid_amount_krw ≤ℤ d.amount_krw)
    × Fits d.payment_method d.payout_method

unchanged_extra : (d : Claim) {P : Type 0} → P → (d.id ≡ d.id) × SameTerms d d × P
unchanged_extra d p = (refl, record { amount = refl; method = refl }, p)

extra-ok :
    (cmd : Command) (c : Claim) (req : TransitionRequest) {d : Claim}
    → extra cmd c req ≡ ok d
    → (c.id ≡ d.id) × SameTerms c d × (target cmd ≡ paid → IsChecked d)
extra-ok mark_paid c req {d} h =
    let (above, within, fits, e) = mark_paid_extra_records c req h in
    let (i, t) = record_terms c req d e in
    (i, t, λ _. (above, rw (← t.amount) within, rw (← t.method) fits))
extra-ok Command.approve c req h = let e = ok-injective h in rw e (unchanged_extra _ (λ p. cc))
extra-ok Command.reject c req h = let e = ok-injective h in rw e (unchanged_extra _ (λ p. cc))
extra-ok Command.hold c req h = let e = ok-injective h in rw e (unchanged_extra _ (λ p. cc))

from_extra-ok : (r : Result PaymentError Claim) {d : Claim} → from_extra r ≡ ok d → r ≡ ok d
from_extra-ok (ok c) h = ap ok (ok-injective h)
from_extra-ok (err e) h = cc

from_transition-ok :
    (r : Result TransitionError (Claim × Event)) {p : Claim × Event}
    → from_transition r ≡ ok p
    → r ≡ ok p
from_transition-ok (ok c) h = ap ok (ok-injective h)
from_transition-ok (err e) h = cc

-- A decision to pay has passed the check, and every decision follows the diagram.
decide-IsDecided :
    (cmd : Command) (by : Actor) (c : Claim) (req : TransitionRequest) (now : ℕ) {p : Claim × Event}
    → decide cmd by c req now ≡ ok p
    → IsDecided c p
unfolding decide moved
decide-IsDecided cmd by c req now {p} h =
    let (d, ex, tr) = bind-ok (from_extra (extra cmd c req)) _ h in
    let (same, terms, checked) = extra-ok cmd c req (from_extra-ok _ ex) in
    let t = from_transition-ok _ tr in
    let m = ok_moved d (target cmd) by _ now t in
    rw m (record {
      same_claim = same;
      about = refl;
      moved_on = refl;
      edge = ok_edge d (target cmd) by _ now t;
      at_end = refl;
      terms = record { amount = terms.amount; method = terms.method };
      paid_right = checked;
    })

find?-holds :
    (Q : Row → Type 0) (q : Row → Bool) (rows : List Row) {r : Row}
    → All Q rows
    → find? q rows ≡ some r
    → Q r
find?-holds Q q [] a h = cc
find?-holds Q q (x ∷ rows) a h = elim (Bool-cases (q x)) [
  | inl hit ↦ subst Q (eq_of_some (rw hit at h)) a.0
  | inr miss ↦ find?-holds Q q rows a.1 (rw miss at h)
]

-- With unique ids the row that is found is the only one with its id.
find?-unique :
    (q : Row → Bool) (rows : List Row) {r : Row}
    → HasUniqueIds rows
    → find? q rows ≡ some r
    → All (λ s. s.claim.id ≡ r.claim.id → s ≡ r) rows
find?-unique q [] u h = tt
find?-unique q (x ∷ rows) {r} u h = elim (Bool-cases (q x)) [
  | inl hit ↦
      let e : x ≡ r = eq_of_some (rw hit at h) in
      (λ _. e, All-map _ _ (λ s n i. absurd (n (rw e i))) rows u.0)
  | inr miss ↦ (
    λ i. absurd (find?-holds (λ s. s.claim.id ≢ x.claim.id) q rows u.0 (rw miss at h) (sym i)),
    find?-unique q rows u.1 (rw miss at h),
  )
]

from_row-ok : (o : Option Row) {r : Row} → from_row o ≡ ok r → o ≡ some r
from_row-ok none h = cc
from_row-ok (some r) h = ap some (ok-injective h)

pub prepare-IsPrepared :
    (cmd : Command) (a : Access) (id : ℕ) (body : Option TransitionRequest) (now : ℕ) (db : Db)
    {p : Claim × Event}
    → HasUniqueIds db.claims
    → prepare cmd a id body now db ≡ ok p
    → IsPrepared db.claims p
unfolding prepare claim_by_id
prepare-IsPrepared cmd a id none now db u h = cc
prepare-IsPrepared cmd a id (some req) now db {p} u h =
    let (r, found, dec) = bind-ok (from_row (claim_by_id a.store_id id db)) _ h in
    let d = decide-IsDecided cmd a.actor r.claim req now dec in
    record {
      about = d.about;
      moved_on = d.moved_on;
      edge = d.edge;
      at_end = d.at_end;
      paid_right = d.paid_right;
      terms =
          All-map _ _
            (λ s one i.
              subst (λ x. SameTerms x.claim p.0) (sym (one (i ∙ sym d.same_claim))) d.terms)
            db.claims (find?-unique _ db.claims u (from_row-ok _ found));
    }

-- ===== src/ClaimStore/Viewed.antt =====
-- internal/store/claim.go: what a read of a claim's page gives, and what it leaves in the log.
use claw_hub.Prelude.{
  inr, inl, Bool-cases, ℕ, Bool, not, ◌&&◌, Option, none, some, List, [], ◌∷◌, ◌++◌, ◌==◌, find?,
  keep, if◌then◌else◌, ok, ◌≡◌, refl, sym, ap, ◌∙◌, bind-ok, ok-injective, find?-passes, ==_iff,
  and-true,
}
use mathlib.Core.List.{reverse, reverse-cons}
use claw_hub.Prelude.Texts.{Text}
use claw_hub.Claim.Status.{Status, approved, paid, Actor, is_nobody}
use claw_hub.Claim.Machine.{Event}
use claw_hub.ClaimStore.Table.{Row, Db, append_event}
use claw_hub.ClaimStore.Detail.{
  Shelf, ClaimDetail, claim_detail, read_claim, named_by, leads_to, who, or_missing, or_broken,
  own_row, photos_for, events_for, view_event, after_read,
}

or_missing-ok : {A : Type 0} (o : Option A) {a : A} → or_missing o ≡ ok a → o ≡ some a
or_missing-ok none h = cc
or_missing-ok (some x) h = ap some (ok-injective h)

or_broken-ok : {A : Type 0} (o : Option A) {a : A} → or_broken o ≡ ok a → o ≡ some a
or_broken-ok none h = cc
or_broken-ok (some x) h = ap some (ok-injective h)

named_by-append :
    (s : Shelf) (st : Status) (name : Text) (xs : List Event) (e : Event)
    → named_by s st name (xs ++ e ∷ [])
      ≡ (if leads_to st e then who s e.actor else named_by s st name xs)
unfolding named_by
named_by-append s st name [] e = refl
named_by-append s st name (x ∷ xs) e =
    named_by-append s st (if leads_to st x then who s x.actor else name) xs e

named_by-nil : (s : Shelf) (st : Status) → named_by s st [] [] ≡ []
unfolding named_by
named_by-nil s st = refl

-- The name for the newest event of those that lead to a status, in a log with its newest event first.
unfoldable pub newest_name : Shelf → Status → List Event → Text
newest_name s st log = elim (find? (leads_to st) log) [ none ↦ [] | some e ↦ who s e.actor ]

named_by-reverse :
    (s : Shelf) (st : Status) (log : List Event)
    → named_by s st [] (reverse log) ≡ newest_name s st log
unfolding newest_name
named_by-reverse s st [] = named_by-nil s st
named_by-reverse s st (e ∷ log) =
    ap (named_by s st []) (reverse-cons e log)
    ∙ named_by-append s st [] (reverse log) e
    ∙ elim (Bool-cases (leads_to st e)) [
      | inl hit ↦ rw (newest_name, hit) refl
      | inr miss ↦ rw (newest_name, miss) (named_by-reverse s st log)
    ]

-- What stands behind a page.
pub record Backed (s : Shelf) (store id : ℕ) (db : Db) (d : ClaimDetail) : Type 0 where
  pub row : Row
  pub found : find? (own_row store id) db.claims ≡ some row
  pub same_claim : d.claim ≡ row.claim
  pub account : s.decrypt (s.sealed id).account_enc ≡ some d.account
  pub bank_code : d.bank_code ≡ (s.sealed id).bank_code
  pub photos : d.photos ≡ photos_for id db.photos
  pub approved_by : d.approved_by ≡ named_by s approved [] (events_for id db.events)
  pub paid_by : d.paid_by ≡ named_by s paid [] (events_for id db.events)

pub claim_detail-Backed :
    (s : Shelf) (store id now : ℕ) (db : Db) {d : ClaimDetail}
    → claim_detail s store id now db ≡ ok d
    → Backed s store id db d
unfolding claim_detail
claim_detail-Backed s store id now db h =
    let r = bind-ok (or_missing (find? (own_row store id) db.claims)) _ h in
    let m = bind-ok (or_missing (find? (λ m. m.id == r.0.claim.machine_id) s.machines)) _ r.2 in
    let reasons = bind-ok (or_broken (s.reasons (s.sealed id).risk_reasons)) _ m.2 in
    let phone = bind-ok (or_broken (s.decrypt (s.sealed id).phone_enc)) _ reasons.2 in
    let account = bind-ok (or_broken (s.decrypt (s.sealed id).account_enc)) _ phone.2 in
    let holder = bind-ok (or_broken (s.decrypt (s.sealed id).holder_enc)) _ account.2 in
    let e = ok-injective holder.2 in
    record {
      row = r.0;
      found = or_missing-ok _ r.1;
      same_claim = ap (λ x. x.claim) (sym e);
      account = or_broken-ok _ account.1 ∙ ap (λ x. some x.account) e;
      bank_code = ap (λ x. x.bank_code) (sym e);
      photos = ap (λ x. x.photos) (sym e);
      approved_by = ap (λ x. x.approved_by) (sym e);
      paid_by = ap (λ x. x.paid_by) (sym e);
    }

-- Whoever opens the page of a claim sees a claim of their own store and the one they asked for, with the
-- names of those who approved it and paid it last by the log; and if somebody asks and the database
-- takes the entry, the newest entry of the log says who looked at which claim and when.
pub read_claim-IsOnRecord :
    (s : Shelf) (written : Bool) (store id : ℕ) (by : Actor) (now : ℕ) (db : Db) {d : ClaimDetail}
    → (read_claim s written store id by now db).0 ≡ ok d
    → (d.claim.id ≡ id)
      × (d.claim.store_id ≡ store)
      × (d.approved_by ≡ newest_name s approved (keep (λ e. e.claim_id == id) db.events))
      × (d.paid_by ≡ newest_name s paid (keep (λ e. e.claim_id == id) db.events))
      × ((read_claim s written store id by now db).1 ≡ (
          if not (is_nobody by.kind) && written
          then append_event (view_event id by now) db
          else db))
unfolding read_claim events_for
read_claim-IsOnRecord s written store id by now db {d} h =
    let b = claim_detail-Backed s store id now db h in
    let own = and-true _ _ (find?-passes (own_row store id) db.claims b.found) in
    (
      ap (λ c. c.id) b.same_claim ∙ (==_iff _ _).0 own.0,
      ap (λ c. c.store_id) b.same_claim ∙ (==_iff _ _).0 own.1,
      b.approved_by ∙ named_by-reverse s approved (keep (λ e. e.claim_id == id) db.events),
      b.paid_by ∙ named_by-reverse s paid (keep (λ e. e.claim_id == id) db.events),
      ap (after_read written id by now db) h,
    )

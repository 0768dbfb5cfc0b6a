-- ===== src/Market/Desk.antt =====
-- internal/httpapi/admin_market.go: the handlers that write, and `CanPostListing` of
-- internal/store/user.go. A request's user is the store and the id that the session gave.
use claw_hub.Prelude.{
  refuse-ok, inr, inl, ap, subst, ok-injective, Option-cases, ℕ, ◌+◌, ◌-◌, ◌≤◌, Bool, ◌&&◌, not,
  String, Option, none, some, length, ltb, leb, Result, ok, err, refuse_if, ◌>>=◌, ◌>>◌, ◌≡◌, arith,
  bind-ok,
}
use claw_hub.Prelude.Int.{ℤ}
use claw_hub.Prelude.Texts.{Text, trim_space, is_empty}
use claw_hub.Market.Listing.{ListingKind, parse_listing_kind, validate_listing}
use claw_hub.Market.Board.{Db, Shop, Listing, listing_by_id, create_listing, close_listing}
use claw_hub.Market.Reports.{owner_of, day_start, report_listing, contact_for, contacts_today}

pub data DeskError : Type 0 where
  not_found store_incomplete bad_request own_listing contact_limit internal_error : DeskError

abbrev lift : {E A : Type 0} → DeskError → Result E A → Result DeskError A
lift e (ok a) = ok a
lift e (err _) = err e

-- `contactsPerDay`
abbrev contacts_per_day : ℕ
contacts_per_day = 30

-- `CanPostListing`, and the columns of the store that it reads.
unfoldable pub can_post_listing : Text → Text → Bool
can_post_listing region biz_no = not (is_empty region) && not (is_empty biz_no)

-- `createListingRequest`
pub record CreateListingRequest : Type 0 where
  pub name : Text
  pub kind : String
  pub qty : ℤ
  pub unit_price_krw : ℤ
  pub note : Text

-- The settings of the store that `handleCreateListing` reads.
pub record StoreDetail : Type 0 where
  pub region_code : Text
  pub region_detail : Text
  pub biz_no : Text

abbrev kind_or : Option ListingKind → Result DeskError ListingKind
kind_or none = err bad_request
kind_or (some k) = ok k

-- `handleCreateListing`
unfoldable pub handle_create_listing :
    (ℕ → ℕ)
    → ℕ
    → ℕ
    → StoreDetail
    → CreateListingRequest
    → ℕ
    → ℕ
    → Db
    → Result DeskError (Listing × Db)
unfolding can_post_listing
handle_create_listing lower store user st req id now db = do
  refuse_if (not (can_post_listing st.region_code st.biz_no)) store_incomplete
  kind ← kind_or (parse_listing_kind req.kind)
  lift bad_request (
      validate_listing (record {
        name = trim_space req.name;
        kind = kind;
        qty = req.qty;
        unit_price_krw = req.unit_price_krw;
        note = trim_space req.note;
      }))
  lift internal_error (
      create_listing lower
        (record {
          store_id = store;
          user_id = user;
          name = trim_space req.name;
          kind = kind;
          qty = req.qty;
          unit_price_krw = req.unit_price_krw;
          note = trim_space req.note;
          region_code = st.region_code;
          region_detail = st.region_detail;
          now = now;
        })
        id db)

-- `handleListingContact`: the contact, how many remain today, and the tables.
unfoldable pub handle_listing_contact : ℕ → ℕ → ℕ → ℕ → Db → Result DeskError (Shop × ℕ × Db)
handle_listing_contact id store user now db = do
  l ← lift not_found (listing_by_id id store now db)
  refuse_if l.mine own_listing
  refuse_if (leb contacts_per_day (contacts_today store now db)) contact_limit
  c ← lift not_found (contact_for l.post.id store user now db)
  ok (c.0, contacts_per_day - contacts_today store now db - 1, c.1)

-- `handleReportListing`
unfoldable pub handle_report_listing : ℕ → ℕ → Text → ℕ → Db → Result DeskError (Bool × Db)
handle_report_listing id store reason now db = do
  refuse_if (ltb 300 (length reason)) bad_request
  l ← lift not_found (listing_by_id id store now db)
  refuse_if l.mine bad_request
  lift internal_error (report_listing l.post.id store reason now db)

-- `handleCloseListing`
unfoldable pub handle_close_listing : ℕ → ℕ → ℕ → Db → Result DeskError Db
handle_close_listing id store now db = lift not_found (close_listing id store now db)

lift-ok : {E A : Type 0} (e : DeskError) (r : Result E A) {a : A} → lift e r ≡ ok a → r ≡ ok a
lift-ok e (ok x) h = cc
lift-ok e (err x) h = absurd (cc h)

day_start_le : (now : ℕ) → day_start now ≤ now
unfolding day_start
day_start_le now = omega arith

-- A row that `ContactFor` writes counts as one of the day's.
contact_for-count :
    (id store user now : ℕ) (db db' : Db) (s : Shop)
    → contact_for id store user now db ≡ ok (s, db')
    → contacts_today store now db' ≡ 1 + contacts_today store now db
unfolding contact_for contacts_today
contact_for-count id store user now db db' s h = elim (Option-cases (owner_of id db)) [
  | inl e ↦ absurd (cc (rw (contact_for, e) at h))
  | inr (shop, e) ↦
      subst (λ d. contacts_today store now d ≡ 1 + contacts_today store now db)
        (ap (λ x. x.1) (ok-injective (rw (contact_for, e) at h))) (ground (arith, day_start_le now))
]

-- Whoever is given a telephone number asked for another's post, is on record for it, and has opened
-- no more than thirty of them that day.
pub handle_listing_contact-limit :
    (id store user now : ℕ) (db db' : Db) (s : Shop) (rest : ℕ)
    → handle_listing_contact id store user now db ≡ ok (s, rest, db')
    → (contacts_today store now db' ≡ 1 + contacts_today store now db)
      × (contacts_today store now db' + rest ≡ contacts_per_day)
unfolding handle_listing_contact
handle_listing_contact-limit id store user now db db' s rest h =
    let l = bind-ok (lift not_found (listing_by_id id store now db)) _ h in
    let own = bind-ok (refuse_if l.0.mine own_listing) _ l.2 in
    let few =
      bind-ok (refuse_if (leb contacts_per_day (contacts_today store now db)) contact_limit) _
        own.2 in
    let c = bind-ok (lift not_found (contact_for l.0.post.id store user now db)) _ few.2 in
    let out = ok-injective c.2 in
    let grown =
      contact_for-count l.0.post.id store user now db c.0.1 c.0.0 (lift-ok not_found _ c.1) in
    let below = refuse-ok _ contact_limit few.1 in
    let grown' =
      subst (λ d. contacts_today store now d ≡ 1 + contacts_today store now db) (ap (λ x. x.2) out)
        grown in
    let rest' : 30 - contacts_today store now db - 1 ≡ rest = ap (λ x. x.1) out in
    (grown', ground (arith, grown', rest', below))

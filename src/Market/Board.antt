-- ===== src/Market/Board.antt =====
-- internal/store/listing.go: the tables listings, listing_contacts and listing_reports and the
-- operations on them. Ids are numbers, 0 the empty one; each table has its newest row first, which is
-- the order of created_at. Labels and region names, which are display text, are left out.
use claw_hub.Prelude.{
  ℕ, ◌+◌, ◌*◌, Bool, true, false, ◌||◌, ◌&&◌, not, Option, none, some, List, ◌∷◌, map, take, keep,
  find?, count_if, ltb, ◌==◌, str_eq, if◌then◌else◌, Result, ok, err,
}
use claw_hub.Prelude.Int.{pos_part, ℤ, pos, ltb_ℤ, leb_ℤ}
use claw_hub.Prelude.Texts.{Text, trim_space, text_eq, is_empty}
use claw_hub.Market.Listing.{ListingKind, kind_string, needs_price, name_key, listing_days}

-- The column `status`.
pub data PostStatus : Type 0 where
  open_post closed removed : PostStatus

abbrev pub is_open : PostStatus → Bool
is_open open_post = true
is_open _ = false

-- A row of `listings`.
pub record Post : Type 0 where
  pub id : ℕ
  pub store_id : ℕ
  pub created_by : ℕ
  pub name : Text
  pub name_key : Text
  pub kind : ListingKind
  pub qty : ℤ
  pub unit_price_krw : ℤ
  pub note : Text
  pub region_code : Text
  pub region_detail : Text
  pub status : PostStatus
  pub created_at : ℕ
  pub expires_at : ℕ
  pub closed_at : Option ℕ
  pub report_count : ℕ

-- The columns of `stores` that the market reads.
pub record Shop : Type 0 where
  pub id : ℕ
  pub name : Text
  pub phone : Text
  pub biz_no : Text

-- A row of `listing_contacts`.
pub record Contact : Type 0 where
  pub listing_id : ℕ
  pub viewer_store_id : ℕ
  pub viewer_user_id : ℕ
  pub created_at : ℕ

-- A row of `listing_reports`.
pub record Report : Type 0 where
  pub listing_id : ℕ
  pub reporter_store_id : ℕ
  pub reason : Text

pub record Db : Type 0 where
  pub shops : List Shop
  pub posts : List Post
  pub contacts : List Contact
  pub reports : List Report

pub data MarketError : Type 0 where
  not_found db_refused : MarketError

-- `Listing`: a post as one store sees it.
pub record Listing : Type 0 where
  pub post : Post
  pub mine : Bool
  pub report_count : ℕ

-- The loop body of `scanListings`.
unfoldable pub seen_by : ℕ → Post → Listing
seen_by viewer p =
    let mine = p.store_id == viewer && not (viewer == 0) in
    record { post = p; mine = mine; report_count = if mine then p.report_count else 0 }

-- `ListingByID`
unfoldable pub listing_by_id : ℕ → ℕ → ℕ → Db → Result MarketError Listing
unfolding seen_by
listing_by_id id viewer now db = elim (find? (λ p. p.id == id) db.posts) [
  | none ↦ err not_found
  | some p ↦
      let l = seen_by viewer p in
      if not l.mine && (not (is_open p.status) || not (ltb now p.expires_at))
      then err not_found
      else ok l
]

-- `CreateListingInput`
pub record CreateListingInput : Type 0 where
  pub store_id : ℕ
  pub user_id : ℕ
  pub name : Text
  pub kind : ListingKind
  pub qty : ℤ
  pub unit_price_krw : ℤ
  pub note : Text
  pub region_code : Text
  pub region_detail : Text
  pub now : ℕ

-- A day in nanoseconds.
abbrev pub day : ℕ
day = 86400000000000

-- The row that `CreateListing` inserts; the database gives it an id.
unfoldable pub new_post : (ℕ → ℕ) → CreateListingInput → ℕ → Post
new_post lower in' id = record {
  id = id;
  store_id = in'.store_id;
  created_by = in'.user_id;
  name = trim_space in'.name;
  name_key = name_key lower in'.name;
  kind = in'.kind;
  qty = in'.qty;
  unit_price_krw = if needs_price in'.kind then in'.unit_price_krw else pos 0;
  note = trim_space in'.note;
  region_code = in'.region_code;
  region_detail = in'.region_detail;
  status = open_post;
  created_at = in'.now;
  expires_at = in'.now + listing_days * day;
  closed_at = none;
  report_count = 0;
}

-- `CreateListing`: the table checks that the quantity is above zero and no price below it.
unfoldable pub create_listing :
    (ℕ → ℕ) → CreateListingInput → ℕ → Db → Result MarketError (Listing × Db)
unfolding new_post seen_by
create_listing lower in' id db =
    let p = new_post lower in' id in
    if leb_ℤ p.qty (pos 0) || ltb_ℤ p.unit_price_krw (pos 0)
    then err db_refused
    else ok (seen_by in'.store_id p, record db { posts = p ∷ db.posts })

-- `ListingFilter`
pub record ListingFilter : Type 0 where
  pub viewer_store_id : ℕ
  pub region_code : Text
  pub kind : Option ListingKind
  pub mine_only : Bool
  pub now : ℕ
  pub limit : ℤ

abbrev kind_fits : Option ListingKind → ListingKind → Bool
kind_fits none k = true
kind_fits (some f) k = str_eq (kind_string k) (kind_string f) || str_eq (kind_string k) "both"

-- The WHERE clause of `ListListings`.
unfoldable pub is_listed : ListingFilter → Post → Bool
is_listed f p =
    if f.mine_only
    then p.store_id == f.viewer_store_id
    else is_open p.status
      && ltb f.now p.expires_at
      && (is_empty f.region_code || text_eq p.region_code f.region_code)
      && kind_fits f.kind p.kind

abbrev page_size : ℤ → ℕ
page_size n = if leb_ℤ n (pos 0) || ltb_ℤ (pos 200) n then 50 else pos_part n

-- `ListListings`
unfoldable pub list_listings : ListingFilter → Db → List Listing
unfolding seen_by is_listed
list_listings f db =
    map (seen_by f.viewer_store_id) (take (page_size f.limit) (keep (is_listed f) db.posts))

-- The UPDATE of `CloseListing`.
unfoldable pub may_close : ℕ → ℕ → Post → Bool
may_close id store p = p.id == id && p.store_id == store && is_open p.status

unfoldable pub close_post : ℕ → ℕ → ℕ → Post → Post
unfolding may_close
close_post id store now p =
    if may_close id store p then record p { status = closed; closed_at = some now } else p

-- `CloseListing`
unfoldable pub close_listing : ℕ → ℕ → ℕ → Db → Result MarketError Db
unfolding may_close close_post
close_listing id store now db =
    if count_if (may_close id store) db.posts == 0
    then err not_found
    else ok (record db { posts = map (close_post id store now) db.posts })

-- ===== src/Market/Reports.antt =====
-- internal/store/listing.go: `ReportListing`, `ContactFor` and `ContactsTodayFor`, and the
-- invariant that keeps the count of a post in step with its reports.
use claw_hub.Prelude.{
  ℕ, ◌+◌, ◌-◌, ◌%◌, Bool, true, false, ◌&&◌, Option, none, some, List, [], ◌∷◌, map, find?, any,
  count_if, leb, ◌==◌, if◌then◌else◌, Result, ok, err, ◌≡◌, All,
}
use claw_hub.Prelude.Texts.{Text, trim_space}
use claw_hub.Market.Board.{
  Db, Post, Shop, Contact, Report, MarketError, not_found, db_refused, removed, is_open, day,
}
use claw_hub.Market.Listing.{listing_report_limit}

unfoldable pub same_report : ℕ → ℕ → Report → Bool
same_report listing reporter r = r.listing_id == listing && r.reporter_store_id == reporter

-- The first UPDATE of `ReportListing`.
unfoldable pub count_report : ℕ → Post → Post
count_report id p = if p.id == id then record p { report_count = p.report_count + 1 } else p

-- Its second UPDATE.
unfoldable pub take_down : ℕ → ℕ → Post → Post
take_down id now p =
    if p.id == id && is_open p.status
    then record p { status = removed; closed_at = some now }
    else p

-- `ReportListing`: a report of a post that is not there breaks the foreign key.
unfoldable pub report_listing : ℕ → ℕ → Text → ℕ → Db → Result MarketError (Bool × Db)
unfolding same_report count_report take_down
report_listing id reporter reason now db =
    if any (same_report id reporter) db.reports
    then ok (false, db)
    else let posts = map (count_report id) db.posts in
      let row : Report = record {
        listing_id = id;
        reporter_store_id = reporter;
        reason = trim_space reason;
      } in
      elim (find? (λ p. p.id == id) posts) [
        | none ↦ err db_refused
        | some p ↦
            if leb listing_report_limit p.report_count
            then ok (
              true,
              record db { posts = map (take_down id now) posts; reports = row ∷ db.reports },
            )
            else ok (false, record db { posts = posts; reports = row ∷ db.reports })
      ]

abbrev kst_offset : ℕ
kst_offset = 32400000000000

-- `dayStart` of `ContactsTodayFor`, for a `now` in Korean time.
unfoldable pub day_start : ℕ → ℕ
day_start now = now + kst_offset - (now + kst_offset) % day - kst_offset

-- `ContactsTodayFor`
unfoldable pub contacts_today : ℕ → ℕ → Db → ℕ
unfolding day_start
contacts_today store now db =
    count_if (λ c. c.viewer_store_id == store && leb (day_start now) c.created_at) db.contacts

abbrev pub owner_of : ℕ → Db → Option Shop
owner_of id db = elim (find? (λ p. p.id == id) db.posts) [
  | none ↦ none
  | some p ↦ find? (λ s. s.id == p.store_id) db.shops
]

-- `ContactFor`: no number is given out without a row that says who read it.
unfoldable pub contact_for : ℕ → ℕ → ℕ → ℕ → Db → Result MarketError (Shop × Db)
contact_for id viewer user now db = elim (owner_of id db) [
  | none ↦ err not_found
  | some shop ↦
      let row : Contact = record {
        listing_id = id;
        viewer_store_id = viewer;
        viewer_user_id = user;
        created_at = now;
      } in
      ok (shop, record db { contacts = row ∷ db.contacts })
]

-- How many reports a post has.
abbrev pub reports_of : ℕ → List Report → ℕ
reports_of id rs = count_if (λ r. id == r.listing_id) rs

-- No store has two reports of one post.
unfoldable pub HasOneReportEach : List Report → Type 0
HasOneReportEach [] = Unit
HasOneReportEach (r ∷ rs) =
    (any (same_report r.listing_id r.reporter_store_id) rs ≡ false) × HasOneReportEach rs

-- A post counts its reports, and one with as many as the limit is not open.
unfoldable pub IsCounted : List Report → Post → Type 0
IsCounted rs p =
    (p.report_count ≡ reports_of p.id rs)
    × ((if leb listing_report_limit p.report_count then is_open p.status else false) ≡ false)

unfoldable pub IsFair : Db → Type 0
IsFair db = HasOneReportEach db.reports × All (IsCounted db.reports) db.posts

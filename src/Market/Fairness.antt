-- ===== src/Market/Fairness.antt =====
-- internal/store/listing.go: how many reports `ReportListing` counts, and what they come to.
use claw_hub.Prelude.Texts.{trim_space, Text}
use claw_hub.Market.Listing.{listing_report_limit}
use claw_hub.Prelude.{
  eq_of_some, ◌∙◌, inr, ==_iff, true, false, find?, leb, ◌&&◌, some, inl, map, any, ok,
  if◌then◌else◌, ◌==◌, All, ℕ, ◌+◌, ◌<◌, Bool, List, [], ◌∷◌, ◌≡◌, refl, arith, subst, sym, ap,
  ok-injective, Bool-cases, Option-cases,
}
use claw_hub.Market.Board.{is_open, removed, Db, Post, Report}
use claw_hub.Market.Reports.{
  count_report, take_down, same_report, IsFair, IsCounted, HasOneReportEach, reports_of,
  report_listing,
}

module _ (rs : List Report) (r : Report) where
  count_again :
      (id n : ℕ)
      → (id == r.listing_id) ≡ true
      → n ≡ reports_of id rs
      → n + 1 ≡ reports_of id (r ∷ rs)
  count_again id n e h = rw e (omega (arith, h))

  count_as_before :
      (id n : ℕ) → (id == r.listing_id) ≡ false → n ≡ reports_of id rs → n ≡ reports_of id (r ∷ rs)
  count_as_before id n e h = rw e (omega (arith, h))

  keep-IsCounted :
      (p : Post) → (p.id == r.listing_id) ≡ false → IsCounted rs p → IsCounted (r ∷ rs) p
  unfolding IsCounted
  keep-IsCounted p e h = (count_as_before p.id p.report_count e h.0, h.1)

  abbrev counted : Post → Post
  counted p = record p { report_count = p.report_count + 1 }

  count-same : (p : Post) → (p.id == r.listing_id) ≡ true → count_report r.listing_id p ≡ counted p
  unfolding count_report
  count-same p e = rw e refl

  count-other : (p : Post) → (p.id == r.listing_id) ≡ false → count_report r.listing_id p ≡ p
  unfolding count_report
  count-other p e = rw e refl

  abbrev downed : ℕ → Post → Post
  downed now p = record p { status = removed; closed_at = some now }

  down-open :
      (now : ℕ) (p : Post)
      → (p.id == r.listing_id) ≡ true
      → is_open p.status ≡ true
      → take_down r.listing_id now p ≡ downed now p
  unfolding take_down
  down-open now p e o = rw (e, o) refl

  down-other :
      (now : ℕ) (p : Post)
      → ((p.id == r.listing_id) && is_open p.status) ≡ false
      → take_down r.listing_id now p ≡ p
  unfolding take_down
  down-other now p o = rw o refl

  limit_false : (n : ℕ) → (if leb listing_report_limit n then false else false) ≡ false
  limit_false n = ground arith

  -- A post that is reported again and is open at the limit is taken down.
  down-IsCounted :
      (now : ℕ) (p : Post)
      → (p.id == r.listing_id) ≡ true
      → IsCounted rs p
      → IsCounted (r ∷ rs) (take_down r.listing_id now (counted p))
  unfolding IsCounted
  down-IsCounted now p e h = elim (Bool-cases (is_open p.status)) [
    | inl o ↦
        subst (IsCounted (r ∷ rs)) (sym (down-open now (counted p) e o))
          (count_again p.id p.report_count e h.0, limit_false (p.report_count + 1))
    | inr o ↦
        subst (IsCounted (r ∷ rs)) (sym (down-other now (counted p) (rw (e, o) refl)))
          (count_again p.id p.report_count e h.0, rw o (limit_false (p.report_count + 1)))
  ]

  take-IsCounted :
      (now : ℕ) (p : Post)
      → IsCounted rs p
      → IsCounted (r ∷ rs) (take_down r.listing_id now (count_report r.listing_id p))
  take-IsCounted now p h = elim (Bool-cases (p.id == r.listing_id)) [
    | inl e ↦ rw (count-same p e) (down-IsCounted now p e h)
    | inr e ↦
        rw (count-other p e)
          (subst (IsCounted (r ∷ rs)) (sym (down-other now p (rw e refl))) (keep-IsCounted p e h))
  ]

  below_limit :
      (n : ℕ) (b : Bool)
      → 1 + n < listing_report_limit
      → (if leb listing_report_limit (n + 1) then b else false) ≡ false
  below_limit n b h = ground arith

  count-IsCounted :
      1 + reports_of r.listing_id rs < listing_report_limit
      → (p : Post) → IsCounted rs p
      → IsCounted (r ∷ rs) (count_report r.listing_id p)
  unfolding IsCounted
  count-IsCounted b p h = elim (Bool-cases (p.id == r.listing_id)) [
    | inl e ↦
        let same = (==_iff p.id r.listing_id).0 e in
        let below : 1 + p.report_count < listing_report_limit =
          subst (λ n. 1 + n < listing_report_limit) (sym h.0) (rw same b) in
        subst (IsCounted (r ∷ rs)) (sym (count-same p e)) (
          count_again p.id p.report_count e h.0,
          below_limit p.report_count (is_open p.status) below,
        )
    | inr e ↦ subst (IsCounted (r ∷ rs)) (sym (count-other p e)) (keep-IsCounted p e h)
  ]

All-map_to :
    (P Q : Post → Type 0) (f : Post → Post)
    → ((p : Post) → P p → Q (f p))
    → (ps : List Post) → All P ps
    → All Q (map f ps)
All-map_to P Q f k [] h = tt
All-map_to P Q f k (p ∷ ps) h = (k p h.0, All-map_to P Q f k ps h.1)

All-map_twice :
    (P Q : Post → Type 0) (f g : Post → Post)
    → ((p : Post) → P p → Q (g (f p)))
    → (ps : List Post) → All P ps
    → All Q (map g (map f ps))
All-map_twice P Q f g k [] h = tt
All-map_twice P Q f g k (p ∷ ps) h = (k p h.0, All-map_twice P Q f g k ps h.1)

-- The post that a lookup finds among the counted ones tells how often it was reported.
find-count :
    (rs : List Report) (id : ℕ) (ps : List Post) (q : Post)
    → All (IsCounted rs) ps
    → find? (λ p. p.id == id) (map (count_report id) ps) ≡ some q
    → q.report_count ≡ 1 + reports_of id rs
unfolding IsCounted
find-count rs id [] q h f = absurd (cc f)
find-count rs id (p ∷ ps) q h f =
    let r : Report = record { listing_id = id; reporter_store_id = 0; reason = [] } in
    elim (Bool-cases (p.id == id)) [
      | inl e ↦
          let same = (==_iff p.id id).0 e in
          let f' = rw (count-same rs r p e, e) at f in
          let n : p.report_count ≡ reports_of id rs =
            subst (λ i. p.report_count ≡ reports_of i rs) same h.0.0 in
          subst (λ x. x.report_count ≡ 1 + reports_of id rs) (eq_of_some f') (omega (arith, n))
      | inr e ↦ find-count rs id ps q h.1 (rw (count-other rs r p e, e) at f)
    ]

-- A report keeps a fair board fair: no store reports a post twice, each post counts its reports, and
-- none with three of them is on show.
pub report_listing-IsFair :
    (id reporter : ℕ) (reason : Text) (now : ℕ) (db db' : Db) (removed' : Bool)
    → IsFair db
    → report_listing id reporter reason now db ≡ ok (removed', db')
    → IsFair db'
unfolding report_listing IsFair HasOneReportEach
report_listing-IsFair id reporter reason now db db' removed' h k =
    let r : Report = record {
      listing_id = id;
      reporter_store_id = reporter;
      reason = trim_space reason;
    } in
    let posts = map (count_report id) db.posts in
    elim (Bool-cases (any (same_report id reporter) db.reports)) [
      | inl d ↦ subst IsFair (ap (λ x. x.1) (ok-injective (rw d at k))) h
      | inr d ↦ elim (Option-cases (find? (λ p. p.id == id) posts)) [
        | inl e ↦ absurd (cc (rw (d, e) at k))
        | inr (q, e) ↦
            let n = find-count db.reports id db.posts q h.1 e in
            elim (Bool-cases (leb listing_report_limit q.report_count)) [
              | inl l ↦ subst IsFair (ap (λ x. x.1) (ok-injective (rw (d, e, l) at k))) (
                (d, h.0),
                All-map_twice (IsCounted db.reports) (IsCounted (r ∷ db.reports)) (count_report id)
                    (take_down id now) (take-IsCounted db.reports r now) db.posts h.1,
              )
              | inr l ↦ subst IsFair (ap (λ x. x.1) (ok-injective (rw (d, e, l) at k))) (
                (d, h.0),
                All-map_to (IsCounted db.reports) (IsCounted (r ∷ db.reports)) (count_report id)
                    (count-IsCounted db.reports r (ground (arith, n, l))) db.posts h.1,
              )
            ]
      ]
    ]

-- On a fair board the first report of a post by a store takes it down exactly when at least two other
-- reports of it are on file, and every report of one post is from another store.
pub report_listing-removed :
    (id reporter : ℕ) (reason : Text) (now : ℕ) (db db' : Db) (removed' : Bool)
    → IsFair db
    → any (same_report id reporter) db.reports ≡ false
    → report_listing id reporter reason now db ≡ ok (removed', db')
    → removed' ≡ leb 2 (reports_of id db.reports)
unfolding report_listing IsFair
report_listing-removed id reporter reason now db db' removed' h d k =
    elim (Option-cases (find? (λ p. p.id == id) (map (count_report id) db.posts))) [
      | inl e ↦ absurd (cc (rw (d, e) at k))
      | inr (q, e) ↦
          let n = find-count db.reports id db.posts q h.1 e in
          elim (Bool-cases (leb listing_report_limit q.report_count)) [
            | inl l ↦ sym (ap (λ x. x.0) (ok-injective (rw (d, e, l) at k))) ∙ ground (arith, n, l)
            | inr l ↦ sym (ap (λ x. x.0) (ok-injective (rw (d, e, l) at k))) ∙ ground (arith, n, l)
          ]
    ]

report_listing-on_file :
    (id reporter : ℕ) (reason : Text) (now : ℕ) (db db' : Db) (removed' : Bool)
    → report_listing id reporter reason now db ≡ ok (removed', db')
    → any (same_report id reporter) db'.reports ≡ true
unfolding report_listing same_report
report_listing-on_file id reporter reason now db db' removed' k =
    let on_file : Db → Type 0 = λ d. any (same_report id reporter) d.reports ≡ true in
    elim (Bool-cases (any (same_report id reporter) db.reports)) [
      | inl d ↦ subst on_file (ap (λ x. x.1) (ok-injective (rw d at k))) d
      | inr d ↦ elim (Option-cases (find? (λ p. p.id == id) (map (count_report id) db.posts))) [
        | inl e ↦ absurd (cc (rw (d, e) at k))
        | inr (q, e) ↦ elim (Bool-cases (leb listing_report_limit q.report_count)) [
          | inl l ↦ subst on_file (ap (λ x. x.1) (ok-injective (rw (d, e, l) at k))) (ground arith)
          | inr l ↦ subst on_file (ap (λ x. x.1) (ok-injective (rw (d, e, l) at k))) (ground arith)
        ]
      ]
    ]

-- A store that reports a post again changes nothing.
pub report_listing_twice :
    (id reporter : ℕ) (reason reason' : Text) (now now' : ℕ) (db db' : Db) (removed' : Bool)
    → report_listing id reporter reason now db ≡ ok (removed', db')
    → report_listing id reporter reason' now' db' ≡ ok (false, db')
unfolding report_listing
report_listing_twice id reporter reason reason' now now' db db' removed' k =
    rw (report_listing-on_file id reporter reason now db db' removed' k) refl

-- ===== src/Refund/Listing.antt =====
-- internal/httpapi/admin_claims.go: `handleListClaims`. `parse_time` is `time.Parse` with RFC 3339's layout;
-- the text of the cursor is read by `ListClaims`, and one that it cannot read is refused there.
use claw_hub.Prelude.{
  zero, suc, ltb, ℕ, ◌+◌, ◌≤◌, true, ◌&&◌, ◌||◌, Option, none, some, List, [], ◌∷◌, ◌++◌, find?,
  any, take, keep, length, ◌==◌, ==_iff, if◌then◌else◌, Result, ok, err, ◌>>=◌, ◌≡◌, arith, All,
  All-map, All-In, In, In-keep, bind-ok, ok-injective, and-true, subst, Bool-cases, inl, inr,
  length-take,
}
use claw_hub.Prelude.Int.{ℤ, pos}
use claw_hub.Prelude.Texts.{Text, codes, text_eq, trim_space, is_empty}
use claw_hub.Prelude.Decimal.{atoi}
use claw_hub.Claim.Status.{Status, all_statuses, status_string, status_eq}
use claw_hub.ClaimStore.Table.{Row}
use claw_hub.ClaimStore.Page.{
  ClaimFilter, Cursor, list_claims, is_wanted, below_or_none, page_limit, cut_page, sort_rows,
}
use claw_hub.ClaimStore.Order.{sort-All}

pub data ListError : Type 0 where
  unknown_status bad_limit bad_time : ListError

-- The query string.
pub record ListQuery : Type 0 where
  pub statuses : List Text
  pub machine_id : Option ℕ
  pub cursor : Option Cursor
  pub limit : Text
  pub from : Text
  pub to : Text

abbrev onto_first : ℕ → List Text → List Text
onto_first c [] = (c ∷ []) ∷ []
onto_first c (p ∷ ps) = (c ∷ p) ∷ ps

-- `strings.Split` at commas.
unfoldable pub split_commas : Text → List Text
split_commas [] = [] ∷ []
split_commas (c ∷ s) =
    let rest = split_commas s in if c == b',' then [] ∷ rest else onto_first c rest

unfoldable pub status_parts : List Text → List Text
unfolding split_commas
status_parts [] = []
status_parts (raw ∷ raws) = split_commas raw ++ status_parts raws

abbrev or_unknown : Option Status → Result ListError Status
or_unknown none = err unknown_status
or_unknown (some st) = ok st

-- The loops over the statuses.
unfoldable pub parse_statuses : List Text → Result ListError (List Status)
parse_statuses [] = ok []
parse_statuses (part ∷ parts) =
    let rest = parse_statuses parts in
    if is_empty (trim_space part)
    then rest
    else or_unknown (find? (λ v. text_eq (codes (status_string v)) (trim_space part)) all_statuses)
      >>= λ st. rest >>= λ sts. ok (st ∷ sts)

abbrev limit_or : Option ℤ → Result ListError ℤ
limit_or none = err bad_limit
limit_or (some n) = ok n

abbrev limit_of : Text → Result ListError ℤ
limit_of s = if is_empty s then ok (pos 0) else limit_or (atoi s)

abbrev time_or : Option ℕ → Result ListError ℕ
time_or none = err bad_time
time_or (some t) = ok t

abbrev time_of : (Text → Option ℕ) → Text → Result ListError ℕ
time_of parse_time s = if is_empty s then ok 0 else time_or (parse_time s)

-- `handleListClaims`
unfoldable pub handle_list_claims :
    (Text → Option ℕ) → ℕ → ListQuery → List Row → Result ListError (List Row × Option Cursor)
unfolding status_parts parse_statuses list_claims atoi
handle_list_claims parse_time store q rows = do
  sts ← parse_statuses (status_parts q.statuses)
  limit ← limit_of q.limit
  from ← time_of parse_time q.from
  to ← time_of parse_time q.to
  ok (
      list_claims
        (record {
          store_id = store;
          statuses = sts;
          machine_id = q.machine_id;
          from = from;
          to = to;
          cursor = q.cursor;
          limit = limit;
        })
        rows)

take-All : (P : Row → Type 0) (n : ℕ) (rows : List Row) → All P rows → All P (take n rows)
take-All P zero rows a = tt
take-All P (suc n) [] a = tt
take-All P (suc n) (r ∷ rows) a = (a.0, take-All P n rows a.1)

page_limit-at_most : (l : ℤ) → page_limit l ≤ 200
unfolding page_limit
page_limit-at_most l = ground arith

-- What the rows of a list are.
abbrev IsListed : ClaimFilter → List Row → Row → Type 0
IsListed f rows r = In r rows × (is_wanted f r ≡ true)

cut_page-All :
    (P : Row → Type 0) (n : ℕ) (rows : List Row)
    → All P rows
    → All P (cut_page n rows).0 × (length (cut_page n rows).0 ≤ n)
unfolding cut_page
cut_page-All P n rows a = elim (Bool-cases (ltb n (length rows))) [
  | inl e ↦ rw e (take-All P n rows a, omega (arith, length-take n rows))
  | inr e ↦ rw e (a, ground (arith, e))
]

list_claims-All :
    (f : ClaimFilter) (rows : List Row)
    → All (IsListed f rows) (list_claims f rows).0 × (length (list_claims f rows).0 ≤ 200)
unfolding list_claims
list_claims-All f rows =
    let wanted = λ (r : Row). is_wanted f r && below_or_none f.cursor r in
    let listed =
      All-map _ (IsListed f rows)
        (λ r i. let k = In-keep wanted rows i in (k.0, (and-true _ _ k.1).0)) (keep wanted rows)
        (All-In (keep wanted rows)) in
    let limit = page_limit f.limit in
    let page =
      cut_page-All (IsListed f rows) limit (take (limit + 1) (sort_rows (keep wanted rows)))
        (take-All (IsListed f rows) (limit + 1) _ (sort-All (IsListed f rows) _ listed)) in
    (page.0, omega (arith, page.1, page_limit-at_most f.limit))

wanted-own :
    (f : ClaimFilter) (r : Row)
    → is_wanted f r ≡ true
    → (r.claim.store_id ≡ f.store_id)
      × (length f.statuses == 0 || any (status_eq r.claim.status) f.statuses ≡ true)
unfolding is_wanted
wanted-own f r h =
    let up_to_from = and-true _ _ h in
    let up_to_machine = and-true _ _ up_to_from.0 in
    let up_to_status = and-true _ _ up_to_machine.0 in
    let own = and-true _ _ up_to_status.0 in ((==_iff _ _).0 own.0, own.1)

-- A list that is given has at most 200 claims, and all of them are stored claims of the asker's store and
-- in one of the statuses that the query names, where it names any.
pub handle_list_claims-own :
    (parse_time : Text → Option ℕ) (store : ℕ) (q : ListQuery) (rows : List Row)
    {page : List Row × Option Cursor}
    → handle_list_claims parse_time store q rows ≡ ok page
    → (length page.0 ≤ 200)
      × ((sts : List Status) × (parse_statuses (status_parts q.statuses) ≡ ok sts)
          × All
              (λ r.
                In r rows
                × (r.claim.store_id ≡ store)
                × (length sts == 0 || any (status_eq r.claim.status) sts ≡ true))
              page.0)
unfolding handle_list_claims
handle_list_claims-own parse_time store q rows {page} h =
    let (sts, s, h1) = bind-ok (parse_statuses (status_parts q.statuses)) _ h in
    let (limit, l, h2) = bind-ok (limit_of q.limit) _ h1 in
    let (from, f, h3) = bind-ok (time_of parse_time q.from) _ h2 in
    let (to, t, h4) = bind-ok (time_of parse_time q.to) _ h3 in
    let filter : ClaimFilter = record {
      store_id = store;
      statuses = sts;
      machine_id = q.machine_id;
      from = from;
      to = to;
      cursor = q.cursor;
      limit = limit;
    } in
    let listed = list_claims-All filter rows in
    let same = ok-injective h4 in
    (
      subst (λ p. length p.0 ≤ 200) same listed.1,
      (
        sts,
        s,
        subst
            (λ p.
              All
                (λ r.
                  In r rows
                  × (r.claim.store_id ≡ store)
                  × (length sts == 0 || any (status_eq r.claim.status) sts ≡ true))
                p.0)
            same
            (All-map _ _ (λ r i. let own = wanted-own filter r i.1 in (i.0, own.0, own.1)) _
              listed.0),
      ),
    )

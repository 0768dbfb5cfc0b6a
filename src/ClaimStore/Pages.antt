-- ===== src/ClaimStore/Pages.antt =====
-- internal/store/query.go: the pages of `ListClaims`, one after the other.
use mathlib.Core.List.{append-nil, append_assoc}
use claw_hub.Prelude.{
  ℕ, zero, suc, ◌+◌, ◌-◌, ◌≤◌, ◌<◌, Bool, true, false, ◌&&◌, none, some, List, [], ◌∷◌, ◌++◌, keep,
  take, length, length-append, length-take, ltb, ◌≡◌, refl, sym, ap, ◌∙◌, subst, arith, Bool-cases,
  inl, inr,
}
use claw_hub.Prelude.Int.{ℤ}
use claw_hub.ClaimStore.Table.{Row}
use claw_hub.ClaimStore.Page.{
  ClaimFilter, is_wanted, is_below, below_or_none, cursor_of, last_cursor, cut_page, list_claims,
  follow, page_limit, sort_rows,
}
use claw_hub.ClaimStore.Order.{
  length-sort, HasUniqueIds, IsDescending, sort-keep, sort-IsDescending, keep-HasUniqueIds,
  keep-below,
}

keep-both :
    (p q : Row → Bool) (rows : List Row) → keep (λ r. p r && q r) rows ≡ keep q (keep p rows)
keep-both p q [] = refl
keep-both p q (r ∷ rows) = elim (Bool-cases (p r)) [
  | inl e ↦ elim (Bool-cases (q r)) [
    | inl f ↦ rw (e, f, keep-both p q rows) refl
    | inr f ↦ rw (e, f, keep-both p q rows) refl
  ]
  | inr e ↦ rw (e, keep-both p q rows) refl
]

page_limit_some : (l : ℤ) → 1 ≤ page_limit l
unfolding page_limit
page_limit_some l = ground arith

-- A list that is longer than a page, at the last row of the page.
split_page :
    (n : ℕ) (rows : List Row)
    → n < length rows
    → (page : List Row) × (x : Row) × (rest : List Row) × (rows ≡ page ++ x ∷ rest)
      × (length page ≡ n)
split_page n [] h = absurd (omega arith)
split_page zero (r ∷ rows) h = ([], r, rows, refl, refl)
split_page (suc n) (r ∷ rows) h =
    let (page, x, rest, e, l) = split_page n rows (omega arith) in
    (r ∷ page, x, rest, ap (λ (s : List Row). r ∷ s) e, omega arith)

take-page :
    (page : List Row) (x : Row) (rest : List Row)
    → take (suc (length page)) (page ++ x ∷ rest) ≡ page ++ x ∷ []
take-page [] x rest = refl
take-page (p ∷ page) x rest = ap (λ (s : List Row). p ∷ s) (take-page page x rest)

take-take : (n : ℕ) (rows : List Row) → take n (take (suc n) rows) ≡ take n rows
take-take zero rows = refl
take-take (suc n) [] = refl
take-take (suc n) (r ∷ rows) = ap (λ (s : List Row). r ∷ s) (take-take n rows)

take-all : (n : ℕ) (rows : List Row) → length rows ≤ n → take n rows ≡ rows
take-all zero [] h = refl
take-all zero (r ∷ rows) h = absurd (omega arith)
take-all (suc n) [] h = refl
take-all (suc n) (r ∷ rows) h = ap (λ (s : List Row). r ∷ s) (take-all n rows (omega arith))

last_cursor_page : (page : List Row) (x : Row) → last_cursor (page ++ x ∷ []) ≡ some (cursor_of x)
last_cursor_page [] x = refl
last_cursor_page (p ∷ []) x = refl
last_cursor_page (p ∷ q ∷ page) x = last_cursor_page (q ∷ page) x

-- A page that is not the last.
cut_page_more :
    (page : List Row) (x : Row) (rest : List Row)
    → 1 ≤ length rest
    → cut_page (suc (length page)) (take (suc (length page) + 1) (page ++ x ∷ rest))
      ≡ (page ++ x ∷ [], some (cursor_of x))
unfolding cut_page
cut_page_more page x rest h =
    let n = length page in
    let rows = page ++ x ∷ rest in
    let one_more : suc n + 1 ≡ suc (suc n) = omega arith in
    let size = length-take (suc (suc n)) rows in
    let whole = length-append page (x ∷ rest) in
    let big : ltb (suc n) (length (take (suc (suc n)) rows)) ≡ true = ground (arith, size, whole) in
    rw (one_more, big, take-take (suc n) rows, take-page page x rest, last_cursor_page page x) refl

-- The last page.
cut_page_last :
    (n : ℕ) (rows : List Row) → length rows ≤ n → cut_page n (take (n + 1) rows) ≡ (rows, none)
unfolding cut_page
cut_page_last n rows h =
    let whole = take-all (n + 1) rows (omega (arith, h)) in
    let small : ltb n (length rows) ≡ false = ground arith in rw (whole, small) refl

-- What the cursor of a row leaves of the claims in their order.
after-row :
    (f : ClaimFilter) (rows front : List Row) (x : Row) (more : List Row)
    → HasUniqueIds rows
    → sort_rows (keep (is_wanted f) rows) ≡ front ++ x ∷ more
    → sort_rows (keep (λ r. is_wanted f r && is_below (cursor_of x) r) rows) ≡ more
after-row f rows front x more u whole =
    let wanted = keep (is_wanted f) rows in
    let unique = keep-HasUniqueIds (is_wanted f) rows u in
    let sorted : IsDescending (front ++ x ∷ more) =
      subst IsDescending whole (sort-IsDescending wanted unique) in
    rw
      (
        keep-both (is_wanted f) (is_below (cursor_of x)) rows,
        sort-keep (is_below (cursor_of x)) wanted unique,
        whole,
      )
      (keep-below front x more sorted)

list_claims_more :
    (f : ClaimFilter) (rows page : List Row) (x : Row) (more : List Row)
    → sort_rows (keep (λ r. is_wanted f r && below_or_none f.cursor r) rows) ≡ page ++ x ∷ more
    → page_limit f.limit ≡ suc (length page)
    → 1 ≤ length more
    → list_claims f rows ≡ (page ++ x ∷ [], some (cursor_of x))
unfolding list_claims
list_claims_more f rows page x more here lim h =
    rw (list_claims, here, lim) (cut_page_more page x more h)

-- From where the cursor stands, the rest of the pages is the rest of the claims.
follow-rest :
    (fuel : ℕ) (f : ClaimFilter) (rows before rest : List Row)
    → HasUniqueIds rows
    → sort_rows (keep (is_wanted f) rows) ≡ before ++ rest
    → sort_rows (keep (λ r. is_wanted f r && below_or_none f.cursor r) rows) ≡ rest
    → length rest < fuel
    → follow fuel f rows ≡ rest
unfolding follow list_claims is_wanted
follow-rest zero f rows before rest u whole here h = absurd (omega arith)
follow-rest (suc fuel) f rows before rest u whole here h =
    let limit = page_limit f.limit in
    let some_room = page_limit_some f.limit in
    elim (Bool-cases (ltb limit (length rest))) [
      | inr small ↦
          let last = cut_page_last limit rest (ground (arith, small)) in
          rw (here, last) (append-nil rest)
      | inl big ↦
          let (page, x, more, e, l) = split_page (limit - 1) rest (ground (arith, big)) in
          let size = length-append page (x ∷ more) in
          let total : length rest ≡ length (page ++ x ∷ more) = ap (λ (s : List Row). length s) e in
          let lim : page_limit f.limit ≡ suc (length page) = omega (arith, some_room, l) in
          let first =
            list_claims_more f rows page x more (here ∙ e) lim
              (ground (arith, big, total, size, lim)) in
          let front = before ++ page in
          let at_row : sort_rows (keep (is_wanted f) rows) ≡ front ++ x ∷ more =
            whole
            ∙ ap (λ (s : List Row). before ++ s) e
            ∙ sym (append_assoc before page (x ∷ more)) in
          let next =
            follow-rest fuel (record f { cursor = some (cursor_of x) }) rows (front ++ x ∷ []) more
              u (at_row ∙ sym (append_assoc front (x ∷ []) more))
              (after-row f rows front x more u at_row) (omega (arith, h, total, size)) in
          rw (first, next) (append_assoc page (x ∷ []) more ∙ sym e)
    ]

length-keep_le : (p : Row → Bool) (rows : List Row) → length (keep p rows) ≤ length rows
length-keep_le p [] = omega arith
length-keep_le p (r ∷ rows) =
    let rest = length-keep_le p rows in
    elim (Bool-cases (p r)) [
      | inl e ↦ rw e (omega (arith, rest))
      | inr e ↦ rw e (omega (arith, rest))
    ]

keep-first_page :
    (f : ClaimFilter) (rows : List Row)
    → f.cursor ≡ none
    → keep (λ r. is_wanted f r && below_or_none f.cursor r) rows ≡ keep (is_wanted f) rows
keep-first_page f [] c = refl
keep-first_page f (r ∷ rows) c = elim (Bool-cases (is_wanted f r)) [
  | inl e ↦ rw (e, c, sym (keep-first_page f rows c)) refl
  | inr e ↦ rw e (keep-first_page f rows c)
]

-- A client that follows the cursors from the first page gets, in a number of requests that is known in
-- advance, every claim that its filter asks for exactly once and from the newest to the oldest:
-- whatever the size of the pages, they come to the whole list in its order.
pub follow-all :
    (f : ClaimFilter) (rows : List Row)
    → HasUniqueIds rows
    → f.cursor ≡ none
    → follow (suc (length rows)) f rows ≡ sort_rows (keep (is_wanted f) rows)
follow-all f rows u c =
    let wanted = sort_rows (keep (is_wanted f) rows) in
    let first = ap (λ (s : List Row). sort_rows s) (keep-first_page f rows c) in
    let size = length-sort (keep (is_wanted f) rows) in
    let few = length-keep_le (is_wanted f) rows in
    follow-rest (suc (length rows)) f rows [] wanted u refl first (omega (arith, size, few))

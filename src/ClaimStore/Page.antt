-- ===== src/ClaimStore/Page.antt =====
-- internal/store/query.go: `ListClaims`. The text of a cursor is taken as the time and the id that it
-- encodes; ids are ordered as the database orders them. The rows are those of `claims`, less what is
-- joined or decrypted for display; the errors of a cursor that cannot be read, of the decryption and of
-- the stored reasons are left out.
use claw_hub.Prelude.{
  ℕ, zero, suc, ◌+◌, Bool, true, ◌&&◌, ◌||◌, Option, none, some, List, [], ◌∷◌, ◌++◌, any, keep,
  take, length, ltb, leb, ◌==◌, if◌then◌else◌,
}
use claw_hub.Prelude.Int.{ℤ, pos, pos_part, leb_ℤ, ltb_ℤ}
use claw_hub.Claim.Status.{Status, status_eq}
use claw_hub.ClaimStore.Table.{Row}

-- A cursor: the time and the id of the last row of a page.
abbrev pub Cursor : Type 0
Cursor = ℕ × ℕ

-- `ClaimFilter`; a time of 0 is none.
pub record ClaimFilter : Type 0 where
  pub store_id : ℕ
  pub statuses : List Status
  pub machine_id : Option ℕ
  pub from : ℕ
  pub to : ℕ
  pub cursor : Option Cursor
  pub limit : ℤ

-- `ORDER BY c.created_at DESC, c.id DESC`: the first row stands before the second.
unfoldable pub newer : Row → Row → Bool
newer r s =
    ltb s.claim.created_at r.claim.created_at
    || (s.claim.created_at == r.claim.created_at && ltb s.claim.id r.claim.id)

-- `(c.created_at, c.id) < (…)`
unfoldable pub is_below : Cursor → Row → Bool
is_below c r = ltb r.claim.created_at c.0 || (r.claim.created_at == c.0 && ltb r.claim.id c.1)

abbrev pub cursor_of : Row → Cursor
cursor_of r = (r.claim.created_at, r.claim.id)

abbrev pub is_or_none : Option ℕ → ℕ → Bool
is_or_none none n = true
is_or_none (some m) n = n == m

abbrev pub below_or_none : Option Cursor → Row → Bool
below_or_none none r = true
below_or_none (some c) r = is_below c r

-- The WHERE clause but for the cursor.
unfoldable pub is_wanted : ClaimFilter → Row → Bool
is_wanted f r =
    r.claim.store_id == f.store_id
    && (length f.statuses == 0 || any (status_eq r.claim.status) f.statuses)
    && is_or_none f.machine_id r.claim.machine_id
    && (f.from == 0 || leb f.from r.claim.created_at)
    && (f.to == 0 || ltb r.claim.created_at f.to)

-- What the database does to order rows.
unfoldable pub insert_row : Row → List Row → List Row
unfolding newer
insert_row r [] = r ∷ []
insert_row r (x ∷ xs) = let rest = insert_row r xs in if newer x r then x ∷ rest else r ∷ x ∷ xs

unfoldable pub sort_rows : List Row → List Row
unfolding insert_row
sort_rows [] = []
sort_rows (r ∷ rows) = insert_row r (sort_rows rows)

-- The limit of a page.
unfoldable pub page_limit : ℤ → ℕ
page_limit l = if leb_ℤ l (pos 0) || ltb_ℤ (pos 200) l then 50 else pos_part l

-- The cursor after a page that is not the last.
abbrev pub last_cursor : List Row → Option Cursor
last_cursor [] = none
last_cursor (r ∷ []) = some (cursor_of r)
last_cursor (r ∷ s ∷ rows) = last_cursor (s ∷ rows)

-- One row more than the limit tells that there is a next page.
unfoldable pub cut_page : ℕ → List Row → List Row × Option Cursor
cut_page limit rows =
    if ltb limit (length rows)
    then (take limit rows, last_cursor (take limit rows))
    else (rows, none)

-- `ListClaims`
unfoldable pub list_claims : ClaimFilter → List Row → List Row × Option Cursor
unfolding is_wanted is_below sort_rows cut_page page_limit
list_claims f rows =
    let limit = page_limit f.limit in
    let listed = keep (λ r. is_wanted f r && below_or_none f.cursor r) rows in
    cut_page limit (take (limit + 1) (sort_rows listed))

-- A client that follows the cursors to the end, in at most so many requests.
abbrev next_pages : Option Cursor → (Cursor → List Row) → List Row
next_pages none k = []
next_pages (some c) k = k c

unfoldable pub follow : ℕ → ClaimFilter → List Row → List Row
unfolding list_claims
follow zero f rows = []
follow (suc fuel) f rows =
    let p = list_claims f rows in
    p.0 ++ next_pages p.1 (λ c. follow fuel (record f { cursor = some c }) rows)

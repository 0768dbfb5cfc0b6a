-- ===== src/ClaimStore/Order.antt =====
-- internal/store/query.go: the order of `ListClaims`, and what it has in common with a filter.
use claw_hub.Prelude.{
  Bool, true, false, List, [], ◌∷◌, ◌++◌, keep, length, ◌==◌, suc, if◌then◌else◌, ◌≡◌, refl, sym,
  arith, All, All-map, Bool-cases, inl, inr,
}
use claw_hub.ClaimStore.Table.{Row}
use claw_hub.ClaimStore.Page.{newer, insert_row, sort_rows, is_below, cursor_of}

newer_trans : (r s t : Row) → newer r s ≡ true → newer s t ≡ true → newer r t ≡ true
unfolding newer
newer_trans r s t h k = ground arith

-- Of two rows with different ids one is newer.
newer-total :
    (r s : Row) → (r.claim.id == s.claim.id) ≡ false → newer s r ≡ false → newer r s ≡ true
unfolding newer
newer-total r s n h = ground arith

newer-asym : (r s : Row) → newer r s ≡ true → newer s r ≡ false
unfolding newer
newer-asym r s h = ground arith

-- Each row is newer than all that follow.
unfoldable pub IsDescending : List Row → Type 0
IsDescending [] = Unit
IsDescending (r ∷ rows) = All (λ s. newer r s ≡ true) rows × IsDescending rows

-- No two rows have one id.
unfoldable pub HasUniqueIds : List Row → Type 0
HasUniqueIds [] = Unit
HasUniqueIds (r ∷ rows) = All (λ s. (r.claim.id == s.claim.id) ≡ false) rows × HasUniqueIds rows

insert-All :
    (P : Row → Type 0) (r : Row) (rows : List Row) → P r → All P rows → All P (insert_row r rows)
unfolding insert_row
insert-All P r [] p a = (p, tt)
insert-All P r (x ∷ xs) p a = elim (Bool-cases (newer x r)) [
  | inl e ↦ rw e (a.0, insert-All P r xs p a.1)
  | inr e ↦ rw e (p, a)
]

insert-IsDescending :
    (r : Row) (rows : List Row)
    → All (λ s. (r.claim.id == s.claim.id) ≡ false) rows
    → IsDescending rows
    → IsDescending (insert_row r rows)
unfolding insert_row IsDescending
insert-IsDescending r [] n d = (tt, tt)
insert-IsDescending r (x ∷ xs) n d = elim (Bool-cases (newer x r)) [
  | inl e ↦ rw e (insert-All (λ s. newer x s ≡ true) r xs e d.0, insert-IsDescending r xs n.1 d.1)
  | inr e ↦
      let first : newer r x ≡ true = newer-total r x n.0 e in
      rw e ((first, All-map _ _ (λ s h. newer_trans r x s first h) xs d.0), d)
]

pub sort-All : (P : Row → Type 0) (rows : List Row) → All P rows → All P (sort_rows rows)
unfolding sort_rows
sort-All P [] a = tt
sort-All P (r ∷ rows) a = insert-All P r (sort_rows rows) a.0 (sort-All P rows a.1)

pub sort-IsDescending : (rows : List Row) → HasUniqueIds rows → IsDescending (sort_rows rows)
unfolding sort_rows HasUniqueIds IsDescending
sort-IsDescending [] u = tt
sort-IsDescending (r ∷ rows) u =
    insert-IsDescending r (sort_rows rows)
      (sort-All (λ s. (r.claim.id == s.claim.id) ≡ false) rows u.0) (sort-IsDescending rows u.1)

keep-All : (P : Row → Type 0) (p : Row → Bool) (rows : List Row) → All P rows → All P (keep p rows)
keep-All P p [] a = tt
keep-All P p (r ∷ rows) a = elim (Bool-cases (p r)) [
  | inl e ↦ rw e (a.0, keep-All P p rows a.1)
  | inr e ↦ rw e (keep-All P p rows a.1)
]

pub keep-HasUniqueIds :
    (p : Row → Bool) (rows : List Row) → HasUniqueIds rows → HasUniqueIds (keep p rows)
unfolding HasUniqueIds
keep-HasUniqueIds p [] u = tt
keep-HasUniqueIds p (r ∷ rows) u = elim (Bool-cases (p r)) [
  | inl e ↦
      rw e (
        keep-All (λ s. (r.claim.id == s.claim.id) ≡ false) p rows u.0,
        keep-HasUniqueIds p rows u.1,
      )
  | inr e ↦ rw e (keep-HasUniqueIds p rows u.1)
]

-- A row that is newer than the others stands in front.
insert-front :
    (r : Row) (rows : List Row) → All (λ s. newer r s ≡ true) rows → insert_row r rows ≡ r ∷ rows
unfolding insert_row
insert-front r [] a = refl
insert-front r (x ∷ xs) a = rw (newer-asym r x a.0) refl

keep-insert :
    (q : Row → Bool) (r : Row) (rows : List Row)
    → All (λ s. (r.claim.id == s.claim.id) ≡ false) rows
    → IsDescending rows
    → keep q (insert_row r rows) ≡ (if q r then insert_row r (keep q rows) else keep q rows)
unfolding insert_row IsDescending
keep-insert q r [] n d = refl
keep-insert q r (x ∷ xs) n d = elim (Bool-cases (newer x r)) [
  | inl e ↦
      let rest = keep-insert q r xs n.1 d.1 in
      elim (Bool-cases (q r)) [
        | inl f ↦ elim (Bool-cases (q x)) [
          | inl g ↦ rw (e, g, rest, f, e) refl
          | inr g ↦ rw (e, g, rest, f) refl
        ]
        | inr f ↦ elim (Bool-cases (q x)) [
          | inl g ↦ rw (e, g, rest, f) refl
          | inr g ↦ rw (e, g, rest, f) refl
        ]
      ]
  | inr e ↦
      let first = newer-total r x n.0 e in
      let all_later : All (λ s. newer r s ≡ true) (x ∷ xs) =
        (first, All-map _ _ (λ s h. newer_trans r x s first h) xs d.0) in
      let front =
        insert-front r (keep q (x ∷ xs)) (keep-All (λ s. newer r s ≡ true) q (x ∷ xs) all_later) in
      elim (Bool-cases (q r)) [ inl f ↦ rw (e, f) (sym front) | inr f ↦ rw (e, f) refl ]
]

pub sort-keep :
    (q : Row → Bool) (rows : List Row)
    → HasUniqueIds rows
    → sort_rows (keep q rows) ≡ keep q (sort_rows rows)
unfolding sort_rows HasUniqueIds
sort-keep q [] u = refl
sort-keep q (r ∷ rows) u =
    let apart = sort-All (λ s. (r.claim.id == s.claim.id) ≡ false) rows u.0 in
    let moved = keep-insert q r (sort_rows rows) apart (sort-IsDescending rows u.1) in
    let rest = sort-keep q rows u.1 in
    elim (Bool-cases (q r)) [ inl e ↦ rw (moved, e, rest) refl | inr e ↦ rw (moved, e, rest) refl ]

below-newer : (x r : Row) → newer x r ≡ true → is_below (cursor_of r) x ≡ false
unfolding newer is_below
below-newer x r h = ground arith

below-older : (x r : Row) → newer r x ≡ true → is_below (cursor_of r) x ≡ true
unfolding newer is_below
below-older x r h = ground arith

below_self : (r : Row) → is_below (cursor_of r) r ≡ false
unfolding is_below
below_self r = ground arith

All-mid : (P : Row → Type 0) (xs : List Row) (r : Row) (ys : List Row) → All P (xs ++ r ∷ ys) → P r
All-mid P [] r ys a = a.0
All-mid P (x ∷ xs) r ys a = All-mid P xs r ys a.1

keep-older :
    (r : Row) (ys : List Row)
    → All (λ s. newer r s ≡ true) ys
    → keep (is_below (cursor_of r)) ys ≡ ys
keep-older r [] a = refl
keep-older r (y ∷ ys) a = rw (below-older y r a.0, keep-older r ys a.1) refl

-- What lies below the cursor of a row is what follows it.
pub keep-below :
    (xs : List Row) (r : Row) (ys : List Row)
    → IsDescending (xs ++ r ∷ ys)
    → keep (is_below (cursor_of r)) (xs ++ r ∷ ys) ≡ ys
unfolding IsDescending
keep-below [] r ys d = rw (below_self r) (keep-older r ys d.0)
keep-below (x ∷ xs) r ys d =
    let above : is_below (cursor_of r) x ≡ false =
      below-newer x r (All-mid (λ s. newer x s ≡ true) xs r ys d.0) in
    rw above (keep-below xs r ys d.1)

length-insert : (r : Row) (rows : List Row) → length (insert_row r rows) ≡ suc (length rows)
unfolding insert_row
length-insert r [] = refl
length-insert r (x ∷ xs) = elim (Bool-cases (newer x r)) [
  | inl e ↦ rw (e, length-insert r xs) refl
  | inr e ↦ rw e refl
]

pub length-sort : (rows : List Row) → length (sort_rows rows) ≡ length rows
unfolding sort_rows
length-sort [] = refl
length-sort (r ∷ rows) = rw (length-insert r (sort_rows rows), length-sort rows) refl

-- ===== src/Worker/Batch.antt =====
-- internal/store/stats.go: which photos `ExpiredPhotos` gives.
use Prim.Native.Nat.{min}
use claw_hub.Prelude.{
  ap, ◌∙◌, All-keep, ℕ, ◌≤◌, Bool, true, false, not, List, [], ◌∷◌, keep, take, leb, ◌==◌, ◌≡◌,
  refl, arith, All, All-map, Bool-cases, inl, inr, count_if, suc, zero,
}
use claw_hub.Worker.Purge.{PhotoRow, is_expired, insert_photo, sort_photos, expired_photos}

-- No two photos have one id.
unfoldable pub HasDistinctIds : List PhotoRow → Type 0
HasDistinctIds [] = Unit
HasDistinctIds (p ∷ ps) = All (λ q. (p.id == q.id) ≡ false) ps × HasDistinctIds ps

-- Each photo expires no later than all that follow.
unfoldable IsAscending : List PhotoRow → Type 0
IsAscending [] = Unit
IsAscending (p ∷ ps) = All (λ q. p.expires_at ≤ q.expires_at) ps × IsAscending ps

module _ (P : PhotoRow → Type 0) where
  insert-All : (p : PhotoRow) (ps : List PhotoRow) → P p → All P ps → All P (insert_photo p ps)
  unfolding insert_photo
  insert-All p [] h a = (h, tt)
  insert-All p (x ∷ xs) h a = elim (Bool-cases (leb p.expires_at x.expires_at)) [
    | inl e ↦ rw e (h, a)
    | inr e ↦ rw e (a.0, insert-All p xs h a.1)
  ]

  sort-All : (ps : List PhotoRow) → All P ps → All P (sort_photos ps)
  unfolding sort_photos
  sort-All [] a = tt
  sort-All (p ∷ ps) a = insert-All p (sort_photos ps) a.0 (sort-All ps a.1)

  take-All : (n : ℕ) (ps : List PhotoRow) → All P ps → All P (take n ps)
  take-All zero ps a = tt
  take-All (suc n) [] a = tt
  take-All (suc n) (p ∷ ps) a = (a.0, take-All n ps a.1)

insert-IsAscending :
    (p : PhotoRow) (ps : List PhotoRow) → IsAscending ps → IsAscending (insert_photo p ps)
unfolding insert_photo IsAscending
insert-IsAscending p [] a = (tt, tt)
insert-IsAscending p (x ∷ xs) a = elim (Bool-cases (leb p.expires_at x.expires_at)) [
  | inl e ↦
      let first : p.expires_at ≤ x.expires_at = ground arith in
      rw e ((first, All-map _ _ (λ q h. omega (arith, h, first)) xs a.0), a)
  | inr e ↦
      let first : x.expires_at ≤ p.expires_at = ground arith in
      rw e
        (insert-All (λ q. x.expires_at ≤ q.expires_at) p xs first a.0, insert-IsAscending p xs a.1)
]

sort-IsAscending : (ps : List PhotoRow) → IsAscending (sort_photos ps)
unfolding sort_photos IsAscending
sort-IsAscending [] = tt
sort-IsAscending (p ∷ ps) = insert-IsAscending p (sort_photos ps) (sort-IsAscending ps)

insert-HasDistinctIds :
    (p : PhotoRow) (ps : List PhotoRow)
    → All (λ q. (p.id == q.id) ≡ false) ps
    → HasDistinctIds ps
    → HasDistinctIds (insert_photo p ps)
unfolding insert_photo HasDistinctIds
insert-HasDistinctIds p [] n u = (tt, tt)
insert-HasDistinctIds p (x ∷ xs) n u = elim (Bool-cases (leb p.expires_at x.expires_at)) [
  | inl e ↦ rw e (n, u)
  | inr e ↦ rw e (
    insert-All (λ q. (x.id == q.id) ≡ false) p xs (ground (arith, n.0)) u.0,
    insert-HasDistinctIds p xs n.1 u.1,
  )
]

sort-HasDistinctIds : (ps : List PhotoRow) → HasDistinctIds ps → HasDistinctIds (sort_photos ps)
unfolding sort_photos HasDistinctIds
sort-HasDistinctIds [] u = tt
sort-HasDistinctIds (p ∷ ps) u =
    insert-HasDistinctIds p (sort_photos ps) (sort-All _ ps u.0) (sort-HasDistinctIds ps u.1)

pub keep-HasDistinctIds :
    (t : PhotoRow → Bool) (ps : List PhotoRow) → HasDistinctIds ps → HasDistinctIds (keep t ps)
unfolding HasDistinctIds
keep-HasDistinctIds t [] u = tt
keep-HasDistinctIds t (p ∷ ps) u = elim (Bool-cases (t p)) [
  | inl e ↦ rw e (All-keep _ t ps u.0, keep-HasDistinctIds t ps u.1)
  | inr e ↦ rw e (keep-HasDistinctIds t ps u.1)
]

take-HasDistinctIds : (n : ℕ) (ps : List PhotoRow) → HasDistinctIds ps → HasDistinctIds (take n ps)
unfolding HasDistinctIds
take-HasDistinctIds zero ps u = tt
take-HasDistinctIds (suc n) [] u = tt
take-HasDistinctIds (suc n) (p ∷ ps) u = (take-All _ n ps u.0, take-HasDistinctIds n ps u.1)

module _ (q : PhotoRow → Bool) where
  insert-count :
      (p : PhotoRow) (ps : List PhotoRow) → count_if q (insert_photo p ps) ≡ count_if q (p ∷ ps)
  unfolding insert_photo
  insert-count p [] = refl
  insert-count p (x ∷ xs) = elim (Bool-cases (leb p.expires_at x.expires_at)) [
    | inl e ↦ rw e refl
    | inr e ↦ rw e (omega (arith, insert-count p xs))
  ]

  sort-count : (ps : List PhotoRow) → count_if q (sort_photos ps) ≡ count_if q ps
  unfolding sort_photos
  sort-count [] = refl
  sort-count (p ∷ ps) = omega (arith, insert-count p (sort_photos ps), sort-count ps)

module _ (t : ℕ) where
  none-expired :
      (p : PhotoRow) (ps : List PhotoRow)
      → is_expired t p ≡ false
      → All (λ q. p.expires_at ≤ q.expires_at) ps
      → count_if (is_expired t) ps ≡ 0
  none-expired p [] h a = refl
  none-expired p (x ∷ xs) h a = ground (arith, none-expired p xs h a.1, a.0)

  -- Of the photos in their order the first are those that have expired by a time.
  take-expired :
      (n : ℕ) (ps : List PhotoRow)
      → IsAscending ps
      → count_if (is_expired t) (take n ps) ≡ min n (count_if (is_expired t) ps)
  unfolding IsAscending
  take-expired zero ps a = omega arith
  take-expired (suc n) [] a = omega arith
  take-expired (suc n) (p ∷ ps) a = elim (Bool-cases (is_expired t p)) [
    | inl e ↦ rw e (omega (arith, take-expired n ps a.1))
    | inr e ↦
        let rest = none-expired p ps e a.0 in
        let first = none-expired p (take n ps) e (take-All _ n ps a.0) in
        rw e (omega (arith, rest, first))
  ]

  keep-expired :
      (now : ℕ) (rows : List PhotoRow)
      → t ≤ now
      → count_if (is_expired t) (keep (is_expired now) rows) ≡ count_if (is_expired t) rows
  keep-expired now [] h = refl
  keep-expired now (p ∷ ps) h = ground (arith, keep-expired now ps h, h)

  -- A batch takes the photos that have expired by an earlier time first.
  pub expired_photos-oldest :
      (now limit : ℕ) (rows : List PhotoRow)
      → t ≤ now
      → count_if (is_expired t) (expired_photos now limit rows)
        ≡ min limit (count_if (is_expired t) rows)
  unfolding expired_photos
  expired_photos-oldest now limit rows h =
      take-expired limit (sort_photos (keep (is_expired now) rows))
        (sort-IsAscending (keep (is_expired now) rows))
      ∙ ap (min limit)
          (sort-count (is_expired t) (keep (is_expired now) rows) ∙ keep-expired now rows h)

pub expired_photos-All :
    (P : PhotoRow → Type 0) (now limit : ℕ) (rows : List PhotoRow)
    → All P (keep (is_expired now) rows)
    → All P (expired_photos now limit rows)
unfolding expired_photos
expired_photos-All P now limit rows a = take-All P limit _ (sort-All P _ a)

pub expired_photos-HasDistinctIds :
    (now limit : ℕ) (rows : List PhotoRow)
    → HasDistinctIds rows
    → HasDistinctIds (expired_photos now limit rows)
unfolding expired_photos
expired_photos-HasDistinctIds now limit rows u =
    take-HasDistinctIds limit _
      (sort-HasDistinctIds _ (keep-HasDistinctIds (is_expired now) rows u))

pub keep-passes :
    (now : ℕ) (rows : List PhotoRow)
    → All (λ p. is_expired now p ≡ true) (keep (is_expired now) rows)
keep-passes now [] = tt
keep-passes now (p ∷ ps) = elim (Bool-cases (is_expired now p)) [
  | inl e ↦ rw e (e, keep-passes now ps)
  | inr e ↦ rw e (keep-passes now ps)
]

pub not-later :
    (now u : ℕ) (p : PhotoRow) → now ≤ u → is_expired now p ≡ true → not (is_expired u p) ≡ false
not-later now u p h e = ground arith

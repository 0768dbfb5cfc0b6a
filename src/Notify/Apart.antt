-- ===== src/Notify/Apart.antt =====
-- internal/store/push.go: rows of `push_subscriptions` that have no endpoint and no id in common.
use claw_hub.Prelude.{
  Bool, true, false, List, [], ◌∷◌, map, any, keep, ◌≡◌, arith, All, All-keep, Bool-cases, inl, inr,
}
use claw_hub.Notify.Subscriptions.{PushRow, has_endpoint, has_id}

-- Two rows with neither the endpoint nor the id in common.
abbrev pub IsApartFrom : PushRow → PushRow → Type 0
IsApartFrom r x = (has_endpoint r.sub.endpoint x ≡ false) × (has_id r.sub.id x ≡ false)

unfoldable pub AreApart : List PushRow → Type 0
AreApart [] = Unit
AreApart (r ∷ rows) = All (IsApartFrom r) rows × AreApart rows

pub keep-AreApart :
    (t : PushRow → Bool) (rows : List PushRow) → AreApart rows → AreApart (keep t rows)
unfolding AreApart
keep-AreApart t [] a = tt
keep-AreApart t (r ∷ rows) a = elim (Bool-cases (t r)) [
  | inl e ↦ rw e (All-keep (IsApartFrom r) t rows a.0, keep-AreApart t rows a.1)
  | inr e ↦ rw e (keep-AreApart t rows a.1)
]

-- A change of a row that keeps its endpoint and its id.
abbrev pub IsSteady : (PushRow → PushRow) → Type 0
IsSteady f = (r : PushRow) → ((f r).sub.endpoint ≡ r.sub.endpoint) × ((f r).sub.id ≡ r.sub.id)

pub All-change :
    (P Q : PushRow → Type 0) (f : PushRow → PushRow)
    → ((r : PushRow) → P r → Q (f r))
    → (rows : List PushRow) → All P rows
    → All Q (map f rows)
All-change P Q f k [] h = tt
All-change P Q f k (r ∷ rows) h = (k r h.0, All-change P Q f k rows h.1)

IsApartFrom-change :
    (f : PushRow → PushRow) (r x : PushRow) → IsSteady f → IsApartFrom r x → IsApartFrom (f r) (f x)
unfolding has_endpoint has_id
IsApartFrom-change f r x s h = (rw ((s r).0, (s x).0) h.0, rw ((s r).1, (s x).1) h.1)

pub change-AreApart :
    (f : PushRow → PushRow) (rows : List PushRow)
    → IsSteady f
    → AreApart rows
    → AreApart (map f rows)
unfolding AreApart
change-AreApart f [] s a = tt
change-AreApart f (r ∷ rows) s a = (
  All-change (IsApartFrom r) (IsApartFrom (f r)) f (λ x h. IsApartFrom-change f r x s h) rows a.0,
  change-AreApart f rows s a.1,
)

pub any-none :
    (t : PushRow → Bool) (rows : List PushRow) → any t rows ≡ false → All (λ x. t x ≡ false) rows
any-none t [] h = tt
any-none t (r ∷ rows) h = (ground (arith, h), any-none t rows (ground (arith, h)))

pub All-both :
    (P Q : PushRow → Type 0) (rows : List PushRow)
    → All P rows
    → All Q rows
    → All (λ r. P r × Q r) rows
All-both P Q [] h k = tt
All-both P Q (r ∷ rows) h k = ((h.0, k.0), All-both P Q rows h.1 k.1)

pub All-kept :
    (P Q : PushRow → Type 0) (t : PushRow → Bool)
    → ((r : PushRow) → P r → t r ≡ true → Q r)
    → (rows : List PushRow) → All P rows
    → All Q (keep t rows)
All-kept P Q t k [] h = tt
All-kept P Q t k (r ∷ rows) h = elim (Bool-cases (t r)) [
  | inl e ↦ rw e (k r h.0 e, All-kept P Q t k rows h.1)
  | inr e ↦ rw e (All-kept P Q t k rows h.1)
]

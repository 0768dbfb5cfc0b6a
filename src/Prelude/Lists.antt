-- ===== src/Prelude/Lists.antt =====
-- Lists measured and indexed by native numbers, under the library's names, and the predicates and
-- loops over lists that the components share.
use Prim.Native.Nat.{◌≤◌, ℕ, zero, suc, ◌+◌, ◌-◌, min}
use mathlib.Core.Path.{◌≡◌, refl, sym, subst}
use mathlib.Core.Logic.{inr, inl, ◌⊎◌}
use mathlib.Core.Bool.{Bool, true, false, ◌&&◌, ◌||◌}
use mathlib.Core.List.{map, List, [], ◌∷◌, ◌++◌}
use mathlib.Core.Option.{Option, none, some}
use native.Mathlib.Omega.{arith}
use claw_hub.Prelude.Tests.{eq_of_some, Bool-cases, if◌then◌else◌}

module _ {ℓ} {A : Type ℓ} where
  abbrev pub length : List A → ℕ
  length [] = 0
  length (x ∷ xs) = suc (length xs)

  abbrev pub take : ℕ → List A → List A
  take zero xs = []
  take (suc n) [] = []
  take (suc n) (x ∷ xs) = x ∷ take n xs

  abbrev pub drop : ℕ → List A → List A
  drop zero xs = xs
  drop (suc n) [] = []
  drop (suc n) (x ∷ xs) = drop n xs

  -- Whether some element passes a test: Go's loop that returns true at the first one.
  abbrev pub any : (A → Bool) → List A → Bool
  any p [] = false
  any p (x ∷ xs) = p x || any p xs

  abbrev pub all : (A → Bool) → List A → Bool
  all p [] = true
  all p (x ∷ xs) = p x && all p xs

  -- The first element that passes a test: Go's loop that returns it.
  abbrev pub find? : (A → Bool) → List A → Option A
  find? p [] = none
  find? p (x ∷ xs) = if p x then some x else find? p xs

  -- The elements that pass a test (the library's takes a decision).
  abbrev pub keep : (A → Bool) → List A → List A
  keep p [] = []
  keep p (x ∷ xs) = if p x then x ∷ keep p xs else keep p xs

  -- How many elements pass a test.
  abbrev pub count_if : (A → Bool) → List A → ℕ
  count_if p [] = 0
  count_if p (x ∷ xs) = (if p x then 1 else 0) + count_if p xs

  -- What holds of each element; it computes to tuples.
  abbrev pub All {κ} : (A → Type κ) → List A → Type κ
  All P [] = Unit
  All P (x ∷ xs) = P x × All P xs

  pub all-keep : (p : A → Bool) (xs : List A) → all p (keep p xs) ≡ true
  all-keep p [] = refl
  all-keep p (x ∷ xs) = ground (arith, all-keep p xs)

  pub keep-all : (p : A → Bool) (xs : List A) → all p xs ≡ true → keep p xs ≡ xs
  keep-all p [] h = refl
  keep-all p (x ∷ xs) h = ground (arith, keep-all p xs)

  pub all-append : (p : A → Bool) (xs ys : List A) → all p (xs ++ ys) ≡ all p xs && all p ys
  all-append p [] ys = refl
  all-append p (x ∷ xs) ys = ground (arith, all-append p xs ys)

  -- A test that some element passes finds one, and finds it again after a change of what it finds that
  -- it does not see.
  pub find?-any : (p : A → Bool) (xs : List A) → any p xs ≡ true → (x : A) × (find? p xs ≡ some x)
  find?-any p [] h = absurd (cc h)
  find?-any p (x ∷ xs) h = elim (Bool-cases (p x)) [
    | inl e ↦ (x, rw e refl)
    | inr e ↦ (let rest = find?-any p xs (rw e at h) in (rest.0, rw e rest.1))
  ]

  pub find?-passes : (p : A → Bool) (xs : List A) {x : A} → find? p xs ≡ some x → p x ≡ true
  find?-passes p [] h = cc
  find?-passes p (y ∷ ys) h = elim (Bool-cases (p y)) [
    | inl e ↦ subst (λ z. p z ≡ true) (eq_of_some (rw e at h)) e
    | inr e ↦ find?-passes p ys (rw e at h)
  ]

  pub find?-set :
      (p : A → Bool) (set : A → A)
      → ((x : A) → p (set x) ≡ p x)
      → (xs : List A) {x : A} → find? p xs ≡ some x
      → find? p (map (λ y. if p y then set y else y) xs) ≡ some (set x)
  find?-set p set k [] h = absurd (cc h)
  find?-set p set k (y ∷ ys) h = elim (Bool-cases (p y)) [
    | inl e ↦ (let same = eq_of_some (rw e at h) in rw (e, k y, e, same) refl)
    | inr e ↦ rw (e, e) (find?-set p set k ys (rw e at h))
  ]

  pub length-append : (xs ys : List A) → length (xs ++ ys) ≡ length xs + length ys
  length-append [] ys = omega arith
  length-append (x ∷ xs) ys = omega (arith, length-append xs ys)

  pub count_if-append :
      (p : A → Bool) (xs ys : List A) → count_if p (xs ++ ys) ≡ count_if p xs + count_if p ys
  count_if-append p [] ys = omega arith
  count_if-append p (x ∷ xs) ys = omega (arith, count_if-append p xs ys)

  -- Elements that pass a test and still pass one after a change are counted again.
  pub count_if-map :
      (p q : A → Bool) (f : A → A)
      → ((x : A) → p x ≡ true → q (f x) ≡ true)
      → (xs : List A) → count_if p xs ≤ count_if q (map f xs)
  count_if-map p q f k [] = omega arith
  count_if-map p q f k (x ∷ xs) =
      let rest = count_if-map p q f k xs in
      elim (Bool-cases (p x)) [
        | inl h ↦ rw (h, k x h) (omega (arith, rest))
        | inr h ↦ rw h (omega (arith, rest))
      ]

  -- Elements that pass a test only after they passed another before the change.
  pub count_if-map_le :
      (p q : A → Bool) (f : A → A)
      → ((x : A) → q (f x) ≡ true → p x ≡ true)
      → (xs : List A) → count_if q (map f xs) ≤ count_if p xs
  count_if-map_le p q f k [] = omega arith
  count_if-map_le p q f k (x ∷ xs) =
      let rest = count_if-map_le p q f k xs in
      elim (Bool-cases (q (f x))) [
        | inl h ↦ rw (h, k x h) (omega (arith, rest))
        | inr h ↦ rw h (omega (arith, rest))
      ]

  pub any-map :
      (p : A → Bool) (f : A → A)
      → ((x : A) → p (f x) ≡ p x)
      → (xs : List A) → any p (map f xs) ≡ any p xs
  any-map p f k [] = refl
  any-map p f k (x ∷ xs) = rw (k x, any-map p f k xs) refl

  pub All-append {κ} : (P : A → Type κ) (xs ys : List A) → All P xs → All P ys → All P (xs ++ ys)
  All-append P [] ys hx hy = hy
  All-append P (x ∷ xs) ys hx hy = (hx.0, All-append P xs ys hx.1 hy)

  pub All-keep {κ} : (P : A → Type κ) (t : A → Bool) (xs : List A) → All P xs → All P (keep t xs)
  All-keep P t [] h = tt
  All-keep P t (x ∷ xs) h = elim (Bool-cases (t x)) [
    | inl e ↦ rw e (h.0, All-keep P t xs h.1)
    | inr e ↦ rw e (All-keep P t xs h.1)
  ]

  pub All-map {κ κ'} :
      (P : A → Type κ) (Q : A → Type κ')
      → ((x : A) → P x → Q x)
      → (xs : List A) → All P xs
      → All Q xs
  All-map P Q f [] h = tt
  All-map P Q f (x ∷ xs) h = (f x h.0, All-map P Q f xs h.1)

  pub All-zip {κ κ' κ''} :
      (P : A → Type κ) (Q : A → Type κ') (R : A → Type κ'')
      → ((x : A) → P x → Q x → R x)
      → (xs : List A) → All P xs
      → All Q xs
      → All R xs
  All-zip P Q R f [] h k = tt
  All-zip P Q R f (x ∷ xs) h k = (f x h.0 k.0, All-zip P Q R f xs h.1 k.1)

  pub take-append-drop : (n : ℕ) (xs : List A) → take n xs ++ drop n xs ≡ xs
  take-append-drop zero xs = refl
  take-append-drop (suc n) [] = refl
  take-append-drop (suc n) (x ∷ xs) = rw (take-append-drop n xs)

  pub length-take : (n : ℕ) (xs : List A) → length (take n xs) ≡ min n (length xs)
  length-take zero xs = omega arith
  length-take (suc n) [] = omega arith
  length-take (suc n) (x ∷ xs) = omega (arith, length-take n xs)

  pub length-drop : (n : ℕ) (xs : List A) → length (drop n xs) ≡ length xs - n
  length-drop zero xs = omega arith
  length-drop (suc n) [] = omega arith
  length-drop (suc n) (x ∷ xs) = omega (arith, length-drop n xs)

-- An element is in a list.
abbrev pub In : {A : Type 0} → A → List A → Type 0
In a [] = ⊥
In a (x ∷ xs) = (a ≡ x) ⊎ In a xs

pub In-All : {A : Type 0} (P : A → Type 0) (a : A) (xs : List A) → In a xs → All P xs → P a
In-All P a [] i h = absurd i
In-All P a (x ∷ xs) (inl e) h = subst P (sym e) h.0
In-All P a (x ∷ xs) (inr i) h = In-All P a xs i h.1

pub All-In : {A : Type 0} (xs : List A) → All (λ x. In x xs) xs
All-In [] = tt
All-In (x ∷ xs) = (inl refl, All-map _ _ (λ y i. inr i) xs (All-In xs))

pub find?-In : {A : Type 0} (p : A → Bool) (xs : List A) {x : A} → find? p xs ≡ some x → In x xs
find?-In p [] h = cc
find?-In p (y ∷ ys) h = elim (Bool-cases (p y)) [
  | inl e ↦ inl (sym (eq_of_some (rw e at h)))
  | inr e ↦ inr (find?-In p ys (rw e at h))
]

pub In-keep :
    {A : Type 0} (t : A → Bool) (xs : List A) {x : A} → In x (keep t xs) → In x xs × (t x ≡ true)
In-keep t [] i = absurd i
In-keep t (y ∷ ys) {x} i = elim (Bool-cases (t y)) [
  | inr e ↦ (let rest = In-keep t ys (rw e at i) in (inr rest.0, rest.1))
  | inl e ↦
      let here : In x (y ∷ keep t ys) = rw e at i in
      elim here [
        | inl same ↦ (inl same, subst (λ z. t z ≡ true) (sym same) e)
        | inr later ↦ (let rest = In-keep t ys later in (inr rest.0, rest.1))
      ]
]

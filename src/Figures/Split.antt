-- ===== src/Figures/Split.antt =====
-- internal/store/settlement.go: a period of days is its first day and the rest.
use claw_hub.Prelude.{
  ◌⊎◌, ℕ, ◌+◌, ◌%◌, ◌≤◌, Bool, true, false, ◌&&◌, List, [], ◌∷◌, keep, length, ltb, leb, ◌==◌, ◌≡◌,
  refl, sym, ap, ◌∙◌, arith, Bool-cases, inl, inr,
}
use claw_hub.Prelude.Int.{ℤ, pos, ◌+ℤ◌, int_laws, +ℤ_assoc, +ℤ_comm}
use claw_hub.ClaimStore.Table.{Row}
use claw_hub.Worker.Alerts.{day_long}
use claw_hub.Figures.Settlement.{day_of, within, is_paid, asked_sum}

abbrev pub on_day : ℕ → Row → Bool
on_day d r = day_of r.claim.created_at == d

-- The start of a day.
abbrev pub IsMidnight : ℕ → Type 0
IsMidnight d = d % day_long ≡ 0

pub asked_sum-empty : (rows : List Row) → (length rows == 0) ≡ true → asked_sum rows ≡ pos 0
unfolding asked_sum
asked_sum-empty [] h = refl
asked_sum-empty (r ∷ rows) h = ground (arith, h)

+ℤ_assoc_back : (a b c : ℤ) → a +ℤ (b +ℤ c) ≡ a +ℤ b +ℤ c
+ℤ_assoc_back a b c = sym (+ℤ_assoc a b c)

+ℤ_swap : (a b c : ℤ) → a +ℤ (b +ℤ c) ≡ b +ℤ (a +ℤ c)
+ℤ_swap a b c = sym (+ℤ_assoc a b c) ∙ ap (λ x. x +ℤ c) (+ℤ_comm a b) ∙ +ℤ_assoc b a c

-- A period is its first day and the rest.
module _ (p first rest : Row → Bool) where
  abbrev pub IsSplit : Type 0
  IsSplit =
      (r : Row)
      → (p r ≡ false) × (first r ≡ false) × (rest r ≡ false)
        ⊎ (p r ≡ true) × (first r ≡ true) × (rest r ≡ false)
        ⊎ (p r ≡ true) × (first r ≡ false) × (rest r ≡ true)

  pub split-length :
      IsSplit
      → (rows : List Row)
      → length (keep p rows) ≡ length (keep first rows) + length (keep rest rows)
  split-length s [] = omega arith
  split-length s (r ∷ rows) =
      let more = split-length s rows in
      elim (s r) [
        | inl (a, b, c) ↦ rw (a, b, c) more
        | inr (inl (a, b, c)) ↦ rw (a, b, c) (omega (arith, more))
        | inr (inr (a, b, c)) ↦ rw (a, b, c) (omega (arith, more))
      ]

  pub split-asked :
      IsSplit
      → (rows : List Row)
      → asked_sum (keep p rows) ≡ asked_sum (keep first rows) +ℤ asked_sum (keep rest rows)
  unfolding asked_sum
  split-asked s [] = grind int_laws
  split-asked s (r ∷ rows) =
      let more = split-asked s rows in
      elim (s r) [
        | inl (a, b, c) ↦ rw (a, b, c) more
        | inr (inl (a, b, c)) ↦ elim (Bool-cases (is_paid r)) [
          | inl h ↦
              rw (a, b, c, h)
                (ap (λ x. r.claim.amount_krw +ℤ x) more ∙ +ℤ_assoc_back r.claim.amount_krw _ _)
          | inr h ↦ rw (a, b, c, h) more
        ]
        | inr (inr (a, b, c)) ↦ elim (Bool-cases (is_paid r)) [
          | inl h ↦
              rw (a, b, c, h)
                (ap (λ x. r.claim.amount_krw +ℤ x) more ∙ +ℤ_swap r.claim.amount_krw _ _)
          | inr h ↦ rw (a, b, c, h) more
        ]
      ]

pub nothing-within :
    (from to : ℕ) (rows : List Row) → to ≤ from → length (keep (within from to) rows) ≡ 0
nothing-within from to [] h = refl
nothing-within from to (r ∷ rows) h =
    let out : within from to r ≡ false = ground (arith, h) in rw out (nothing-within from to rows h)

pub within_cases :
    (d to t : ℕ)
    → IsMidnight d
    → d + day_long ≤ to
    → (leb d t && ltb t to ≡ false)
        × ((day_of t == d) ≡ false)
        × (leb (d + day_long) t && ltb t to ≡ false)
      ⊎ (leb d t && ltb t to ≡ true)
        × ((day_of t == d) ≡ true)
        × (leb (d + day_long) t && ltb t to ≡ false)
      ⊎ (leb d t && ltb t to ≡ true)
        × ((day_of t == d) ≡ false)
        × (leb (d + day_long) t && ltb t to ≡ true)
within_cases d to t m h = elim (Bool-cases (leb d t)) [
  | inr a ↦ inl (ground (arith, m, h, a), ground (arith, m, h, a), ground (arith, m, h, a))
  | inl a ↦ elim (Bool-cases (leb (d + day_long) t)) [
    | inr b ↦
        inr
          (inl (ground (arith, m, h, a, b), ground (arith, m, h, a, b), ground (arith, m, h, a, b)))
    | inl b ↦ elim (Bool-cases (ltb t to)) [
      | inr c ↦ inl (ground (arith, c), ground (arith, m, h, b), ground (arith, c))
      | inl c ↦ inr (inr (ground (arith, a, c), ground (arith, m, h, b), ground (arith, b, c)))
    ]
  ]
]

pub line_step : {a b c e : ℕ} → a ≡ b → c ≡ e → a + c ≡ b + e
line_step h k = omega (arith, h, k)

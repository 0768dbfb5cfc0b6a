-- ===== src/Prelude/Decimal.antt =====
-- Go's package strconv, as far as the source uses it: `Atoi` and `ParseInt` with base 10 and 64 bits,
-- `Itoa` and `FormatInt` with base 10.
use Prim.Native.Nat.{ℕ, zero, suc, ◌+◌, ◌-◌, ◌*◌, ◌/◌, ◌%◌, ◌^◌, ◌<◌}
use mathlib.Core.Path.{◌≡◌, refl, ap}
use mathlib.Core.Logic.{inl, inr}
use mathlib.Core.Bool.{Bool, true, false, ◌||◌, not}
use mathlib.Core.Option.{Option, none, some}
use mathlib.Core.List.{[], ◌∷◌}
use native.Mathlib.Omega.{arith}
use claw_hub.Prelude.Tests.{ltb, ◌==◌, if◌then◌else◌, Bool-cases, and-true}
use claw_hub.Prelude.Lists.{all}
use claw_hub.Prelude.Texts.{Text, is_digit, is_empty}
use claw_hub.Prelude.Int.{ℤ, pos, negsuc, sub_ℕ, IsInt64}

-- The digits of a number, from what is read so far.
abbrev number_from : ℕ → Text → ℕ
number_from n [] = n
number_from n (c ∷ s) = number_from (n * 10 + (c - b'0')) s

abbrev signed : Bool → Text → Option ℤ
signed minus s =
    let n = number_from 0 s in
    if is_empty s || not (all is_digit s)
    then none
    else if minus
    then (if ltb 9223372036854775808 n then none else some (sub_ℕ 0 n))
    else if ltb n 9223372036854775808
    then some (pos n)
    else none

-- `strconv.Atoi`
unfoldable pub atoi : Text → Option ℤ
atoi [] = none
atoi (c ∷ s) =
    if c == b'-' then signed true s else if c == b'+' then signed false s else signed false (c ∷ s)

-- The digits of a number in front of others; twenty are enough for 64 bits.
abbrev digits_onto : ℕ → ℕ → Text → Text
digits_onto zero n s = s
digits_onto (suc k) n s =
    let rest = digits_onto k (n / 10) ((b'0' + n % 10) ∷ s) in
    if ltb n 10 then (b'0' + n) ∷ s else rest

unfoldable pub decimal : ℕ → Text
decimal n = digits_onto 20 n []

-- `strconv.FormatInt`
unfoldable pub format_int : ℤ → Text
unfolding decimal
format_int (pos n) = decimal n
format_int (negsuc n) = b'-' ∷ decimal (suc n)

number_from-digits_onto :
    (k n : ℕ) (s : Text) → n < 10 ^ k → number_from 0 (digits_onto k n s) ≡ number_from n s
number_from-digits_onto zero n s h = let zero_only : n ≡ 0 = omega (arith, h) in rw zero_only refl
number_from-digits_onto (suc k) n s h = elim (Bool-cases (ltb n 10)) [
  | inl e ↦
      let same : 0 * 10 + (b'0' + n - b'0') ≡ n = omega arith in
      rw e (ap (λ (m : ℕ). number_from m s) same)
  | inr e ↦
      let rest = number_from-digits_onto k (n / 10) ((b'0' + n % 10) ∷ s) (omega (arith, h)) in
      let back : n / 10 * 10 + (b'0' + n % 10 - b'0') ≡ n = omega arith in rw (e, rest, back) refl
]

-- Digits only, and at least one.
IsNumeral : Text → Type 0
IsNumeral s = (all is_digit s ≡ true) × (is_empty s ≡ false)

digits_onto-AllDigits :
    (k n : ℕ) (s : Text) → all is_digit s ≡ true → all is_digit (digits_onto k n s) ≡ true
digits_onto-AllDigits zero n s h = h
digits_onto-AllDigits (suc k) n s h =
    let last : is_digit (b'0' + n % 10) ≡ true = ground arith in
    let rest = digits_onto-AllDigits k (n / 10) ((b'0' + n % 10) ∷ s) (rw (last, h) refl) in
    elim (Bool-cases (ltb n 10)) [
      | inl e ↦ (let only : is_digit (b'0' + n) ≡ true = ground arith in rw (e, only, h) refl)
      | inr e ↦ rw e rest
    ]

digits_onto-full : (k n : ℕ) (s : Text) → is_empty s ≡ false → is_empty (digits_onto k n s) ≡ false
digits_onto-full zero n s h = h
digits_onto-full (suc k) n s h =
    let rest = digits_onto-full k (n / 10) ((b'0' + n % 10) ∷ s) refl in
    elim (Bool-cases (ltb n 10)) [ inl e ↦ rw e refl | inr e ↦ rw e rest ]

digits_onto_some : (k n : ℕ) (s : Text) → is_empty (digits_onto (suc k) n s) ≡ false
digits_onto_some k n s =
    let rest = digits_onto-full k (n / 10) ((b'0' + n % 10) ∷ s) refl in
    elim (Bool-cases (ltb n 10)) [ inl e ↦ rw e refl | inr e ↦ rw e rest ]

decimal-number : (n : ℕ) → n < 18446744073709551616 → number_from 0 (decimal n) ≡ n
unfolding decimal
decimal-number n h = number_from-digits_onto 20 n [] (omega (arith, h))

decimal-IsNumeral : (n : ℕ) → IsNumeral (decimal n)
unfolding IsNumeral decimal
decimal-IsNumeral n = (digits_onto-AllDigits 20 n [] refl, digits_onto_some 19 n [])

-- A numeral is read without a sign.
atoi-numeral : (s : Text) → IsNumeral s → atoi s ≡ signed false s
unfolding atoi IsNumeral
atoi-numeral [] h = absurd (cc h.1)
atoi-numeral (c ∷ s) h =
    let digit : is_digit c ≡ true = (let all_digits = h.0 in ground arith) in
    let no_minus : (c == b'-') ≡ false = ground arith in
    let no_plus : (c == b'+') ≡ false = ground arith in rw (no_minus, no_plus) refl

signed-numeral :
    (minus : Bool) (s : Text)
    → IsNumeral s
    → signed minus s ≡ (
        let n = number_from 0 s in
        if minus
        then (if ltb 9223372036854775808 n then none else some (sub_ℕ 0 n))
        else if ltb n 9223372036854775808
        then some (pos n)
        else none)
unfolding IsNumeral
signed-numeral minus s h = rw (h.0, h.1) refl

-- A 64-bit integer that is written out is read back.
pub atoi-format_int : (a : ℤ) → IsInt64 a → atoi (format_int a) ≡ some a
unfolding format_int atoi
atoi-format_int (pos n) h =
    let num = decimal-IsNumeral n in
    let back = decimal-number n (omega arith) in
    let small : ltb n 9223372036854775808 ≡ true = ground arith in
    rw (atoi-numeral (decimal n) num, signed-numeral false (decimal n) num, back, small) refl
atoi-format_int (negsuc n) h =
    let num = decimal-IsNumeral (suc n) in
    let back = decimal-number (suc n) (omega arith) in
    let small : ltb 9223372036854775808 (suc n) ≡ false = ground arith in
    let value : sub_ℕ 0 (suc n) ≡ negsuc n = ground arith in
    rw (signed-numeral true (decimal (suc n)) num, back, small, value) refl

digits-SignedToo : (s : Text) → all is_digit s ≡ true → all (λ x. is_digit x || x == b'-') s ≡ true
digits-SignedToo [] h = refl
digits-SignedToo (c ∷ s) h =
    let both = and-true (is_digit c) (all is_digit s) h in
    rw (both.0, digits-SignedToo s both.1) refl

-- What is written of an integer: digits and a sign.
pub format_int-plain : (a : ℤ) → all (λ x. is_digit x || x == b'-') (format_int a) ≡ true
unfolding format_int IsNumeral
format_int-plain (pos n) = digits-SignedToo (decimal n) (decimal-IsNumeral n).0
format_int-plain (negsuc n) = digits-SignedToo (decimal (suc n)) (decimal-IsNumeral (suc n)).0

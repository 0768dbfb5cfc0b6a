-- ===== src/Domain/MachineCode.antt =====
-- internal/domain/machine.go: machine codes as customers type them. `wide` is what `strings.ToUpper`
-- does to a character beyond ASCII.
use claw_hub.Prelude.{
  ==_iff, sym, not, subst, leb, ◌⊎◌, ℕ, suc, ◌+◌, ◌<◌, Bool, true, false, ◌||◌, ◌&&◌, Option, none,
  some, List, [], ◌∷◌, ◌==◌, ltb, any, all, length, All, In, if◌then◌else◌, ◌≡◌, ◌≢◌, refl, inl,
  inr, arith, Bool-cases,
}
use claw_hub.Prelude.Texts.{Text, codes, upper, byte_len, utf8_len}

-- `codeAlphabet`
abbrev pub code_alphabet : Text
code_alphabet = codes "ABCDEFGHJKMNPQRSTUVWXYZ23456789"

-- `CodeLength`
abbrev pub code_length : ℕ
code_length = 6

abbrev pub in_alphabet : ℕ → Bool
in_alphabet c = any (λ d. d == c) code_alphabet

pub data CodeError : Type 0 where
  bad_length : CodeError
  bad_character : ℕ → CodeError

-- The loop of `ValidateMachineCode`: the first character that is not in the alphabet.
abbrev first_bad : Text → Option CodeError
first_bad [] = none
first_bad (c ∷ s) = let rest = first_bad s in if in_alphabet c then rest else some (bad_character c)

-- `ValidateMachineCode`; none is nil.
unfoldable pub validate_machine_code : Text → Option CodeError
validate_machine_code s = if byte_len s == code_length then first_bad s else some bad_length

abbrev is_dropped : ℕ → Bool
is_dropped c = c == b' ' || c == b'-'

-- The first replacer, on a character that it keeps.
abbrev to_digit : ℕ → ℕ
to_digit c =
    if c == b'O' || c == b'o' then b'0' else if c == b'I' || c == b'i' || c == b'l' then b'1' else c

-- The second replacer.
abbrev to_letter : ℕ → ℕ
to_letter c = if c == b'0' then b'Q' else if c == b'1' then b'J' else c

module _ (wide : ℕ → ℕ) where
  abbrev to_upper : ℕ → ℕ
  to_upper c = if ltb c 128 then upper c else wide c

  unfoldable pub normal_char : ℕ → ℕ
  unfolding upper
  normal_char c = to_letter (to_upper (to_digit c))

  -- `NormalizeMachineCode`
  unfoldable pub normalize_machine_code : Text → Text
  unfolding normal_char
  normalize_machine_code [] = []
  normalize_machine_code (c ∷ s) =
      let rest = normalize_machine_code s in if is_dropped c then rest else normal_char c ∷ rest

-- `GenerateMachineCode`, from the random numbers that it draws, each below the alphabet's length.
abbrev letter_at : Text → ℕ → ℕ
letter_at [] n = 0
letter_at (c ∷ s) ℕ.zero = c
letter_at (c ∷ s) (suc n) = letter_at s n

unfoldable pub generate_machine_code : List ℕ → Text
generate_machine_code [] = []
generate_machine_code (n ∷ ns) = letter_at code_alphabet n ∷ generate_machine_code ns

-- A character as a customer may type it.
abbrev typed_char : ℕ → ℕ → Bool
typed_char c d = d == c || (leb b'A' c && leb c b'Z' && d == c + 32)

-- How a code may be typed: letters in either case, spaces and hyphens anywhere.
pub data Typed : Text → Text → Type 0 where
  end : Typed [] []
  gap :
      {code typed : Text} {d : ℕ}
      → (d ≡ b' ') ⊎ (d ≡ b'-')
      → Typed code typed
      → Typed code (d ∷ typed)
  char :
      {code typed : Text} {c d : ℕ}
      → typed_char c d ≡ true
      → Typed code typed
      → Typed (c ∷ code) (d ∷ typed)

-- A test that holds of a list's elements holds of a number in it.
all-any :
    (p : ℕ → Bool) (xs : List ℕ) (c : ℕ)
    → all p xs ≡ true
    → any (λ d. d == c) xs ≡ true
    → p c ≡ true
all-any p [] c h a = cc
all-any p (x ∷ xs) c h a = elim (Bool-cases (x == c)) [
  | inl e ↦ subst (λ y. p y ≡ true) ((==_iff x c).0 e) (ground arith)
  | inr e ↦ all-any p xs c (ground arith) (rw e at a)
]

-- The first bad character is there unless all are good.
first_bad-none : (s : Text) → first_bad s ≡ none → All (λ c. in_alphabet c ≡ true) s
first_bad-none [] h = tt
first_bad-none (c ∷ s) h = elim (Bool-cases (in_alphabet c)) [
  | inl e ↦ (e, first_bad-none s (rw e at h))
  | inr e ↦ absurd (cc (rw e at h))
]

none-first_bad : (s : Text) → All (λ c. in_alphabet c ≡ true) s → first_bad s ≡ none
none-first_bad [] h = refl
none-first_bad (c ∷ s) h = rw h.0 (none-first_bad s h.1)

-- The characters of a valid code are in the alphabet.
valid-All : (s : Text) → validate_machine_code s ≡ none → All (λ c. in_alphabet c ≡ true) s
unfolding validate_machine_code
valid-All s h = elim (Bool-cases (byte_len s == code_length)) [
  | inl e ↦ first_bad-none s (rw e at h)
  | inr e ↦ absurd (cc (rw e at h))
]

module _ (wide : ℕ → ℕ) where
  abbrev is_restored : ℕ → ℕ → Bool
  is_restored c d = not (is_dropped d) && normal_char wide d == c

  abbrev is_robust : ℕ → Bool
  is_robust c =
      is_restored c c && (if leb b'A' c && leb c b'Z' then is_restored c (c + 32) else true)

  robust : all is_robust code_alphabet ≡ true
  unfolding normal_char
  robust = refl

  restored-typed : (c d : ℕ) → in_alphabet c ≡ true → typed_char c d ≡ true → is_restored c d ≡ true
  restored-typed c d a t = restore (all-any is_robust code_alphabet c robust a)
    where
      restore : is_robust c ≡ true → is_restored c d ≡ true
      restore r = elim (Bool-cases (d == c)) [
        | inl e ↦ subst (λ x. is_restored c x ≡ true) (sym ((==_iff d c).0 e)) (ground arith)
        | inr e ↦
            subst (λ x. is_restored c x ≡ true) (sym ((==_iff d (c + 32)).0 (ground arith)))
              (ground arith)
      ]

  take_restored :
      (c d : ℕ) (s : Text)
      → is_restored c d ≡ true
      → (if is_dropped d then s else normal_char wide d ∷ s) ≡ c ∷ s
  take_restored c d s r = ground arith

  Typed-normal :
      {code typed : Text}
      → Typed code typed
      → All (λ c. in_alphabet c ≡ true) code
      → normalize_machine_code wide typed ≡ code
  unfolding normalize_machine_code
  Typed-normal end a = refl
  Typed-normal (gap (inl e) t) a = rw e (Typed-normal t a)
  Typed-normal (gap (inr e) t) a = rw e (Typed-normal t a)
  Typed-normal (char {c = c} {d = d} e t) a =
      let r = restored-typed c d a.0 e in rw (Typed-normal t a.1) (take_restored c d _ r)

  -- A valid code is understood however it is typed: with its letters in either case, and with spaces
  -- and hyphens anywhere.
  pub normalize_machine_code-Typed :
      {code typed : Text}
      → validate_machine_code code ≡ none
      → Typed code typed
      → normalize_machine_code wide typed ≡ code
  normalize_machine_code-Typed {code} v t = Typed-normal t (valid-All code v)

  keeps_L :
      (typed : Text)
      → In b'L' typed
      → ¬ (All (λ c. in_alphabet c ≡ true) (normalize_machine_code wide typed))
  unfolding normalize_machine_code
  keeps_L [] i h = i
  keeps_L (c ∷ s) (inl e) h =
      cc
        (subst (λ x. All (λ c. in_alphabet c ≡ true) (normalize_machine_code wide (x ∷ s))) (sym e)
          h).0
  keeps_L (c ∷ s) (inr i) h = elim (Bool-cases (is_dropped c)) [
    | inl e ↦ keeps_L s i (rw e at h)
    | inr e ↦
        keeps_L s i (skip (is_dropped c) (normal_char wide c) (normalize_machine_code wide s) e h)
  ]
    where
      skip :
          (b : Bool) (x : ℕ) (xs : Text)
          → b ≡ false
          → All (λ c. in_alphabet c ≡ true) (if b then xs else x ∷ xs)
          → All (λ c. in_alphabet c ≡ true) xs
      skip true x xs e h = h
      skip false x xs e h = h.1

  -- A code that has a capital L is not understood: no letter is put in its place, and the result is
  -- not valid.
  pub normalize_machine_code-L :
      (typed : Text)
      → In b'L' typed
      → validate_machine_code (normalize_machine_code wide typed) ≢ none
  normalize_machine_code-L typed i v = keeps_L typed i (valid-All _ v)

letter_at-any : (xs : Text) (n : ℕ) → n < length xs → any (λ d. d == letter_at xs n) xs ≡ true
letter_at-any [] n h = absurd (omega arith)
letter_at-any (x ∷ xs) ℕ.zero h = ground arith
letter_at-any (x ∷ xs) (suc n) h = ground (arith, letter_at-any xs n)

one_byte : all (λ c. utf8_len c == 1) code_alphabet ≡ true
one_byte = refl

alphabet-utf8_len : (c : ℕ) → in_alphabet c ≡ true → utf8_len c ≡ 1
alphabet-utf8_len c h =
    (==_iff (utf8_len c) 1).0 (all-any (λ c. utf8_len c == 1) code_alphabet c one_byte h)

generate-All :
    (ns : List ℕ)
    → All (λ n. n < 31) ns
    → All (λ c. in_alphabet c ≡ true) (generate_machine_code ns)
unfolding generate_machine_code
generate-All [] h = tt
generate-All (n ∷ ns) h = (letter_at-any code_alphabet n h.0, generate-All ns h.1)

generate-byte_len :
    (ns : List ℕ) → All (λ n. n < 31) ns → byte_len (generate_machine_code ns) ≡ length ns
unfolding generate_machine_code
generate-byte_len [] h = refl
generate-byte_len (n ∷ ns) h =
    rw (alphabet-utf8_len (letter_at code_alphabet n) (letter_at-any code_alphabet n h.0))
      (omega (arith, generate-byte_len ns h.1))

-- Every code that is generated, from any six draws below the alphabet's length, is valid.
pub generate-valid :
    (ns : List ℕ)
    → length ns ≡ code_length
    → All (λ n. n < 31) ns
    → validate_machine_code (generate_machine_code ns) ≡ none
unfolding validate_machine_code
generate-valid ns l h =
    rw (generate-byte_len ns h, l) (none-first_bad (generate_machine_code ns) (generate-All ns h))

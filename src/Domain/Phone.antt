-- ===== src/Domain/Phone.antt =====
-- internal/crypto/crypto.go: `NormalizePhone`, `NormalizeAccount` and the masks.
use claw_hub.Prelude.{
  keep-all, not-false, all-keep, subst, ◌≤◌, bind-ok, ℕ, ◌-◌, Bool, true, false, not, ◌||◌, ◌&&◌,
  List, [], ◌∷◌, ◌++◌, any, all, keep, length, take, drop, ltb, leb, ◌==◌, if◌then◌else◌, Result,
  ok, refuse_if, ◌>>=◌, ◌>>◌, ◌≡◌, refl, arith, ok-injective,
}
use claw_hub.Prelude.Texts.{Text, codes, is_digit, is_empty}

pub data PhoneError : Type 0 where
  bad_characters bad_size bad_010 not_mobile : PhoneError

-- `phoneShape`
unfoldable pub in_shape : ℕ → Bool
in_shape c =
    is_digit c || c == b'+' || c == b'-' || c == b'.' || c == b'(' || c == b')' || c == b' '

-- `strings.HasPrefix`
abbrev pub has_prefix : Text → Text → Bool
has_prefix [] s = true
has_prefix (c ∷ p) [] = false
has_prefix (c ∷ p) (d ∷ s) = c == d && has_prefix p s

-- `mobilePrefixes`
abbrev pub mobile_prefixes : List Text
mobile_prefixes =
    codes "010" ∷ codes "011" ∷ codes "016" ∷ codes "017" ∷ codes "018" ∷ codes "019" ∷ []

-- The country code 82 becomes 0.
unfoldable pub domestic : Text → Text
domestic d = if has_prefix (codes "82") d && leb 11 (length d) then b'0' ∷ drop 2 d else d

-- The checks of `NormalizePhone` on the digits.
unfoldable pub check_digits : Text → Result PhoneError Text
check_digits d = do
  refuse_if (ltb (length d) 10 || ltb 11 (length d)) bad_size
  refuse_if (has_prefix (codes "010") d && not (length d == 11)) bad_010
  refuse_if (not (any (λ p. has_prefix p d) mobile_prefixes)) not_mobile
  ok d

-- `NormalizePhone`
unfoldable pub normalize_phone : Text → Result PhoneError Text
unfolding in_shape domestic check_digits
normalize_phone s = do
  refuse_if (is_empty s || not (all in_shape s)) bad_characters
  check_digits (domestic (keep is_digit s))

-- `NormalizeAccount`
unfoldable pub normalize_account : Text → Text
normalize_account s = keep is_digit s

abbrev stars : Text → Text
stars [] = []
stars (_ ∷ s) = b'*' ∷ stars s

-- `MaskPhone`
unfoldable pub mask_phone : Text → Text
mask_phone s =
    let d = keep is_digit s in
    if ltb (length d) 10 || ltb 11 (length d)
    then codes "***"
    else take 3 d ++ b'-' ∷ stars (drop 3 (take (length d - 4) d)) ++ b'-' ∷ drop (length d - 4) d

-- `MaskAccount`
unfoldable pub mask_account : Text → Text
mask_account s =
    let d = keep is_digit s in
    if ltb (length d) 4 then codes "***" else stars (take (length d - 4) d) ++ drop (length d - 4) d

-- A number as `NormalizePhone` gives it out.
unfoldable pub IsMobile : Text → Type 0
IsMobile d =
    (all is_digit d ≡ true)
    × (10 ≤ length d)
    × (length d ≤ 11)
    × (has_prefix (codes "010") d && not (length d == 11) ≡ false)
    × (any (λ p. has_prefix p d) mobile_prefixes ≡ true)

all_drop2 : (p : ℕ → Bool) (s : Text) → all p s ≡ true → all p (drop 2 s) ≡ true
all_drop2 p [] h = refl
all_drop2 p (c ∷ []) h = refl
all_drop2 p (c ∷ d ∷ s) h = ground arith

all-domestic : (d : Text) → all is_digit d ≡ true → all is_digit (domestic d) ≡ true
unfolding domestic
all-domestic d h = ground (arith, all_drop2 is_digit d h)

-- A chain of three refusals that succeeds had no reason to refuse.
refusals :
    {E A : Type 0} (p q r : Bool) (e f g : E) (d x : A)
    → (refuse_if p e >>= λ _. (refuse_if q f >>= λ _. (refuse_if r g >>= λ _. ok d))) ≡ ok x
    → (p ≡ false) × (q ≡ false) × (r ≡ false) × (d ≡ x)
refusals false false false e f g d x h = (refl, refl, refl, ok-injective h)
refusals true q r e f g d x h = absurd (cc h)
refusals false true r e f g d x h = absurd (cc h)
refusals false false true e f g d x h = absurd (cc h)

size_in_range : (n : ℕ) → ltb n 10 || ltb 11 n ≡ false → (10 ≤ n) × (n ≤ 11)
size_in_range n h = ground arith

check_digits-IsMobile :
    (d e : Text) → all is_digit d ≡ true → check_digits d ≡ ok e → (d ≡ e) × IsMobile d
unfolding check_digits IsMobile
check_digits-IsMobile d e a h =
    let r = refusals _ _ _ bad_size bad_010 not_mobile d e h in
    let size = size_in_range (length d) r.0 in (r.3, (a, size.0, size.1, r.1, not-false _ r.2))

IsMobile-check_digits : (d : Text) → IsMobile d → check_digits d ≡ ok d
unfolding check_digits IsMobile
IsMobile-check_digits d h =
    let a : ltb (length d) 10 || ltb 11 (length d) ≡ false = ground (arith, h.1, h.2) in
    rw (a, h.3, h.4)

country_code : (d : Text) → any (λ p. has_prefix p d) mobile_prefixes ≡ true → domestic d ≡ d
unfolding domestic
country_code [] h = refl
country_code (c ∷ s) h = ground arith

digits_in_shape : (s : Text) → all is_digit s ≡ true → all in_shape s ≡ true
unfolding in_shape
digits_in_shape [] h = refl
digits_in_shape (c ∷ s) h = ground (arith, digits_in_shape s)

not_empty : (d : Text) → 10 ≤ length d → is_empty d ≡ false
not_empty [] h = absurd (omega (arith, h))
not_empty (c ∷ d) h = refl

unfold_mobile :
    (d : Text)
    → IsMobile d
    → (all is_digit d ≡ true)
      × (10 ≤ length d)
      × (length d ≤ 11)
      × (has_prefix (codes "010") d && not (length d == 11) ≡ false)
      × (any (λ p. has_prefix p d) mobile_prefixes ≡ true)
unfolding IsMobile
unfold_mobile d m = m

-- Two ways to write one account number that differ in other characters only are one account.
normalize_account_idem : (s : Text) → normalize_account (normalize_account s) ≡ normalize_account s
unfolding normalize_account
normalize_account_idem s = keep-all is_digit (keep is_digit s) (all-keep is_digit s)

-- What `NormalizePhone` accepts is a mobile number: digits only, of 10 or 11 characters, 11 for the
-- prefix 010, and with a listed prefix.
pub normalize_phone-IsMobile : (s d : Text) → normalize_phone s ≡ ok d → IsMobile d
unfolding normalize_phone
normalize_phone-IsMobile s d h =
    let r = bind-ok (refuse_if (is_empty s || not (all in_shape s)) bad_characters) _ h in
    let digits = all-domestic (keep is_digit s) (all-keep is_digit s) in
    let c = check_digits-IsMobile (domestic (keep is_digit s)) d digits r.2 in
    subst IsMobile c.0 c.1

-- Normalizing a normalized number gives it back.
pub normalize_phone_idem : (s d : Text) → normalize_phone s ≡ ok d → normalize_phone d ≡ ok d
unfolding normalize_phone
normalize_phone_idem s d h =
    let m = normalize_phone-IsMobile s d h in
    let m' = unfold_mobile d m in
    rw (keep-all is_digit d m'.0, country_code d m'.4, not_empty d m'.1, digits_in_shape d m'.0)
      (IsMobile-check_digits d m)

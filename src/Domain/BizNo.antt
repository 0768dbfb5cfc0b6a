-- ===== src/Domain/BizNo.antt =====
-- internal/domain/listing.go: `NormalizeBizNo`, `FormatBizNo` and `ValidateBizNo`, and the check of
-- internal/bizverify/bizverify.go that runs it.
use claw_hub.Prelude.{
  length-append, refuse-ok, all-append, keep-all, ℕ, suc, zero, ◌+◌, ◌-◌, ◌*◌, ◌/◌, ◌%◌, ◌≤◌, ◌<◌,
  ◌≢◌, true, false, not, List, [], ◌∷◌, ◌++◌, all, keep, take, drop, length, ◌==◌, if◌then◌else◌,
  Result, ok, err, ◌>>◌, refuse_if, ◌≡◌, refl, arith, All, bind-ok,
}
use claw_hub.Prelude.Texts.{Text, is_digit, is_empty}

pub data BizNoError : Type 0 where
  missing bad_size bad_check : BizNoError

-- `NormalizeBizNo`
unfoldable pub normalize_biz_no : Text → Text
normalize_biz_no raw = keep is_digit raw

-- `FormatBizNo`
unfoldable pub format_biz_no : Text → Text
unfolding normalize_biz_no
format_biz_no raw =
    let n = normalize_biz_no raw in
    if not (length n == 10) then raw else take 3 n ++ b'-' ∷ take 2 (drop 3 n) ++ b'-' ∷ drop 5 n

-- `bizNoWeights`
abbrev pub biz_no_weights : List ℕ
biz_no_weights = 1 ∷ 3 ∷ 7 ∷ 1 ∷ 3 ∷ 7 ∷ 1 ∷ 3 ∷ 5 ∷ []

-- `int(n[i]-'0')`
abbrev digit : ℕ → Text → ℕ
digit i [] = 0
digit zero (c ∷ n) = c - b'0'
digit (suc i) (c ∷ n) = digit i n

-- The loop over the first nine digits.
abbrev weighted : List ℕ → Text → ℕ
weighted [] n = 0
weighted (w ∷ ws) [] = 0
weighted (w ∷ ws) (c ∷ n) = (c - b'0') * w + weighted ws n

-- The last digit that the others ask for.
unfoldable pub check_digit : Text → ℕ
check_digit n = (10 - (weighted biz_no_weights n + digit 8 n * 5 / 10) % 10) % 10

-- `ValidateBizNo`
unfoldable pub validate_biz_no : Text → Result BizNoError (Unit {0})
unfolding normalize_biz_no check_digit
validate_biz_no raw =
    let n = normalize_biz_no raw in
    refuse_if (is_empty n) missing
    >> refuse_if (not (length n == 10)) bad_size
    >> refuse_if (not (digit 9 n == check_digit n)) bad_check

-- What a digit of each place adds to the sum that a good number makes a multiple of ten.
abbrev shares : List (ℕ → ℕ)
shares =
    (λ d. d)
    ∷ (λ d. d * 3)
    ∷ (λ d. d * 7)
    ∷ (λ d. d)
    ∷ (λ d. d * 3)
    ∷ (λ d. d * 7)
    ∷ (λ d. d)
    ∷ (λ d. d * 3)
    ∷ (λ d. d * 5 + d * 5 / 10)
    ∷ (λ d. d)
    ∷ []

-- Two digits that a place cannot tell apart are the same.
IsTelling : (ℕ → ℕ) → Type 0
IsTelling f = (a b s : ℕ) → a < 10 → b < 10 → (f a + s) % 10 ≡ (f b + s) % 10 → a ≡ b

shares-AreTelling : All IsTelling shares
unfolding IsTelling
shares-AreTelling =
    let one : IsTelling (λ d. d) = λ a b s h k e. omega arith in
    let three : IsTelling (λ d. d * 3) = λ a b s h k e. omega arith in
    let seven : IsTelling (λ d. d * 7) = λ a b s h k e. omega arith in
    let five : IsTelling (λ d. d * 5 + d * 5 / 10) = λ a b s h k e. omega arith in
    (one, (three, (seven, (one, (three, (seven, (one, (three, (five, (one, tt))))))))))

abbrev share_sum : List (ℕ → ℕ) → Text → ℕ
share_sum [] n = 0
share_sum (f ∷ fs) [] = 0
share_sum (f ∷ fs) (c ∷ n) = f (c - b'0') + share_sum fs n

-- A digit that is changed changes the sum, whatever is added to it.
share_sum-typo :
    (fs : List (ℕ → ℕ)) (xs : Text) (c d : ℕ) (ys : Text) (more : ℕ)
    → All IsTelling fs
    → length xs < length fs
    → (c - b'0' < 10) × (d - b'0' < 10)
    → (share_sum fs (xs ++ c ∷ ys) + more) % 10 ≡ (share_sum fs (xs ++ d ∷ ys) + more) % 10
    → c - b'0' ≡ d - b'0'
unfolding IsTelling
share_sum-typo [] xs c d ys more t l r h = absurd (omega arith)
share_sum-typo (f ∷ fs) [] c d ys more t l r h =
    t.0 (c - b'0') (d - b'0') (share_sum fs ys + more) r.0 r.1 (omega (arith, h))
share_sum-typo (f ∷ fs) (x ∷ xs) c d ys more t l r h =
    share_sum-typo fs xs c d ys (f (x - b'0') + more) t.1 (omega arith) r (omega (arith, h))

-- It is the sum that `ValidateBizNo` takes, and the last digit.
share_sum-ten :
    (n : Text) → share_sum shares n ≡ weighted biz_no_weights n + digit 8 n * 5 / 10 + digit 9 n
share_sum-ten [] = omega arith
share_sum-ten (a ∷ []) = omega arith
share_sum-ten (a ∷ b ∷ []) = omega arith
share_sum-ten (a ∷ b ∷ c ∷ []) = omega arith
share_sum-ten (a ∷ b ∷ c ∷ d ∷ []) = omega arith
share_sum-ten (a ∷ b ∷ c ∷ d ∷ e ∷ []) = omega arith
share_sum-ten (a ∷ b ∷ c ∷ d ∷ e ∷ f ∷ []) = omega arith
share_sum-ten (a ∷ b ∷ c ∷ d ∷ e ∷ f ∷ g ∷ []) = omega arith
share_sum-ten (a ∷ b ∷ c ∷ d ∷ e ∷ f ∷ g ∷ h ∷ []) = omega arith
share_sum-ten (a ∷ b ∷ c ∷ d ∷ e ∷ f ∷ g ∷ h ∷ i ∷ []) = omega arith
share_sum-ten (a ∷ b ∷ c ∷ d ∷ e ∷ f ∷ g ∷ h ∷ i ∷ j ∷ rest) = omega arith

share_sum-valid : (n : Text) → digit 9 n ≡ check_digit n → share_sum shares n % 10 ≡ 0
unfolding check_digit
share_sum-valid n h = omega (arith, share_sum-ten n, h)

-- What is asked of digits.
IsRight : Text → Type 0
IsRight n = (length n ≡ 10) × (digit 9 n ≡ check_digit n)

validate_digits : (n : Text) → all is_digit n ≡ true → validate_biz_no n ≡ ok tt → IsRight n
unfolding validate_biz_no normalize_biz_no IsRight
validate_digits n a h =
    let same : keep is_digit n ≡ n = keep-all is_digit n a in
    let b =
      bind-ok (refuse_if (is_empty n) missing >> refuse_if (not (length n == 10)) bad_size)
        (λ u. refuse_if (not (digit 9 n == check_digit n)) bad_check) (rw same at h) in
    let c =
      bind-ok (refuse_if (is_empty n) missing) (λ u. refuse_if (not (length n == 10)) bad_size)
        b.1 in
    let size = refuse-ok (not (length n == 10)) bad_size c.2 in
    let last = refuse-ok (not (digit 9 n == check_digit n)) bad_check b.2 in
    (ground (arith, size), ground (arith, last))

-- The range of a digit's code.
digit_range : (c : ℕ) → is_digit c ≡ true → (48 ≤ c) × (c < 58)
digit_range c h = ground arith

full_text : (n : Text) → length n ≡ 10 → is_empty n ≡ false
full_text [] l = absurd (omega arith)
full_text (c ∷ n) l = refl

validate_wrong :
    (n : Text)
    → all is_digit n ≡ true
    → length n ≡ 10
    → digit 9 n ≢ check_digit n
    → validate_biz_no n ≡ err bad_check
unfolding validate_biz_no normalize_biz_no
validate_wrong n a l w =
    let same : keep is_digit n ≡ n = keep-all is_digit n a in
    let full = full_text n l in
    let size : (length n == 10) ≡ true = ground arith in
    let last : (digit 9 n == check_digit n) ≡ false = ground arith in
    rw (same, full, size, last) refl

-- A number of ten digits that is accepted is no longer accepted once any one of its digits is
-- mistyped: the check finds the typing error.
pub validate_biz_no_typo :
    (xs : Text) (c d : ℕ) (ys : Text)
    → all is_digit (xs ++ c ∷ ys) ≡ true
    → is_digit d ≡ true
    → c ≢ d
    → validate_biz_no (xs ++ c ∷ ys) ≡ ok tt
    → validate_biz_no (xs ++ d ∷ ys) ≡ err bad_check
unfolding IsRight
validate_biz_no_typo xs c d ys a b n h =
    let r = validate_digits (xs ++ c ∷ ys) a h in
    let parts = all-append is_digit xs (c ∷ ys) in
    let parts' = all-append is_digit xs (d ∷ ys) in
    let c_digit : is_digit c ≡ true = ground (arith, parts) in
    let cr = digit_range c c_digit in
    let dr = digit_range d b in
    let size = length-append xs (c ∷ ys) in
    let size' = length-append xs (d ∷ ys) in
    validate_wrong (xs ++ d ∷ ys) (ground (arith, a, b, parts, parts'))
      (omega (arith, r.0, size, size'))
      (λ last.
        let sum = share_sum-valid (xs ++ c ∷ ys) r.1 in
        let sum' = share_sum-valid (xs ++ d ∷ ys) last in
        let same =
          share_sum-typo shares xs c d ys 0 shares-AreTelling (omega (arith, r.0, size))
            (omega (arith, cr), omega (arith, dr)) (omega (arith, sum, sum')) in
        n (omega (arith, same, cr, dr)))

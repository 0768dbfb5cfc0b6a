-- ===== src/Payout/Shape.antt =====
-- internal/payout/deeplink.go: what is filled into a template cannot change the shape of the link.
use claw_hub.Prelude.Decimal.{decimal}
use claw_hub.Prelude.{
  ◌>>◌, ◌>>=◌, subst, eq_of_some, and-true, Option-cases, ==_iff, ℕ, zero, suc, ◌-◌, ◌/◌, ◌%◌, Bool,
  true, false, ◌||◌, some, List, [], ◌∷◌, map, all, all-append, find?, take, length, count_if,
  count_if-append, ◌==◌, ok, bind-ok, ok-injective, refuse_if, ◌≡◌, refl, sym, arith, All,
  Bool-cases, inl, inr, keep,
}
use claw_hub.Prelude.Texts.{Text, is_digit, is_empty, codes}
use claw_hub.Prelude.Int.{pos, leb_ℤ, pos_part}
use claw_hub.Domain.Phone.{has_prefix}
use claw_hub.Payout.Banks.{Bank, bank_by_code}
use claw_hub.Payout.Links.{
  Link, TransferRequest, links, link_for, tokens, replace_from, match_here, known, query_escape,
  is_unreserved, escape_char, percent, hex, utf8, bad_amount, no_account,
}

abbrev pub count : ℕ → Text → ℕ
count c s = count_if (λ x. x == c) s

-- The characters that escaping gives out, and the braces of tokens.
unfoldable pub is_plain : ℕ → Bool
unfolding is_unreserved
is_plain c = is_unreserved c || c == b'+' || c == b'%' || c == b'{' || c == b'}'

count-plain : (c : ℕ) (s : Text) → is_plain c ≡ false → all is_plain s ≡ true → count c s ≡ 0
count-plain c [] n h = refl
count-plain c (x ∷ s) n h =
    let both = and-true (is_plain x) (all is_plain s) h in
    let differ : (x == c) ≡ false = elim (Bool-cases (x == c)) [
      | inr e ↦ e
      | inl e ↦ (let same : x ≡ c = (==_iff x c).0 e in absurd (cc (n, both.0, same)))
    ] in
    rw differ (omega (arith, count-plain c s n both.1))

hex-plain : (d : ℕ) → is_plain (hex (d % 16)) ≡ true
unfolding is_plain is_unreserved
hex-plain d = ground arith

percent-plain : (bs : List ℕ) → all is_plain (percent bs) ≡ true
unfolding is_plain is_unreserved
percent-plain [] = refl
percent-plain (b ∷ bs) = rw (hex-plain (b / 16), hex-plain b, percent-plain bs) refl

escape_char-plain : (c : ℕ) → all is_plain (escape_char c) ≡ true
unfolding is_plain
escape_char-plain c = elim (Bool-cases (is_unreserved c)) [
  | inl e ↦ rw (e, e) refl
  | inr e ↦ elim (Bool-cases (c == b' ')) [
    | inl f ↦ rw (e, f) refl
    | inr f ↦ rw (e, f) (percent-plain (utf8 c))
  ]
]

query_escape-plain : (s : Text) → all is_plain (query_escape s) ≡ true
unfolding query_escape
query_escape-plain [] = refl
query_escape-plain (c ∷ s) =
    rw
      (
        all-append is_plain (escape_char c) (query_escape s),
        escape_char-plain c,
        query_escape-plain s,
      )
      refl

-- A matched text is what the source passes over.
take-prefix : (p s : Text) → has_prefix p s ≡ true → take (length p) s ≡ p
take-prefix [] s h = refl
take-prefix (c ∷ p) [] h = absurd (cc h)
take-prefix (c ∷ p) (d ∷ s) h =
    let both = and-true (c == d) (has_prefix p s) h in
    let same : c ≡ d = (==_iff c d).0 both.0 in rw (take-prefix p s both.1, same) refl

found_holds :
    (P : Text × Text → Type 0) (q : Text × Text → Bool) (xs : List (Text × Text)) {x : Text × Text}
    → All P xs
    → find? q xs ≡ some x
    → P x × (q x ≡ true)
found_holds P q [] a h = absurd (cc h)
found_holds P q (y ∷ ys) {x = x} a h = elim (Bool-cases (q y)) [
  | inl e ↦ (let same : y ≡ x = eq_of_some (rw e at h) in (subst P same a.0, rw same at e))
  | inr e ↦ found_holds P q ys a.1 (rw e at h)
]

-- What a replacer must have: no old text is empty, and a character stands in neither text.
abbrev IsBlind : ℕ → Text × Text → Type 0
IsBlind c p = (is_empty p.0 ≡ false) × (count c p.0 ≡ 0) × (count c p.1 ≡ 0)

blind-take :
    (c x : ℕ) (s old : Text)
    → is_empty old ≡ false
    → has_prefix old (x ∷ s) ≡ true
    → count c old ≡ 0
    → (count c (take (length old - 1) s) ≡ 0) × ((x == c) ≡ false)
blind-take c x s [] e h n = absurd (cc e)
blind-take c x s (k ∷ old) e h n =
    let both = and-true (k == x) (has_prefix old s) h in
    let same : k ≡ x = (==_iff k x).0 both.0 in
    let size : suc (length old) - 1 ≡ length old = omega arith in
    let other : (k == c) ≡ false = ground (arith, n) in
    (rw (size, take-prefix old s both.1) (omega (arith, n)), rw same at other)

count-replace_from :
    (c : ℕ) (pairs : List (Text × Text)) (n : ℕ) (s : Text)
    → All (IsBlind c) pairs
    → count c (take n s) ≡ 0
    → count c (replace_from pairs n s) ≡ count c s
unfolding replace_from match_here
count-replace_from c pairs zero [] a h = refl
count-replace_from c pairs (suc n) [] a h = refl
count-replace_from c pairs (suc n) (x ∷ s) a h =
    let rest = count-replace_from c pairs n s a (omega (arith, h)) in omega (arith, rest, h)
count-replace_from c pairs zero (x ∷ s) a h = elim (Option-cases (match_here pairs (x ∷ s))) [
  | inl e ↦ (let rest = count-replace_from c pairs 0 s a refl in rw e (omega (arith, rest)))
  | inr (p, e) ↦
      let f = found_holds (IsBlind c) (λ q. has_prefix q.0 (x ∷ s)) pairs a e in
      let b = blind-take c x s p.0 f.0.0 f.1 f.0.1 in
      let rest = count-replace_from c pairs (length p.0 - 1) s a b.0 in
      let sum = count_if-append (λ y. y == c) p.1 (replace_from pairs (length p.0 - 1) s) in
      let none_new = f.0.2 in rw (e, b.1) (omega (arith, rest, sum, none_new))
]

tokens-AreBlind :
    (c : ℕ) (bank : Bank) (account : Text) (amount : ℕ) (holder : Text)
    → is_plain c ≡ false
    → All (IsBlind c) (tokens bank account amount holder)
unfolding tokens is_plain is_unreserved
tokens-AreBlind c bank account amount holder n =
    let old : (s : Text) → all is_plain s ≡ true → count c s ≡ 0 = λ s. count-plain c s n in
    let new : (s : Text) → count c (query_escape s) ≡ 0 =
      λ s. old (query_escape s) (query_escape-plain s) in
    (
      (refl, old (codes "{bank}") refl, new bank.code),
      (
        (refl, old (codes "{bankName}") refl, new bank.name),
        (
          (refl, old (codes "{bankShort}") refl, new bank.short),
          (
            (refl, old (codes "{account}") refl, new account),
            (
              (refl, old (codes "{amount}") refl, new (decimal amount)),
              ((refl, old (codes "{holder}") refl, new holder), tt),
            ),
          ),
        ),
      ),
    )

-- An app, and how often a character stands in its link or in its template.
abbrev pub link_shape : ℕ → Link → Text × ℕ
link_shape c l = (l.provider, count c l.url)

abbrev pub template_shape : ℕ → Text × Text → Text × ℕ
template_shape c t = (t.0, count c t.1)

map-link_for :
    (c : ℕ) (pairs templates : List (Text × Text))
    → All (IsBlind c) pairs
    → map (link_shape c) (map (link_for pairs) templates) ≡ map (template_shape c) templates
map-link_for c pairs [] a = refl
map-link_for c pairs (t ∷ ts) a =
    rw (count-replace_from c pairs 0 t.1 a refl, map-link_for c pairs ts a) refl

-- However the holder of the account is called and whatever the account is, the links are those of
-- the templates in their order, and every character that has a meaning in a link, such as `&`, `=` or
-- `#`, stands in a link as often as in its template: no value can add a parameter to it.
pub links-shape :
    (templates : List (Text × Text)) (r : TransferRequest) {ls : List Link} (c : ℕ)
    → is_plain c ≡ false
    → links templates r ≡ ok ls
    → map (link_shape c) ls ≡ map (template_shape c) templates
unfolding links
links-shape templates r c n h =
    let account = keep is_digit r.account_no in
    let pairs : Bank → List (Text × Text) =
      λ b. tokens b account (pos_part r.amount_krw) r.holder in
    let b =
      bind-ok (refuse_if (leb_ℤ r.amount_krw (pos 0)) bad_amount)
        (λ u. known (bank_by_code r.bank_code) >>= λ b.
          refuse_if (is_empty account) no_account >> ok (map (link_for (pairs b)) templates))
        h in
    let k =
      bind-ok (known (bank_by_code r.bank_code))
        (λ b. refuse_if (is_empty account) no_account >> ok (map (link_for (pairs b)) templates))
        b.2 in
    let e =
      bind-ok (refuse_if (is_empty account) no_account)
        (λ u. ok (map (link_for (pairs k.0)) templates)) k.2 in
    let same = ok-injective e.2 in
    rw (sym same) (
      map-link_for c (pairs k.0) templates
        (tokens-AreBlind c k.0 account (pos_part r.amount_krw) r.holder n))

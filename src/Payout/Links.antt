-- ===== src/Payout/Links.antt =====
-- internal/payout/providers.go and deeplink.go: the apps, and the links that open them. A map of
-- templates is a list with one entry for each app, in the order of their names, as the source sorts
-- them. `url.QueryEscape`, `strings.NewReplacer` and `strconv.Itoa` are those of Go's library.
use claw_hub.Prelude.{
  ℕ, zero, suc, ◌+◌, ◌-◌, ◌/◌, ◌%◌, Bool, true, false, not, ◌&&◌, ◌||◌, Option, none, some, List,
  [], ◌∷◌, ◌++◌, map, keep, find?, length, ltb, leb, ◌==◌, if◌then◌else◌, Result, ok, err, ◌>>=◌,
  ◌>>◌, refuse_if,
}
use claw_hub.Prelude.Texts.{Text, codes, text_eq, is_digit, is_empty, trim_space}
use claw_hub.Prelude.Decimal.{decimal}
use claw_hub.Prelude.Int.{ℤ, pos, pos_part, leb_ℤ}
use claw_hub.Payout.Banks.{Bank, bank_by_code}
use claw_hub.Domain.Phone.{has_prefix}

-- `Provider`, less the texts that are only shown.
pub record Provider : Type 0 where
  pub id : Text
  pub prefills : Bool
  pub template : Text

abbrev pub provider_none : Text
provider_none = codes "none"

abbrev pub provider_custom : Text
provider_custom = codes "custom"

-- `providers`
abbrev pub providers : List Provider
providers =
    record { id = provider_none; prefills = false; template = [] }
    ∷ record {
      id = codes "toss";
      prefills = true;
      template = codes "supertoss://send?bank={bankShort}&accountNo={account}&amount={amount}";
    }
    ∷ record { id = codes "kakaobank"; prefills = false; template = codes "kakaobank://" }
    ∷ record { id = provider_custom; prefills = true; template = [] }
    ∷ []

-- `ProviderByID`
unfoldable pub provider_by_id : Text → Option Provider
provider_by_id id = find? (λ p. text_eq p.id id) providers

-- `TemplateFor`
unfoldable pub template_for : Text → Text → Text
unfolding provider_by_id
template_for provider custom =
    if text_eq provider provider_custom then custom else elim (provider_by_id provider) [
      | none ↦ []
      | some p ↦ if text_eq p.id provider_none then [] else p.template
    ]

-- `Link`, less the label, and `TransferRequest`.
pub record Link : Type 0 where
  pub provider : Text
  pub url : Text

pub record TransferRequest : Type 0 where
  pub bank_code : Text
  pub account_no : Text
  pub holder : Text
  pub amount_krw : ℤ

pub data LinkError : Type 0 where
  bad_amount unknown_bank no_account : LinkError

-- `NewDeeplink`: the templates that are not blank.
unfoldable pub new_deeplink : List (Text × Text) → List (Text × Text)
new_deeplink templates = keep (λ t. not (is_empty (trim_space t.1))) templates

-- The bytes of a character in UTF-8.
abbrev pub utf8 : ℕ → List ℕ
utf8 c =
    if ltb c 0x80
    then c ∷ []
    else if ltb c 0x800
    then (0xc0 + c / 64) ∷ (0x80 + c % 64) ∷ []
    else if ltb c 0x10000
    then (0xe0 + c / 4096) ∷ (0x80 + c / 64 % 64) ∷ (0x80 + c % 64) ∷ []
    else (0xf0 + c / 262144) ∷ (0x80 + c / 4096 % 64) ∷ (0x80 + c / 64 % 64) ∷ (0x80 + c % 64) ∷ []

-- A digit in base 16.
abbrev pub hex : ℕ → ℕ
hex d = if ltb d 10 then b'0' + d else b'A' + (d - 10)

-- The characters that `url.QueryEscape` leaves.
unfoldable pub is_unreserved : ℕ → Bool
is_unreserved c =
    is_digit c
    || (leb b'a' c && leb c b'z')
    || (leb b'A' c && leb c b'Z')
    || c == b'-'
    || c == b'_'
    || c == b'.'
    || c == b'~'

abbrev pub percent : List ℕ → Text
percent [] = []
percent (b ∷ bs) = b'%' ∷ hex (b / 16 % 16) ∷ hex (b % 16) ∷ percent bs

abbrev pub escape_char : ℕ → Text
escape_char c =
    if is_unreserved c then c ∷ [] else if c == b' ' then b'+' ∷ [] else percent (utf8 c)

-- `url.QueryEscape`
unfoldable pub query_escape : Text → Text
unfolding is_unreserved
query_escape [] = []
query_escape (c ∷ s) = escape_char c ++ query_escape s

-- The first of a replacer's pairs that matches here.
unfoldable pub match_here : List (Text × Text) → Text → Option (Text × Text)
match_here pairs s = find? (λ p. has_prefix p.0 s) pairs

-- How much of the text a match covers beyond its first character, and what stands in its place.
abbrev pub covered : Option (Text × Text) → ℕ
covered none = 0
covered (some p) = length p.0 - 1

abbrev pub placed : Option (Text × Text) → ℕ → Text → Text
placed none c s = c ∷ s
placed (some p) c s = p.1 ++ s

-- `strings.NewReplacer(…).Replace`, where no old text is empty. The number is how many characters of
-- a match are still to be passed over.
unfoldable pub replace_from : List (Text × Text) → ℕ → Text → Text
unfolding match_here
replace_from pairs n [] = []
replace_from pairs (suc n) (c ∷ s) = replace_from pairs n s
replace_from pairs zero (c ∷ s) =
    let here = match_here pairs (c ∷ s) in placed here c (replace_from pairs (covered here) s)

-- The pairs that `Links` replaces.
unfoldable pub tokens : Bank → Text → ℕ → Text → List (Text × Text)
unfolding query_escape
tokens bank account amount holder =
    (codes "{bank}", query_escape bank.code)
    ∷ (codes "{bankName}", query_escape bank.name)
    ∷ (codes "{bankShort}", query_escape bank.short)
    ∷ (codes "{account}", query_escape account)
    ∷ (codes "{amount}", query_escape (decimal amount))
    ∷ (codes "{holder}", query_escape holder)
    ∷ []

abbrev pub link_for : List (Text × Text) → Text × Text → Link
link_for pairs t = record { provider = t.0; url = replace_from pairs 0 t.1 }

-- A bank that must be known.
abbrev pub known : Option Bank → Result LinkError Bank
known none = err unknown_bank
known (some b) = ok b

-- `Links`
unfoldable pub links : List (Text × Text) → TransferRequest → Result LinkError (List Link)
unfolding tokens replace_from
links templates r = do
  refuse_if (leb_ℤ r.amount_krw (pos 0)) bad_amount
  bank ← known (bank_by_code r.bank_code)
  refuse_if (is_empty (keep is_digit r.account_no)) no_account
  ok (
      map (link_for (tokens bank (keep is_digit r.account_no) (pos_part r.amount_krw) r.holder))
        templates)

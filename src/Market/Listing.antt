-- ===== src/Market/Listing.antt =====
-- internal/domain/listing.go: the kinds of trade and `ValidateListing`; `NameKey` of
-- internal/domain/purchase.go. `lower` is `unicode.ToLower`.
use claw_hub.Prelude.{
  ℕ, Bool, true, false, ◌&&◌, not, String, Option, none, some, List, [], ◌∷◌, length, ltb, find?,
  str_eq, if◌then◌else◌, Result, refuse_if, ◌>>◌,
}
use claw_hub.Prelude.Int.{ℤ, pos, ltb_ℤ, leb_ℤ}
use claw_hub.Prelude.Texts.{Text, is_space, trim_space, is_empty}

-- `ListingKind`; a Go kind is a string, and `unknown_kind` is one that no constant names.
pub data ListingKind : Type 0 where
  sell swap both : ListingKind
  unknown_kind : String → ListingKind

unfoldable pub kind_string : ListingKind → String
kind_string sell = "sell"
kind_string swap = "swap"
kind_string both = "both"
kind_string (unknown_kind s) = s

-- `AllListingKinds`
abbrev pub all_listing_kinds : List ListingKind
all_listing_kinds = sell ∷ swap ∷ both ∷ []

-- `NeedsPrice`
unfoldable pub needs_price : ListingKind → Bool
unfolding kind_string
needs_price k = not (str_eq (kind_string k) "swap")

-- `ParseListingKind`
unfoldable pub parse_listing_kind : String → Option ListingKind
unfolding kind_string
parse_listing_kind s = find? (λ v. str_eq (kind_string v) s) all_listing_kinds

-- `ListingInput`
pub record ListingInput : Type 0 where
  pub name : Text
  pub kind : ListingKind
  pub qty : ℤ
  pub unit_price_krw : ℤ
  pub note : Text

pub data ListingError : Type 0 where
  bad_kind no_name long_name bad_qty bad_price no_price long_note : ListingError

abbrev pub max_doll_name_runes : ℕ
max_doll_name_runes = 80

abbrev pub max_listing_note_runes : ℕ
max_listing_note_runes = 300

abbrev pub listing_days : ℕ
listing_days = 30

abbrev pub listing_report_limit : ℕ
listing_report_limit = 3

abbrev is_none : {A : Type 0} → Option A → Bool
is_none none = true
is_none (some _) = false

-- `ValidateListing`
unfoldable pub validate_listing : ListingInput → Result ListingError (Unit {0})
unfolding parse_listing_kind needs_price kind_string
validate_listing l = do
  refuse_if (is_none (parse_listing_kind (kind_string l.kind))) bad_kind
  refuse_if (is_empty (trim_space l.name)) no_name
  refuse_if (ltb max_doll_name_runes (length l.name)) long_name
  refuse_if (leb_ℤ l.qty (pos 0)) bad_qty
  refuse_if (ltb_ℤ l.unit_price_krw (pos 0)) bad_price
  refuse_if (needs_price l.kind && leb_ℤ l.unit_price_krw (pos 0)) no_price
  refuse_if (ltb max_listing_note_runes (length l.note)) long_note

module _ (lower : ℕ → ℕ) where
  -- `NameKey`
  unfoldable pub name_key : Text → Text
  unfolding is_space
  name_key [] = []
  name_key (c ∷ s) = let rest = name_key s in if is_space c then rest else lower c ∷ rest

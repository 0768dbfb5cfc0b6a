-- ===== src/Accounts/Requests.antt =====
-- internal/httpapi/admin_settings.go: what the settings pages send, and the checks before anything is
-- written. A number is checked by the rules only, as internal/bizverify/bizverify.go does.
use claw_hub.Prelude.{
  Bool, true, false, not, ◌&&◌, ◌||◌, Option, none, some, [], ◌∷◌, keep, find?, ltb, length,
  if◌then◌else◌, Result, ok, err, is_ok, ◌>>=◌, ◌>>◌, refuse_if,
}
use claw_hub.Prelude.Texts.{Text, codes, text_eq, is_empty, is_digit, trim_space}
use claw_hub.Domain.Phone.{normalize_phone, has_prefix}
use claw_hub.Domain.Issue.{StoreType, all_store_types, store_type_string}
use claw_hub.Domain.Region.{is_region, validate_region_detail}
use claw_hub.Domain.BizNo.{normalize_biz_no, validate_biz_no}
use claw_hub.Payout.Banks.{is_bank}
use claw_hub.Payout.Links.{provider_by_id, provider_custom}
use claw_hub.Accounts.Stores.{StoreProfile, PayoutSettings}

pub data RequestError : Type 0 where
  bad_name bad_phone bad_type bad_region bad_detail bad_biz_no bad_provider bad_template bad_account
        bad_bank bad_email bad_password :
      RequestError

-- `onlyDigits`
abbrev pub only_digits : Text → Text
only_digits s = keep is_digit s

-- Go's `if _, err := …; err != nil { return … }`.
abbrev pub must : {E A : Type 0} → Result E A → RequestError → Result RequestError A
must (ok a) e = ok a
must (err _) e = err e

-- `normalizeOptionalPhone`
unfoldable pub normalize_optional_phone : Text → Result RequestError Text
normalize_optional_phone raw =
    if is_empty (trim_space raw) then ok [] else must (normalize_phone (trim_space raw)) bad_phone

-- The body of `handleUpdateStore`.
pub record StoreRequest : Type 0 where
  pub name : Text
  pub phone : Text
  pub region_code : Text
  pub region_detail : Text
  pub biz_no : Text
  pub store_type : Text

-- `ValidStoreType`, with the store type that the text names.
unfoldable pub store_type_named : Text → Option StoreType
unfolding store_type_string
store_type_named s = find? (λ t. text_eq (codes (store_type_string t)) s) all_store_types

abbrev pub type_field : Text → Option StoreType → Result RequestError (Option StoreType)
type_field [] t = ok none
type_field (_ ∷ _) none = err bad_type
type_field (_ ∷ _) (some t) = ok (some t)

-- A region and its detail, both empty if no region is given.
abbrev pub region_field : Text → Text → Result RequestError (Text × Text)
region_field code detail =
    if is_empty code
    then ok ([], [])
    else refuse_if (not (is_region code)) bad_region
      >> refuse_if (not (is_ok (validate_region_detail detail))) bad_detail
      >> ok (code, trim_space detail)

abbrev pub biz_no_field : Text → Result RequestError Text
biz_no_field raw =
    if is_empty raw
    then ok []
    else refuse_if (not (is_ok (validate_biz_no raw))) bad_biz_no >> ok (normalize_biz_no raw)

-- `handleUpdateStore` up to the write.
unfoldable pub read_store_request : StoreRequest → Result RequestError StoreProfile
unfolding is_region validate_region_detail validate_biz_no normalize_biz_no store_type_named
read_store_request req =
    let name = trim_space req.name in
    let phone = trim_space req.phone in
    let digits = only_digits phone in
    do
      refuse_if (ltb (length name) 1 || ltb 60 (length name)) bad_name
      refuse_if (not (is_empty phone) && (ltb (length digits) 8 || ltb 12 (length digits)))
          bad_phone
      type ← type_field (trim_space req.store_type) (store_type_named (trim_space req.store_type))
      region ← region_field (trim_space req.region_code) req.region_detail
      biz_no ← biz_no_field (trim_space req.biz_no)
      ok (record {
        name = name;
        phone = digits;
        store_type = type;
        region_code = region.0;
        region_detail = region.1;
        biz_no = biz_no;
      })

-- `strings.Contains`
abbrev pub contains : Text → Text → Bool
contains [] p = is_empty p
contains (c ∷ s) p = has_prefix p (c ∷ s) || contains s p

-- `payoutSettingsRequest`
pub record PayoutRequest : Type 0 where
  pub provider : Text
  pub template : Text
  pub bank_code : Text
  pub account : Text

abbrev pub is_some : {A : Type 0} → Option A → Bool
is_some none = false
is_some (some a) = true

-- The template that is stored: a built-in app has none of its own.
abbrev pub template_field : Text → Text → Result RequestError Text
template_field provider tpl =
    if text_eq provider provider_custom
    then refuse_if (is_empty tpl || not (contains tpl (codes "://"))) bad_template >> ok tpl
    else ok []

-- The bank that is stored: without an account there is none.
abbrev pub bank_field : Text → Text → Result RequestError Text
bank_field account bank =
    if is_empty account
    then ok []
    else refuse_if (ltb (length account) 6 || ltb 20 (length account)) bad_account
      >> refuse_if (not (is_bank bank)) bad_bank
      >> ok bank

-- `handleUpdatePayoutSettings` up to the write.
unfoldable pub read_payout_request : PayoutRequest → Result RequestError PayoutSettings
unfolding provider_by_id is_bank
read_payout_request req =
    let account = only_digits req.account in
    do
      refuse_if (not (is_some (provider_by_id req.provider))) bad_provider
      template ← template_field req.provider (trim_space req.template)
      bank ← bank_field account (trim_space req.bank_code)
      ok (record {
        provider = req.provider;
        template = template;
        bank_code = bank;
        account = account;
      })

-- ===== src/Accounts/Settings.antt =====
-- internal/httpapi/admin_settings.go: what the checks of the settings pages let through.
use claw_hub.Prelude.{
  ℕ, ◌≤◌, true, false, not, ◌&&◌, ◌||◌, [], ◌∷◌, all, all-keep, keep-all, keep, ltb, length, ok,
  is_ok, ◌>>◌, refuse_if, refuse-ok, bind-ok, ok-injective, ◌≡◌, refl, sym, subst, arith, ◌⊎◌, inl,
  inr, Bool-cases, not-false,
}
use claw_hub.Prelude.Texts.{Text, codes, text_eq, is_empty, is_digit, trim_space}
use claw_hub.Domain.Region.{is_region, validate_region_detail}
use claw_hub.Domain.BizNo.{normalize_biz_no, validate_biz_no}
use claw_hub.Payout.Banks.{is_bank}
use claw_hub.Payout.Links.{provider_by_id, provider_custom}
use claw_hub.Accounts.Stores.{StoreProfile, PayoutSettings}
use claw_hub.Accounts.Requests.{
  store_type_named, type_field, bad_phone, bad_detail, bad_biz_no, bad_region, bad_name,
  PayoutRequest, StoreRequest, read_payout_request, read_store_request, template_field, bank_field,
  biz_no_field, region_field, is_some, contains, bad_provider, bad_template, bad_account, bad_bank,
  only_digits,
}

-- An account to send from that is complete, or none at all.
abbrev pub IsAccount : Text → Text → Type 0
IsAccount account bank =
    ((is_empty account ≡ true) × (is_empty bank ≡ true))
    ⊎ ((6 ≤ length account) × (length account ≤ 20) × (is_bank bank ≡ true))

-- Settings with a known app, a template of the owner's own just where the app asks for one, and a
-- complete account or none.
unfoldable pub IsSetUp : PayoutSettings → Type 0
IsSetUp s =
    (is_some (provider_by_id s.provider) ≡ true)
    × (text_eq s.provider provider_custom ≡ not (is_empty s.template))
    × (all is_digit s.account ≡ true)
    × IsAccount s.account s.bank_code

template_field-own :
    (provider tpl : Text) {t : Text}
    → template_field provider tpl ≡ ok t
    → text_eq provider provider_custom ≡ not (is_empty t)
template_field-own provider tpl {t = t} h = elim (Bool-cases (text_eq provider provider_custom)) [
  | inr e ↦ (let same : [] ≡ t = ok-injective (rw e at h) in rw (e, sym same) refl)
  | inl e ↦
      let b =
        bind-ok (refuse_if (is_empty tpl || not (contains tpl (codes "://"))) bad_template)
          (λ u. ok tpl) (rw e at h) in
      let fine = refuse-ok (is_empty tpl || not (contains tpl (codes "://"))) bad_template b.1 in
      let same : tpl ≡ t = ok-injective b.2 in
      let full : is_empty tpl ≡ false = ground (arith, fine) in rw (e, sym same, full) refl
]

bank_field-IsAccount :
    (account bank : Text) {b : Text} → bank_field account bank ≡ ok b → IsAccount account b
bank_field-IsAccount account bank {b = b} h = elim (Bool-cases (is_empty account)) [
  | inl e ↦ (let same : [] ≡ b = ok-injective (rw e at h) in inl (e, rw (sym same) refl))
  | inr e ↦
      let size = ltb (length account) 6 || ltb 20 (length account) in
      let x =
        bind-ok (refuse_if size bad_account >> refuse_if (not (is_bank bank)) bad_bank)
          (λ u. ok bank) (rw e at h) in
      let y =
        bind-ok (refuse_if size bad_account) (λ u. refuse_if (not (is_bank bank)) bad_bank) x.1 in
      let fits = refuse-ok size bad_account y.1 in
      let known = not-false (is_bank bank) (refuse-ok (not (is_bank bank)) bad_bank y.2) in
      let same : bank ≡ b = ok-injective x.2 in
      inr (ground (arith, fits), ground (arith, fits), rw same at known)
]

-- Settings of an owner's transfers that are accepted name a known app; they have a template of the
-- owner's own just if that app is the one that asks for it, so that no earlier template comes back;
-- and they have an account of 6 to 20 digits at a known bank, or neither account nor bank.
pub read_payout_request-IsSetUp :
    (req : PayoutRequest) {s : PayoutSettings} → read_payout_request req ≡ ok s → IsSetUp s
unfolding read_payout_request IsSetUp
read_payout_request-IsSetUp req {s = s} h =
    let account = only_digits req.account in
    let known = is_some (provider_by_id req.provider) in
    let build : Text → Text → PayoutSettings =
      λ t b. record { provider = req.provider; template = t; bank_code = b; account = account } in
    let x = bind-ok (refuse_if (not known) bad_provider) _ h in
    let y = bind-ok (template_field req.provider (trim_space req.template)) _ x.2 in
    let z = bind-ok (bank_field account (trim_space req.bank_code)) (λ b. ok (build y.0 b)) y.2 in
    let same : build y.0 z.0 ≡ s = ok-injective z.2 in
    subst IsSetUp same (
      not-false known (refuse-ok (not known) bad_provider x.1),
      template_field-own req.provider (trim_space req.template) y.1,
      all-keep is_digit req.account,
      bank_field-IsAccount account (trim_space req.bank_code) z.1,
    )

-- A number of a business that passes the check as it is stored, or none.
abbrev pub IsBizNo : Text → Type 0
IsBizNo n = (is_empty n ≡ true) ⊎ (is_ok (validate_biz_no n) ≡ true)

-- A known region with its detail, or neither.
abbrev pub IsPlace : Text → Text → Type 0
IsPlace code detail =
    ((is_empty code ≡ true) × (is_empty detail ≡ true))
    ⊎ ((is_region code ≡ true) × (is_empty detail ≡ false) × (length detail ≤ 20))

-- A profile as the settings page may store it.
unfoldable pub IsProfile : StoreProfile → Type 0
IsProfile p =
    (1 ≤ length p.name)
    × (length p.name ≤ 60)
    × ((is_empty p.phone ≡ true) ⊎ ((8 ≤ length p.phone) × (length p.phone ≤ 12)))
    × IsPlace p.region_code p.region_detail
    × IsBizNo p.biz_no

biz_no_field-IsBizNo : (raw : Text) {n : Text} → biz_no_field raw ≡ ok n → IsBizNo n
unfolding validate_biz_no normalize_biz_no
biz_no_field-IsBizNo raw {n = n} h = elim (Bool-cases (is_empty raw)) [
  | inl e ↦ (let same : [] ≡ n = ok-injective (rw e at h) in inl (rw (sym same) refl))
  | inr e ↦
      let bad = not (is_ok (validate_biz_no raw)) in
      let b = bind-ok (refuse_if bad bad_biz_no) (λ u. ok (normalize_biz_no raw)) (rw e at h) in
      let good = not-false (is_ok (validate_biz_no raw)) (refuse-ok bad bad_biz_no b.1) in
      let same : normalize_biz_no raw ≡ n = ok-injective b.2 in
      let twice : keep is_digit (keep is_digit raw) ≡ keep is_digit raw =
        keep-all is_digit (keep is_digit raw) (all-keep is_digit raw) in
      inr (rw (sym same, twice) good)
]

detail_fits :
    (s : Text)
    → is_ok (validate_region_detail s) ≡ true
    → (is_empty (trim_space s) ≡ false) × (length (trim_space s) ≤ 20)
unfolding validate_region_detail
detail_fits s h = ground arith

region_field-IsPlace :
    (code detail : Text) {r : Text × Text} → region_field code detail ≡ ok r → IsPlace r.0 r.1
region_field-IsPlace code detail {r = r} h = elim (Bool-cases (is_empty code)) [
  | inl e ↦ (let same : ([], []) ≡ r = ok-injective (rw e at h) in inl (rw (sym same) (refl, refl)))
  | inr e ↦
      let bad = not (is_ok (validate_region_detail detail)) in
      let b =
        bind-ok (refuse_if (not (is_region code)) bad_region >> refuse_if bad bad_detail)
          (λ u. ok (code, trim_space detail)) (rw e at h) in
      let c =
        bind-ok (refuse_if (not (is_region code)) bad_region) (λ u. refuse_if bad bad_detail) b.1 in
      let known = not-false (is_region code) (refuse-ok (not (is_region code)) bad_region c.1) in
      let good = not-false (is_ok (validate_region_detail detail)) (refuse-ok bad bad_detail c.2) in
      let same : (code, trim_space detail) ≡ r = ok-injective b.2 in
      let fits = detail_fits detail good in rw (sym same) (inr (known, fits.0, fits.1))
]

in_range : (n : ℕ) → ltb n 8 || ltb 12 n ≡ false → (8 ≤ n) × (n ≤ 12)
in_range n h = ground arith

phone_digits :
    (s : Text)
    → not (is_empty s) && (ltb (length (only_digits s)) 8 || ltb 12 (length (only_digits s)))
      ≡ false
    → (is_empty (only_digits s) ≡ true)
      ⊎ ((8 ≤ length (only_digits s)) × (length (only_digits s) ≤ 12))
phone_digits [] h = inl refl
phone_digits (c ∷ s) h = inr (in_range (length (only_digits (c ∷ s))) h)

-- A profile that is accepted has a name of 1 to 60 characters; a telephone number of 8 to 12 digits
-- or none; a known region with a detail of at most 20 characters, or neither; and a business number
-- that passes the check in the form in which it is stored, or none.
pub read_store_request-IsProfile :
    (req : StoreRequest) {p : StoreProfile} → read_store_request req ≡ ok p → IsProfile p
unfolding read_store_request IsProfile
read_store_request-IsProfile req {p = p} h =
    let name = trim_space req.name in
    let phone = trim_space req.phone in
    let digits = only_digits phone in
    let long = ltb (length name) 1 || ltb 60 (length name) in
    let odd = not (is_empty phone) && (ltb (length digits) 8 || ltb 12 (length digits)) in
    let a = bind-ok (refuse_if long bad_name) _ h in
    let b = bind-ok (refuse_if odd bad_phone) _ a.2 in
    let c =
      bind-ok
        (type_field (trim_space req.store_type) (store_type_named (trim_space req.store_type))) _
        b.2 in
    let d = bind-ok (region_field (trim_space req.region_code) req.region_detail) _ c.2 in
    let build : Text → StoreProfile = λ n. record {
      name = name;
      phone = digits;
      store_type = c.0;
      region_code = d.0.0;
      region_detail = d.0.1;
      biz_no = n;
    } in
    let e = bind-ok (biz_no_field (trim_space req.biz_no)) (λ n. ok (build n)) d.2 in
    let same : build e.0 ≡ p = ok-injective e.2 in
    let fits = refuse-ok long bad_name a.1 in
    let right = refuse-ok odd bad_phone b.1 in
    subst IsProfile same (
      ground (arith, fits),
      ground (arith, fits),
      phone_digits phone right,
      region_field-IsPlace (trim_space req.region_code) req.region_detail d.1,
      biz_no_field-IsBizNo (trim_space req.biz_no) e.1,
    )

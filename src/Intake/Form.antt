-- ===== src/Intake/Form.antt =====
-- internal/httpapi/public.go: `parseClaimForm`, `parseCardFields` and
-- `parseAccountFields`. `wide` is what `strings.ToUpper` does to a character beyond ASCII, `parse_time` is `time.ParseInLocation` with the layout and the zone of the source.
use claw_hub.Prelude.{
  not-false, all-keep, refuse-ok, subst, inl, inr, Bool-cases, ℕ, ◌≤◌, Bool, true, false, not, ◌||◌,
  String, Option, none, some, [], all, length, ltb, ◌==◌, if◌then◌else◌, Result, ok, err, refuse_if,
  ◌>>=◌, ◌>>◌, ◌≡◌, refl, arith, bind-ok, ok-injective,
}
use claw_hub.Prelude.Decimal.{atoi}
use claw_hub.Prelude.Int.{ℤ}
use claw_hub.Payout.Banks.{is_bank}
use claw_hub.Prelude.Texts.{Text, is_digit, is_empty, trim_space, byte_len}
use claw_hub.Claim.Status.{PaymentMethod, needs_account, parse_payment_method}
use claw_hub.Domain.Issue.{IssueType, parse_issue_type}
use claw_hub.Domain.MachineCode.{normalize_machine_code, validate_machine_code}
use claw_hub.Domain.Phone.{normalize_phone, normalize_account}
use claw_hub.Risk.Rules.{Policy, validate_amount}

-- The form's values.
pub record Fields : Type 0 where
  pub machine_code : Text
  pub issue_type : String
  pub amount_krw : Text
  pub description : Text
  pub phone : Text
  pub payment_method : String
  pub card_last4 : Text
  pub paid_at_guess : Text
  pub bank_code : Text
  pub account_no : Text
  pub holder : Text

-- `claimForm`
pub record ClaimForm : Type 0 where
  pub machine_code : Text
  pub issue_type : IssueType
  pub payment_method : PaymentMethod
  pub amount_krw : ℤ
  pub description : Text
  pub phone : Text
  pub bank_code : Text
  pub account : Text
  pub holder : Text
  pub card_last4 : Text
  pub paid_at_guess : ℕ

pub data FormError : Type 0 where
  bad_code bad_issue bad_number bad_amount long_description bad_phone bad_payment bad_card bad_time
        bad_bank bad_account bad_holder :
      FormError

abbrev require : {A : Type 0} → Option A → FormError → Result FormError A
require none e = err e
require (some a) e = ok a

abbrev refuse_some : {A : Type 0} → Option A → FormError → Result FormError (Unit {0})
refuse_some none e = ok tt
refuse_some (some a) e = err e

abbrev accept : {E A : Type 0} → Result E A → FormError → Result FormError A
accept (ok a) e = ok a
accept (err _) e = err e

-- `parseAccountFields`
unfoldable pub parse_account_fields : Fields → ClaimForm → Result FormError ClaimForm
unfolding is_bank
parse_account_fields raw f =
    let bank = trim_space raw.bank_code in
    let account = normalize_account raw.account_no in
    let holder = trim_space raw.holder in
    do
      refuse_if (not (is_bank bank)) bad_bank
      refuse_if (ltb (length account) 6 || ltb 20 (length account)) bad_account
      refuse_if (ltb (length holder) 1 || ltb 40 (length holder)) bad_holder
      ok (record f { bank_code = bank; account = account; holder = holder })

module _ (wide : ℕ → ℕ) (parse_time : Text → Option ℕ) where
  abbrev guess : Text → Result FormError ℕ
  guess raw = if is_empty raw then ok 0 else require (parse_time raw) bad_time

  -- `parseCardFields`
  unfoldable pub parse_card_fields : Fields → ClaimForm → Result FormError ClaimForm
  parse_card_fields raw f =
      let last4 = trim_space raw.card_last4 in
      do
        refuse_if (not (byte_len last4 == 4) || not (all is_digit last4)) bad_card
        t ← guess (trim_space raw.paid_at_guess)
        ok (record f { card_last4 = last4; paid_at_guess = t })

  -- The values that `parseClaimForm` has read before it turns to the way of payment.
  abbrev read_fields : Fields → IssueType → ℤ → Text → PaymentMethod → ClaimForm
  read_fields raw it amount phone pm = record {
    machine_code = normalize_machine_code wide raw.machine_code;
    issue_type = it;
    payment_method = pm;
    amount_krw = amount;
    description = trim_space raw.description;
    phone = phone;
    bank_code = [];
    account = [];
    holder = [];
    card_last4 = [];
    paid_at_guess = 0;
  }

  -- `parseClaimForm`
  unfoldable pub parse_claim_form : Fields → Policy → Result FormError ClaimForm
  unfolding parse_account_fields parse_card_fields atoi
  parse_claim_form raw p = do
    refuse_some (validate_machine_code (normalize_machine_code wide raw.machine_code)) bad_code
    it ← require (parse_issue_type raw.issue_type) bad_issue
    amount ← require (atoi (trim_space raw.amount_krw)) bad_number
    refuse_some (validate_amount amount p) bad_amount
    refuse_if (ltb 1000 (length (trim_space raw.description))) long_description
    phone ← accept (normalize_phone raw.phone) bad_phone
    pm ← require (parse_payment_method raw.payment_method) bad_payment
    let f = read_fields raw it amount phone pm
    if needs_account pm then parse_account_fields raw f else parse_card_fields raw f

-- A form that has what its way of payment needs, and nothing else.
unfoldable pub IsFitting : ClaimForm → Type 0
IsFitting f =
    if needs_account f.payment_method
    then (is_bank f.bank_code ≡ true)
      × (6 ≤ length f.account)
      × (length f.account ≤ 20)
      × (all is_digit f.account ≡ true)
      × (f.card_last4 ≡ [])
    else (f.bank_code ≡ [])
      × (f.account ≡ [])
      × (f.holder ≡ [])
      × (byte_len f.card_last4 ≡ 4)
      × (all is_digit f.card_last4 ≡ true)

account-digits : (s : Text) → all is_digit (normalize_account s) ≡ true
unfolding normalize_account
account-digits s = all-keep is_digit s

account_size : (n : ℕ) → ltb n 6 || ltb 20 n ≡ false → (6 ≤ n) × (n ≤ 20)
account_size n h = ground arith

four_digits : (n : ℕ) (b : Bool) → not (n == 4) || not b ≡ false → (n ≡ 4) × (b ≡ true)
four_digits n true h = ground arith
four_digits n false h = ground arith

account-IsFitting :
    (raw : Fields) (f g : ClaimForm)
    → needs_account f.payment_method ≡ true
    → f.card_last4 ≡ []
    → parse_account_fields raw f ≡ ok g
    → IsFitting g
unfolding parse_account_fields IsFitting
account-IsFitting raw f g n c h =
    let b = bind-ok (refuse_if (not (is_bank (trim_space raw.bank_code))) bad_bank) _ h in
    let a =
      bind-ok
        (refuse_if
          (ltb (length (normalize_account raw.account_no)) 6
            || ltb 20 (length (normalize_account raw.account_no)))
          bad_account)
        _ b.2 in
    let o =
      bind-ok
        (refuse_if
          (ltb (length (trim_space raw.holder)) 1 || ltb 40 (length (trim_space raw.holder)))
          bad_holder)
        _ a.2 in
    let bank = not-false _ (refuse-ok _ bad_bank b.1) in
    let size = account_size _ (refuse-ok _ bad_account a.1) in
    subst IsFitting (ok-injective o.2)
      (rw n (bank, size.0, size.1, account-digits raw.account_no, c))

module _ (wide : ℕ → ℕ) (parse_time : Text → Option ℕ) where
  card-IsFitting :
      (raw : Fields) (f g : ClaimForm)
      → needs_account f.payment_method ≡ false
      → f.bank_code ≡ []
      → f.account ≡ []
      → f.holder ≡ []
      → parse_card_fields wide parse_time raw f ≡ ok g
      → IsFitting g
  unfolding parse_card_fields IsFitting
  card-IsFitting raw f g n b a o h =
      let c =
        bind-ok
          (refuse_if
            (not (byte_len (trim_space raw.card_last4) == 4)
              || not (all is_digit (trim_space raw.card_last4)))
            bad_card)
          _ h in
      let t = bind-ok (guess wide parse_time (trim_space raw.paid_at_guess)) _ c.2 in
      let size = four_digits _ _ (refuse-ok _ bad_card c.1) in
      subst IsFitting (ok-injective t.2) (rw n (b, a, o, size.0, size.1))

  -- A form that is accepted has what its way of payment needs and nothing else: a payment by card has
  -- the last four digits of the card and no account, any other a known bank and an account of 6 to 20
  -- digits, and no digits of a card.
  pub parse_claim_form-IsFitting :
      (raw : Fields) (p : Policy) (f : ClaimForm)
      → parse_claim_form wide parse_time raw p ≡ ok f
      → IsFitting f
  unfolding parse_claim_form
  parse_claim_form-IsFitting raw p f h =
      let a =
        bind-ok
          (refuse_some (validate_machine_code (normalize_machine_code wide raw.machine_code))
            bad_code)
          _ h in
      let b = bind-ok (require (parse_issue_type raw.issue_type) bad_issue) _ a.2 in
      let c = bind-ok (require (atoi (trim_space raw.amount_krw)) bad_number) _ b.2 in
      let d = bind-ok (refuse_some (validate_amount c.0 p) bad_amount) _ c.2 in
      let e =
        bind-ok (refuse_if (ltb 1000 (length (trim_space raw.description))) long_description) _
          d.2 in
      let ph = bind-ok (accept (normalize_phone raw.phone) bad_phone) _ e.2 in
      let m = bind-ok (require (parse_payment_method raw.payment_method) bad_payment) _ ph.2 in
      elim (Bool-cases (needs_account m.0)) [
        | inl n ↦
            account-IsFitting raw (read_fields wide parse_time raw b.0 c.0 ph.0 m.0) f n refl
              (rw n at m.2)
        | inr n ↦
            card-IsFitting raw (read_fields wide parse_time raw b.0 c.0 ph.0 m.0) f n refl refl refl
              (rw n at m.2)
      ]

-- ===== src/Tests/Accounts.antt =====
-- Two accounts of one shop, tokens signed with a plain code, and the settings pages.
use claw_hub.Prelude.Int.{◌+ℤ◌}
use claw_hub.Payout.Banks.{is_bank}
use claw_hub.Domain.Issue.{claw}
use claw_hub.Payout.Links.{provider_by_id}
use claw_hub.Prelude.{
  ◌*◌, eq_of_some, sym, ◌==◌, ap, ℕ, ◌+◌, ◌-◌, ◌≤◌, true, false, none, some, List, [], ◌∷◌, ◌≡◌,
  refl, ok, arith,
}
use claw_hub.Prelude.Texts.{trim_left, is_space, trim_space, is_empty, Text, codes, text_eq}
use claw_hub.Prelude.Decimal.{decimal, atoi, format_int}
use claw_hub.Accounts.Users.{Bcrypt, UserRow, has_email, change, has_id, is_staff}
use claw_hub.Accounts.Login.{
  check_password, authenticate, compared_row, record_login_failure, is_locked,
}
use claw_hub.Accounts.Guesses.{wrong_guesses, logins, guesses-limit}
use claw_hub.Accounts.Stale.{after_tries, compared_row-stale}
use claw_hub.Accounts.Active.{
  handle_set_user_active, set_user_active, check_active, write_active, active_count, is_active_in,
  is_other_active,
}
use claw_hub.Accounts.World.{Reach, Step, Reach-HasActive}
use claw_hub.Accounts.Overlap.{CanBeLockedOut, overlap-none, is_third}
use claw_hub.Accounts.Stores.{
  Cipher, StoreRow, PayoutSettings, IsStored, is_store, update_payout_settings-read,
}
use claw_hub.Accounts.Requests.{PayoutRequest, read_payout_request}
use claw_hub.Accounts.Settings.{IsSetUp, read_payout_request-IsSetUp}
use claw_hub.Access.Tokens.{
  Signing, encode_session, decode_session, encode_link, decode_link, link_message, link_payload,
  cut, unix, is_after,
}
use claw_hub.Access.Signed.{IsBase64, lacks, decode_session-encode_session}
use claw_hub.Access.Gate.{
  Visit, claim_scoped, claim_scoped-link, claim_token_from, link_access, user_from_session,
}

-- Hashes that are the passwords themselves.
abbrev plain : Bcrypt
plain = record { generate = λ salt p. some p; compare = λ h p. text_eq h p }

abbrev same_text : Text → Text
same_text s = s

abbrev row_of : Text → Text → UserRow
row_of id email = record {
  user = record {
    id = id;
    store_id = codes "s1";
    email = email;
    name = codes "Kim";
    phone = [];
    active = true;
  };
  password_hash = codes "password";
  failed_logins = 0;
  locked_until = none;
}

abbrev ann : UserRow
ann = row_of (codes "u.1") (codes "ann@x")

abbrev bob : UserRow
bob = row_of (codes "u.2") (codes "bob@x")

abbrev staff : List UserRow
staff = ann ∷ bob ∷ []

-- Two wrong passwords, and the right one between them.
abbrev tries : List (ℕ × Text)
tries = (100, codes "guess-1") ∷ (150, codes "password") ∷ (200, codes "guess-2") ∷ []

guesses-limit_example :
    wrong_guesses plain (codes "ann@x") tries staff
    ≤ 5 * (1 + logins plain (codes "ann@x") tries staff)
unfolding has_email
guesses-limit_example =
    guesses-limit plain (codes "ann@x") 100 tries staff ann refl
      ((omega arith, omega arith), ((omega arith, omega arith), ((omega arith, omega arith), tt)))

-- The sixth wrong password in a row meets a locked account.
abbrev six : List (ℕ × Text)
six = (1, []) ∷ (2, []) ∷ (3, []) ∷ (4, []) ∷ (5, []) ∷ (6, []) ∷ []

six_tries : wrong_guesses plain (codes "ann@x") six staff ≡ 5
unfolding wrong_guesses compared_row authenticate record_login_failure has_email has_id change
    is_locked
six_tries = refl

-- A try that had read the account before those six, and writes after them, takes the lock away.
compared_row-stale_example :
    (x : UserRow) × (x.failed_logins ≡ 1)
    × (compared_row 8
          (codes "ann@x")
          (check_password plain 7 [] ann (after_tries plain (codes "ann@x") six staff)).1
        ≡ ok x)
unfolding compared_row has_email is_locked
compared_row-stale_example =
    compared_row-stale plain (codes "ann@x") 7 8 [] six staff ann refl (omega arith) refl

abbrev ann_only : List UserRow
ann_only = ann ∷ record bob { user = record (bob.user) { active = false } } ∷ []

turn_off_bob : Step plain same_text staff ann_only
unfolding handle_set_user_active set_user_active check_active write_active is_staff change
    is_other_active is_active_in
turn_off_bob = Step.toggled ann.user (codes "u.2") false refl

Reach-HasActive_example : 1 ≤ active_count (codes "s1") ann_only
unfolding active_count is_active_in
Reach-HasActive_example =
    Reach-HasActive (codes "s1") (Reach.next Reach.start turn_off_bob) (omega arith)

overlap-none_example : CanBeLockedOut (codes "s1") (codes "u.1") (codes "u.2") staff
unfolding is_staff is_other_active is_active_in is_third
overlap-none_example =
    overlap-none (codes "s1") (codes "u.1") (codes "u.2") staff refl refl (omega arith)
      (omega arith) refl

-- A cipher that puts one character in front.
abbrev cipher : Cipher
cipher = record {
  encrypt = λ n s. some (1 ∷ s);
  decrypt = λ e. elim e [ [] ↦ none | c ∷ s ↦ some s ];
}

cipher-opens :
    (s e : Text) → cipher.encrypt 0 s ≡ some e → (cipher.decrypt e ≡ some s) × (is_empty e ≡ false)
cipher-opens s e h = rw (sym (eq_of_some h)) (refl, refl)

abbrev settings : PayoutSettings
settings = record {
  provider = codes "toss";
  template = [];
  bank_code = codes "090";
  account = codes "100012345678";
}

abbrev shop : StoreRow
shop = record {
  id = codes "s1";
  name = codes "shop";
  phone = [];
  store_type = claw;
  region_code = [];
  region_detail = [];
  biz_no = [];
  payout_provider = [];
  payout_template = [];
  payout_bank_code = [];
  payout_account_enc = [];
}

update_payout_settings-read_example : IsStored cipher 7 (codes "s1") settings (shop ∷ [])
unfolding is_store
update_payout_settings-read_example =
    update_payout_settings-read cipher 7 (codes "s1") (1 ∷ settings.account) settings (shop ∷ [])
      (λ n s e h. cipher-opens s e h) refl refl

abbrev payout_request : PayoutRequest
payout_request = record {
  provider = codes "toss";
  template = codes "old://x";
  bank_code = codes " 090 ";
  account = codes "1000-1234-5678";
}

read_payout_request-IsSetUp_example : IsSetUp settings
unfolding read_payout_request provider_by_id is_bank trim_space is_space trim_left
read_payout_request-IsSetUp_example = read_payout_request-IsSetUp payout_request refl

-- Tokens that are moved up by a hundred, so that there is no dot in them.
abbrev up : Text → Text
up [] = []
up (c ∷ s) = (c + 100) ∷ up s

abbrev down : Text → Text
down [] = []
down (c ∷ s) = (c - 100) ∷ down s

abbrev signing : Signing
signing = record { encode = up; decode = λ s. some (down s); mac = λ k m. m; secret = codes "key" }

down-up : (s : Text) → down (up s) ≡ s
down-up [] = refl
down-up (c ∷ s) = (let same : c + 100 - 100 ≡ c = omega arith in rw (same, down-up s) refl)

up-lacks : (s : Text) → lacks b'.' (up s) ≡ true
up-lacks [] = refl
up-lacks (c ∷ s) =
    (let other : (c + 100 == b'.') ≡ false = ground arith in rw (other, up-lacks s) refl)

signing-IsBase64 : IsBase64 signing
signing-IsBase64 = (λ b. ap some (down-up b), up-lacks)

-- Some second of the year 1998.
abbrev later : ℕ
later = 63000000000000000000

decode_session-encode_session_example :
    decode_session signing (encode_session signing (codes "u.1") later) 62999999999000000000
    ≡ ok (codes "u.1")
unfolding unix
decode_session-encode_session_example =
    decode_session-encode_session signing (codes "u.1") later 62999999999000000000 signing-IsBase64
      refl (omega arith, omega arith) (omega arith)

abbrev visit : Visit
visit = record {
  cookie = none;
  claim_token_header = encode_link signing (codes "s1") (codes "c5") later;
  claim_token_query = [];
  claim_id = codes "c5";
}

claim_scoped-link_example :
    (codes "c5" ≡ codes "c5") × (link_access (codes "s1") ≡ link_access (codes "s1"))
unfolding claim_scoped decode_link encode_link cut atoi format_int unix is_after link_message
    link_payload claim_token_from user_from_session decimal ◌+ℤ◌
claim_scoped-link_example =
    claim_scoped-link signing 62999999999000000000 staff visit (codes "s1") (codes "c5") later
      signing-IsBase64 refl refl refl (λ h. h) refl refl refl

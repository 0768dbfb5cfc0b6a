-- ===== src/Accounts/Signup.antt =====
-- internal/httpapi/public_signup.go: `handleSignup`, less the cookie, and `rateLimitSignup`.
-- `strings.ToLower` and whether `mail.ParseAddress` takes an address are parameters.
use claw_hub.Prelude.{
  ℕ, Bool, not, ◌&&◌, String, str_eq, List, ◌++◌, ltb, length, if◌then◌else◌, Result, ok, err, ◌>>◌,
  refuse_if,
}
use claw_hub.Prelude.Texts.{Text, codes, trim_space, is_empty, byte_len}
use claw_hub.Domain.Issue.{valid_store_type, normalize_store_type, store_type_string}
use claw_hub.Accounts.Users.{Bcrypt, User, UserRow, UserError, duplicate_email}
use claw_hub.Accounts.Stores.{StoreRow, create_store_with_owner}
use claw_hub.Limits.Memory.{Memory, incr}

-- `signupRequest`
pub record SignupRequest : Type 0 where
  pub store_name : Text
  pub phone : Text
  pub store_type : String
  pub email : Text
  pub password : Text
  pub name : Text

pub data SignupError : Type 0 where
  signup_closed bad_store_name bad_store_type bad_email bad_password email_taken signup_failed :
      SignupError

-- `signupsPerIPPerDay`
abbrev pub signups_per_ip_per_day : ℕ
signups_per_ip_per_day = 3

pub data Gate : Type 0 where
  passes unavailable rate_limited : Gate

-- `rateLimitSignup`; where the cache cannot count, nobody passes.
unfoldable pub rate_limit_signup : Bool → ℕ → Text → Memory → Gate × Memory
unfolding incr
rate_limit_signup counts now ip m =
    let r = incr now (codes "rl:signup:" ++ ip) 86400000000000 m in
    if counts
    then (if ltb signups_per_ip_per_day r.0 then rate_limited else passes, r.1)
    else (unavailable, m)

-- The name that is shown of an owner who gives none.
abbrev pub owner_name : Text → Text
owner_name raw = if is_empty (trim_space raw) then codes "사장님" else trim_space raw

-- `handleSignup`'s answer to what `CreateStoreWithOwner` gives.
abbrev pub signup_answer : {A : Type 0} → Result UserError A → Result SignupError A
signup_answer (ok a) = ok a
signup_answer (err duplicate_email) = err email_taken
signup_answer (err _) = err signup_failed

-- The checks before anything is written.
unfoldable pub check_signup :
    Bool → (Text → Bool) → Text → SignupRequest → Result SignupError (Unit {0})
unfolding valid_store_type
check_signup open' is_address email req = do
  refuse_if (not open') signup_closed
  refuse_if (is_empty (trim_space req.store_name)) bad_store_name
  refuse_if (ltb 60 (length (trim_space req.store_name))) bad_store_name
  refuse_if (not (str_eq req.store_type "") && not (valid_store_type req.store_type)) bad_store_type
  refuse_if (not (is_address email)) bad_email
  refuse_if (ltb (byte_len req.password) 8) bad_password
  refuse_if (ltb 72 (byte_len req.password)) bad_password

-- What the request is given from outside: the ids and the salt.
pub record Draw : Type 0 where
  pub store_id : Text
  pub user_id : Text
  pub salt : ℕ

module _ (bcrypt : Bcrypt) (lower : Text → Text) (open' : Bool) (is_address : Text → Bool) where
  -- `handleSignup`
  unfoldable pub handle_signup :
      Draw
      → SignupRequest
      → List StoreRow × List UserRow
      → Result SignupError (User × List StoreRow × List UserRow)
  unfolding check_signup create_store_with_owner normalize_store_type store_type_string
  handle_signup draw req db =
      let email = trim_space (lower req.email) in
      check_signup open' is_address email req
      >> signup_answer (
          create_store_with_owner bcrypt draw.store_id draw.user_id draw.salt
            (trim_space req.store_name) (trim_space req.phone)
            (store_type_string (normalize_store_type req.store_type)) email req.password
            (owner_name req.name) db)

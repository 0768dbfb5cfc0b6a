-- ===== src/Accounts/Setup.antt =====
-- cmd/setup/main.go: what the command does to the tables, by its flags; `ListAllUsers` of
-- internal/store/user.go. What it prints is given as data; the VAPID keys come from a library.
use claw_hub.Prelude.{
  ℕ, Bool, not, ◌||◌, String, Option, none, some, List, [], ◌∷◌, find?, if◌then◌else◌, Result, ok,
  err, ◌>>=◌, ◌>>◌, refuse_if, ◌==◌,
}
use mathlib.Core.List.{reverse}
use claw_hub.Prelude.Texts.{Text, is_empty}
use claw_hub.Domain.Issue.{valid_store_type}
use claw_hub.Accounts.Users.{Bcrypt, User, UserRow, UserError, set_password}
use claw_hub.Accounts.Login.{is_locked}
use claw_hub.Accounts.Stores.{StoreRow, is_store, create_store_with_owner}
use claw_hub.Accounts.Signup.{Draw}

-- The flags.
pub record Flags : Type 0 where
  pub store : Text
  pub phone : Text
  pub email : Text
  pub password : Text
  pub name : Text
  pub type : String
  pub reset_password : Bool
  pub list_users : Bool
  pub password_stdin : Bool
  pub vapid_keys : Bool

-- `AdminUserRow`, less the time of its making, and whether it is locked now.
pub record AdminUserRow : Type 0 where
  pub email : Text
  pub name : Text
  pub store_name : Text
  pub active : Bool
  pub locked_now : Bool

pub data SetupError : Type 0 where
  two_passwords no_stdin reset_needs usage bad_type : SetupError
  failed : UserError → SetupError

pub data Done : Type 0 where
  keys_printed password_changed : Done
  listed : List AdminUserRow → Done
  created : User → Done

abbrev pub Tables : Type 0
Tables = List StoreRow × List UserRow

abbrev admin_row : ℕ → UserRow → StoreRow → AdminUserRow
admin_row now r st = record {
  email = r.user.email;
  name = r.user.name;
  store_name = st.name;
  active = r.user.active;
  locked_now = is_locked now r;
}

-- `ListAllUsers`, the oldest first: the join with `stores`.
unfoldable pub list_all_users : ℕ → List StoreRow → List UserRow → List AdminUserRow
unfolding is_store is_locked
list_all_users now stores [] = []
list_all_users now stores (r ∷ rows) =
    let rest = list_all_users now stores rows in
    elim (find? (is_store r.user.store_id) stores) [
      | none ↦ rest
      | some st ↦ admin_row now r st ∷ rest
    ]

-- `strings.TrimSuffix` for one character, on a text that is turned round.
abbrev without : ℕ → Text → Text
without c [] = []
without c (x ∷ s) = if x == c then s else x ∷ s

-- `readPasswordStdin`; no input is one that cannot be read.
unfoldable pub read_password_stdin : Option Text → Result SetupError Text
read_password_stdin none = err no_stdin
read_password_stdin (some b) =
    let pw = reverse (without 13 (without 10 (reverse b))) in
    refuse_if (is_empty pw) no_stdin >> ok pw

-- The password, from its flag or from the standard input.
unfoldable pub password_flag : Flags → Option Text → Result SetupError Text
unfolding read_password_stdin
password_flag f stdin =
    if f.password_stdin
    then refuse_if (not (is_empty f.password)) two_passwords >> read_password_stdin stdin
    else ok f.password

abbrev pub failed_or : {A : Type 0} → Result UserError A → Result SetupError A
failed_or (ok a) = ok a
failed_or (err e) = err (failed e)

module _ (bcrypt : Bcrypt) (lower : Text → Text) where
  -- `resetPassword`
  unfoldable pub reset_password : ℕ → Text → Text → Tables → Result SetupError (Done × Tables)
  unfolding set_password
  reset_password salt email password db = do
    refuse_if (is_empty email || is_empty password) reset_needs
    rows ← failed_or (set_password bcrypt lower salt email password db.1)
    ok (password_changed, (db.0, rows))

  -- A new store with its owner: the address is taken as it is typed.
  unfoldable pub create_shop : Draw → Flags → Text → Tables → Result SetupError (Done × Tables)
  unfolding create_store_with_owner valid_store_type
  create_shop draw f password db = do
    refuse_if (is_empty f.store || is_empty f.email || is_empty password) usage
    refuse_if (not (valid_store_type f.type)) bad_type
    made ← failed_or (
        create_store_with_owner bcrypt draw.store_id draw.user_id draw.salt f.store f.phone f.type
          f.email password f.name db)
    ok (created made.0, (made.1, made.2))

  -- `main`
  unfoldable pub run_setup :
      ℕ → Draw → Flags → Option Text → Tables → Result SetupError (Done × Tables)
  unfolding list_all_users password_flag reset_password create_shop
  run_setup now draw f stdin db =
      if f.vapid_keys
      then ok (keys_printed, db)
      else if f.list_users
      then ok (listed (list_all_users now db.0 db.1), db)
      else password_flag f stdin >>= λ password.
          if f.reset_password
          then reset_password draw.salt f.email password db
          else create_shop draw f password db

-- ===== src/Accounts/Users.antt =====
-- internal/store/user.go: the table users and its operations but the login. Here ids are texts, as
-- they appear in tokens. bcrypt and `strings.ToLower` are parameters; a hash is drawn with a salt,
-- which comes in as an argument. The table has its oldest row first, the order of created_at.
use claw_hub.Prelude.{
  ℕ, Bool, true, not, ◌&&◌, Option, none, some, List, [], ◌∷◌, ◌++◌, map, ltb, keep, any, find?,
  length, if◌then◌else◌, Result, ok, err, ◌>>=◌, ◌>>◌, refuse_if,
}
use claw_hub.Prelude.Texts.{Text, text_eq, byte_len, trim_space}

-- `User`
pub record User : Type 0 where
  pub id : Text
  pub store_id : Text
  pub email : Text
  pub name : Text
  pub phone : Text
  pub active : Bool

-- A row of `users`.
pub record UserRow : Type 0 where
  pub user : User
  pub password_hash : Text
  pub failed_logins : ℕ
  pub locked_until : Option ℕ

-- golang.org/x/crypto/bcrypt
pub record Bcrypt : Type 0 where
  pub generate : ℕ → Text → Option Text
  pub compare : Text → Text → Bool

pub data UserError : Type 0 where
  short_password long_password bad_hash duplicate_email last_account not_found locked : UserError

abbrev pub hash_or : Option Text → Result UserError Text
hash_or none = err bad_hash
hash_or (some h) = ok h

-- The unique index on `users.email`.
unfoldable pub has_email : Text → UserRow → Bool
has_email email r = text_eq r.user.email email

-- The row that an INSERT writes, with the defaults of the other columns.
unfoldable pub new_user : Text → Text → Text → Text → Text → Text → UserRow
new_user id store_id email hash name phone = record {
  user = record {
    id = id;
    store_id = store_id;
    email = email;
    name = name;
    phone = phone;
    active = true;
  };
  password_hash = hash;
  failed_logins = 0;
  locked_until = none;
}

unfoldable pub insert_user : UserRow → List UserRow → Result UserError (User × List UserRow)
unfolding has_email
insert_user r rows =
    if any (has_email r.user.email) rows then err duplicate_email else ok (r.user, rows ++ r ∷ [])

-- The WHERE clauses `id=…` and `id=… AND store_id=…`.
unfoldable pub has_id : Text → UserRow → Bool
has_id id r = text_eq r.user.id id

unfoldable pub is_staff : Text → Text → UserRow → Bool
is_staff store_id id r = text_eq r.user.id id && text_eq r.user.store_id store_id

-- `UPDATE users SET … WHERE …`
unfoldable pub change : (UserRow → Bool) → (UserRow → UserRow) → List UserRow → List UserRow
change where' set rows = map (λ r. if where' r then set r else r) rows

-- An UPDATE of which `RowsAffected` must not be 0.
abbrev pub change_some :
    (UserRow → Bool) → (UserRow → UserRow) → List UserRow → Result UserError (List UserRow)
change_some where' set rows = if any where' rows then ok (change where' set rows) else err not_found

-- `ListUsers`
unfoldable pub list_users : Text → List UserRow → List User
list_users store_id rows =
    let mine = keep (λ r. text_eq r.user.store_id store_id) rows in
    map (λ r. r.user) (keep (λ r. r.user.active) mine ++ keep (λ r. not r.user.active) mine)

-- `UserByID`
unfoldable pub user_by_id : Text → List UserRow → Option User
unfolding has_id
user_by_id id rows = elim (find? (λ r. has_id id r && r.user.active) rows) [
  | none ↦ none
  | some r ↦ some r.user
]

-- The SET clauses of `UpdateUser`, `SetPassword` and `Authenticate`.
abbrev pub with_profile : Text → Text → UserRow → UserRow
with_profile name phone r = record r { user = record (r.user) { name = name; phone = phone } }

abbrev pub with_password : Text → UserRow → UserRow
with_password hash r = record r { password_hash = hash; failed_logins = 0; locked_until = none }

abbrev pub unlocked : UserRow → UserRow
unlocked r = record r { failed_logins = 0; locked_until = none }

-- `UpdateUser`
unfoldable pub update_user :
    Text → Text → Text → Text → List UserRow → Result UserError (User × List UserRow)
unfolding is_staff change
update_user store_id id name phone rows = elim (find? (is_staff store_id id) rows) [
  | none ↦ err not_found
  | some r ↦ ok (
    (with_profile name phone r).user,
    change (is_staff store_id id) (with_profile name phone) rows,
  )
]

module _ (bcrypt : Bcrypt) (lower : Text → Text) where
  -- `CreateUser`
  unfoldable pub create_user :
      Text
      → ℕ
      → Text
      → Text
      → Text
      → Text
      → Text
      → List UserRow
      → Result UserError (User × List UserRow)
  unfolding insert_user new_user
  create_user id salt store_id email password name phone rows =
      refuse_if (ltb (length password) 8) short_password
      >> hash_or (bcrypt.generate salt password)
      >>= λ hash. insert_user (new_user id store_id email hash name phone) rows

  -- `SetPassword`
  unfoldable pub set_password : ℕ → Text → Text → List UserRow → Result UserError (List UserRow)
  unfolding has_email change
  set_password salt email password rows =
      refuse_if (ltb (length password) 8) short_password
      >> refuse_if (ltb 72 (byte_len password)) long_password
      >> hash_or (bcrypt.generate salt password)
      >>= λ hash. change_some (has_email (trim_space (lower email))) (with_password hash) rows

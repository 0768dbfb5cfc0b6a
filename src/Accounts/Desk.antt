-- ===== src/Accounts/Desk.antt =====
-- internal/httpapi/admin_settings.go and auth.go: the handlers over the tables users and stores. `me`
-- is the user of the session.
use claw_hub.Prelude.{
  ℕ, not, ◌||◌, List, [], ◌∷◌, ltb, length, if◌then◌else◌, Result, ok, err, ◌>>=◌, ◌>>◌, refuse_if,
}
use claw_hub.Prelude.Texts.{Text, codes, is_empty, trim_space, byte_len}
use claw_hub.Payout.Links.{template_for, new_deeplink}
use claw_hub.Accounts.Users.{Bcrypt, User, UserRow, UserError, locked, update_user, create_user}
use claw_hub.Accounts.Login.{authenticate}
use claw_hub.Accounts.Stores.{
  Cipher, StoreRow, StoreDetail, StoreError, store_by_id, update_store, update_payout_settings,
}
use claw_hub.Accounts.Requests.{
  RequestError, StoreRequest, PayoutRequest, bad_name, bad_email, bad_password, contains,
  normalize_optional_phone, read_store_request, read_payout_request,
}

pub data DeskError : Type 0 where
  bad_request : RequestError → DeskError
  refused : UserError → DeskError
  invalid_credentials account_locked internal_error : DeskError

abbrev pub lift : {E A : Type 0} → (E → DeskError) → Result E A → Result DeskError A
lift f (ok a) = ok a
lift f (err e) = err (f e)

-- `profileRequest`
pub record ProfileRequest : Type 0 where
  pub name : Text
  pub phone : Text

-- The checks of a name and a telephone number that two handlers share.
abbrev pub name_field : Text → Result RequestError Text
name_field raw =
    let name = trim_space raw in
    refuse_if (ltb (length name) 1 || ltb 40 (length name)) bad_name >> ok name

-- `handleUpdateMe`
unfoldable pub handle_update_me :
    User → ProfileRequest → List UserRow → Result DeskError (User × List UserRow)
unfolding normalize_optional_phone update_user
handle_update_me me req rows = do
  name ← lift bad_request (name_field req.name)
  phone ← lift bad_request (normalize_optional_phone req.phone)
  lift (λ e. internal_error) (update_user me.store_id me.id name phone rows)

-- `createUserRequest`
pub record CreateUserRequest : Type 0 where
  pub email : Text
  pub password : Text
  pub name : Text
  pub phone : Text

-- `handleLogin`'s answer to what `Authenticate` gives.
abbrev pub login_answer : Result UserError User → Result DeskError User
login_answer (ok u) = ok u
login_answer (err locked) = err account_locked
login_answer (err _) = err invalid_credentials

module _ (bcrypt : Bcrypt) (lower : Text → Text) where
  -- `handleCreateUser`
  unfoldable pub handle_create_user :
      User → Text → ℕ → CreateUserRequest → List UserRow → Result DeskError (User × List UserRow)
  unfolding normalize_optional_phone create_user
  handle_create_user me id salt req rows =
      let email = trim_space (lower req.email) in
      do
        lift bad_request
            (refuse_if (not (contains email (codes "@")) || ltb 200 (byte_len email)) bad_email)
        name ← lift bad_request (name_field req.name)
        lift bad_request (refuse_if (ltb (byte_len req.password) 8) bad_password)
        phone ← lift bad_request (normalize_optional_phone req.phone)
        lift refused
            (create_user bcrypt lower id salt me.store_id email req.password name phone rows)

  -- `handleLogin`, less the cookie.
  unfoldable pub handle_login :
      ℕ → Text → Text → List UserRow → Result DeskError User × List UserRow
  unfolding authenticate
  handle_login now email password rows =
      let r = authenticate bcrypt now (trim_space (lower email)) password rows in
      (login_answer r.0, r.1)

-- A write that comes after the checks of a request.
abbrev pub checked :
    {A : Type 0}
    → List StoreRow
    → Result RequestError A
    → (A → Result StoreError StoreDetail × List StoreRow)
    → Result DeskError StoreDetail × List StoreRow
checked rows (err e) f = (err (bad_request e), rows)
checked rows (ok a) f = (lift (λ e. internal_error) (f a).0, (f a).1)

module _ (cipher : Cipher) where
  -- `handleUpdateStore`
  unfoldable pub handle_update_store :
      User → StoreRequest → List StoreRow → Result DeskError StoreDetail × List StoreRow
  unfolding read_store_request update_store
  handle_update_store me req rows =
      checked rows (read_store_request req) (λ p. update_store cipher me.store_id p rows)

  -- `handleUpdatePayoutSettings`
  unfoldable pub handle_update_payout_settings :
      ℕ → User → PayoutRequest → List StoreRow → Result DeskError StoreDetail × List StoreRow
  unfolding read_payout_request update_payout_settings
  handle_update_payout_settings nonce me req rows =
      checked rows (read_payout_request req)
        (λ s. update_payout_settings cipher nonce me.store_id s rows)

  -- `payoutFor`: the templates for a store; those of the server's settings where it has no choice.
  abbrev pub templates_of : List (Text × Text) → Result StoreError StoreDetail → List (Text × Text)
  templates_of default (err e) = default
  templates_of default (ok d) =
      let tpl = template_for d.row.payout_provider d.row.payout_template in
      if is_empty d.row.payout_provider
      then default
      else if is_empty tpl
      then []
      else new_deeplink ((d.row.payout_provider, tpl) ∷ [])

  unfoldable pub payout_for : List (Text × Text) → Text → List StoreRow → List (Text × Text)
  unfolding store_by_id template_for new_deeplink
  payout_for default id rows = templates_of default (store_by_id cipher id rows)

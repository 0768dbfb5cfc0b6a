-- ===== src/Accounts/Entrance.antt =====
-- internal/httpapi/public_signup.go and cmd/setup/main.go: whether the owner of a new store can log in.
use claw_hub.Domain.Issue.{valid_store_type, normalize_store_type, store_type_string}
use claw_hub.Accounts.Setup.{
  bad_type, reset_needs, usage, password_flag, reset_password, run_setup, created, Tables, Flags,
  failed_or, create_shop,
}
use claw_hub.Prelude.{
  ◌||◌, refuse_if, ℕ, Bool, not, Option, List, ok, ◌≡◌, ◌↔◌, sym, ap, ◌∙◌, subst, bind-ok,
  ok-injective, Bool-cases, inl, inr,
}
use claw_hub.Prelude.Texts.{is_empty, Text, trim_space}
use claw_hub.Accounts.Users.{set_password, Bcrypt, User, UserRow, new_user}
use claw_hub.Accounts.Login.{authenticate}
use claw_hub.Accounts.Stores.{StoreRow, create_store_with_owner}
use claw_hub.Accounts.Desk.{handle_login, login_answer}
use claw_hub.Accounts.Signup.{SignupRequest, Draw, check_signup, owner_name, handle_signup}
use claw_hub.Accounts.Opening.{
  IsFaithful, Opened, create_store_with_owner-Opened, authenticate_new, authenticate_email,
  login_answer-ok, signup_answer-ok, failed_or-ok,
}

module _ (bcrypt : Bcrypt) (lower : Text → Text) (law : IsFaithful bcrypt) where
  -- A login finds a new account exactly where the address that is typed comes to the account's.
  Opened-login_iff :
      (user_id store_id email password name : Text) (salt : ℕ) (rows rows' : List UserRow)
      (u : User)
      → Opened bcrypt user_id store_id email password name salt rows u rows'
      → (now : ℕ) (typed : Text)
      → ((handle_login bcrypt lower now typed password rows').0 ≡ ok u)
        ↔ (trim_space (lower typed) ≡ email)
  unfolding handle_login new_user
  Opened-login_iff user_id store_id email password name salt rows rows' u o now typed = (
    λ h.
        sym (
          authenticate_email bcrypt now (trim_space (lower typed)) password rows'
            (login_answer-ok _ h))
        ∙ ap (λ x. x.email) (sym o.user),
    λ e.
        subst (λ x. login_answer (authenticate bcrypt now x password rows').0 ≡ ok u) (sym e)
          (subst (λ rs. login_answer (authenticate bcrypt now email password rs).0 ≡ ok u) o.written
            (ap login_answer (
                authenticate_new bcrypt now user_id store_id email password name o.hash rows
                  o.is_new (law salt password o.hash o.hashed))
              ∙ ap ok o.user)),
  )

  -- Where bcrypt takes a password for its own hash, whoever signs up can log in with the password right
  -- after, at any time, by every way of writing the address that comes to the same small letters.
  pub handle_signup-login :
      (open' : Bool) (is_address : Text → Bool) (draw : Draw) (req : SignupRequest)
      (db : List StoreRow × List UserRow) (now : ℕ) (typed : Text)
      {out : User × List StoreRow × List UserRow}
      → trim_space (lower typed) ≡ trim_space (lower req.email)
      → handle_signup bcrypt lower open' is_address draw req db ≡ ok out
      → (handle_login bcrypt lower now typed req.password out.2).0 ≡ ok out.0
  unfolding handle_signup
  handle_signup-login open' is_address draw req db now typed {out} e h =
      let email = trim_space (lower req.email) in
      let checked = bind-ok (check_signup open' is_address email req) _ h in
      let made = signup_answer-ok _ checked.2 in
      (Opened-login_iff draw.user_id draw.store_id email req.password (owner_name req.name)
          draw.salt db.1 out.2 out.0
          (create_store_with_owner-Opened bcrypt draw.store_id draw.user_id draw.salt
            (trim_space req.store_name) (trim_space req.phone)
            (store_type_string (normalize_store_type req.store_type)) email req.password
            (owner_name req.name) db made)
          now typed).1
        e

  reset_password-no_account :
      (salt : ℕ) (email password : Text) (db : Tables) {u : User} {tables : Tables}
      → reset_password bcrypt lower salt email password db ≡ ok (created u, tables)
      → ⊥
  unfolding reset_password
  reset_password-no_account salt email password db h =
      let given = bind-ok (refuse_if (is_empty email || is_empty password) reset_needs) _ h in
      let changed =
        bind-ok (failed_or (set_password bcrypt lower salt email password db.1)) _ given.2 in
      cc (ap (λ x. x.0) (ok-injective changed.2))

  create_shop-login_iff :
      (draw : Draw) (f : Flags) (password : Text) (db tables : Tables) (u : User) (now : ℕ)
      (typed : Text)
      → create_shop bcrypt lower draw f password db ≡ ok (created u, tables)
      → ((handle_login bcrypt lower now typed password tables.1).0 ≡ ok u)
        ↔ (trim_space (lower typed) ≡ f.email)
  unfolding create_shop
  create_shop-login_iff draw f password db tables u now typed h =
      let given =
        bind-ok (refuse_if (is_empty f.store || is_empty f.email || is_empty password) usage) _ h in
      let typed_well = bind-ok (refuse_if (not (valid_store_type f.type)) bad_type) _ given.2 in
      let made =
        bind-ok
          (failed_or (
            create_store_with_owner bcrypt draw.store_id draw.user_id draw.salt f.store f.phone
              f.type f.email password f.name db))
          _ typed_well.2 in
      let out = ok-injective made.2 in
      let user : made.0.0 ≡ u = cc (ap (λ x. x.0) out) in
      let o =
        create_store_with_owner-Opened bcrypt draw.store_id draw.user_id draw.salt f.store f.phone
          f.type f.email password f.name db (failed_or-ok _ made.1) in
      subst
        (λ v.
          ((handle_login bcrypt lower now typed password tables.1).0 ≡ ok v)
          ↔ (trim_space (lower typed) ≡ f.email))
        user
        (subst
          (λ rows.
            ((handle_login bcrypt lower now typed password rows).0 ≡ ok made.0.0)
            ↔ (trim_space (lower typed) ≡ f.email))
          (ap (λ x. x.1.1) out)
          (Opened-login_iff draw.user_id draw.store_id f.email password f.name draw.salt db.1
            made.0.2 made.0.0 o now typed))

  -- Where bcrypt takes a password for its own hash, the password opens an account that /setup makes
  -- exactly through an address whose small letters, without the spaces around them, are the address
  -- that was given to /setup: the command stores the address as it stands.
  pub run_setup-login_iff :
      (draw : Draw) (f : Flags) (stdin : Option Text) (password : Text) (db tables : Tables)
      (u : User) (at now : ℕ) (typed : Text)
      → password_flag f stdin ≡ ok password
      → run_setup bcrypt lower at draw f stdin db ≡ ok (created u, tables)
      → ((handle_login bcrypt lower now typed password tables.1).0 ≡ ok u)
        ↔ (trim_space (lower typed) ≡ f.email)
  unfolding run_setup
  run_setup-login_iff draw f stdin password db tables u at now typed pw h =
      elim (Bool-cases f.vapid_keys) [
        | inl keys ↦ absurd (cc (rw (run_setup, keys) at h))
        | inr no_keys ↦ elim (Bool-cases f.list_users) [
          | inl list ↦ absurd (cc (rw (run_setup, no_keys, list) at h))
          | inr no_list ↦ elim (Bool-cases f.reset_password) [
            | inl reset ↦ absurd (
                reset_password-no_account draw.salt f.email password db
                  (rw (run_setup, no_keys, no_list, pw, reset) at h))
            | inr make ↦
                create_shop-login_iff draw f password db tables u now typed
                  (rw (run_setup, no_keys, no_list, pw, make) at h)
          ]
        ]
      ]

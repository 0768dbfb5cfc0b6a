-- ===== src/Accounts/World.antt =====
-- internal/store/user.go: every request on the accounts as a step, and what no sequence of them
-- does.
use claw_hub.Prelude.{
  ◌>>◌, length, ap, ◌++◌, ltb, ℕ, ◌+◌, ◌≤◌, Bool, List, [], ◌∷◌, any, find?, count_if-append, ok,
  err, bind-ok, ok-injective, refuse_if, ◌≡◌, refl, sym, arith, Bool-cases, Option-cases, inl, inr,
}
use claw_hub.Prelude.Texts.{byte_len, trim_space, Text}
use claw_hub.Accounts.Users.{
  with_password, unlocked, long_password, with_profile, change_some, short_password, Bcrypt, User,
  UserRow, create_user, update_user, set_password, insert_user, new_user, change, is_staff, has_id,
  has_email, hash_or,
}
use claw_hub.Accounts.Login.{
  failed_at, after_check, check_password, authenticate, compared_row, record_login_failure,
}
use claw_hub.Accounts.Active.{
  handle_set_user_active, active_count, is_active_in, done, active_count-change,
  handle_set_user_active-HasActive,
}

-- What the accounts' requests do to the table, each one whole.
pub data Step (bcrypt : Bcrypt) (lower : Text → Text) (rows : List UserRow)
    : List UserRow → Type 0 where
  toggled :
      {rows' : List UserRow} (me : User) (id : Text) (active : Bool)
      → handle_set_user_active me id active rows ≡ (done, rows')
      → Step bcrypt lower rows rows'
  created :
      {rows' : List UserRow} {u : User} (id : Text) (salt : ℕ)
      (store_id email password name phone : Text)
      → create_user bcrypt lower id salt store_id email password name phone rows ≡ ok (u, rows')
      → Step bcrypt lower rows rows'
  edited :
      {rows' : List UserRow} {u : User} (store_id id name phone : Text)
      → update_user store_id id name phone rows ≡ ok (u, rows')
      → Step bcrypt lower rows rows'
  renewed :
      {rows' : List UserRow} (salt : ℕ) (email password : Text)
      → set_password bcrypt lower salt email password rows ≡ ok rows'
      → Step bcrypt lower rows rows'
  logged_in :
      (now : ℕ) (email password : Text)
      → Step bcrypt lower rows (authenticate bcrypt now email password rows).1

pub data Reach (bcrypt : Bcrypt) (lower : Text → Text) (rows : List UserRow)
    : List UserRow → Type 0 where
  start : Reach bcrypt lower rows rows
  next :
      {mid last : List UserRow}
      → Reach bcrypt lower rows mid
      → Step bcrypt lower mid last
      → Reach bcrypt lower rows last

insert_user-ok :
    (r : UserRow) (rows : List UserRow) {u : User} {rows' : List UserRow}
    → insert_user r rows ≡ ok (u, rows')
    → rows' ≡ rows ++ r ∷ []
unfolding insert_user
insert_user-ok r rows h = elim (Bool-cases (any (has_email r.user.email) rows)) [
  | inl e ↦ absurd (cc (rw e at h))
  | inr e ↦ sym (ap (λ p. p.1) (ok-injective (rw e at h)))
]

create_user-active :
    (bcrypt : Bcrypt) (lower : Text → Text) (id : Text) (salt : ℕ)
    (store_id email password name phone : Text) (rows : List UserRow) {u : User}
    {rows' : List UserRow} (s : Text)
    → create_user bcrypt lower id salt store_id email password name phone rows ≡ ok (u, rows')
    → active_count s rows ≤ active_count s rows'
unfolding create_user active_count
create_user-active bcrypt lower id salt store_id email password name phone rows s h =
    let row : Text → UserRow = λ hash. new_user id store_id email hash name phone in
    let b =
      bind-ok
        (refuse_if (ltb (length password) 8) short_password
          >> hash_or (bcrypt.generate salt password))
        (λ hash. insert_user (row hash) rows) h in
    let out = insert_user-ok (row b.0) rows b.2 in
    let sum = count_if-append (is_active_in s) rows (row b.0 ∷ []) in rw out (omega (arith, sum))

update_user-active :
    (store_id id name phone : Text) (rows : List UserRow) {u : User} {rows' : List UserRow}
    (s : Text)
    → update_user store_id id name phone rows ≡ ok (u, rows')
    → active_count s rows' ≡ active_count s rows
unfolding update_user is_active_in
update_user-active store_id id name phone rows {u = u} {rows' = rows'} s h =
    elim (Option-cases (find? (is_staff store_id id) rows)) [
      | inl e ↦ absurd (cc (rw (update_user, e) at h))
      | inr (r, e) ↦
          let out : rows' ≡ change (is_staff store_id id) (with_profile name phone) rows =
            sym (ap (λ p. p.1) (ok-injective (rw (update_user, e) at h))) in
          rw out (
            active_count-change s (is_staff store_id id) (with_profile name phone) (λ x. refl) rows)
    ]

change_some-ok :
    (where' : UserRow → Bool) (set : UserRow → UserRow) (rows : List UserRow) {rows' : List UserRow}
    → change_some where' set rows ≡ ok rows'
    → rows' ≡ change where' set rows
change_some-ok where' set rows h = elim (Bool-cases (any where' rows)) [
  | inl e ↦ sym (ok-injective (rw e at h))
  | inr e ↦ absurd (cc (rw e at h))
]

set_password-active :
    (bcrypt : Bcrypt) (lower : Text → Text) (salt : ℕ) (email password : Text) (rows : List UserRow)
    {rows' : List UserRow} (s : Text)
    → set_password bcrypt lower salt email password rows ≡ ok rows'
    → active_count s rows' ≡ active_count s rows
unfolding set_password is_active_in
set_password-active bcrypt lower salt email password rows s h =
    let mail = has_email (trim_space (lower email)) in
    let b =
      bind-ok
        (refuse_if (ltb (length password) 8) short_password
          >> refuse_if (ltb 72 (byte_len password)) long_password
          >> hash_or (bcrypt.generate salt password))
        (λ hash. change_some mail (with_password hash) rows) h in
    let out = change_some-ok mail (with_password b.0) rows b.2 in
    rw out (active_count-change s mail (with_password b.0) (λ x. refl) rows)

check_password-active :
    (bcrypt : Bcrypt) (now : ℕ) (password : Text) (r : UserRow) (rows : List UserRow) (s : Text)
    → active_count s (check_password bcrypt now password r rows).1 ≡ active_count s rows
unfolding record_login_failure is_active_in
check_password-active bcrypt now password r rows s =
    let by_id = has_id r.user.id in
    let failed =
      active_count-change s by_id (failed_at (r.failed_logins + 1) now) (λ x. refl) rows in
    let fine = active_count-change s by_id unlocked (λ x. refl) rows in
    elim (Bool-cases (bcrypt.compare r.password_hash password)) [
      | inr e ↦ rw e failed
      | inl e ↦ elim (Bool-cases (ltb 0 r.failed_logins)) [
        | inl f ↦ rw (e, f) fine
        | inr f ↦ rw (e, f) refl
      ]
    ]

authenticate-active :
    (bcrypt : Bcrypt) (now : ℕ) (email password : Text) (rows : List UserRow) (s : Text)
    → active_count s (authenticate bcrypt now email password rows).1 ≡ active_count s rows
unfolding authenticate
authenticate-active bcrypt now email password rows s =
    elim (compared_row now email rows)
      as (λ x. active_count s (after_check bcrypt now password rows x).1 ≡ active_count s rows) [
        | err e ↦ refl
        | ok r ↦ check_password-active bcrypt now password r rows s
      ]

step-HasActive :
    {bcrypt : Bcrypt} {lower : Text → Text} {rows rows' : List UserRow} (s : Text)
    → Step bcrypt lower rows rows'
    → 1 ≤ active_count s rows
    → 1 ≤ active_count s rows'
step-HasActive s (toggled me id active h) n = handle_set_user_active-HasActive me id active _ s h n
step-HasActive s (created id salt store_id email password name phone h) n =
    omega (arith, create_user-active _ _ id salt store_id email password name phone _ s h)
step-HasActive s (edited store_id id name phone h) n =
    omega (arith, update_user-active store_id id name phone _ s h)
step-HasActive s (renewed salt email password h) n =
    omega (arith, set_password-active _ _ salt email password _ s h)
step-HasActive s (logged_in now email password) n =
    omega (arith, authenticate-active _ now email password _ s)

-- However the requests on accounts follow one another, a store that has an active account, one that
-- nobody has turned off, still has one. The lock of fifteen minutes after five wrong passwords does
-- not count: a locked account is active.
pub Reach-HasActive :
    {bcrypt : Bcrypt} {lower : Text → Text} {rows rows' : List UserRow} (s : Text)
    → Reach bcrypt lower rows rows'
    → 1 ≤ active_count s rows
    → 1 ≤ active_count s rows'
Reach-HasActive s start n = n
Reach-HasActive s (next r h) n = step-HasActive s h (Reach-HasActive s r n)

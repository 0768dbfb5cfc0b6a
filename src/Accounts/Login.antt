-- ===== src/Accounts/Login.antt =====
-- internal/store/user.go: `Authenticate` and `recordLoginFailure`, and `handleLogin` of
-- internal/httpapi/auth.go. The two clock readings of one login are taken as one. The source reads the
-- row, compares and writes in separate statements without a transaction: `compared_row` is the read,
-- `check_password` what follows on the row that was read, on the accounts as they are then, and
-- `authenticate` both of them, where no other request comes between.
use claw_hub.Prelude.{
  ℕ, ◌+◌, Bool, false, none, some, List, find?, ltb, leb, if◌then◌else◌, Result, ok, err,
}
use claw_hub.Prelude.Texts.{Text}
use claw_hub.Accounts.Users.{
  unlocked, Bcrypt, User, UserRow, UserError, locked, not_found, has_email, has_id, change,
}

abbrev pub max_login_failures : ℕ
max_login_failures = 5

-- Fifteen minutes, in nanoseconds.
abbrev pub lock_duration : ℕ
lock_duration = 900000000000

abbrev pub failed_at : ℕ → ℕ → UserRow → UserRow
failed_at count now r = record r {
  failed_logins = count;
  locked_until = if leb max_login_failures count then some (now + lock_duration) else none;
}

-- `recordLoginFailure`
unfoldable pub record_login_failure : Text → ℕ → ℕ → List UserRow → List UserRow
unfolding has_id change
record_login_failure id count now rows = change (has_id id) (failed_at count now) rows

-- `lockedUntil != nil && lockedUntil.After(time.Now())`
unfoldable pub is_locked : ℕ → UserRow → Bool
is_locked now r = elim r.locked_until [ none ↦ false | some t ↦ ltb now t ]

-- The row that a login finds, if its password is compared with the row's hash.
unfoldable pub compared_row : ℕ → Text → List UserRow → Result UserError UserRow
unfolding is_locked has_email
compared_row now email rows = elim (find? (has_email email) rows) [
  | none ↦ err not_found
  | some r ↦ if is_locked now r then err locked else if r.user.active then ok r else err not_found
]

module _ (bcrypt : Bcrypt) where
  abbrev pub check_password :
      ℕ → Text → UserRow → List UserRow → Result UserError User × List UserRow
  check_password now password r rows =
      if bcrypt.compare r.password_hash password
      then (
        ok r.user,
        if ltb 0 r.failed_logins then change (has_id r.user.id) unlocked rows else rows,
      )
      else (err not_found, record_login_failure r.user.id (r.failed_logins + 1) now rows)

  abbrev pub after_check :
      ℕ → Text → List UserRow → Result UserError UserRow → Result UserError User × List UserRow
  after_check now password rows (err e) = (err e, rows)
  after_check now password rows (ok r) = check_password now password r rows

  -- `Authenticate`, with nothing between its read and its write.
  unfoldable pub authenticate :
      ℕ → Text → Text → List UserRow → Result UserError User × List UserRow
  unfolding compared_row record_login_failure has_id change
  authenticate now email password rows = after_check now password rows (compared_row now email rows)

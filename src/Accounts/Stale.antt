-- ===== src/Accounts/Stale.antt =====
-- internal/store/user.go: calls of `Authenticate` that overlap. Its read, its comparison and its write
-- are separate statements without a transaction, so other calls can run between them.
use claw_hub.Prelude.{
  ℕ, ◌+◌, ◌<◌, Bool, true, false, some, List, [], ◌∷◌, find?, leb, if◌then◌else◌, ok, err, ◌≡◌,
  refl, ap, subst, sym, ◌∙◌, arith, Option-cases, inl, inr, ok-injective,
}
use claw_hub.Prelude.Texts.{Text}
use claw_hub.Accounts.Users.{Bcrypt, UserRow, locked, not_found, has_email}
use claw_hub.Accounts.Login.{
  failed_at, max_login_failures, compared_row, authenticate, record_login_failure, is_locked,
  check_password,
}
use claw_hub.Accounts.Guesses.{try_outcome, stopped, wrong, right, find-change}

admitted_row :
    (is_shut is_active : Bool) (y r : UserRow)
    → (if is_shut then err locked else if is_active then ok y else err not_found) ≡ ok r
    → (y ≡ r) × (is_active ≡ true)
admitted_row true a y r h = absurd (cc h)
admitted_row false false y r h = absurd (cc h)
admitted_row false true y r h = (ok-injective h, refl)

module _ (bcrypt : Bcrypt) (email : Text) where
  -- The accounts after calls of `Authenticate`, one after another.
  unfoldable pub after_tries : List (ℕ × Text) → List UserRow → List UserRow
  unfolding authenticate
  after_tries [] rows = rows
  after_tries (t ∷ tries) rows = after_tries tries (authenticate bcrypt t.0 email t.1 rows).1

  -- No try changes who the account is of.
  after_tries-user :
      (tries : List (ℕ × Text)) (rows : List UserRow) (r : UserRow)
      → find? (has_email email) rows ≡ some r
      → (x : UserRow) × (find? (has_email email) (after_tries tries rows) ≡ some x)
        × (x.user ≡ r.user)
  unfolding after_tries
  after_tries-user [] rows r h = (r, h, refl)
  after_tries-user (t ∷ tries) rows r h =
      let next = (authenticate bcrypt t.0 email t.1 rows).1 in
      elim (try_outcome bcrypt email t.0 t.1 rows r h) [
        | stopped c o s ↦ rw s (after_tries-user tries rows r h)
        | wrong c o g ↦ after_tries-user tries next (failed_at (r.failed_logins + 1) t.0 r) g
        | right y o g z k ↦
            let (x, found, same) = after_tries-user tries next y g in (x, found, same ∙ k)
      ]

  compared-found :
      (now : ℕ) (rows : List UserRow) (r : UserRow)
      → compared_row now email rows ≡ ok r
      → (find? (has_email email) rows ≡ some r) × (r.user.active ≡ true)
  unfolding compared_row
  compared-found now rows r h = elim (Option-cases (find? (has_email email) rows)) [
    | inl n ↦ absurd (cc (rw (compared_row, n) at h))
    | inr e ↦
        let (y, f) = e in
        let (same, active) =
          admitted_row (is_locked now y) y.user.active y r (rw (compared_row, f) at h) in
        (rw f (ap some same), subst (λ z. z.user.active ≡ true) same active)
  ]

  -- A failure written to the account, if it is too few for a lock, opens it.
  compared-written :
      (now later count : ℕ) (id : Text) (rows : List UserRow) (x : UserRow)
      → find? (has_email email) rows ≡ some x
      → x.user.id ≡ id
      → x.user.active ≡ true
      → count < max_login_failures
      → compared_row later email (record_login_failure id count now rows)
        ≡ ok (failed_at count now x)
  unfolding compared_row record_login_failure is_locked
  compared-written now later count id rows x e same active few =
      let low : leb max_login_failures count ≡ false = ground arith in
      let written = find-change email (failed_at count now) rows x (λ x. refl) e in
      subst
        (λ i.
          compared_row later email (record_login_failure i count now rows)
          ≡ ok (failed_at count now x))
        same (rw (compared_row, record_login_failure, written, is_locked, low, active) refl)

  -- A wrong try that has read the account when it had fewer than four failures, and that writes its
  -- own after any other tries have run, leaves the account with one failure more than it had read and
  -- with no lock, whatever the tries between had written: the next password is compared, at any time.
  pub compared_row-stale :
      (now later : ℕ) (password : Text) (tries : List (ℕ × Text)) (rows : List UserRow)
      (r : UserRow)
      → compared_row now email rows ≡ ok r
      → r.failed_logins + 1 < max_login_failures
      → bcrypt.compare r.password_hash password ≡ false
      → (x : UserRow) × (x.failed_logins ≡ r.failed_logins + 1)
        × (compared_row later email
              (check_password bcrypt now password r (after_tries tries rows)).1
            ≡ ok x)
  compared_row-stale now later password tries rows r h few w =
      let (found, active) = compared-found now rows r h in
      let (x, e, same) = after_tries-user tries rows r found in
      (
        failed_at (r.failed_logins + 1) now x,
        refl,
        rw w (
            compared-written now later (r.failed_logins + 1) r.user.id (after_tries tries rows) x e
              (ap (λ u. u.id) same) (subst (λ u. u.active ≡ true) (sym same) active) few),
      )

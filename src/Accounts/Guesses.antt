-- ===== src/Accounts/Guesses.antt =====
-- How many passwords someone can try on one account: a sequence of calls of `Authenticate`.
use claw_hub.Prelude.{
  not, ◌&&◌, ok, ◌*◌, All-map, ℕ, ◌+◌, ◌-◌, ◌≤◌, ◌<◌, true, false, some, List, [], ◌∷◌, find?, All,
  is_ok, ltb, leb, if◌then◌else◌, ◌≡◌, refl, arith, Bool-cases, inl, inr, eq_of_some, err,
}
use claw_hub.Prelude.Texts.{Text, text_eq_refl}
use claw_hub.Accounts.Users.{
  unlocked, not_found, Bcrypt, UserRow, locked, has_email, has_id, change,
}
use claw_hub.Accounts.Login.{
  failed_at, max_login_failures, lock_duration, compared_row, authenticate, record_login_failure,
  is_locked,
}

-- What an UPDATE leaves of a row's e-mail address a login finds.
has_email-set :
    (email : Text) (set : UserRow → UserRow) (x : UserRow)
    → (set x).user.email ≡ x.user.email
    → has_email email (set x) ≡ has_email email x
unfolding has_email
has_email-set email set x k = rw k refl

has_id_self : (r : UserRow) → has_id r.user.id r ≡ true
unfolding has_id
has_id_self r = text_eq_refl r.user.id

-- An UPDATE by id that leaves the e-mail address changes the row that a login finds.
pub find-change :
    (email : Text) (set : UserRow → UserRow) (rows : List UserRow) (r : UserRow)
    → ((x : UserRow) → (set x).user.email ≡ x.user.email)
    → find? (has_email email) rows ≡ some r
    → find? (has_email email) (change (has_id r.user.id) set rows) ≡ some (set r)
unfolding change
find-change email set [] r k h = absurd (cc h)
find-change email set (x ∷ rows) r k h =
    let rest = find-change email set rows r k in
    let mail = has_email-set email set x (k x) in
    let self = has_id_self r in
    elim (Bool-cases (has_email email x)) [
      | inl e ↦
          let same : x ≡ r = eq_of_some (rw e at h) in
          let mine : has_id r.user.id x ≡ true = rw same self in rw (mine, mail, e, same) refl
      | inr e ↦ elim (Bool-cases (has_id r.user.id x)) [
        | inl i ↦ rw (i, mail, e) (rest (rw e at h))
        | inr i ↦ rw (i, e) (rest (rw e at h))
      ]
    ]

module _ (bcrypt : Bcrypt) (email : Text) where
  -- One call of `Authenticate` after another: how many passwords are compared with the account's hash
  -- and found wrong, and how many calls log in.
  unfoldable pub wrong_guesses : List (ℕ × Text) → List UserRow → ℕ
  unfolding compared_row authenticate
  wrong_guesses [] rows = 0
  wrong_guesses (t ∷ tries) rows =
      (if is_ok (compared_row t.0 email rows)
          && not (is_ok (authenticate bcrypt t.0 email t.1 rows).0)
        then 1
        else 0)
      + wrong_guesses tries (authenticate bcrypt t.0 email t.1 rows).1

  unfoldable pub logins : List (ℕ × Text) → List UserRow → ℕ
  unfolding authenticate
  logins [] rows = 0
  logins (t ∷ tries) rows =
      (if is_ok (authenticate bcrypt t.0 email t.1 rows).0 then 1 else 0)
      + logins tries (authenticate bcrypt t.0 email t.1 rows).1

  -- One try on an account that is found.
  pub data Outcome (now : ℕ) (password : Text) (rows : List UserRow) (r : UserRow) : Type 0 where
    stopped :
        is_ok (compared_row now email rows) ≡ false
        → is_ok (authenticate bcrypt now email password rows).0 ≡ false
        → (authenticate bcrypt now email password rows).1 ≡ rows
        → Outcome now password rows r
    wrong :
        is_ok (compared_row now email rows) ≡ true
        → is_ok (authenticate bcrypt now email password rows).0 ≡ false
        → find? (has_email email) (authenticate bcrypt now email password rows).1
          ≡ some (failed_at (r.failed_logins + 1) now r)
        → Outcome now password rows r
    right :
        (x : UserRow)
        → is_ok (authenticate bcrypt now email password rows).0 ≡ true
        → find? (has_email email) (authenticate bcrypt now email password rows).1 ≡ some x
        → x.failed_logins ≡ 0
        → x.user ≡ r.user
        → Outcome now password rows r

  checked :
      (now : ℕ) (password : Text) (rows : List UserRow) (r : UserRow)
      → find? (has_email email) rows ≡ some r
      → compared_row now email rows ≡ ok r
      → Outcome now password rows r
  unfolding authenticate record_login_failure
  checked now password rows r h c = elim (Bool-cases (bcrypt.compare r.password_hash password)) [
    | inr w ↦
        let out : authenticate bcrypt now email password rows
            ≡ (err not_found, record_login_failure r.user.id (r.failed_logins + 1) now rows) =
          rw (authenticate, c, w) refl in
        wrong (rw c refl) (rw out refl)
          (rw out (find-change email (failed_at (r.failed_logins + 1) now) rows r (λ x. refl) h))
    | inl w ↦ elim (Bool-cases (ltb 0 r.failed_logins)) [
      | inl f ↦
          let out : authenticate bcrypt now email password rows
              ≡ (ok r.user, change (has_id r.user.id) unlocked rows) =
            rw (authenticate, c, w, f) refl in
          right (unlocked r) (rw out refl)
            (rw out (find-change email unlocked rows r (λ x. refl) h)) refl refl
      | inr f ↦
          let out : authenticate bcrypt now email password rows ≡ (ok r.user, rows) =
            rw (authenticate, c, w, f) refl in
          right r (rw out refl) (rw out h) (ground (arith, f)) refl
    ]
  ]

  pub try_outcome :
      (now : ℕ) (password : Text) (rows : List UserRow) (r : UserRow)
      → find? (has_email email) rows ≡ some r
      → Outcome now password rows r
  unfolding compared_row authenticate
  try_outcome now password rows r h = elim (Bool-cases (is_locked now r)) [
    | inl l ↦
        let shut : compared_row now email rows ≡ err locked = rw (compared_row, h, l) refl in
        stopped (rw shut refl) (rw (authenticate, shut) refl) (rw (authenticate, shut) refl)
    | inr l ↦ elim (Bool-cases r.user.active) [
      | inr a ↦
          let off : compared_row now email rows ≡ err not_found = rw (compared_row, h, l, a) refl in
          stopped (rw off refl) (rw (authenticate, off) refl) (rw (authenticate, off) refl)
      | inl a ↦ checked now password rows r h (rw (compared_row, h, l, a) refl)
    ]
  ]

  -- Once an account is locked until the end of the window, no password is compared.
  wrong_guesses-locked :
      (end : ℕ) (tries : List (ℕ × Text)) (rows : List UserRow) (r : UserRow) (t : ℕ)
      → find? (has_email email) rows ≡ some r
      → r.locked_until ≡ some t
      → end ≤ t
      → All (λ x. x.0 < end) tries
      → wrong_guesses tries rows ≡ 0
  unfolding compared_row authenticate is_locked wrong_guesses
  wrong_guesses-locked end [] rows r t f l e h = refl
  wrong_guesses-locked end (x ∷ tries) rows r t f l e h =
      let late : ltb x.0 t ≡ true = (let small = h.0 in ground arith) in
      let rest = wrong_guesses-locked end tries rows r t f l e h.1 in
      let none_now : compared_row x.0 email rows ≡ err locked =
        rw (compared_row, f, is_locked, l, late) refl in
      rw none_now (omega (arith, rest))

  -- How many more wrong guesses an account with some failures allows.
  abbrev left : ℕ → ℕ
  left failed = if leb max_login_failures failed then 1 else max_login_failures - failed

  wrong_guesses-left :
      (start : ℕ) (tries : List (ℕ × Text)) (rows : List UserRow) (r : UserRow)
      → find? (has_email email) rows ≡ some r
      → All (λ x. (start ≤ x.0) × (x.0 < start + lock_duration)) tries
      → wrong_guesses tries rows ≤ left r.failed_logins + max_login_failures * logins tries rows
  unfolding wrong_guesses logins
  wrong_guesses-left start [] rows r f h = omega arith
  wrong_guesses-left start (x ∷ tries) rows r f h =
      let next = (authenticate bcrypt x.0 email x.1 rows).1 in
      elim (try_outcome x.0 x.1 rows r f) [
        | stopped c o s ↦ rw (c, o, s) (omega (arith, wrong_guesses-left start tries rows r f h.1))
        | right y o g z k ↦
            let rest = wrong_guesses-left start tries next y g h.1 in
            rw o (ground (arith, (rw z at rest)))
        | wrong c o g ↦ elim (Bool-cases (leb max_login_failures (r.failed_logins + 1))) [
          | inl many ↦
              let shut =
                wrong_guesses-locked (start + lock_duration) tries next
                  (failed_at (r.failed_logins + 1) x.0 r) (x.0 + lock_duration) g (rw many refl)
                  (let early = h.0.0 in omega arith) (All-map _ _ (λ t k. k.1) tries h.1) in
              rw (c, o) (ground (arith, shut))
          | inr few ↦
              let rest =
                wrong_guesses-left start tries next (failed_at (r.failed_logins + 1) x.0 r) g h.1 in
              rw (c, o) (ground (arith, rest))
        ]
      ]

  -- Of the tries, right or wrong, that are made on an account within fifteen minutes, each after the
  -- one before has finished, no more than five are compared with its password and found wrong, and no
  -- more than five further ones for each try among them that logs in, which starts the count again.
  -- This is so whatever failures the account has already.
  pub guesses-limit :
      (start : ℕ) (tries : List (ℕ × Text)) (rows : List UserRow) (r : UserRow)
      → find? (has_email email) rows ≡ some r
      → All (λ x. (start ≤ x.0) × (x.0 < start + lock_duration)) tries
      → wrong_guesses tries rows ≤ max_login_failures * (1 + logins tries rows)
  guesses-limit start tries rows r f h =
      let bound = wrong_guesses-left start tries rows r f h in ground (arith, bound)

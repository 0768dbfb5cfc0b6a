-- ===== src/Accounts/Opening.antt =====
-- internal/store/user.go: what `CreateStoreWithOwner` writes, and a login to it.
use claw_hub.Accounts.Setup.{failed_or}
use claw_hub.Prelude.{
  length, ltb, find?-passes, refuse_if, ℕ, Bool, true, false, Option, none, some, List, [], ◌∷◌,
  ◌++◌, any, find?, Result, ok, err, ◌≡◌, refl, sym, ap, ◌∙◌, arith, bind-ok, ok-injective,
  Bool-cases, inl, inr, Option-cases, String,
}
use claw_hub.Prelude.Texts.{Text, text_eq, text_eq_refl, text_eq_eq}
use claw_hub.Accounts.Users.{
  short_password, Bcrypt, User, UserRow, UserError, has_email, hash_or, new_user, insert_user,
}
use claw_hub.Accounts.Login.{authenticate, compared_row, check_password, after_check}
use claw_hub.Accounts.Stores.{StoreRow, create_store_with_owner}
use claw_hub.Accounts.Desk.{login_answer}
use claw_hub.Accounts.Signup.{signup_answer}

find?-append :
    (p : UserRow → Bool) (rows : List UserRow) (r : UserRow)
    → any p rows ≡ false
    → p r ≡ true
    → find? p (rows ++ r ∷ []) ≡ some r
find?-append p [] r n h = rw h refl
find?-append p (x ∷ rows) r n h = elim (Bool-cases (p x)) [
  | inl e ↦ absurd (cc (rw e at n))
  | inr e ↦ rw e (find?-append p rows r (rw e at n) h)
]

hash_or-ok : (o : Option Text) {h : Text} → hash_or o ≡ ok h → o ≡ some h
hash_or-ok none e = cc
hash_or-ok (some x) e = ap some (ok-injective e)

has_email-eq :
    (email : Text) (r : UserRow) → has_email email r ≡ true → text_eq r.user.email email ≡ true
unfolding has_email
has_email-eq email r h = h

module _ (bcrypt : Bcrypt) where
  -- What bcrypt promises: a password fits its own hash.
  abbrev pub IsFaithful : Type 0
  IsFaithful =
      (salt : ℕ) (password hash : Text)
      → bcrypt.generate salt password ≡ some hash
      → bcrypt.compare hash password ≡ true

  -- The account of a new store, as it is written.
  pub record Opened (user_id store_id email password name : Text) (salt : ℕ) (rows : List UserRow)
      (u : User) (rows' : List UserRow) : Type 0 where
    pub hash : Text
    pub hashed : bcrypt.generate salt password ≡ some hash
    pub is_new : any (has_email email) rows ≡ false
    pub user : (new_user user_id store_id email hash name []).user ≡ u
    pub written : rows ++ new_user user_id store_id email hash name [] ∷ [] ≡ rows'

  insert_user-ok :
      (r : UserRow) (rows : List UserRow) {out : User × List UserRow}
      → insert_user r rows ≡ ok out
      → (any (has_email r.user.email) rows ≡ false) × ((r.user, rows ++ r ∷ []) ≡ out)
  unfolding insert_user
  insert_user-ok r rows h = elim (Bool-cases (any (has_email r.user.email) rows)) [
    | inl e ↦ absurd (cc (rw (insert_user, e) at h))
    | inr e ↦ (e, ok-injective (rw (insert_user, e) at h))
  ]

  pub create_store_with_owner-Opened :
      (store_id user_id : Text) (salt : ℕ) (name phone : Text) (type : String)
      (email password owner : Text) (db : List StoreRow × List UserRow)
      {out : User × List StoreRow × List UserRow}
      → create_store_with_owner bcrypt store_id user_id salt name phone type email password owner db
        ≡ ok out
      → Opened user_id store_id email password owner salt db.1 out.0 out.2
  unfolding create_store_with_owner new_user
  create_store_with_owner-Opened store_id user_id salt name phone type email password owner db h =
      let long = bind-ok (refuse_if (ltb (length password) 8) short_password) _ h in
      let hash = bind-ok (hash_or (bcrypt.generate salt password)) _ long.2 in
      let r = new_user user_id store_id email hash.0 owner [] in
      let made = bind-ok (insert_user r db.1) _ hash.2 in
      let row = insert_user-ok r db.1 made.1 in
      let out = ok-injective made.2 in
      record {
        hash = hash.0;
        hashed = hash_or-ok _ hash.1;
        is_new = row.0;
        user = ap (λ p. p.0) row.1 ∙ ap (λ o. o.0) out;
        written = ap (λ p. p.1) row.1 ∙ ap (λ o. o.2) out;
      }

  compared_new :
      (now : ℕ) (email : Text) (rows : List UserRow) (user_id store_id hash name : Text)
      → find? (has_email email) rows ≡ some (new_user user_id store_id email hash name [])
      → compared_row now email rows ≡ ok (new_user user_id store_id email hash name [])
  unfolding compared_row new_user
  compared_new now email rows user_id store_id hash name e = rw (compared_row, e) refl

  -- A login with the address and the password of a new account.
  pub authenticate_new :
      (now : ℕ) (user_id store_id email password name hash : Text) (rows : List UserRow)
      → any (has_email email) rows ≡ false
      → bcrypt.compare hash password ≡ true
      → (authenticate bcrypt now email password
          (rows ++ new_user user_id store_id email hash name [] ∷ [])).0
        ≡ ok (new_user user_id store_id email hash name []).user
  unfolding authenticate new_user
  authenticate_new now user_id store_id email password name hash rows n fits =
      let r = new_user user_id store_id email hash name [] in
      let found : find? (has_email email) (rows ++ r ∷ []) ≡ some r =
        find?-append (has_email email) rows r n (text_eq_refl email) in
      let compared : compared_row now email (rows ++ r ∷ []) ≡ ok r =
        compared_new now email (rows ++ r ∷ []) user_id store_id hash name found in
      rw (authenticate, compared, fits) refl

  checked_user :
      (now : ℕ) (password : Text) (r : UserRow) (rows : List UserRow) {u : User}
      → (check_password bcrypt now password r rows).0 ≡ ok u
      → r.user ≡ u
  checked_user now password r rows h = elim (Bool-cases (bcrypt.compare r.password_hash password)) [
    | inl e ↦ ok-injective (rw e at h)
    | inr e ↦ absurd (cc (rw e at h))
  ]

  compared_email :
      (now : ℕ) (email : Text) (rows : List UserRow) {r : UserRow}
      → compared_row now email rows ≡ ok r
      → r.user.email ≡ email
  unfolding compared_row
  compared_email now email rows h = elim (Option-cases (find? (has_email email) rows)) [
    | inl e ↦ absurd (cc (rw (compared_row, e) at h))
    | inr (x, e) ↦
        let opened = rw (compared_row, e) at h in
        let own = text_eq_eq x.user.email email (has_email-eq email x (find?-passes _ rows e)) in
        ground (arith, own, opened)
  ]

  checked_email :
      (now : ℕ) (email password : Text) (rows : List UserRow) (c : Result UserError UserRow)
      {u : User}
      → compared_row now email rows ≡ c
      → (after_check bcrypt now password rows c).0 ≡ ok u
      → u.email ≡ email
  checked_email now email password rows (err e) k h = absurd (cc h)
  checked_email now email password rows (ok r) k h =
      ap (λ x. x.email) (sym (checked_user now password r rows h)) ∙ compared_email now email rows k

  pub authenticate_email :
      (now : ℕ) (email password : Text) (rows : List UserRow) {u : User}
      → (authenticate bcrypt now email password rows).0 ≡ ok u
      → u.email ≡ email
  unfolding authenticate
  authenticate_email now email password rows h =
      checked_email now email password rows (compared_row now email rows) refl h

pub login_answer-ok : (r : Result UserError User) {u : User} → login_answer r ≡ ok u → r ≡ ok u
login_answer-ok (ok v) h = ap ok (ok-injective h)
login_answer-ok (err e) h = absurd (ground arith)

pub signup_answer-ok :
    {A : Type 0} (r : Result UserError A) {a : A} → signup_answer r ≡ ok a → r ≡ ok a
signup_answer-ok (ok v) h = ap ok (ok-injective h)
signup_answer-ok (err e) h = absurd (ground arith)

pub failed_or-ok : {A : Type 0} (r : Result UserError A) {a : A} → failed_or r ≡ ok a → r ≡ ok a
failed_or-ok (ok v) h = ap ok (ok-injective h)
failed_or-ok (err e) h = absurd (cc h)

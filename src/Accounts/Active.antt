-- ===== src/Accounts/Active.antt =====
-- internal/store/user.go: `SetUserActive`, and `handleSetUserActive` of
-- internal/httpapi/admin_settings.go. The count of the other active accounts and the UPDATE are two
-- statements with no transaction around them, so other requests may come between (`check_active` and
-- `write_active`).
use claw_hub.Prelude.{
  ap, count_if-map, refuse-ok, bind-ok, ok-injective, sym, ℕ, ◌≤◌, Bool, true, false, not, ◌&&◌,
  List, [], ◌∷◌, any, map, count_if, ◌==◌, if◌then◌else◌, Result, ok, err, ◌>>◌, refuse_if, ◌≡◌,
  refl, arith, Bool-cases, inl, inr,
}
use claw_hub.Prelude.Texts.{text_eq_eq, Text, text_eq}
use claw_hub.Accounts.Users.{
  User, UserRow, UserError, last_account, not_found, is_staff, change, change_some,
}

-- `store_id=$1 AND active`, and with `AND id <> $2`.
unfoldable pub is_active_in : Text → UserRow → Bool
is_active_in store_id r = text_eq r.user.store_id store_id && r.user.active

unfoldable pub is_other_active : Text → Text → UserRow → Bool
unfolding is_active_in
is_other_active store_id id r = is_active_in store_id r && not (text_eq r.user.id id)

-- The accounts of a store that are not turned off, the locked ones among them: the column that
-- `SetUserActive` counts.
unfoldable pub active_count : Text → List UserRow → ℕ
active_count store_id rows = count_if (is_active_in store_id) rows

-- `SetUserActive` up to the UPDATE.
unfoldable pub check_active : Text → Text → Bool → List UserRow → Result UserError (Unit {0})
unfolding is_other_active
check_active store_id id active rows =
    refuse_if (not active && count_if (is_other_active store_id id) rows == 0) last_account

-- Its UPDATE.
unfoldable pub write_active : Text → Text → Bool → List UserRow → Result UserError (List UserRow)
unfolding is_staff change
write_active store_id id active rows =
    change_some (is_staff store_id id)
      (λ r. record r { user = record (r.user) { active = active } }) rows

-- `SetUserActive`, where no other request comes between.
unfoldable pub set_user_active : Text → Text → Bool → List UserRow → Result UserError (List UserRow)
unfolding check_active write_active
set_user_active store_id id active rows =
    check_active store_id id active rows >> write_active store_id id active rows

pub data Reply : Type 0 where
  done missing refused : Reply

abbrev answer : List UserRow → Result UserError (List UserRow) → Reply × List UserRow
answer rows (ok rows') = (done, rows')
answer rows (err not_found) = (missing, rows)
answer rows (err _) = (refused, rows)

-- `handleSetUserActive`, once the body is read.
unfoldable pub handle_set_user_active : User → Text → Bool → List UserRow → Reply × List UserRow
unfolding set_user_active
handle_set_user_active me id active rows =
    if text_eq id me.id && not active
    then (refused, rows)
    else answer rows (set_user_active me.store_id id active rows)

-- An UPDATE that leaves store and state of every row alone leaves the count.
pub active_count-change :
    (store_id : Text) (where' : UserRow → Bool) (set : UserRow → UserRow)
    → ((r : UserRow) → is_active_in store_id (set r) ≡ is_active_in store_id r)
    → (rows : List UserRow)
    → active_count store_id (change where' set rows) ≡ active_count store_id rows
unfolding active_count change
active_count-change store_id where' set k [] = refl
active_count-change store_id where' set k (r ∷ rows) =
    let rest = active_count-change store_id where' set k rows in
    let here = k r in ground (arith, rest, here)

abbrev turn : Bool → UserRow → UserRow
turn active r = record r { user = record (r.user) { active = active } }

-- What its UPDATE makes of a row.
unfoldable pub turned : Text → Text → Bool → UserRow → UserRow
turned store_id id active r = if is_staff store_id id r then turn active r else r

-- Turning an account on leaves every active one active.
turned-on :
    (store_id id s : Text) (r : UserRow)
    → is_active_in s r ≡ true
    → is_active_in s (turned store_id id true r) ≡ true
unfolding turned is_active_in
turned-on store_id id s r h = ground arith

-- Turning one off leaves the store's others active.
turned-off :
    (store_id id : Text) (r : UserRow)
    → is_other_active store_id id r ≡ true
    → is_active_in store_id (turned store_id id false r) ≡ true
unfolding turned is_staff is_active_in is_other_active
turned-off store_id id r h = ground arith

-- Turning one off leaves those of other stores as they are.
turned-elsewhere :
    (store_id id s : Text) (r : UserRow)
    → text_eq store_id s ≡ false
    → is_active_in s r ≡ true
    → is_active_in s (turned store_id id false r) ≡ true
unfolding turned is_staff is_active_in
turned-elsewhere store_id id s r n h = elim (Bool-cases (is_staff store_id id r)) [
  | inr e ↦ rw e h
  | inl e ↦
      let a : text_eq r.user.store_id store_id ≡ true = ground arith in
      let b : text_eq r.user.store_id s ≡ true = ground arith in
      let c : text_eq store_id s ≡ true = rw (text_eq_eq r.user.store_id store_id a) at b in
      absurd (cc (n, c))
]

-- `SetUserActive` as a map of the rows.
write_active-ok :
    (store_id id : Text) (active : Bool) (rows : List UserRow) {rows' : List UserRow}
    → write_active store_id id active rows ≡ ok rows'
    → rows' ≡ map (turned store_id id active) rows
unfolding write_active turned change
write_active-ok store_id id active rows h = elim (Bool-cases (any (is_staff store_id id) rows)) [
  | inl e ↦ sym (ok-injective (rw e at h))
  | inr e ↦ absurd (cc (rw e at h))
]

-- The other active accounts that a request to turn one off has counted.
check_active-ok :
    (store_id id : Text) (rows : List UserRow) {u : Unit {0}}
    → check_active store_id id false rows ≡ ok u
    → 1 ≤ count_if (is_other_active store_id id) rows
unfolding check_active
check_active-ok store_id id rows h =
    let free = refuse-ok (count_if (is_other_active store_id id) rows == 0) last_account h in
    ground (arith, free)

pub set_user_active-HasActive :
    (store_id id : Text) (active : Bool) (rows : List UserRow) {rows' : List UserRow} (s : Text)
    → set_user_active store_id id active rows ≡ ok rows'
    → 1 ≤ active_count s rows
    → 1 ≤ active_count s rows'
unfolding set_user_active active_count
set_user_active-HasActive store_id id true rows s h n =
    let b =
      bind-ok (check_active store_id id true rows) (λ u. write_active store_id id true rows) h in
    let more =
      count_if-map (is_active_in s) (is_active_in s) (turned store_id id true)
        (turned-on store_id id s) rows in
    let out = write_active-ok store_id id true rows b.2 in rw out (omega (arith, more))
set_user_active-HasActive store_id id false rows s h n =
    let b =
      bind-ok (check_active store_id id false rows) (λ u. write_active store_id id false rows) h in
    let others = check_active-ok store_id id rows b.1 in
    let out = write_active-ok store_id id false rows b.2 in
    rw out (elim (Bool-cases (text_eq store_id s)) [
      | inr e ↦
          let kept =
            count_if-map (is_active_in s) (is_active_in s) (turned store_id id false)
              (λ r. turned-elsewhere store_id id s r e) rows in
          omega (arith, kept)
      | inl e ↦
          let kept =
            count_if-map (is_other_active store_id id) (is_active_in store_id)
              (turned store_id id false) (turned-off store_id id) rows in
          rw (sym (text_eq_eq store_id s e)) (omega (arith, kept))
    ])

answer-done :
    (rows : List UserRow) (r : Result UserError (List UserRow)) {rows' : List UserRow}
    → answer rows r ≡ (done, rows')
    → r ≡ ok rows'
answer-done rows (ok x) h = ap ok (ap (λ p. p.1) h)
answer-done rows (err not_found) h = absurd (cc (ap (λ p. p.0) h))
answer-done rows (err _) h = absurd (cc (ap (λ p. p.0) h))

pub handle_set_user_active-HasActive :
    (me : User) (id : Text) (active : Bool) (rows : List UserRow) {rows' : List UserRow} (s : Text)
    → handle_set_user_active me id active rows ≡ (done, rows')
    → 1 ≤ active_count s rows
    → 1 ≤ active_count s rows'
unfolding handle_set_user_active
handle_set_user_active-HasActive me id active rows s h n =
    elim (Bool-cases (text_eq id me.id && not active)) [
      | inl e ↦ absurd (cc (rw e at h))
      | inr e ↦
          set_user_active-HasActive me.store_id id active rows s
            (answer-done rows (set_user_active me.store_id id active rows) (rw e at h)) n
    ]

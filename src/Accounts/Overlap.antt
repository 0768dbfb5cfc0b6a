-- ===== src/Accounts/Overlap.antt =====
-- internal/store/user.go: two calls of `SetUserActive` that overlap, as its count and its UPDATE are
-- separate statements.
use claw_hub.Prelude.{
  ◌∙◌, ◌==◌, ◌≤◌, Bool, true, false, not, ◌&&◌, List, any, any-map, map, count_if, count_if-map_le,
  ok, ◌≡◌, refl, arith,
}
use claw_hub.Prelude.Texts.{Text, text_eq}
use claw_hub.Accounts.Users.{UserRow, is_staff, change}
use claw_hub.Accounts.Active.{
  check_active, write_active, turned, active_count, is_active_in, is_other_active,
}

-- The active accounts of a store besides two.
unfoldable pub is_third : Text → Text → Text → UserRow → Bool
unfolding is_other_active
is_third store_id a b r = is_other_active store_id a r && not (text_eq r.user.id b)

prepare_others :
    (store_id id : Text) (rows : List UserRow)
    → 1 ≤ count_if (is_other_active store_id id) rows
    → check_active store_id id false rows ≡ ok tt
unfolding check_active
prepare_others store_id id rows h =
    let some_left : (count_if (is_other_active store_id id) rows == 0) ≡ false = ground arith in
    rw some_left refl

commit_found :
    (store_id id : Text) (rows : List UserRow)
    → any (is_staff store_id id) rows ≡ true
    → write_active store_id id false rows ≡ ok (map (turned store_id id false) rows)
unfolding write_active change turned
commit_found store_id id rows h = rw h refl

turned-staff :
    (store_id a b : Text) (r : UserRow)
    → is_staff store_id b (turned store_id a false r) ≡ is_staff store_id b r
unfolding turned is_staff
turned-staff store_id a b r = ground arith

last-IsOther :
    (store_id b : Text) (r : UserRow)
    → is_active_in store_id (turned store_id b false r) ≡ true
    → is_other_active store_id b r ≡ true
unfolding turned is_staff is_active_in is_other_active
last-IsOther store_id b r h = ground arith

mid-IsThird :
    (store_id a b : Text) (r : UserRow)
    → is_other_active store_id b (turned store_id a false r) ≡ true
    → is_third store_id a b r ≡ true
unfolding turned is_staff is_active_in is_other_active is_third
mid-IsThird store_id a b r h = ground arith

-- Both requests pass their counts on these rows, both writes go through, and no account that can log
-- in is left.
abbrev pub CanBeLockedOut : Text → Text → Text → List UserRow → Type 0
CanBeLockedOut store_id a b rows =
    (mid : List UserRow) × (last : List UserRow) × (check_active store_id a false rows ≡ ok tt)
    × (check_active store_id b false rows ≡ ok tt)
    × (write_active store_id a false rows ≡ ok mid)
    × (write_active store_id b false mid ≡ ok last)
    × (active_count store_id last ≡ 0)

-- If two accounts are the only active ones of their store and each is turned off by a request that
-- counts before the other one writes, both requests succeed, and no account of the store can log in.
pub overlap-none :
    (store_id a b : Text) (rows : List UserRow)
    → any (is_staff store_id a) rows ≡ true
    → any (is_staff store_id b) rows ≡ true
    → 1 ≤ count_if (is_other_active store_id a) rows
    → 1 ≤ count_if (is_other_active store_id b) rows
    → count_if (is_third store_id a b) rows ≡ 0
    → CanBeLockedOut store_id a b rows
unfolding active_count
overlap-none store_id a b rows ha hb oa ob none_left =
    let mid = map (turned store_id a false) rows in
    let last = map (turned store_id b false) mid in
    (
      mid,
      last,
      prepare_others store_id a rows oa,
      prepare_others store_id b rows ob,
      commit_found store_id a rows ha,
      commit_found store_id b mid (
          any-map (is_staff store_id b) (turned store_id a false) (turned-staff store_id a b) rows
          ∙ hb),
      (let after =
            count_if-map_le (is_other_active store_id b) (is_active_in store_id)
              (turned store_id b false) (last-IsOther store_id b) mid in
          let before =
            count_if-map_le (is_third store_id a b) (is_other_active store_id b)
              (turned store_id a false) (mid-IsThird store_id a b) rows in
          omega (arith, after, before)),
    )

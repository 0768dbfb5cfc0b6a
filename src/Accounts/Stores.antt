-- ===== src/Accounts/Stores.antt =====
-- internal/store/user.go: the table stores, and `CreateStoreWithOwner`. AES is a parameter; a text is
-- encrypted with a nonce, which comes in as an argument. No account is the empty text.
use claw_hub.Prelude.{
  refl, sym, ◌≡◌, ok-injective, Option-cases, inl, inr, find?-any, find?-set, ok-injective, sym,
  inr, find?-set, inl, Option-cases, find?-any, ◌≡◌, ℕ, Bool, true, false, String, Option, none,
  some, List, [], ◌∷◌, ◌++◌, map, any, find?, ltb, length, if◌then◌else◌, Result, ok, err, ◌>>=◌,
  ◌>>◌, refuse_if,
}
use claw_hub.Prelude.Texts.{Text, text_eq, is_empty}
use claw_hub.Domain.Issue.{StoreType, normalize_store_type}
use claw_hub.Accounts.Users.{
  Bcrypt, User, UserRow, UserError, short_password, hash_or, new_user, insert_user,
}

-- `StoreProfile`; no store type is the empty text.
pub record StoreProfile : Type 0 where
  pub name : Text
  pub phone : Text
  pub store_type : Option StoreType
  pub region_code : Text
  pub region_detail : Text
  pub biz_no : Text

-- `PayoutSettings`
pub record PayoutSettings : Type 0 where
  pub provider : Text
  pub template : Text
  pub bank_code : Text
  pub account : Text

-- A row of `stores`.
pub record StoreRow : Type 0 where
  pub id : Text
  pub name : Text
  pub phone : Text
  pub store_type : StoreType
  pub region_code : Text
  pub region_detail : Text
  pub biz_no : Text
  pub payout_provider : Text
  pub payout_template : Text
  pub payout_bank_code : Text
  pub payout_account_enc : Text

-- `StoreDetail`: a row with its account decrypted.
pub record StoreDetail : Type 0 where
  pub row : StoreRow
  pub payout_account : Text

-- `Cipher` of internal/crypto.
pub record Cipher : Type 0 where
  pub encrypt : ℕ → Text → Option Text
  pub decrypt : Text → Option Text

pub data StoreError : Type 0 where
  not_found bad_cipher : StoreError

unfoldable pub is_store : Text → StoreRow → Bool
is_store id r = text_eq r.id id

-- An UPDATE of `stores`, of which `RowsAffected` must not be 0.
unfoldable pub change_store :
    Text → (StoreRow → StoreRow) → List StoreRow → Result StoreError (List StoreRow)
unfolding is_store
change_store id set rows =
    if any (is_store id) rows
    then ok (map (λ r. if is_store id r then set r else r) rows)
    else err not_found

abbrev pub kept_type : Option StoreType → StoreType → StoreType
kept_type none old = old
kept_type (some new) old = new

-- The SET clauses of `UpdateStore` and `UpdatePayoutSettings`.
abbrev pub with_store_profile : StoreProfile → StoreRow → StoreRow
with_store_profile p r = record r {
  name = p.name;
  phone = p.phone;
  region_code = p.region_code;
  region_detail = p.region_detail;
  biz_no = p.biz_no;
  store_type = kept_type p.store_type r.store_type;
}

abbrev pub with_payout : PayoutSettings → Text → StoreRow → StoreRow
with_payout s account_enc r = record r {
  payout_provider = s.provider;
  payout_template = s.template;
  payout_bank_code = s.bank_code;
  payout_account_enc = account_enc;
}

abbrev pub decrypted : Option Text → Result StoreError Text
decrypted none = err bad_cipher
decrypted (some s) = ok s

abbrev pub row_or : Option StoreRow → Result StoreError StoreRow
row_or none = err not_found
row_or (some r) = ok r

module _ (cipher : Cipher) where
  -- The account in a column; an empty column is no account.
  abbrev pub open_account : Text → Result StoreError Text
  open_account enc = if is_empty enc then ok [] else decrypted (cipher.decrypt enc)

  -- `StoreByID`
  unfoldable pub store_by_id : Text → List StoreRow → Result StoreError StoreDetail
  unfolding is_store
  store_by_id id rows = do
    r ← row_or (find? (is_store id) rows)
    account ← open_account r.payout_account_enc
    ok (record { row = r; payout_account = account })

  -- The read after an UPDATE, which stays written whatever the read gives.
  abbrev pub read_back :
      Text
      → List StoreRow
      → Result StoreError (List StoreRow)
      → Result StoreError StoreDetail × List StoreRow
  read_back id rows (err e) = (err e, rows)
  read_back id rows (ok rows') = (store_by_id id rows', rows')

  -- `UpdateStore`
  unfoldable pub update_store :
      Text → StoreProfile → List StoreRow → Result StoreError StoreDetail × List StoreRow
  unfolding change_store store_by_id
  update_store id p rows = read_back id rows (change_store id (with_store_profile p) rows)

  -- What is written for an account.
  abbrev pub close_account : ℕ → Text → Result StoreError Text
  close_account nonce s = if is_empty s then ok [] else decrypted (cipher.encrypt nonce s)

  -- `UpdatePayoutSettings`
  unfoldable pub update_payout_settings :
      ℕ → Text → PayoutSettings → List StoreRow → Result StoreError StoreDetail × List StoreRow
  unfolding change_store store_by_id
  update_payout_settings nonce id s rows =
      read_back id rows
        (close_account nonce s.account >>= λ enc. change_store id (with_payout s enc) rows)

  -- What AES promises: what is encrypted is not empty and is decrypted again.
  abbrev pub IsCipher : Type 0
  IsCipher =
      (nonce : ℕ) (s e : Text)
      → cipher.encrypt nonce s ≡ some e
      → (cipher.decrypt e ≡ some s) × (is_empty e ≡ false)

  open-close :
      (nonce : ℕ) (s enc : Text)
      → IsCipher
      → close_account nonce s ≡ ok enc
      → open_account enc ≡ ok s
  open-close nonce [] enc law h = rw (sym (ok-injective h)) refl
  open-close nonce (c ∷ s) enc law h = elim (Option-cases (cipher.encrypt nonce (c ∷ s))) [
    | inl n ↦ absurd (cc (rw n at h))
    | inr (x, n) ↦
        let same : x ≡ enc = ok-injective (rw n at h) in
        let l = law nonce (c ∷ s) x n in rw (sym same, l.1, l.0) refl
  ]

  -- The reply and the next reader of the store get the settings that are given.
  abbrev pub IsStored : ℕ → Text → PayoutSettings → List StoreRow → Type 0
  IsStored nonce id s rows =
      (d : StoreDetail) × ((update_payout_settings nonce id s rows).0 ≡ ok d)
      × (store_by_id id (update_payout_settings nonce id s rows).1 ≡ ok d)
      × (d.payout_account ≡ s.account)
      × (d.row.payout_provider ≡ s.provider)
      × (d.row.payout_template ≡ s.template)
      × (d.row.payout_bank_code ≡ s.bank_code)

  -- The settings of an owner's transfers are stored as they are given, with the account encrypted:
  -- whoever reads the store next gets each of them back, and so does the reply.
  pub update_payout_settings-read :
      (nonce : ℕ) (id enc : Text) (s : PayoutSettings) (rows : List StoreRow)
      → IsCipher
      → close_account nonce s.account ≡ ok enc
      → any (is_store id) rows ≡ true
      → IsStored nonce id s rows
  unfolding update_payout_settings change_store store_by_id is_store
  update_payout_settings-read nonce id enc s rows law h found =
      let f = find?-any (is_store id) rows found in
      let set = with_payout s enc in
      let after = find?-set (is_store id) set (λ r. refl) rows f.1 in
      let account = open-close nonce s.account enc law h in
      (
        record { row = set f.0; payout_account = s.account },
        rw (h, found, after, account) refl,
        rw (h, found, after, account) refl,
        refl,
        refl,
        refl,
        refl,
      )

-- The row that the INSERT of `CreateStoreWithOwner` writes.
unfoldable pub new_store : Text → Text → Text → StoreType → StoreRow
new_store id name phone type = record {
  id = id;
  name = name;
  phone = phone;
  store_type = type;
  region_code = [];
  region_detail = [];
  biz_no = [];
  payout_provider = [];
  payout_template = [];
  payout_bank_code = [];
  payout_account_enc = [];
}

-- `CreateStoreWithOwner`: both rows or none.
unfoldable pub create_store_with_owner :
    Bcrypt
    → Text
    → Text
    → ℕ
    → Text
    → Text
    → String
    → Text
    → Text
    → Text
    → List StoreRow × List UserRow
    → Result UserError (User × List StoreRow × List UserRow)
unfolding new_store new_user insert_user
create_store_with_owner bcrypt store_id id salt name phone type email password owner db = do
  refuse_if (ltb (length password) 8) short_password
  hash ← hash_or (bcrypt.generate salt password)
  u ← insert_user (new_user id store_id email hash owner []) db.1
  ok (u.0, db.0 ++ new_store store_id name phone (normalize_store_type type) ∷ [], u.1)

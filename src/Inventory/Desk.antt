-- ===== src/Inventory/Desk.antt =====
-- internal/httpapi/admin_inventory.go: `parsePurchaseForm`, `handleCreatePurchase` and
-- `handleCountInventory`. What the replies add for the screen, the cost of the purchase before and the
-- stock, is left out. `parse_date` is `time.ParseInLocation` with the layout and the zone of the source.
use claw_hub.Prelude.{
  ◌++◌, ◌∷◌, ℕ, Bool, true, false, not, ◌||◌, Option, none, some, List, [], length, ltb, take,
  if◌then◌else◌, Result, ok, err, refuse_if, ◌>>=◌, ◌>>◌,
}
use claw_hub.Prelude.Decimal.{atoi}
use claw_hub.Prelude.Int.{ℤ, pos, pos_part}
use claw_hub.Prelude.Texts.{Text, is_empty, trim_space, byte_len}
use claw_hub.Intake.Photos.{Upload, ImageType, Media, collect_photos, write_photos, cleanup_photos}
use claw_hub.Inventory.Cost.{PurchaseInput, validate_purchase, is_count}
use claw_hub.Inventory.Ledger.{
  Books, Purchase, CreatePurchaseInput, LedgerError, not_found, duplicate, failed, create_purchase,
  adjust_inventory,
}

-- The form's values.
pub record PurchaseFields : Type 0 where
  pub name : Text
  pub vendor : Text
  pub unit_price_krw : Text
  pub qty : Text
  pub shipping_krw : Text
  pub purchased_at : Text

pub data Refusal : Type 0 where
  bad_request : Refusal

abbrev or_bad : {A : Type 0} → Option A → Result Refusal A
or_bad none = err bad_request
or_bad (some a) = ok a

abbrev accept : {E A : Type 0} → Result E A → Result Refusal A
accept (ok a) = ok a
accept (err _) = err bad_request

-- `num`: nothing is 0.
unfoldable pub number_field : Text → Result Refusal ℤ
number_field s = if is_empty (trim_space s) then ok (pos 0) else or_bad (atoi (trim_space s))

-- The date; nothing is the time of the request.
unfoldable pub date_field : (Text → Option ℕ) → ℕ → Text → Result Refusal ℕ
date_field parse_date now s =
    if is_empty (trim_space s) then ok now else or_bad (parse_date (trim_space s))

-- `parsePurchaseForm`
unfoldable pub parse_purchase_form :
    (Text → Option ℕ) → ℕ → PurchaseFields → Result Refusal PurchaseInput
unfolding number_field date_field
parse_purchase_form parse_date now f = do
  unit ← number_field f.unit_price_krw
  qty ← number_field f.qty
  shipping ← number_field f.shipping_krw
  at ← date_field parse_date now f.purchased_at
  let p : PurchaseInput = record {
    name = trim_space f.name;
    vendor = trim_space f.vendor;
    unit_price_krw = unit;
    qty = qty;
    shipping_krw = shipping;
    purchased_at = at;
  }
  accept (validate_purchase p now)
  ok p

-- The request, and the user of its session.
pub record PurchaseRequest : Type 0 where
  pub store_id : ℕ
  pub user_id : ℕ
  pub key : Text
  pub is_multipart : Bool
  pub fields : PurchaseFields
  pub files : List Upload

-- What a run is given from outside: the clock, the id that the database comes up with, names for
-- photos, which writes and deletes of the storage succeed, whether the database carries out its statements, and the
-- purchases of transactions under way, which the unique index knows and a SELECT does not see.
pub record Luck : Type 0 where
  pub now : ℕ
  pub id : ℕ
  pub keys : List Text
  pub put_ok : Text → Bool
  pub delete_ok : Text → Bool
  pub stores : Bool
  pub pending : List Purchase

pub record Stock : Type 0 where
  pub books : Books
  pub media : Media

pub data Reply : Type 0 where
  refused internal missing counted : Reply
  existing : Purchase → Reply
  created : Purchase → Reply

-- The checks before the first write: the purchase, and its receipt.
unfoldable pub check_purchase :
    (Text → Option ℕ) → ℕ → PurchaseRequest → Result Refusal (PurchaseInput × List ImageType)
unfolding parse_purchase_form
check_purchase parse_date now req = do
  refuse_if (is_empty (trim_space req.key) || ltb 200 (byte_len (trim_space req.key))) bad_request
  refuse_if (not req.is_multipart) bad_request
  p ← parse_purchase_form parse_date now req.fields
  photos ← accept (collect_photos req.files)
  refuse_if (ltb 1 (length photos)) bad_request
  ok (p, photos)

-- The key of a receipt, if one was written.
abbrev pub receipt : List Text → Text
receipt (k ∷ []) = k
receipt _ = []

-- The numbers of a purchase that passed the checks are not negative.
unfoldable pub purchase_input : PurchaseRequest → PurchaseInput → List Text → CreatePurchaseInput
purchase_input req p keys = record {
  store_id = req.store_id;
  user_id = req.user_id;
  name = p.name;
  vendor = p.vendor;
  unit_price_krw = pos_part p.unit_price_krw;
  qty = pos_part p.qty;
  shipping_krw = pos_part p.shipping_krw;
  purchased_at = p.purchased_at;
  receipt_key = receipt keys;
  key = trim_space req.key;
}

-- What the handler does with what `CreatePurchase` returns, given the storage with the receipt and the
-- storage cleaned of it.
abbrev pub settle :
    Stock → Media → Media → Result LedgerError (Purchase × Bool × Books) → Reply × Stock
settle s kept clean (err _) = (internal, record s { media = clean })
settle s kept clean (ok (p, true, books)) = (existing p, record { books = books; media = clean })
settle s kept clean (ok (p, false, books)) = (created p, record { books = books; media = kept })

module _ (lower : ℕ → ℕ) where
  -- The receipt and the purchase.
  unfoldable pub write_purchase :
      PurchaseRequest → PurchaseInput → List ImageType → Luck → Stock → Reply × Stock
  unfolding purchase_input
  write_purchase req p photos c s =
      let out = write_photos c.put_ok (take (length photos) c.keys) s.media in
      let clean = cleanup_photos c.delete_ok out.keys out.media in
      if out.complete
      then settle s out.media clean (
          create_purchase lower (purchase_input req p out.keys) c.id c.now c.stores
            (c.pending ++ s.books.purchases) s.books)
      else (internal, record s { media = clean })

  abbrev pub go_on :
      PurchaseRequest
      → Luck
      → Stock
      → Result Refusal (PurchaseInput × List ImageType)
      → Reply × Stock
  go_on req c s (err _) = (refused, s)
  go_on req c s (ok (p, photos)) = write_purchase req p photos c s

  -- `handleCreatePurchase`
  unfoldable pub handle_create_purchase :
      (Text → Option ℕ) → PurchaseRequest → Luck → Stock → Reply × Stock
  unfolding check_purchase write_purchase
  handle_create_purchase parse_date req c s = go_on req c s (check_purchase parse_date c.now req)

-- `countRequest`
pub record CountRequest : Type 0 where
  pub counted_qty : ℤ
  pub note : Text

abbrev after_count : Stock → Result LedgerError Books → Reply × Stock
after_count s (ok books) = (counted, record s { books = books })
after_count s (err not_found) = (missing, s)
after_count s (err duplicate) = (internal, s)
after_count s (err failed) = (internal, s)

-- `handleCountInventory`, once the body is read.
unfoldable pub handle_count_inventory : ℕ → ℕ → Text → CountRequest → ℕ → Stock → Reply × Stock
handle_count_inventory store user key req now s =
    if not (is_count req.counted_qty) || ltb 200 (length req.note)
    then (refused, s)
    else after_count s
        (adjust_inventory store user key (pos_part req.counted_qty) req.note now s.books)

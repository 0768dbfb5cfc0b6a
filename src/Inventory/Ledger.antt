-- ===== src/Inventory/Ledger.antt =====
-- internal/store/inventory.go: the tables purchases and inventory_adjustments, whose checks keep every
-- quantity and price at 0 or above, so they are natural numbers; the columns are of 32 bits, and what
-- does not fit them is an error of the database. Each table has its newest row first, the order of
-- created_at. The sums are of 64 bits and stay far below.
use claw_hub.Prelude.{
  suc, leb, not, ℕ, ◌+◌, ◌*◌, ◌/◌, Bool, true, false, ◌&&◌, Option, none, some, List, [], ◌∷◌,
  find?, any, keep, length, ltb, ◌==◌, if◌then◌else◌, Result, ok, err,
}
use claw_hub.Prelude.Int.{ℤ, pos, ◌-ℤ◌}
use claw_hub.Prelude.Texts.{Text, text_eq, trim_space}
use claw_hub.Market.Listing.{name_key}

-- A row of `purchases`; the costs that `fillCost` adds when it is read are those of Inventory.Cost.
pub record Purchase : Type 0 where
  pub id : ℕ
  pub store_id : ℕ
  pub created_by : ℕ
  pub name : Text
  pub name_key : Text
  pub vendor : Text
  pub unit_price_krw : ℕ
  pub qty : ℕ
  pub shipping_krw : ℕ
  pub purchased_at : ℕ
  pub receipt_key : Text
  pub key : Text
  pub created_at : ℕ

-- A row of `inventory_adjustments`.
pub record Adjustment : Type 0 where
  pub store_id : ℕ
  pub created_by : ℕ
  pub name_key : Text
  pub delta : ℤ
  pub counted_qty : ℕ
  pub note : Text
  pub created_at : ℕ

pub record Books : Type 0 where
  pub purchases : List Purchase
  pub adjustments : List Adjustment

pub data LedgerError : Type 0 where
  not_found duplicate failed : LedgerError

-- What a column of type `int` can hold, of the numbers that are not negative.
abbrev pub max_int4 : ℕ
max_int4 = 2147483647

abbrev pub fits_int4 : ℕ → Bool
fits_int4 n = leb n max_int4

-- `CreatePurchaseInput`
pub record CreatePurchaseInput : Type 0 where
  pub store_id : ℕ
  pub user_id : ℕ
  pub name : Text
  pub vendor : Text
  pub unit_price_krw : ℕ
  pub qty : ℕ
  pub shipping_krw : ℕ
  pub purchased_at : ℕ
  pub receipt_key : Text
  pub key : Text

unfoldable pub has_key : ℕ → Text → Purchase → Bool
has_key store key p = p.store_id == store && text_eq p.key key

-- `purchaseByIdempotencyKey`
unfoldable pub purchase_by_key : ℕ → Text → List Purchase → Option Purchase
unfolding has_key
purchase_by_key store key ps = find? (has_key store key) ps

unfoldable pub new_purchase : (ℕ → ℕ) → CreatePurchaseInput → ℕ → ℕ → Purchase
new_purchase lower in' id now = record {
  id = id;
  store_id = in'.store_id;
  created_by = in'.user_id;
  name = trim_space in'.name;
  name_key = name_key lower in'.name;
  vendor = trim_space in'.vendor;
  unit_price_krw = in'.unit_price_krw;
  qty = in'.qty;
  shipping_krw = in'.shipping_krw;
  purchased_at = in'.purchased_at;
  receipt_key = in'.receipt_key;
  key = in'.key;
  created_at = now;
}

-- The numbers of a purchase fit their columns.
abbrev pub fits_columns : CreatePurchaseInput → Bool
fits_columns in' = fits_int4 in'.unit_price_krw && fits_int4 in'.qty && fits_int4 in'.shipping_krw

-- What `CreatePurchase` makes of its second read, after an INSERT that gave no row.
abbrev pub or_duplicate : Books → Option Purchase → Result LedgerError (Purchase × Bool × Books)
or_duplicate books none = err duplicate
or_duplicate books (some p) = ok (p, true, books)

-- `CreatePurchase`, on whether the database carries out its statements (`stores`), what the unique
-- index knows (`indexed`, with the rows of transactions not yet committed) and what the SELECT sees:
-- the purchase, whether it was there before, and the tables.
unfoldable pub create_purchase :
    (ℕ → ℕ)
    → CreatePurchaseInput
    → ℕ
    → ℕ
    → Bool
    → List Purchase
    → Books
    → Result LedgerError (Purchase × Bool × Books)
unfolding has_key purchase_by_key new_purchase
create_purchase lower in' id now stores indexed books =
    if not (stores && fits_columns in')
    then err failed
    else if any (has_key in'.store_id in'.key) indexed
    then or_duplicate books (purchase_by_key in'.store_id in'.key books.purchases)
    else let p = new_purchase lower in' id now in
      ok (p, false, record books { purchases = p ∷ books.purchases })

abbrev pub is_of : ℕ → Text → Purchase → Bool
is_of store key p = p.store_id == store && text_eq p.name_key key

-- SUM(qty) and SUM(unit_price_krw * qty + shipping_krw)
abbrev pub sum_qty : List Purchase → ℕ
sum_qty [] = 0
sum_qty (p ∷ ps) = p.qty + sum_qty ps

abbrev pub sum_spent : List Purchase → ℕ
sum_spent [] = 0
sum_spent (p ∷ ps) = p.unit_price_krw * p.qty + p.shipping_krw + sum_spent ps

-- The subquery `counted`: the latest count of an item.
unfoldable pub last_count : ℕ → Text → List Adjustment → Option Adjustment
last_count store key rows = find? (λ a. a.store_id == store && text_eq a.name_key key) rows

-- qty_on_hand of `inventorySelect`
unfoldable pub qty_on_hand : List Purchase → Option Adjustment → ℕ
qty_on_hand items none = sum_qty items
qty_on_hand items (some a) =
    a.counted_qty + sum_qty (keep (λ p. ltb a.created_at p.created_at) items)

-- `InventoryRow`, but for what it says of the last purchase, with the sum `spent` of its query.
pub record InventoryRow : Type 0 where
  pub name_key : Text
  pub qty_on_hand : ℕ
  pub qty_bought : ℕ
  pub spent : ℕ
  pub avg_unit_cost_krw : ℕ
  pub value_krw : ℕ
  pub purchase_count : ℕ

-- The sums of `scanInventory`; an item without a purchase has no row, so nothing is divided by 0.
unfoldable pub scan_inventory : Text → List Purchase → ℕ → InventoryRow
scan_inventory key items on_hand =
    let bought = sum_qty items in
    let spent = sum_spent items in
    record {
      name_key = key;
      qty_on_hand = on_hand;
      qty_bought = bought;
      spent = spent;
      avg_unit_cost_krw = if ltb 0 bought then (spent + bought / 2) / bought else 0;
      value_krw =
          if ltb 0 bought && ltb 0 on_hand then (spent * on_hand + bought / 2) / bought else 0;
      purchase_count = length items;
    }

-- What the query computes of one purchase, in 32 bits: `unit_price_krw * qty + shipping_krw`.
abbrev pub fits_cost : Purchase → Bool
fits_cost p = fits_int4 (p.unit_price_krw * p.qty + p.shipping_krw)

-- `InventoryItem`, whose query fails where the cost of a purchase of the item does not fit.
unfoldable pub inventory_item : ℕ → Text → Books → Result LedgerError InventoryRow
unfolding last_count qty_on_hand scan_inventory
inventory_item store key books =
    let items = keep (is_of store key) books.purchases in
    if length items == 0
    then err not_found
    else if any (λ p. not (fits_cost p)) items
    then err failed
    else ok (scan_inventory key items (qty_on_hand items (last_count store key books.adjustments)))

-- What `AdjustInventory` writes fits its columns: the count, and the difference to the stock.
abbrev pub fits_count : ℕ → ℕ → Bool
fits_count counted on_hand =
    fits_int4 counted && leb counted (on_hand + max_int4) && leb on_hand (counted + suc max_int4)

-- `AdjustInventory`
unfoldable pub adjust_inventory : ℕ → ℕ → Text → ℕ → Text → ℕ → Books → Result LedgerError Books
unfolding inventory_item
adjust_inventory store user key counted note now books = elim (inventory_item store key books) [
  | err e ↦ err e
  | ok cur ↦
      if fits_count counted cur.qty_on_hand
      then ok (record books {
        adjustments =
            (record {
              store_id = store;
              created_by = user;
              name_key = key;
              delta = pos counted -ℤ pos cur.qty_on_hand;
              counted_qty = counted;
              note = trim_space note;
              created_at = now;
            })
            ∷ books.adjustments;
      })
      else err failed
]

-- ===== src/Tests/Stores.antt =====
-- A post of the market with two reports, the ledger of one doll, and a client that keeps knocking.
use claw_hub.Prelude.{ℕ, take, zero, suc, none, true, [], ◌∷◌, ◌≡◌, ◌≤◌, refl, ok, arith, List}
use claw_hub.Prelude.Int.{◌-ℤ◌, pos}
use claw_hub.Prelude.Texts.{codes, trim_space}
use claw_hub.Market.Listing.{sell}
use claw_hub.Market.Board.{Db, Post, Report, Shop, open_post, listing_by_id, seen_by}
use claw_hub.Market.Fairness.{report_listing-IsFair}
use claw_hub.Market.Reports.{
  report_listing, IsFair, IsCounted, HasOneReportEach, contacts_today, contact_for, same_report,
  count_report, take_down,
}
use claw_hub.Market.Desk.{handle_listing_contact}
use claw_hub.Intake.Photos.{IsFresh}
use claw_hub.Inventory.Desk.{PurchaseRequest, Luck, Stock, handle_create_purchase}
use claw_hub.Inventory.Once.{IsBooked, handle_create_purchase-IsBooked}
use claw_hub.Inventory.Ledger.{
  Books, Purchase, InventoryRow, adjust_inventory, inventory_item, last_count, qty_on_hand,
  scan_inventory,
}
use claw_hub.Inventory.Counted.{IsCountOf, adjust_inventory-on_hand}
use claw_hub.Limits.Memory.{admitted, admitted-limit, admits, incr, live, ip_claims_per_hour}

abbrev post : Post
post = record {
  id = 7;
  store_id = 1;
  created_by = 4;
  name = codes "bear";
  name_key = codes "bear";
  kind = sell;
  qty = pos 3;
  unit_price_krw = pos 2000;
  note = [];
  region_code = codes "seoul";
  region_detail = [];
  status = open_post;
  created_at = 10;
  expires_at = 1000;
  closed_at = none;
  report_count = 2;
}

abbrev report_of : ℕ → Report
report_of store = record { listing_id = 7; reporter_store_id = store; reason = [] }

abbrev board : Db
board = record {
  shops = record { id = 1; name = codes "A"; phone = codes "01012345678"; biz_no = [] } ∷ [];
  posts = post ∷ [];
  contacts = [];
  reports = report_of 2 ∷ report_of 3 ∷ [];
}

-- The third report takes the post down.
abbrev board_after : Db
board_after = record board {
  posts = take_down 7 50 (count_report 7 post) ∷ [];
  reports = record { listing_id = 7; reporter_store_id = 5; reason = codes "fake" } ∷ board.reports;
}

third_report : report_listing 7 5 (codes " fake ") 50 board ≡ ok (true, board_after)
unfolding report_listing same_report count_report take_down trim_space
third_report = refl

board-IsFair : IsFair board
unfolding IsFair IsCounted HasOneReportEach same_report
board-IsFair = ((refl, (refl, tt)), ((refl, refl), tt))

report_listing-IsFair_example : IsFair board_after
report_listing-IsFair_example =
    report_listing-IsFair 7 5 (codes " fake ") 50 board board_after true board-IsFair third_report

abbrev shop : Shop
shop = record { id = 1; name = codes "A"; phone = codes "01012345678"; biz_no = [] }

abbrev board_called : Db
board_called = record board {
  contacts =
      record { listing_id = 7; viewer_store_id = 2; viewer_user_id = 8; created_at = 50 } ∷ [];
}

first_call : handle_listing_contact 7 2 8 50 board ≡ ok (shop, 29, board_called)
unfolding handle_listing_contact listing_by_id seen_by contacts_today contact_for
first_call = refl

-- Ten dolls at 2,000 won and 500 won of shipping.
abbrev purchase : Purchase
purchase = record {
  id = 1;
  store_id = 1;
  created_by = 4;
  name = codes "bear";
  name_key = codes "bear";
  vendor = [];
  unit_price_krw = 2000;
  qty = 10;
  shipping_krw = 500;
  purchased_at = 5;
  receipt_key = [];
  key = codes "k";
  created_at = 6;
}

abbrev books : Books
books = record { purchases = purchase ∷ []; adjustments = [] }

abbrev books_counted : Books
books_counted = record books {
  adjustments =
      record {
        store_id = 1;
        created_by = 4;
        name_key = codes "bear";
        delta = pos 7 -ℤ pos 10;
        counted_qty = 7;
        note = [];
        created_at = 20;
      }
      ∷ [];
}

a_count : adjust_inventory 1 4 (codes "bear") 7 [] 20 books ≡ ok books_counted
unfolding adjust_inventory inventory_item last_count qty_on_hand scan_inventory trim_space
a_count = refl

adjust_inventory-on_hand_example : IsCountOf 1 (codes "bear") 7 books books_counted
adjust_inventory-on_hand_example =
    adjust_inventory-on_hand 1 4 (codes "bear") 7 [] 20 books books_counted (omega arith, tt)
      a_count

abbrev bear_row : InventoryRow
bear_row = record {
  name_key = codes "bear";
  qty_on_hand = 10;
  qty_bought = 10;
  spent = 20500;
  avg_unit_cost_krw = 2050;
  value_krw = 20500;
  purchase_count = 1;
}

bear_in_stock : inventory_item 1 (codes "bear") books ≡ ok bear_row
unfolding inventory_item last_count qty_on_hand scan_inventory
bear_in_stock = refl

-- Twelve requests in one window of ten.
abbrev knocks : List ℕ
knocks = 1 ∷ 2 ∷ 3 ∷ 4 ∷ 5 ∷ 6 ∷ 7 ∷ 8 ∷ 9 ∷ 10 ∷ 11 ∷ []

ten_of_twelve : admitted 10 (codes "ip") 100 (0 ∷ knocks) [] ≡ 10
unfolding admitted admits incr live
ten_of_twelve = refl

admitted-limit_example : admitted ip_claims_per_hour (codes "ip") 100 (0 ∷ knocks) [] ≤ 10
unfolding live
admitted-limit_example = admitted-limit ip_claims_per_hour (codes "ip") 100 0 knocks [] refl (
  omega arith,
  (
    omega arith,
    (
      omega arith,
      (
        omega arith,
        (
          omega arith,
          (
            omega arith,
            (omega arith, (omega arith, (omega arith, (omega arith, (omega arith, tt))))),
          ),
        ),
      ),
    ),
  ),
)

abbrev purchase_request : PurchaseRequest
purchase_request = record {
  store_id = 1;
  user_id = 4;
  key = codes "k";
  is_multipart = true;
  fields = record {
    name = codes "bear";
    vendor = [];
    unit_price_krw = codes "2000";
    qty = codes "10";
    shipping_krw = [];
    purchased_at = [];
  };
  files = [];
}

abbrev no_luck : Luck
no_luck = record {
  now = 300000000000000000;
  id = 9;
  keys = [];
  put_ok = λ k. true;
  delete_ok = λ k. true;
  stores = true;
  pending = [];
}

abbrev bare : Stock
bare = record { books = record { purchases = []; adjustments = [] }; media = [] }

no_names : (n : ℕ) → IsFresh (take n []) []
unfolding IsFresh
no_names zero = tt
no_names (suc n) = tt

handle_create_purchase-IsBooked_example :
    IsBooked
      (λ x. x)
      (λ t. none)
      purchase_request
      no_luck
      bare
      (handle_create_purchase (λ x. x) (λ t. none) purchase_request no_luck bare)
handle_create_purchase-IsBooked_example =
    handle_create_purchase-IsBooked (λ x. x) (λ t. none) purchase_request no_luck bare (λ k. refl)
      no_names

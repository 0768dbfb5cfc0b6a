-- ===== src/Inventory/Counted.antt =====
-- internal/store/inventory.go: what `AdjustInventory` leaves, as `InventoryItem` reads it.
use claw_hub.Prelude.{
  ok-injective, All-keep, ==_iff, subst, inr, inl, ℕ, ◌+◌, ◌≤◌, List, [], ◌∷◌, any, keep, length,
  ltb, not, ◌==◌, ok, ◌≡◌, refl, arith, All, Bool-cases,
}
use claw_hub.Prelude.Int.{pos, ◌-ℤ◌, ◌+ℤ◌}
use claw_hub.Prelude.Texts.{text_eq_refl, Text, trim_space}
use claw_hub.Inventory.Ledger.{
  Purchase, Adjustment, Books, InventoryRow, is_of, sum_qty, last_count, qty_on_hand,
  scan_inventory, fits_cost, inventory_item, fits_count, adjust_inventory,
}

-- The sum of the purchases later than a time that none is later than.
sum-none :
    (now : ℕ) (ps : List Purchase)
    → All (λ p. p.created_at ≤ now) ps
    → sum_qty (keep (λ p. ltb now p.created_at) ps) ≡ 0
sum-none now [] h = refl
sum-none now (p ∷ ps) h = ground (arith, sum-none now ps h.1, h.0)

-- Where a count is on record, with what it was before and what it is afterwards.
pub record IsCountOf (store : ℕ) (key : Text) (counted : ℕ) (books books' : Books) : Type 0 where
  pub before : InventoryRow
  pub after : InventoryRow
  pub line : Adjustment
  pub was : inventory_item store key books ≡ ok before
  pub is : inventory_item store key books' ≡ ok after
  pub stock : after.qty_on_hand ≡ counted
  pub written : books'.adjustments ≡ line ∷ books.adjustments
  pub bought : books'.purchases ≡ books.purchases
  pub count : line.counted_qty ≡ counted
  pub difference : pos before.qty_on_hand +ℤ line.delta ≡ pos counted

difference-adds : (a b : ℕ) → pos b +ℤ (pos a -ℤ pos b) ≡ pos a
unfolding ◌+ℤ◌ ◌-ℤ◌
difference-adds a b = ground arith

-- A count that is recorded makes the stock what was counted, whatever the books said before: the one
-- line that it adds has the count and the difference, so that the stock before and the difference
-- come to the count, and the item then has as many as were counted. No purchase is later than it.
pub adjust_inventory-on_hand :
    (store user : ℕ) (key : Text) (counted : ℕ) (note : Text) (now : ℕ) (books books' : Books)
    → All (λ p. p.created_at ≤ now) books.purchases
    → adjust_inventory store user key counted note now books ≡ ok books'
    → IsCountOf store key counted books books'
unfolding adjust_inventory inventory_item last_count qty_on_hand scan_inventory
adjust_inventory-on_hand store user key counted note now books books' h k =
    let items = keep (is_of store key) books.purchases in
    let last = last_count store key books.adjustments in
    let on_hand = qty_on_hand items last in
    elim (Bool-cases (length items == 0)) [
      | inl e ↦ absurd (cc (rw (adjust_inventory, inventory_item, e) at k))
      | inr e ↦ elim (Bool-cases (any (λ p. not (fits_cost p)) items)) [
        | inl f ↦ absurd (cc (rw (adjust_inventory, inventory_item, e, f) at k))
        | inr f ↦ elim (Bool-cases (fits_count counted on_hand)) [
          | inr g ↦ absurd (cc (rw (adjust_inventory, inventory_item, e, f, g) at k))
          | inl g ↦
              let late = sum-none now items (All-keep _ (is_of store key) books.purchases h) in
              subst (IsCountOf store key counted books)
                (ok-injective (rw (adjust_inventory, inventory_item, e, f, g) at k))
                (record {
                  before = scan_inventory key items on_hand;
                  after =
                      scan_inventory key items
                        (counted + sum_qty (keep (λ p. ltb now p.created_at) items));
                  line = record {
                    store_id = store;
                    created_by = user;
                    name_key = key;
                    delta = pos counted -ℤ pos on_hand;
                    counted_qty = counted;
                    note = trim_space note;
                    created_at = now;
                  };
                  was = rw (e, f) refl;
                  is = rw (e, f, (==_iff store store).1 refl, text_eq_refl key) refl;
                  stock = omega (arith, late);
                  written = refl;
                  bought = refl;
                  count = refl;
                  difference = difference-adds counted on_hand;
                })
        ]
      ]
    ]

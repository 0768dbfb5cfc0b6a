-- ===== src/Inventory/Cost.antt =====
-- internal/domain/purchase.go: what a purchase costs, and `ValidatePurchase` and
-- `ValidateAdjustment`. An `int` wraps at 64 bits; a time is the nanoseconds since Go's zero time, so
-- that the zero time is 0.
use native.Mathlib.Nat.{div-mul-le_self, lt-div-mul-add}
use claw_hub.Prelude.{
  ℕ, suc, ◌+◌, ◌*◌, ◌/◌, ◌≤◌, ◌<◌, Bool, false, length, ltb, leb, ◌==◌, if◌then◌else◌, Result,
  refuse_if, ◌>>◌, ◌≡◌, refl, arith,
}
use claw_hub.Prelude.Int.{
  eq_of_parts, wrap64_id, ◌-ℤ◌, ℤ, pos, negsuc, ◌+ℤ◌, ◌*ℤ◌, wrap64, ltb_ℤ, leb_ℤ, pos_part,
}
use claw_hub.Prelude.Texts.{Text, is_empty, trim_space}

-- Go's `/`, which rounds towards 0, for a divisor above zero.
unfoldable pub quotient : ℤ → ℕ → ℤ
quotient (pos n) d = pos (n / d)
quotient (negsuc n) d = pos 0 -ℤ pos (suc n / d)

-- `TotalCostKRW`
unfoldable pub total_cost_krw : ℤ → ℤ → ℤ → ℤ
total_cost_krw unit qty shipping = wrap64 (wrap64 (unit *ℤ qty) +ℤ shipping)

-- `UnitCostKRW`
unfoldable pub unit_cost_krw : ℤ → ℤ → ℤ → ℤ
unfolding total_cost_krw quotient
unit_cost_krw unit qty shipping =
    if leb_ℤ qty (pos 0)
    then pos 0
    else quotient (wrap64 (total_cost_krw unit qty shipping +ℤ quotient qty 2)) (pos_part qty)

-- `PurchaseInput`
pub record PurchaseInput : Type 0 where
  pub name : Text
  pub vendor : Text
  pub unit_price_krw : ℤ
  pub qty : ℤ
  pub shipping_krw : ℤ
  pub purchased_at : ℕ

pub data PurchaseError : Type 0 where
  no_name long_name long_vendor bad_qty bad_price bad_shipping no_date in_future too_old :
      PurchaseError

-- `maxPurchaseAge`: 5 · 365 · 24 hours.
abbrev pub max_purchase_age : ℕ
max_purchase_age = 157680000000000000

-- `clockSkewAllowance`: 24 hours.
abbrev pub clock_skew_allowance : ℕ
clock_skew_allowance = 86400000000000

-- `ValidatePurchase`
unfoldable pub validate_purchase : PurchaseInput → ℕ → Result PurchaseError (Unit {0})
validate_purchase in' now = do
  refuse_if (is_empty (trim_space in'.name)) no_name
  refuse_if (ltb 80 (length in'.name)) long_name
  refuse_if (ltb 80 (length in'.vendor)) long_vendor
  refuse_if (leb_ℤ in'.qty (pos 0)) bad_qty
  refuse_if (ltb_ℤ in'.unit_price_krw (pos 0)) bad_price
  refuse_if (ltb_ℤ in'.shipping_krw (pos 0)) bad_shipping
  refuse_if (in'.purchased_at == 0) no_date
  refuse_if (ltb (now + clock_skew_allowance) in'.purchased_at) in_future
  refuse_if (ltb (in'.purchased_at + max_purchase_age) now) too_old

-- `ValidateAdjustment`: whether a count is accepted.
unfoldable pub is_count : ℤ → Bool
is_count n = leb_ℤ (pos 0) n

*ℤ-pos : (a b : ℕ) → pos a *ℤ pos b ≡ pos (a * b)
unfolding ◌*ℤ◌
*ℤ-pos a b = eq_of_parts _ _ (grind arith)

+ℤ-pos : (a b : ℕ) → pos a +ℤ pos b ≡ pos (a + b)
unfolding ◌+ℤ◌
+ℤ-pos a b = ground arith

wrap-pos : (n : ℕ) → n < 9223372036854775808 → wrap64 (pos n) ≡ pos n
wrap-pos n h = wrap64_id (pos n) (h, omega arith)

-- Within 64 bits the total is the price times the quantity plus the shipping.
total_cost_krw-pos :
    (unit qty shipping : ℕ)
    → unit * qty + shipping < 9223372036854775808
    → total_cost_krw (pos unit) (pos qty) (pos shipping) ≡ pos (unit * qty + shipping)
unfolding total_cost_krw
total_cost_krw-pos unit qty shipping h =
    rw (*ℤ-pos unit qty, wrap-pos (unit * qty) (omega (arith, h)), +ℤ-pos (unit * qty) shipping)
      (wrap-pos (unit * qty + shipping) h)

unit_cost_krw-pos :
    (unit qty shipping : ℕ)
    → 0 < qty
    → unit * qty + shipping + qty < 9223372036854775808
    → unit_cost_krw (pos unit) (pos qty) (pos shipping)
      ≡ pos ((unit * qty + shipping + qty / 2) / qty)
unfolding unit_cost_krw quotient
unit_cost_krw-pos unit qty shipping h b =
    let above : leb (qty + 0) 0 ≡ false = ground arith in
    rw
      (
        above,
        total_cost_krw-pos unit qty shipping (omega (arith, b)),
        +ℤ-pos (unit * qty + shipping) (qty / 2),
        wrap-pos (unit * qty + shipping + qty / 2) (omega (arith, b)),
      )
      refl

-- For a purchase whose sums fit into 64 bits the cost of one doll is the true cost, rounded to the
-- nearest won, halves up.
pub unit_cost_krw_rounded :
    (unit qty shipping : ℕ)
    → 0 < qty
    → unit * qty + shipping + qty < 9223372036854775808
    → (c : ℕ) × (unit_cost_krw (pos unit) (pos qty) (pos shipping) ≡ pos c)
      × (2 * (c * qty) ≤ 2 * (unit * qty + shipping) + qty)
      × (2 * (unit * qty + shipping) < 2 * (c * qty) + qty + 1)
unit_cost_krw_rounded unit qty shipping h b =
    let total = unit * qty + shipping in
    let c = (total + qty / 2) / qty in
    let low = div-mul-le_self (total + qty / 2) qty in
    let high = lt-div-mul-add {a = total + qty / 2} {b = qty} h in
    (c, unit_cost_krw-pos unit qty shipping h b, omega (arith, low), omega (arith, high))

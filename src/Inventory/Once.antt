-- ===== src/Inventory/Once.antt =====
-- internal/httpapi/admin_inventory.go: what `handleCreatePurchase` leaves, in each of its outcomes.
use claw_hub.Prelude.Int.{pos_part}
use claw_hub.Prelude.{
  none, some, true, ◌++◌, ◌&&◌, Bool, ℕ, false, Option, List, ◌∷◌, take, length, Result, ok, err,
  ◌≡◌, refl, any, ◌⊎◌, inl, inr, Bool-cases,
}
use claw_hub.Prelude.Texts.{Text, trim_space}
use claw_hub.Intake.Photos.{Media, ImageType, write_photos, cleanup-write, IsFresh}
use claw_hub.Inventory.Cost.{PurchaseInput}
use claw_hub.Inventory.Ledger.{
  or_duplicate, fits_columns, Purchase, has_key, new_purchase, create_purchase, purchase_by_key,
}
use claw_hub.Inventory.Desk.{
  receipt, internal, settle, PurchaseRequest, Luck, Stock, Reply, created, purchase_input,
  write_purchase, handle_create_purchase, check_purchase, Refusal, go_on,
}

unfoldable pub is_created : Reply → Bool
is_created (created p) = true
is_created _ = false

-- Nothing is added and no purchase is announced, and the books and the storage are as they were.
abbrev pub IsUnchanged : Stock → Reply × Stock → Type 0
IsUnchanged s out = (is_created out.0 ≡ false) × (out.1 ≡ s)

module _ (lower : ℕ → ℕ) (parse_date : Text → Option ℕ) (req : PurchaseRequest) (c : Luck)
    (s : Stock) where
  -- One purchase is added, with the values of the request's form, and the storage has its receipt.
  pub record IsAdded (out : Reply × Stock) : Type 0 where
    pub form : PurchaseInput
    pub photos : List ImageType
    pub added : Purchase
    pub checked : check_purchase parse_date c.now req ≡ ok (form, photos)
    pub fresh :
        any (has_key req.store_id (trim_space req.key)) (c.pending ++ s.books.purchases) ≡ false
    pub whole : (write_photos c.put_ok (take (length photos) c.keys) s.media).complete ≡ true
    pub answer : out.0 ≡ created added
    pub booked : out.1.books ≡ record (s.books) { purchases = added ∷ s.books.purchases }
    pub stored : out.1.media ≡ (write_photos c.put_ok (take (length photos) c.keys) s.media).media
    pub whose :
        (added.store_id ≡ req.store_id)
        × (added.created_by ≡ req.user_id)
        × (added.key ≡ trim_space req.key)
    pub what :
        (added.name ≡ trim_space form.name)
        × (added.vendor ≡ trim_space form.vendor)
        × (added.unit_price_krw ≡ pos_part form.unit_price_krw)
        × (added.qty ≡ pos_part form.qty)
        × (added.shipping_krw ≡ pos_part form.shipping_krw)
        × (added.purchased_at ≡ form.purchased_at)
    pub receipted :
        added.receipt_key
        ≡ receipt (write_photos c.put_ok (take (length photos) c.keys) s.media).keys

  unfoldable pub IsBooked : Reply × Stock → Type 0
  IsBooked out = IsUnchanged s out ⊎ IsAdded out

  old-IsUnchanged :
      (kept : Media) (o : Option Purchase)
      → IsUnchanged s (settle s kept s.media (or_duplicate s.books o))
  unfolding is_created
  old-IsUnchanged kept none = (refl, refl)
  old-IsUnchanged kept (some p) = (refl, refl)

  failed-IsUnchanged :
      (media : Media) → media ≡ s.media → IsUnchanged s (internal, record s { media = media })
  unfolding is_created
  failed-IsUnchanged media h = (refl, rw h refl)

  write_purchase-IsBooked :
      (p : PurchaseInput) (photos : List ImageType)
      → check_purchase parse_date c.now req ≡ ok (p, photos)
      → ((k : Text) → c.delete_ok k ≡ true)
      → IsFresh (take (length photos) c.keys) s.media
      → IsBooked (write_purchase lower req p photos c s)
  unfolding write_purchase create_purchase purchase_input new_purchase IsBooked
  write_purchase-IsBooked p photos checked del fresh =
      let out = write_photos c.put_ok (take (length photos) c.keys) s.media in
      let clean =
        cleanup-write c.put_ok c.delete_ok (take (length photos) c.keys) s.media del fresh in
      let key = has_key req.store_id (trim_space req.key) in
      let in' = purchase_input req p out.keys in
      elim (Bool-cases out.complete) [
        | inr e ↦ inl (rw e (failed-IsUnchanged _ clean))
        | inl e ↦ elim (Bool-cases (c.stores && fits_columns in')) [
          | inr f ↦ inl (rw (e, f) (failed-IsUnchanged _ clean))
          | inl f ↦ elim (Bool-cases (any key (c.pending ++ s.books.purchases))) [
            | inl old ↦ inl (
                rw (e, f, old, clean)
                  (old-IsUnchanged out.media
                    (purchase_by_key req.store_id (trim_space req.key) s.books.purchases)))
            | inr new ↦ inr (record {
              form = p;
              photos = photos;
              checked = checked;
              fresh = new;
              whole = e;
              added = new_purchase lower in' c.id c.now;
              answer = rw (e, f, new) refl;
              booked = rw (e, f, new) refl;
              stored = rw (e, f, new) refl;
              whose = (refl, refl, refl);
              what = (refl, refl, refl, refl, refl, refl);
              receipted = refl;
            })
          ]
        ]
      ]

  go_on-IsBooked :
      (checked : Result Refusal (PurchaseInput × List ImageType))
      → check_purchase parse_date c.now req ≡ checked
      → ((k : Text) → c.delete_ok k ≡ true)
      → ((n : ℕ) → IsFresh (take n c.keys) s.media)
      → IsBooked (go_on lower req c s checked)
  unfolding IsBooked is_created
  go_on-IsBooked (err e) h del fresh = inl (refl, refl)
  go_on-IsBooked (ok (p, photos)) h del fresh =
      write_purchase-IsBooked p photos h del (fresh (length photos))

  -- Where a purchase is answered as created, the request passed the checks, neither the books nor a
  -- transaction under way had one with its store and key, and what is added is the purchase of the
  -- request's form, with its receipt in the storage. In every other case, a retry, a photo that cannot
  -- be written and an INSERT that fails included, the books and the storage are as they were before.
  -- The storage has none of the new names, and no delete fails.
  pub handle_create_purchase-IsBooked :
      ((k : Text) → c.delete_ok k ≡ true)
      → ((n : ℕ) → IsFresh (take n c.keys) s.media)
      → IsBooked (handle_create_purchase lower parse_date req c s)
  unfolding handle_create_purchase
  handle_create_purchase-IsBooked del fresh =
      go_on-IsBooked (check_purchase parse_date c.now req) refl del fresh

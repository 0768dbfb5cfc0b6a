-- ===== src/Refund/Shown.antt =====
-- internal/httpapi/admin_claims.go: `handlePhoto` shows photos of the asker's own claims only.
use claw_hub.Prelude.{
  ◌==◌, In-keep, Option-cases, ℕ, Bool, true, false, some, [], ◌∷◌, any, find?, In, if◌then◌else◌,
  Result, ok, err, ◌≡◌, refl, ◌∙◌, ok-injective, find?-passes, find?-In, subst, ==_iff, and-true,
  inl, inr,
}
use claw_hub.Prelude.Texts.{is_empty, Text, text_eq, text_eq_eq}
use claw_hub.ClaimStore.Table.{Row, Db, Photo}
use claw_hub.ClaimStore.Detail.{
  Shelf, ClaimDetail, DetailError, claim_detail, read_claim, after_read, own_row,
}
use claw_hub.ClaimStore.Viewed.{claim_detail-Backed}
use claw_hub.Refund.Handlers.{Access}
use claw_hub.Intake.Photos.{Media}
use claw_hub.Refund.Page.{anonymous, no_file, no_photo, open_photo, handle_photo}
use claw_hub.Refund.Sheet.{answer-ok}

read_claim-quiet :
    (s : Shelf) (written : Bool) (a : Access) (id now : ℕ) (db : Db) {d : ClaimDetail}
    → (read_claim s written a.store_id id anonymous now db).0 ≡ ok d
    → claim_detail s a.store_id id now db ≡ ok d
unfolding read_claim
read_claim-quiet s written a id now db h = h

after_read-nobody :
    (written : Bool) (id now : ℕ) (db : Db) (r : Result DetailError ClaimDetail)
    → after_read written id anonymous now db r ≡ db
after_read-nobody written id now db (err e) = refl
after_read-nobody written id now db (ok d) = refl

-- A read by nobody leaves no entry.
read_claim-unlogged :
    (s : Shelf) (written : Bool) (a : Access) (id now : ℕ) (db : Db)
    → (read_claim s written a.store_id id anonymous now db).1 ≡ db
unfolding read_claim
read_claim-unlogged s written a id now db =
    after_read-nobody written id now db (claim_detail s a.store_id id now db)

photo_key :
    (k : Text) (stored : Bool) {key : Text}
    → (if is_empty k then err no_photo else if stored then ok k else err no_file) ≡ ok key
    → k ≡ key
photo_key [] stored h = absurd (cc h)
photo_key (x ∷ k) true h = ok-injective h
photo_key (x ∷ k) false h = absurd (cc h)

open_photo-ok :
    (photo_id : ℕ × Photo → Text) (m : Media) (wanted : Text) (d : ClaimDetail) {key : Text}
    → open_photo photo_id m wanted d ≡ ok key
    → (p : ℕ × Photo) × (find? (λ p. text_eq (photo_id p) wanted) d.photos ≡ some p)
      × (p.1.object_key ≡ key)
unfolding open_photo
open_photo-ok photo_id m wanted d h =
    elim (Option-cases (find? (λ p. text_eq (photo_id p) wanted) d.photos)) [
      | inl e ↦ absurd (cc (rw (open_photo, e) at h))
      | inr (p, e) ↦ (
        p,
        e,
        photo_key p.1.object_key (any (λ k. text_eq k p.1.object_key) m) (rw (open_photo, e) at h),
      )
    ]

module _ (s : Shelf) (written : Bool) (a : Access) (id now : ℕ) (db : Db) where
  -- An image is opened only if it is the photo that was asked for, of the claim that was asked for, and
  -- the claim is of the asker's store; the log is not touched.
  pub handle_photo-own :
      (photo_id : ℕ × Photo → Text) (m : Media) (wanted : Text) {key : Text}
      → (handle_photo s written a id now db photo_id m wanted).0 ≡ ok key
      → ((p : ℕ × Photo) × In p db.photos
          × (p.0 ≡ id)
          × (photo_id p ≡ wanted)
          × (p.1.object_key ≡ key))
        × ((r : Row) × In r db.claims × (r.claim.id ≡ id) × (r.claim.store_id ≡ a.store_id))
        × ((handle_photo s written a id now db photo_id m wanted).1 ≡ db)
  unfolding handle_photo
  handle_photo-own photo_id m wanted h =
      let read = read_claim s written a.store_id id anonymous now db in
      let (d, got, opened, after) = answer-ok (open_photo photo_id m wanted) read h in
      let b =
        claim_detail-Backed s a.store_id id now db (read_claim-quiet s written a id now db got) in
      let (p, found, key') = open_photo-ok photo_id m wanted d opened in
      let kept =
        In-keep (λ p. p.0 == id) db.photos (subst (In p) b.photos (find?-In _ d.photos found)) in
      let own = and-true _ _ (find?-passes (own_row a.store_id id) db.claims b.found) in
      (
        (
          p,
          kept.0,
          (==_iff _ _).0 kept.1,
          text_eq_eq (photo_id p) wanted
              (find?-passes (λ p. text_eq (photo_id p) wanted) d.photos found),
          key',
        ),
        (b.row, find?-In _ db.claims b.found, (==_iff _ _).0 own.0, (==_iff _ _).0 own.1),
        after ∙ read_claim-unlogged s written a id now db,
      )

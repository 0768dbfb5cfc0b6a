-- ===== src/Worker/Purge.antt =====
-- internal/worker/worker.go: `PurgeExpiredPhotos`; internal/store/stats.go: `ExpiredPhotos` and
-- `DeletePhotoRow`. Whether the storage deletes a file and whether the database deletes a row come in
-- from outside. Among photos that expire at one time the table's order decides.
use claw_hub.Prelude.{
  ℕ, ◌+◌, Bool, true, false, not, List, [], ◌∷◌, keep, take, leb, ◌==◌, if◌then◌else◌,
}
use claw_hub.Prelude.Texts.{Text}
use claw_hub.Intake.Photos.{Media, delete}

-- A row of `claim_photos`, less the type and size of the file.
pub record PhotoRow : Type 0 where
  pub id : ℕ
  pub claim_id : ℕ
  pub object_key : Text
  pub expires_at : ℕ

-- `expires_at <= $1`
abbrev pub is_expired : ℕ → PhotoRow → Bool
is_expired now p = leb p.expires_at now

-- `ORDER BY expires_at`
unfoldable pub insert_photo : PhotoRow → List PhotoRow → List PhotoRow
insert_photo p [] = p ∷ []
insert_photo p (x ∷ xs) =
    let rest = insert_photo p xs in if leb p.expires_at x.expires_at then p ∷ x ∷ xs else x ∷ rest

unfoldable pub sort_photos : List PhotoRow → List PhotoRow
unfolding insert_photo
sort_photos [] = []
sort_photos (p ∷ ps) = insert_photo p (sort_photos ps)

-- `ExpiredPhotos`
unfoldable pub expired_photos : ℕ → ℕ → List PhotoRow → List PhotoRow
unfolding sort_photos
expired_photos now limit rows = take limit (sort_photos (keep (is_expired now) rows))

-- `DeletePhotoRow`
unfoldable pub delete_photo_row : ℕ → List PhotoRow → List PhotoRow
delete_photo_row id rows = keep (λ p. not (p.id == id)) rows

-- `purgeBatch`
abbrev pub purge_batch : ℕ
purge_batch = 200

-- What a run gives: the number of rows deleted, whether it came to its end, the table and the storage.
pub record Purged : Type 0 where
  pub deleted : ℕ
  pub complete : Bool
  pub photos : List PhotoRow
  pub media : Media

-- The loop: a file that cannot be deleted is passed over, a row that cannot be ends it.
unfoldable pub purge_each :
    (Text → Bool) → (ℕ → Bool) → List PhotoRow → List PhotoRow → Media → Purged
unfolding delete_photo_row delete
purge_each file_ok row_ok [] rows m = record {
  deleted = 0;
  complete = true;
  photos = rows;
  media = m;
}
purge_each file_ok row_ok (p ∷ ps) rows m =
    let m' = if file_ok p.object_key then delete p.object_key m else m in
    let rest = purge_each file_ok row_ok ps (delete_photo_row p.id rows) m' in
    if row_ok p.id
    then record rest { deleted = rest.deleted + 1 }
    else record { deleted = 0; complete = false; photos = rows; media = m' }

-- `PurgeExpiredPhotos`
unfoldable pub purge_expired_photos :
    (Text → Bool) → (ℕ → Bool) → ℕ → List PhotoRow → Media → Purged
unfolding expired_photos purge_each
purge_expired_photos file_ok row_ok now rows m =
    purge_each file_ok row_ok (expired_photos now purge_batch rows) rows m

-- The runs of `Run`, one at each tick; one that ends early is logged, and the next begins anew.
unfoldable pub purge_runs :
    (Text → Bool) → (ℕ → Bool) → List ℕ → List PhotoRow → Media → List PhotoRow × Media
unfolding purge_expired_photos
purge_runs file_ok row_ok [] rows m = (rows, m)
purge_runs file_ok row_ok (now ∷ nows) rows m =
    let run = purge_expired_photos file_ok row_ok now rows m in
    purge_runs file_ok row_ok nows run.photos run.media

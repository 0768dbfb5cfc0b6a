-- ===== src/Worker/Expired.antt =====
-- internal/worker/worker.go: what the runs of `PurgeExpiredPhotos` leave of the photos.
use Prim.Native.Nat.{min}
use claw_hub.Intake.Photos.{delete, Media}
use claw_hub.Prelude.Texts.{Text}
use claw_hub.Prelude.{
  All-In, ◌∙◌, All-zip, In-All, sym, ==_iff, subst, All-keep, ℕ, ◌+◌, ◌*◌, ◌≤◌, Bool, true, false,
  not, List, [], ◌∷◌, keep, ◌==◌, if◌then◌else◌, ◌≡◌, refl, arith, All, All-map, Bool-cases, inl,
  inr, In, count_if, length,
}
use claw_hub.Worker.Purge.{
  PhotoRow, is_expired, expired_photos, delete_photo_row, purge_each, purge_expired_photos,
  purge_runs, purge_batch,
}
use claw_hub.Worker.Batch.{
  HasDistinctIds, keep-HasDistinctIds, expired_photos-oldest, expired_photos-All,
  expired_photos-HasDistinctIds, keep-passes, not-later,
}

-- A row whose id no row has is no row to delete.
delete-absent :
    (id : ℕ) (ps : List PhotoRow) → All (λ p. (id == p.id) ≡ false) ps → delete_photo_row id ps ≡ ps
unfolding delete_photo_row
delete-absent id [] n = refl
delete-absent id (p ∷ ps) n = ground (arith, delete-absent id ps n.1, n.0)

delete-first :
    (p : PhotoRow) (ps : List PhotoRow)
    → All (λ q. (p.id == q.id) ≡ false) ps
    → delete_photo_row p.id (p ∷ ps) ≡ ps
unfolding delete_photo_row
delete-first p ps n = rw ((==_iff p.id p.id).1 refl) (delete-absent p.id ps n)

-- Deleting a row takes it from the count.
delete-count :
    (q : PhotoRow → Bool) (x : PhotoRow) (ps : List PhotoRow)
    → HasDistinctIds ps
    → In x ps
    → count_if q ps ≡ (if q x then 1 else 0) + count_if q (delete_photo_row x.id ps)
unfolding delete_photo_row HasDistinctIds
delete-count q x [] u i = absurd i
delete-count q x (y ∷ ys) u (inl e) =
    subst
      (λ z.
        count_if q (y ∷ ys) ≡ (if q z then 1 else 0) + count_if q (delete_photo_row z.id (y ∷ ys)))
      (sym e) (rw (delete-first y ys u.0) refl)
delete-count q x (y ∷ ys) u (inr i) =
    let n = In-All (λ z. (y.id == z.id) ≡ false) x ys i u.0 in
    rw n (omega (arith, delete-count q x ys u.1 i))

-- Deleting a row leaves what passes a test that the row does not.
delete-keep :
    (q : PhotoRow → Bool) (x : PhotoRow) (ps : List PhotoRow)
    → HasDistinctIds ps
    → In x ps
    → q x ≡ false
    → keep q (delete_photo_row x.id ps) ≡ keep q ps
unfolding delete_photo_row HasDistinctIds
delete-keep q x [] u i f = absurd i
delete-keep q x (y ∷ ys) u (inl e) f =
    subst (λ z. q z ≡ false → keep q (delete_photo_row z.id (y ∷ ys)) ≡ keep q (y ∷ ys)) (sym e)
      (λ g. rw (delete-first y ys u.0, g) refl) f
delete-keep q x (y ∷ ys) u (inr i) f =
    let n = In-All (λ z. (y.id == z.id) ≡ false) x ys i u.0 in
    rw (n, delete-keep q x ys u.1 i f) refl

delete-In :
    (x z : PhotoRow) (ps : List PhotoRow)
    → (x.id == z.id) ≡ false
    → In z ps
    → In z (delete_photo_row x.id ps)
unfolding delete_photo_row
delete-In x z [] n i = i
delete-In x z (y ∷ ys) n (inl e) =
    let other : (y.id == x.id) ≡ false = ground (arith, e, n) in rw other (inl e)
delete-In x z (y ∷ ys) n (inr i) = elim (Bool-cases (y.id == x.id)) [
  | inl e ↦ rw e (delete-In x z ys n i)
  | inr e ↦ rw e (inr (delete-In x z ys n i))
]

module _ (file_ok : Text → Bool) (row_ok : ℕ → Bool) (sound : (id : ℕ) → row_ok id ≡ true) where
  -- Deleting a batch of a table's rows takes them from every count, and nothing else.
  purge_each-effect :
      (q r : PhotoRow → Bool) (batch rows : List PhotoRow) (m : Media)
      → HasDistinctIds rows
      → HasDistinctIds batch
      → All (λ p. In p rows) batch
      → All (λ p. r p ≡ false) batch
      → let out = (purge_each file_ok row_ok batch rows m).photos in
        HasDistinctIds out
        × (count_if q rows ≡ count_if q batch + count_if q out)
        × (keep r out ≡ keep r rows)
  unfolding purge_each HasDistinctIds delete_photo_row
  purge_each-effect q r [] rows m u ub i f = (u, omega arith, refl)
  purge_each-effect q r (p ∷ ps) rows m u ub i f =
      let rows' = delete_photo_row p.id rows in
      let m' = if file_ok p.object_key then delete p.object_key m else m in
      let there =
        All-zip (λ x. (p.id == x.id) ≡ false) (λ x. In x rows) (λ x. In x rows')
          (λ x n k. delete-In p x rows n k) ps ub.0 i.1 in
      let rest = purge_each-effect q r ps rows' m' (keep-HasDistinctIds _ rows u) ub.1 there f.1 in
      rw (sound p.id) (
        rest.0,
        omega (arith, rest.1, delete-count q p rows u i.0),
        rest.2 ∙ delete-keep r p rows u i.0 f.0,
      )

  -- One run.
  purge-effect :
      (t u now : ℕ) (rows : List PhotoRow) (m : Media)
      → t ≤ now
      → now ≤ u
      → HasDistinctIds rows
      → let out = (purge_expired_photos file_ok row_ok now rows m).photos in
        HasDistinctIds out
        × (count_if (is_expired t) rows
            ≡ min purge_batch (count_if (is_expired t) rows) + count_if (is_expired t) out)
        × (keep (λ p. not (is_expired u p)) out ≡ keep (λ p. not (is_expired u p)) rows)
  unfolding purge_expired_photos
  purge-effect t u now rows m h k d =
      let batch = expired_photos now purge_batch rows in
      let effect =
        purge_each-effect (is_expired t) (λ p. not (is_expired u p)) batch rows m d
          (expired_photos-HasDistinctIds now purge_batch rows d)
          (expired_photos-All _ now purge_batch rows (All-keep _ _ rows (All-In rows)))
          (expired_photos-All _ now purge_batch rows
            (All-map _ _ (λ p e. not-later now u p k e) _ (keep-passes now rows))) in
      (effect.0, omega (arith, effect.1, expired_photos-oldest t now purge_batch rows h), effect.2)

  -- Where the database deletes what it is asked to, and two hundred photos for each run are at least
  -- as many as have expired by a time that no run comes before, the runs leave none of those; and
  -- whatever the storage answers, they leave every photo that expires later than the last of them.
  pub purge_runs-expired :
      (t u : ℕ) (nows : List ℕ) (rows : List PhotoRow) (m : Media)
      → All (λ now. (t ≤ now) × (now ≤ u)) nows
      → HasDistinctIds rows
      → count_if (is_expired t) rows ≤ purge_batch * length nows
      → (count_if (is_expired t) (purge_runs file_ok row_ok nows rows m).0 ≡ 0)
        × (keep (λ p. not (is_expired u p)) (purge_runs file_ok row_ok nows rows m).0
            ≡ keep (λ p. not (is_expired u p)) rows)
  unfolding purge_runs
  purge_runs-expired t u [] rows m h d few = (omega (arith, few), refl)
  purge_runs-expired t u (now ∷ nows) rows m h d few =
      let run = purge_expired_photos file_ok row_ok now rows m in
      let (d', counted, kept) = purge-effect t u now rows m h.0.0 h.0.1 d in
      let rest =
        purge_runs-expired t u nows run.photos run.media h.1 d' (omega (arith, few, counted)) in
      (rest.0, rest.1 ∙ kept)

-- ===== src/Intake/Photos.antt =====
-- internal/media/media.go: `DetectImageType`; internal/httpapi/public.go: `collectPhotos`,
-- `writePhotos`, `cleanupPhotos` and `photoInputs`. A storage is the list of the keys that it holds;
-- `put_ok` says which keys it manages to write, and `delete_ok` which it manages to delete: a delete
-- that fails is logged, and the next one follows. The names of the keys come in from outside, since they are random.
use claw_hub.Prelude.{
  ◌∙◌, sym, ap, subst, inr, inl, ℕ, Bool, true, false, not, ◌&&◌, Option, none, some, List, [], ◌∷◌,
  map, any, take, drop, length, keep, ltb, leb, ◌==◌, if◌then◌else◌, Result, ok, err, refuse_if,
  ◌>>=◌, ◌>>◌, ◌≡◌, refl, Bool-cases,
}
use claw_hub.Prelude.Texts.{Text, codes, text_eq, text_eq_refl}
use claw_hub.Domain.Phone.{has_prefix}
use claw_hub.ClaimStore.Table.{Photo}

pub data ImageType : Type 0 where
  jpeg png webp heic : ImageType

-- `magicPrefixes`, and the brands of HEIC.
abbrev jpeg_magic : Text
jpeg_magic = 255 ∷ 216 ∷ 255 ∷ []

abbrev png_magic : Text
png_magic = 137 ∷ 80 ∷ 78 ∷ 71 ∷ 13 ∷ 10 ∷ 26 ∷ 10 ∷ []

abbrev heic_brands : List Text
heic_brands = codes "heic" ∷ codes "heix" ∷ codes "hevc" ∷ codes "mif1" ∷ codes "msf1" ∷ []

-- `DetectImageType`
unfoldable pub detect_image_type : List ℕ → Option ImageType
detect_image_type head =
    if has_prefix jpeg_magic head
    then some jpeg
    else if has_prefix png_magic head
    then some png
    else if leb 12 (length head)
        && has_prefix (codes "RIFF") head
        && text_eq (take 4 (drop 8 head)) (codes "WEBP")
    then some webp
    else if leb 12 (length head)
        && text_eq (take 4 (drop 4 head)) (codes "ftyp")
        && any (λ b. text_eq b (take 4 (drop 8 head))) heic_brands
    then some heic
    else none

-- A file of the form: its size, its first bytes, and whether it can be opened and read again.
pub record Upload : Type 0 where
  pub size : ℕ
  pub content : List ℕ
  pub opens : Bool
  pub seeks : Bool

pub data PhotoError : Type 0 where
  too_many too_large empty_file unreadable not_an_image : PhotoError

abbrev image : Option ImageType → Result PhotoError ImageType
image none = err not_an_image
image (some t) = ok t

-- The loop body of `collectPhotos`; `SniffLen` is 32.
unfoldable pub collect_photo : Upload → Result PhotoError ImageType
unfolding detect_image_type
collect_photo u = do
  refuse_if (ltb 5242880 u.size) too_large
  refuse_if (u.size == 0) empty_file
  refuse_if (not u.opens) unreadable
  t ← image (detect_image_type (take 32 u.content))
  refuse_if (not u.seeks) unreadable
  ok t

unfoldable pub collect_each : List Upload → Result PhotoError (List ImageType)
unfolding collect_photo
collect_each [] = ok []
collect_each (u ∷ us) = let rest = collect_each us in do t ← collect_photo u; ts ← rest; ok (t ∷ ts)

-- `collectPhotos`; `maxPhotos` is 3.
unfoldable pub collect_photos : List Upload → Result PhotoError (List ImageType)
unfolding collect_each
collect_photos us = if ltb 3 (length us) then err too_many else collect_each us

-- `Storage`: the keys that it holds.
abbrev pub Media : Type 0
Media = List Text

-- `Delete`
unfoldable pub delete : Text → Media → Media
delete k m = keep (λ x. not (text_eq x k)) m

-- `cleanupPhotos`
unfoldable pub cleanup_photos : (Text → Bool) → List Text → Media → Media
unfolding delete
cleanup_photos delete_ok [] m = m
cleanup_photos delete_ok (k ∷ ks) m =
    cleanup_photos delete_ok ks (if delete_ok k then delete k m else m)

-- What `writePhotos` gives: the keys written, whether all were, and the storage.
pub record Written : Type 0 where
  pub keys : List Text
  pub complete : Bool
  pub media : Media

-- `writePhotos`, one key for each photo: it stops at the first write that fails.
unfoldable pub write_photos : (Text → Bool) → List Text → Media → Written
write_photos put_ok [] m = record { keys = []; complete = true; media = m }
write_photos put_ok (k ∷ ks) m =
    let rest = write_photos put_ok ks (k ∷ m) in
    if put_ok k
    then record rest { keys = k ∷ rest.keys }
    else record { keys = []; complete = false; media = m }

-- `photoInputs`
unfoldable pub photo_inputs : List Text → ℕ → List Photo
photo_inputs ks at = map (λ k. record { object_key = k; expires_at = at }) ks

-- The keys are new to a storage, and to each other.
unfoldable pub IsFresh : List Text → Media → Type 0
IsFresh [] m = Unit
IsFresh (k ∷ ks) m = (any (λ x. text_eq x k) m ≡ false) × IsFresh ks (k ∷ m)

delete-hit : (k x : Text) (m : Media) → text_eq x k ≡ true → delete k (x ∷ m) ≡ delete k m
unfolding delete
delete-hit k x m h = rw h refl

delete-miss : (k x : Text) (m : Media) → text_eq x k ≡ false → delete k (x ∷ m) ≡ x ∷ delete k m
unfolding delete
delete-miss k x m h = rw h refl

delete-nil : (j k : Text) → delete j (delete k []) ≡ delete k (delete j [])
unfolding delete
delete-nil j k = refl

-- Deleting is in any order.
delete_comm : (j k : Text) (m : Media) → delete j (delete k m) ≡ delete k (delete j m)
delete_comm j k [] = delete-nil j k
delete_comm j k (x ∷ m) = elim (Bool-cases (text_eq x k)) [
  | inl e ↦ elim (Bool-cases (text_eq x j)) [
    | inl f ↦ rw (delete-hit k x m e, delete-hit j x m f) (delete_comm j k m)
    | inr f ↦
        rw (delete-hit k x m e, delete-miss j x m f, delete-hit k x (delete j m) e)
          (delete_comm j k m)
  ]
  | inr e ↦ elim (Bool-cases (text_eq x j)) [
    | inl f ↦
        rw (delete-miss k x m e, delete-hit j x m f, delete-hit j x (delete k m) f)
          (delete_comm j k m)
    | inr f ↦
        rw
          (
            delete-miss k x m e,
            delete-miss j x m f,
            delete-miss j x (delete k m) f,
            delete-miss k x (delete j m) e,
          )
          (ap (λ r. x ∷ r) (delete_comm j k m))
  ]
]

cleanup-delete :
    (delete_ok : Text → Bool) (ks : List Text) (k : Text) (m : Media)
    → ((x : Text) → delete_ok x ≡ true)
    → cleanup_photos delete_ok ks (delete k m) ≡ delete k (cleanup_photos delete_ok ks m)
unfolding cleanup_photos
cleanup-delete delete_ok [] k m h = refl
cleanup-delete delete_ok (j ∷ ks) k m h =
    rw (h j, delete_comm j k m) (cleanup-delete delete_ok ks k (delete j m) h)

delete-none : (k : Text) → delete k [] ≡ []
unfolding delete
delete-none k = refl

delete-fresh : (k : Text) (m : Media) → any (λ x. text_eq x k) m ≡ false → delete k m ≡ m
delete-fresh k [] h = delete-none k
delete-fresh k (x ∷ m) h = elim (Bool-cases (text_eq x k)) [
  | inl e ↦ absurd (cc (rw e at h))
  | inr e ↦ rw (delete-miss k x m e) (ap (λ r. x ∷ r) (delete-fresh k m (rw e at h)))
]

delete-front : (k : Text) (m : Media) → any (λ x. text_eq x k) m ≡ false → delete k (k ∷ m) ≡ m
delete-front k m h = rw (delete-hit k k m (text_eq_refl k)) (delete-fresh k m h)

write-ok :
    (put_ok : Text → Bool) (k : Text) (ks : List Text) (m : Media)
    → put_ok k ≡ true
    → write_photos put_ok (k ∷ ks) m
      ≡ (let rest = write_photos put_ok ks (k ∷ m) in record rest { keys = k ∷ rest.keys })
unfolding write_photos
write-ok put_ok k ks m h = rw h refl

write-stopped :
    (put_ok : Text → Bool) (k : Text) (ks : List Text) (m : Media)
    → put_ok k ≡ false
    → write_photos put_ok (k ∷ ks) m ≡ record { keys = []; complete = false; media = m }
unfolding write_photos
write-stopped put_ok k ks m h = rw h refl

-- Whatever the storage managed to write, a cleanup without failure leaves it as it was before.
pub cleanup-write :
    (put_ok delete_ok : Text → Bool) (ks : List Text) (m : Media)
    → ((k : Text) → delete_ok k ≡ true)
    → IsFresh ks m
    → cleanup_photos delete_ok (write_photos put_ok ks m).keys (write_photos put_ok ks m).media ≡ m
unfolding IsFresh cleanup_photos write_photos
cleanup-write put_ok delete_ok [] m d h = refl
cleanup-write put_ok delete_ok (k ∷ ks) m d h = elim (Bool-cases (put_ok k)) [
  | inl e ↦
      let rest = write_photos put_ok ks (k ∷ m) in
      subst (λ w. cleanup_photos delete_ok w.keys w.media ≡ m) (sym (write-ok put_ok k ks m e))
        (ap
            (λ b.
              cleanup_photos delete_ok rest.keys (if b then delete k rest.media else rest.media))
            (d k)
          ∙ cleanup-delete delete_ok rest.keys k rest.media d
          ∙ ap (delete k) (cleanup-write put_ok delete_ok ks (k ∷ m) d h.1)
          ∙ delete-front k m h.0)
  | inr e ↦
      subst (λ w. cleanup_photos delete_ok w.keys w.media ≡ m) (sym (write-stopped put_ok k ks m e))
        refl
]

-- ===== src/Risk/Contacts.antt =====
-- internal/store/contact.go: `SetContactStatus` and `ListContacts`; `handleSetContactStatus` of
-- internal/httpapi/admin_machines.go. An identity is the number that its hash is; `hex` gives the hash
-- that a text of hexadecimal digits stands for. The note of a flag and who set it are only shown.
use claw_hub.Prelude.{
  ℕ, Bool, true, false, not, ◌&&◌, ◌||◌, String, str_eq, Option, none, some, List, [], ◌∷◌, map,
  any, keep, find?, count_if, length, ltb, ◌==◌, if◌then◌else◌, Result, ok, err, ◌>>=◌,
}
use claw_hub.Prelude.Int.{ℤ}
use claw_hub.Prelude.Texts.{Text}
use claw_hub.Domain.Phone.{mask_phone}
use claw_hub.Claim.Status.{status_eq, paid}
use claw_hub.ClaimStore.Table.{Row}
use claw_hub.Risk.Rules.{ContactStatus, normal, parse_contact_status}
use claw_hub.Risk.Facts.{Flag, paid_sum}

pub data ContactError : Type 0 where
  bad_hash bad_status bad_kind : ContactError

abbrev pub status_or : Option ContactStatus → Result ContactError ContactStatus
status_or none = err bad_status
status_or (some st) = ok st

-- The two kinds of identity; the result says whether it is a phone.
unfoldable pub parse_kind : String → Result ContactError Bool
parse_kind kind =
    if str_eq kind "phone"
    then ok true
    else if str_eq kind "account"
    then ok false
    else err bad_kind

-- The key of `contact_flags`.
unfoldable pub is_flag : ℕ → ℕ → Bool → Flag → Bool
is_flag store hash phone f =
    f.store_id == store && f.identity_hash == hash && (if phone then f.is_phone else not f.is_phone)

-- `INSERT … ON CONFLICT … DO UPDATE`
unfoldable pub upsert_flag : Flag → List Flag → List Flag
unfolding is_flag
upsert_flag f flags =
    if any (is_flag f.store_id f.identity_hash f.is_phone) flags
    then map
        (λ g.
          if is_flag f.store_id f.identity_hash f.is_phone g
          then record g { manual_status = f.manual_status }
          else g)
        flags
    else f ∷ flags

-- `SetContactStatus`
unfoldable pub set_contact_status :
    ℕ → ℕ → String → String → List Flag → Result ContactError (List Flag)
unfolding parse_kind upsert_flag
set_contact_status store hash kind status flags = do
  st ← status_or (parse_contact_status status)
  phone ← parse_kind kind
  ok (
      upsert_flag
        (record { store_id = store; is_phone = phone; identity_hash = hash; manual_status = st })
        flags)

-- `contactStatusRequest`
pub record ContactStatusRequest : Type 0 where
  pub status : String
  pub note : Text
  pub kind : String

abbrev pub kind_of : ContactStatusRequest → String
kind_of req = if str_eq req.kind "" then "phone" else req.kind

abbrev pub hash_or : Option ℕ → Result ContactError ℕ
hash_or none = err bad_hash
hash_or (some h) = ok h

-- `handleSetContactStatus`; `hex` gives nothing for a text that is not the hash of 32 bytes.
unfoldable pub handle_set_contact_status :
    (Text → Option ℕ)
    → ℕ
    → Text
    → ContactStatusRequest
    → List Flag
    → Result ContactError (List Flag)
unfolding set_contact_status
handle_set_contact_status hex store path req flags = do
  hash ← hash_or (hex path)
  st ← status_or (parse_contact_status req.status)
  set_contact_status store hash (kind_of req) req.status flags

-- `ContactSummary`, less the note.
pub record ContactSummary : Type 0 where
  pub identity_hash : ℕ
  pub phone_masked : Text
  pub claim_count : ℕ
  pub paid_count : ℕ
  pub paid_total_krw : ℤ
  pub manual_status : ContactStatus
  pub last_claim_at : ℕ

-- The rows of one group, which has its newest row first.
abbrev of_phone : ℕ → Row → Bool
of_phone hash r = r.phone_hash == hash

abbrev flag_status : Option Flag → ContactStatus
flag_status none = normal
flag_status (some f) = f.manual_status

-- One row of the query; `phone` decrypts the number of a claim.
unfoldable pub contact_summary : (ℕ → Text) → List Flag → Row → List Row → ContactSummary
unfolding is_flag
contact_summary phone flags newest group = record {
  identity_hash = newest.phone_hash;
  phone_masked = mask_phone (phone newest.claim.id);
  claim_count = length group;
  paid_count = count_if (λ r. status_eq r.claim.status paid) group;
  paid_total_krw = paid_sum group;
  manual_status = flag_status (find? (is_flag newest.claim.store_id newest.phone_hash true) flags);
  last_claim_at = newest.claim.created_at;
}

-- `GROUP BY c.phone_hash`: one summary for the newest claim of each phone.
unfoldable pub group_contacts : (ℕ → Text) → List Flag → List Row → List Row → List ContactSummary
unfolding contact_summary
group_contacts phone flags all [] = []
group_contacts phone flags all (r ∷ rows) =
    let rest = group_contacts phone flags all rows in
    elim (find? (of_phone r.phone_hash) all) [
      | none ↦ rest
      | some newest ↦
          if newest.claim.id == r.claim.id
          then contact_summary phone flags newest (keep (of_phone r.phone_hash) all) ∷ rest
          else rest
    ]

-- `ORDER BY COUNT(*) DESC, MAX(c.created_at) DESC`
unfoldable pub busier : ContactSummary → ContactSummary → Bool
busier a b =
    ltb b.claim_count a.claim_count
    || (a.claim_count == b.claim_count && ltb b.last_claim_at a.last_claim_at)

unfoldable pub insert_contact : ContactSummary → List ContactSummary → List ContactSummary
unfolding busier
insert_contact c [] = c ∷ []
insert_contact c (x ∷ xs) =
    let rest = insert_contact c xs in if busier x c then x ∷ rest else c ∷ x ∷ xs

unfoldable pub sort_contacts : List ContactSummary → List ContactSummary
unfolding insert_contact
sort_contacts [] = []
sort_contacts (c ∷ cs) = insert_contact c (sort_contacts cs)

-- `ListContacts`, of rows in the order of their times, the newest first.
unfoldable pub list_contacts : (ℕ → Text) → ℕ → List Flag → List Row → List ContactSummary
unfolding group_contacts sort_contacts
list_contacts phone store flags rows =
    let own = keep (λ r. r.claim.store_id == store) rows in
    sort_contacts (group_contacts phone flags own own)

-- ===== src/Intake/Handler.antt =====
-- internal/httpapi/public.go: `handleCreateClaim`; internal/store/machine.go: `MachineByCode`. The
-- handler runs with no other request under way; what two at once come to is
-- ClaimStore.Keys.create_outcome_race. Hashes and encryption (internal/crypto) are `phone_hash` and
-- `account_hash`; the notice to the owner, which changes no state, is left out.
use claw_hub.Prelude.{
  ◌++◌, take, ℕ, ◌+◌, ◌*◌, Bool, not, ◌||◌, ◌&&◌, String, Option, none, some, List, find?, length,
  ltb, ◌==◌, if◌then◌else◌, Result, ok, err, refuse_if, ◌>>=◌, ◌>>◌,
}
use claw_hub.Prelude.Int.{pos}
use claw_hub.Prelude.Texts.{codes, Text, text_eq, trim_space, is_empty, byte_len}
use claw_hub.Claim.Machine.{no_method}
use claw_hub.ClaimStore.Table.{
  StoreError, CreateClaimResult, Db, CreateClaimInput, run_create_claim, Look, claim_by_key,
}
use claw_hub.Domain.Issue.{issue_string, normalize_store_type, valid_issue_for}
use claw_hub.Risk.Rules.{Policy, RiskResult, requires_photo, evaluate}
use claw_hub.Risk.Facts.{Flag, risk_facts_for}
use claw_hub.Limits.Memory.{Memory, incr}
use claw_hub.Intake.Form.{Fields, ClaimForm, parse_claim_form}
use claw_hub.Intake.Photos.{
  Upload, ImageType, Media, collect_photos, write_photos, cleanup_photos, photo_inputs,
}

-- A row of `machines` with its store's type.
pub record MachineRow : Type 0 where
  pub id : ℕ
  pub store_id : ℕ
  pub code : Text
  pub active : Bool
  pub store_type : String

-- What the server knows between requests.
pub record World : Type 0 where
  pub db : Db
  pub flags : List Flag
  pub machines : List MachineRow
  pub media : Media
  pub cache : Memory

-- The request; `is_multipart` says whether its body can be read.
pub record Request : Type 0 where
  pub key : Text
  pub is_multipart : Bool
  pub fields : Fields
  pub files : List Upload

-- What a run of the handler is given from outside: the clock, the id that the database comes up with,
-- a new name for each photo from the random source, which writes and deletes the storage manages,
-- whether `CreateClaim` fails, and the claims of other requests that its two rounds meet.
pub record Chance : Type 0 where
  pub now : ℕ
  pub id : ℕ
  pub keys : List Text
  pub put_ok : Text → Bool
  pub delete_ok : Text → Bool
  pub stores : Bool
  pub first : Look
  pub second : Look
  pub photo_days : ℕ

-- What the checks before the first write answer.
pub data Refusal : Type 0 where
  bad_request not_found : Refusal

pub data Reply : Type 0 where
  refused : Refusal → Reply
  too_many duplicate internal : Reply
  existing : ℕ → Reply
  created : ℕ → Reply

-- `MachineByCode`
unfoldable pub machine_by_code : Text → List MachineRow → Option MachineRow
machine_by_code code ms = find? (λ m. text_eq m.code code && m.active) ms

abbrev pub or_reply : {E A : Type 0} → Refusal → Result E A → Result Refusal A
or_reply r (ok a) = ok a
or_reply r (err _) = err r

abbrev pub or_missing : Option MachineRow → Result Refusal MachineRow
or_missing none = err not_found
or_missing (some m) = ok m

-- What has passed the checks before the first write.
pub record Admitted : Type 0 where
  pub key : Text
  pub form : ClaimForm
  pub machine : MachineRow
  pub photos : List ImageType

-- `machineClaimsPerHour`, and the hour.
abbrev pub machine_claims_per_hour : ℕ
machine_claims_per_hour = 20

abbrev pub hour : ℕ
hour = 3600000000000

-- The key of the machine's counter.
abbrev pub machine_key : MachineRow → Text
machine_key m = codes "rl:machine:" ++ m.code

-- The claims that are there, after those that other requests write meanwhile.
abbrev pub with_claims : Db → Look → Look
with_claims db l = record { indexed = l.indexed ++ db.claims; readable = l.readable ++ db.claims }

-- What `handleCreateClaim` does with what `CreateClaim` returns, given the storage with the new photos
-- and the storage cleaned of them.
abbrev pub conclude :
    World → Media → Media → Result StoreError (CreateClaimResult × Db) → Reply × World
conclude w kept clean (err _) = (internal, record w { media = clean })
conclude w kept clean (ok (res, db)) =
    if res.existing
    then (existing res.id, record w { db = db; media = clean })
    else (created res.id, record w { db = db; media = kept })

-- What it does with a claim that has the request's key, and with a check that failed.
abbrev pub unless_found : World → Option CreateClaimResult → Reply × World → Reply × World
unless_found w (some e) next = (existing e.id, w)
unless_found w none next = next

abbrev pub proceed : World → Result Refusal Admitted → (Admitted → Reply × World) → Reply × World
proceed w (err r) next = (refused r, w)
proceed w (ok a) next = next a

module _ (wide : ℕ → ℕ) (parse_time : Text → Option ℕ) (phone_hash account_hash : Text → ℕ)
    (policy : Policy) where
  -- `handleCreateClaim` up to the rate limit of the machine.
  unfoldable pub admit : Request → World → Result Refusal Admitted
  unfolding machine_by_code
  admit req w =
      let key = trim_space req.key in
      do
        refuse_if (is_empty key || ltb 200 (byte_len key)) bad_request
        refuse_if (not req.is_multipart) bad_request
        f ← or_reply bad_request (parse_claim_form wide parse_time req.fields policy)
        m ← or_missing (machine_by_code f.machine_code w.machines)
        refuse_if (not (valid_issue_for (normalize_store_type m.store_type) f.issue_type))
            bad_request
        photos ← or_reply bad_request (collect_photos req.files)
        refuse_if (requires_photo f.amount_krw policy && (length photos == 0)) bad_request
        ok (record { key = key; form = f; machine = m; photos = photos })

  -- The risk of an admitted claim: `RiskFactsFor` and `Evaluate`.
  unfoldable pub assess : Admitted → Chance → World → RiskResult
  assess a c w =
      evaluate
        (risk_facts_for
          (record {
            store_id = a.machine.store_id;
            machine_id = a.machine.id;
            phone_hash = phone_hash a.form.phone;
            account_hash = account_hash a.form.account;
            has_account = not (is_empty a.form.account);
            now = c.now;
          })
          w.db.claims w.flags a.form.amount_krw)
        policy

  -- The call of `CreateClaim`.
  unfoldable pub claim_input : Admitted → Chance → World → List Text → CreateClaimInput
  unfolding assess photo_inputs
  claim_input a c w keys = record {
    row = record {
      claim = record {
        id = 0;
        store_id = a.machine.store_id;
        machine_id = a.machine.id;
        issue_type = issue_string a.form.issue_type;
        payment_method = a.form.payment_method;
        amount_krw = a.form.amount_krw;
        description = a.form.description;
        card_last4 = a.form.card_last4;
        paid_at_guess = a.form.paid_at_guess;
        status = (assess a c w).status;
        risk_score = (assess a c w).score;
        created_at = 0;
        resolved_at = 0;
        paid_at = 0;
        payout_method = no_method;
        paid_amount_krw = pos 0;
      };
      phone_hash = phone_hash a.form.phone;
      account_hash = account_hash a.form.account;
      key = a.key;
      resolved_by = none;
    };
    photos = photo_inputs keys (c.now + c.photo_days * 86400000000000);
  }

  -- The end of `handleCreateClaim`: the photos and the claim.
  unfoldable pub write_claim : Admitted → Chance → World → Reply × World
  unfolding claim_input
  write_claim a c w =
      let out = write_photos c.put_ok (take (length a.photos) c.keys) w.media in
      let clean = cleanup_photos c.delete_ok out.keys out.media in
      if out.complete
      then conclude w out.media clean (
          run_create_claim c.stores (with_claims w.db c.first) (with_claims w.db c.second)
            (claim_input a c w out.keys) c.id c.now w.db)
      else (internal, record w { media = clean })

  -- The checks that need the tables: the machine's limit, the key, the risk.
  unfoldable pub store_claim : Admitted → Chance → World → Reply × World
  unfolding write_claim assess
  store_claim a c w0 =
      let n = incr c.now (machine_key a.machine) hour w0.cache in
      let w = record w0 { cache = n.1 } in
      if ltb machine_claims_per_hour n.0
      then (too_many, w)
      else unless_found w (claim_by_key a.machine.store_id a.key w.db.claims)
          (if (assess a c w).reject_duplicate then (duplicate, w) else write_claim a c w)

  -- `handleCreateClaim`
  unfoldable pub handle_create_claim : Request → Chance → World → Reply × World
  unfolding admit store_claim
  handle_create_claim req c w = proceed w (admit req w) (λ a. store_claim a c w)

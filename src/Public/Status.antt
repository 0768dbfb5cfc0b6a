-- ===== src/Public/Status.antt =====
-- internal/store/public_status.go: `PublicStatusByReceipt`; internal/httpapi/public_status.go: the
-- handler. `uuid` writes an id as the database does, `lower` is `strings.ToLower`. Timestamps are cut
-- to minutes, and are not yet written out. The label of an issue is left to the issue.
use claw_hub.Prelude.{
  ℕ, ◌*◌, ◌/◌, Bool, not, ◌&&◌, ◌||◌, String, Option, none, some, List, [], ◌∷◌, ◌++◌, all, any,
  take, keep, find?, leb, ◌==◌, if◌then◌else◌,
}
use claw_hub.Prelude.Int.{ℤ}
use claw_hub.Prelude.Texts.{Text, codes, text_eq, trim_space, byte_len, is_digit}
use claw_hub.Claim.Status.{Status, approved, paid, rejected, PaymentMethod}
use claw_hub.ClaimStore.Table.{Row}
use claw_hub.Domain.Issue.{StoreType, normalize_store_type}
use claw_hub.Domain.MachineCode.{normalize_machine_code, validate_machine_code}
use claw_hub.Limits.Memory.{Memory, admits}
use claw_hub.Intake.Handler.{MachineRow}

-- The columns of `stores` that the query reads.
pub record StoreColumns : Type 0 where
  pub id : ℕ
  pub name : Text
  pub phone : Text
  pub store_type : String

-- `PublicStatus`
pub record PublicStatus : Type 0 where
  pub status : Status
  pub issue_type : String
  pub amount_krw : ℤ
  pub payment_method : PaymentMethod
  pub created_at : ℕ
  pub resolved_at : ℕ
  pub paid_at : ℕ
  pub store_name : Text
  pub store_phone : Text
  pub store_type : StoreType

-- The characters of a receipt code.
abbrev pub is_hex : ℕ → Bool
is_hex c = is_digit c || (leb b'a' c && leb c b'f')

-- The joined row of a claim.
unfoldable pub joined : StoreColumns → Row → PublicStatus
joined st r = record {
  status = r.claim.status;
  issue_type = r.claim.issue_type;
  amount_krw = r.claim.amount_krw;
  payment_method = r.claim.payment_method;
  created_at = r.claim.created_at;
  resolved_at = r.claim.resolved_at;
  paid_at = r.claim.paid_at;
  store_name = st.name;
  store_phone = st.phone;
  store_type = normalize_store_type st.store_type;
}

-- A query that must give one row.
abbrev pub only : {A : Type 0} → List A → Option A
only [] = none
only (a ∷ []) = some a
only (a ∷ b ∷ rest) = none

-- `publicStage`
pub data Stage : Type 0 where
  waiting approved_stage done_stage rejected_stage : Stage

-- `stageOf`
unfoldable pub stage_of : Status → Stage
stage_of approved = approved_stage
stage_of paid = done_stage
stage_of rejected = rejected_stage
stage_of _ = waiting

-- `publicStatusResponse`, less the receipt code, which is the request's.
pub record Response : Type 0 where
  pub stage : Stage
  pub issue_type : String
  pub amount_krw : ℤ
  pub payment_method : PaymentMethod
  pub store_name : Text
  pub store_phone : Text
  pub store_type : StoreType
  pub received_at : Option ℕ
  pub reviewed_at : Option ℕ
  pub settled_at : Option ℕ

-- `minuteStamp`
unfoldable pub minute_stamp : ℕ → Option ℕ
minute_stamp t = if t == 0 then none else some (t / 60000000000 * 60000000000)

abbrev pub settled_stamp : Stage → Option ℕ → Option ℕ
settled_stamp rejected_stage t = none
settled_stamp _ t = t

unfoldable pub respond : PublicStatus → Response
unfolding stage_of minute_stamp
respond p = record {
  stage = stage_of p.status;
  issue_type = p.issue_type;
  amount_krw = p.amount_krw;
  payment_method = p.payment_method;
  store_name = p.store_name;
  store_phone = p.store_phone;
  store_type = p.store_type;
  received_at = minute_stamp p.created_at;
  reviewed_at = minute_stamp p.resolved_at;
  settled_at = settled_stamp (stage_of p.status) (minute_stamp p.paid_at);
}

pub data Reply : Type 0 where
  missing too_many : Reply
  found : Response → Reply

abbrev pub reply_to : Option PublicStatus → Reply
reply_to none = missing
reply_to (some p) = found (respond p)

-- The answer behind the check of the code and the limit, which counts no malformed code.
abbrev pub guarded : {E : Type 0} → Option E → Bool × Memory → Memory → Reply → Reply × Memory
guarded (some e) a cache r = (missing, cache)
guarded none a cache r = if a.0 then (r, a.1) else (too_many, a.1)

-- `statusChecksPerMinute`, and a minute.
abbrev pub status_checks_per_minute : ℕ
status_checks_per_minute = 20

abbrev pub minute : ℕ
minute = 60000000000

module _ (uuid : ℕ → Text) (lower : Text → Text) (wide : ℕ → ℕ) (machines : List MachineRow)
    (stores : List StoreColumns) where
  -- `substr(replace(c.id::text, '-', ''), 1, 8)`
  abbrev pub receipt_of : Row → Text
  receipt_of r = take 8 (keep (λ c. not (c == b'-')) (uuid r.claim.id))

  -- The WHERE clause, and the join with `machines`.
  unfoldable pub is_asked : Text → Text → Row → Bool
  is_asked code prefix r =
      any (λ m. m.id == r.claim.machine_id && text_eq m.code code) machines
      && text_eq (receipt_of r) prefix

  -- The join with `stores`.
  abbrev pub with_store : Row → Option StoreColumns → List PublicStatus
  with_store r none = []
  with_store r (some st) = joined st r ∷ []

  -- The rows that a claim gives.
  unfoldable pub selected : Text → Text → Row → List PublicStatus
  unfolding is_asked joined
  selected code prefix r =
      if is_asked code prefix r
      then with_store r (find? (λ st. st.id == r.claim.store_id) stores)
      else []

  unfoldable pub select_status : Text → Text → List Row → List PublicStatus
  unfolding selected
  select_status code prefix [] = []
  select_status code prefix (r ∷ rows) = selected code prefix r ++ select_status code prefix rows

  -- `PublicStatusByReceipt`
  unfoldable pub public_status_by_receipt : Text → Text → List Row → Option PublicStatus
  unfolding select_status
  public_status_by_receipt code receipt rows =
      let prefix = lower (trim_space receipt) in
      if byte_len prefix == 8 && all is_hex prefix
      then only (take 2 (select_status code prefix rows))
      else none

  -- `handlePublicClaimStatus`
  unfoldable pub handle_public_claim_status :
      ℕ → Text → Text → Text → List Row → Memory → Reply × Memory
  unfolding public_status_by_receipt respond normalize_machine_code validate_machine_code admits
  handle_public_claim_status now ip machine receipt rows cache =
      let code = normalize_machine_code wide machine in
      let key = codes "rl:status:" ++ code ++ codes ":" ++ ip in
      let a = admits status_checks_per_minute now key minute cache in
      guarded (validate_machine_code code) a cache
        (reply_to (public_status_by_receipt code receipt rows))

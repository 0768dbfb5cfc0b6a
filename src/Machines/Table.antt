-- ===== src/Machines/Table.antt =====
-- internal/store/machine.go: `CreateMachine`, `UpdateMachine` and `MachineByID`; the handlers of
-- internal/httpapi/admin_machines.go that write. The draws of each attempt come in from outside.
use claw_hub.Prelude.{
  ℕ, Bool, true, ◌&&◌, ◌||◌, Option, none, some, List, [], ◌∷◌, map, any, find?, take, length, ltb,
  ◌==◌, if◌then◌else◌, Result, ok, err, ◌>>=◌, ◌>>◌, refuse_if,
}
use claw_hub.Prelude.Texts.{Text, text_eq, trim_space, is_empty}
use claw_hub.Domain.MachineCode.{generate_machine_code}

-- `Machine`
pub record Machine : Type 0 where
  pub id : ℕ
  pub store_id : ℕ
  pub code : Text
  pub label : Text
  pub location : Text
  pub active : Bool

pub data MachineError : Type 0 where
  not_found gave_up bad_label : MachineError

-- The unique index on `machines.code`.
unfoldable pub has_code : Text → Machine → Bool
has_code code m = text_eq m.code code

unfoldable pub is_machine : ℕ → ℕ → Machine → Bool
is_machine store_id id m = m.id == id && m.store_id == store_id

-- The attempts of `CreateMachine`, each with the six draws of its code.
unfoldable pub create_from :
    (Text → Machine) → List (List ℕ) → List Machine → Result MachineError (Machine × List Machine)
unfolding has_code generate_machine_code
create_from new [] rows = err gave_up
create_from new (draw ∷ draws) rows =
    let code = generate_machine_code draw in
    let rest = create_from new draws rows in
    if any (has_code code) rows then rest else ok (new code, new code ∷ rows)

abbrev pub new_machine : ℕ → ℕ → Text → Text → Text → Machine
new_machine id store_id label location code = record {
  id = id;
  store_id = store_id;
  code = code;
  label = label;
  location = location;
  active = true;
}

-- `CreateMachine`: five attempts.
unfoldable pub create_machine :
    ℕ
    → List (List ℕ)
    → ℕ
    → Text
    → Text
    → List Machine
    → Result MachineError (Machine × List Machine)
unfolding create_from
create_machine id draws store_id label location rows =
    create_from (new_machine id store_id label location) (take 5 draws) rows

abbrev pub with_details : Text → Text → Bool → Machine → Machine
with_details label location active m = record m {
  label = label;
  location = location;
  active = active;
}

-- `UpdateMachine`
unfoldable pub update_machine :
    ℕ → ℕ → Text → Text → Bool → List Machine → Result MachineError (List Machine)
unfolding is_machine
update_machine store_id id label location active rows =
    if any (is_machine store_id id) rows
    then ok (
        map (λ m. if is_machine store_id id m then with_details label location active m else m)
          rows)
    else err not_found

-- `MachineByID`
unfoldable pub machine_by_id : ℕ → ℕ → List Machine → Option Machine
unfolding is_machine
machine_by_id store_id id rows = find? (is_machine store_id id) rows

-- `machineRequest`
pub record MachineRequest : Type 0 where
  pub label : Text
  pub location : Text
  pub active : Option Bool

-- `handleCreateMachine`
unfoldable pub handle_create_machine :
    ℕ
    → List (List ℕ)
    → ℕ
    → MachineRequest
    → List Machine
    → Result MachineError (Machine × List Machine)
unfolding create_machine
handle_create_machine id draws store_id req rows =
    let label = trim_space req.label in
    refuse_if (ltb (length label) 1 || ltb 50 (length label)) bad_label
    >> create_machine id draws store_id label (trim_space req.location) rows

abbrev pub or_current : {A : Type 0} → Option A → A → A
or_current none old = old
or_current (some new) old = new

abbrev pub found_machine : Option Machine → Result MachineError Machine
found_machine none = err not_found
found_machine (some m) = ok m

-- `handleUpdateMachine`: what is not sent stays as it is.
unfoldable pub handle_update_machine :
    ℕ → ℕ → MachineRequest → List Machine → Result MachineError (List Machine)
unfolding machine_by_id update_machine
handle_update_machine store_id id req rows =
    found_machine (machine_by_id store_id id rows) >>= λ current.
    let label = trim_space req.label in
    refuse_if (ltb 50 (length label)) bad_label
    >> update_machine store_id id (if is_empty label then current.label else label)
        (if is_empty req.location then current.location else trim_space req.location)
        (or_current req.active current.active) rows

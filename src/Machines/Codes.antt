-- ===== src/Machines/Codes.antt =====
-- What the codes of the machines promise: internal/store/machine.go.
use claw_hub.Prelude.{
  ℕ, ◌<◌, false, ◌||◌, none, List, [], ◌∷◌, map, any, any-map, take, length, ltb, if◌then◌else◌, ok,
  refuse_if, bind-ok, ok-injective, ◌≡◌, refl, sym, ap, All, Bool-cases, inl, inr, subst,
}
use claw_hub.Prelude.Texts.{Text, text_eq, trim_space, is_empty}
use claw_hub.Domain.MachineCode.{
  generate_machine_code, validate_machine_code, generate-valid, code_length,
}
use claw_hub.Machines.Table.{
  Machine, MachineRequest, bad_label, has_code, is_machine, create_from, create_machine,
  new_machine, with_details, update_machine, machine_by_id, handle_create_machine,
  handle_update_machine, or_current, found_machine,
}

-- Every code is valid, and no two machines have one.
unfoldable pub HasGoodCodes : List Machine → Type 0
HasGoodCodes [] = Unit
HasGoodCodes (m ∷ rows) =
    (validate_machine_code m.code ≡ none) × (any (has_code m.code) rows ≡ false) × HasGoodCodes rows

-- Six draws, each below the length of the alphabet, as the random source gives them.
abbrev pub IsDraw : List ℕ → Type 0
IsDraw d = (length d ≡ code_length) × All (λ n. n < 31) d

create_from-HasGoodCodes :
    (new : Text → Machine) (draws : List (List ℕ)) (rows : List Machine) {m : Machine}
    {rows' : List Machine}
    → ((code : Text) → (new code).code ≡ code)
    → All IsDraw draws
    → HasGoodCodes rows
    → create_from new draws rows ≡ ok (m, rows')
    → HasGoodCodes rows'
unfolding create_from HasGoodCodes
create_from-HasGoodCodes new [] rows k d g h = absurd (cc h)
create_from-HasGoodCodes new (draw ∷ draws) rows k d g h =
    let code = generate_machine_code draw in
    elim (Bool-cases (any (has_code code) rows)) [
      | inl e ↦ create_from-HasGoodCodes new draws rows k d.1 g (rw e at h)
      | inr e ↦
          let out : new code ∷ rows ≡ _ = ap (λ p. p.1) (ok-injective (rw e at h)) in
          subst HasGoodCodes out (rw (k code) (generate-valid draw d.0.0 d.0.1), rw (k code) e, g)
    ]

map-HasGoodCodes :
    (f : Machine → Machine)
    → ((m : Machine) → (f m).code ≡ m.code)
    → (rows : List Machine) → HasGoodCodes rows
    → HasGoodCodes (map f rows)
unfolding HasGoodCodes has_code
map-HasGoodCodes f k [] g = tt
map-HasGoodCodes f k (m ∷ rows) g =
    let same = any-map (has_code m.code) f (λ x. λ i. text_eq (k x i) m.code) rows in
    (rw (k m) g.0, rw (k m, same) g.1, map-HasGoodCodes f k rows g.2)

-- What `handleUpdateMachine` makes of the rows.
update-map :
    (store_id id : ℕ) (req : MachineRequest) (rows : List Machine) {rows' : List Machine}
    → handle_update_machine store_id id req rows ≡ ok rows'
    → (f : Machine → Machine) × ((m : Machine) → (f m).code ≡ m.code) × (rows' ≡ map f rows)
unfolding handle_update_machine update_machine
update-map store_id id req rows {rows' = rows'} h =
    let a = bind-ok (found_machine (machine_by_id store_id id rows)) _ h in
    let b = bind-ok (refuse_if (ltb 50 (length (trim_space req.label))) bad_label) _ a.2 in
    let label = if is_empty (trim_space req.label) then a.0.label else trim_space req.label in
    let location = if is_empty req.location then a.0.location else trim_space req.location in
    let set = with_details label location (or_current req.active a.0.active) in
    let f : Machine → Machine = λ m. if is_machine store_id id m then set m else m in
    elim (Bool-cases (any (is_machine store_id id) rows)) [
      | inr e ↦ absurd (cc (rw e at b.2))
      | inl e ↦ (
        f,
        λ m. elim (Bool-cases (is_machine store_id id m)) [ inl s ↦ rw s refl | inr s ↦ rw s refl ],
        sym (ok-injective (rw e at b.2)),
      )
    ]

-- The requests on the machines of all shops, from the first one on.
pub data Reach : List Machine → Type 0 where
  start : Reach []
  created :
      {rows rows' : List Machine} {m : Machine} (id store_id : ℕ) (draws : List (List ℕ))
      (req : MachineRequest)
      → Reach rows
      → All IsDraw (take 5 draws)
      → handle_create_machine id draws store_id req rows ≡ ok (m, rows')
      → Reach rows'
  updated :
      {rows rows' : List Machine} (store_id id : ℕ) (req : MachineRequest)
      → Reach rows
      → handle_update_machine store_id id req rows ≡ ok rows'
      → Reach rows'

-- However machines are added and edited, every code is one that a customer can type, and no two
-- machines have the same one, so that a code leads to one machine.
pub Reach-HasGoodCodes : {rows : List Machine} → Reach rows → HasGoodCodes rows
unfolding HasGoodCodes handle_create_machine create_machine
Reach-HasGoodCodes start = tt
Reach-HasGoodCodes (created {rows} id store_id draws req r d h) =
    let label = trim_space req.label in
    let b = bind-ok (refuse_if (ltb (length label) 1 || ltb 50 (length label)) bad_label) _ h in
    create_from-HasGoodCodes (new_machine id store_id label (trim_space req.location))
      (take 5 draws) rows (λ code. refl) d (Reach-HasGoodCodes r) b.2
Reach-HasGoodCodes (updated {rows} store_id id req r h) =
    let u = update-map store_id id req rows h in
    subst HasGoodCodes (sym u.2) (map-HasGoodCodes u.0 u.1 rows (Reach-HasGoodCodes r))

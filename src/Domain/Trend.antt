-- ===== src/Domain/Trend.antt =====
-- internal/domain/character.go: `TrendBatches`. The list holds its anchor, so `AnchorCharacter`
-- does not panic (Tests.Services runs it); here it comes in as an argument. The loop runs on fuel, of
-- which the number of the characters is enough.
use claw_hub.Prelude.{
  ℕ, zero, suc, ◌≤◌, not, str_eq, Option, List, [], ◌∷◌, ◌++◌, keep, take, drop, length,
  length-take, length-drop, take-append-drop, All, ◌≡◌, refl, arith,
}
use claw_hub.Domain.Characters.{Character, character_by_code, anchor_character_code}

-- `naverGroupsPerRequest`
abbrev pub naver_groups_per_request : ℕ
naver_groups_per_request = 5

-- `AnchorCharacter`: the list has the anchor.
unfoldable pub anchor_character : Option Character
unfolding character_by_code
anchor_character = character_by_code anchor_character_code

module _ (anchor : Character) where
  -- The loop over what is left after the anchor is taken out.
  unfoldable pub batches_from : ℕ → List Character → List (List Character)
  batches_from zero rest = []
  batches_from (suc fuel) [] = []
  batches_from (suc fuel) (c ∷ rest) =
      (anchor ∷ take 4 (c ∷ rest)) ∷ batches_from fuel (drop 4 (c ∷ rest))

  unfoldable pub others : List Character → List Character
  others list = keep (λ c. not (str_eq c.code anchor.code)) list

  -- `TrendBatches`
  unfoldable pub trend_batches : List Character → List (List Character)
  unfolding batches_from others
  trend_batches list = batches_from (length (others list)) (others list)

  -- A request as the service takes it: the anchor in front, and one to four others.
  abbrev pub IsRequest : List Character → Type 0
  IsRequest batch =
      (rest : List Character) × (batch ≡ anchor ∷ rest) × (1 ≤ length rest) × (length rest ≤ 4)

  -- What the requests ask for besides the anchor.
  abbrev pub asked : List (List Character) → List Character
  asked [] = []
  asked (b ∷ bs) = drop 1 b ++ asked bs

  batches_from-AreRequests :
      (fuel : ℕ) (rest : List Character) → All IsRequest (batches_from fuel rest)
  unfolding batches_from
  batches_from-AreRequests zero rest = tt
  batches_from-AreRequests (suc fuel) [] = tt
  batches_from-AreRequests (suc fuel) (c ∷ rest) =
      let size = length-take 3 rest in
      (
        (take 4 (c ∷ rest), refl, omega arith, omega (arith, size)),
        batches_from-AreRequests fuel (drop 4 (c ∷ rest)),
      )

  batches_from-asked :
      (fuel : ℕ) (rest : List Character)
      → length rest ≤ fuel
      → asked (batches_from fuel rest) ≡ rest
  unfolding batches_from
  batches_from-asked zero [] h = refl
  batches_from-asked zero (c ∷ rest) h = absurd (omega arith)
  batches_from-asked (suc fuel) [] h = refl
  batches_from-asked (suc fuel) (c ∷ rest) h =
      let size = length-drop 3 rest in
      let later = batches_from-asked fuel (drop 3 rest) (omega (arith, h, size)) in
      rw (later, take-append-drop 3 rest) refl

  -- The loop ends with every character asked for exactly once, in the order of the list, and each
  -- request has the anchor in front and at most five groups, none of them without a new character.
  pub trend_batches_complete :
      (list : List Character)
      → (asked (trend_batches list) ≡ others list) × All IsRequest (trend_batches list)
  unfolding trend_batches
  trend_batches_complete list = (
    batches_from-asked (length (others list)) (others list) (omega arith),
    batches_from-AreRequests (length (others list)) (others list),
  )

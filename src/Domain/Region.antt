-- ===== src/Domain/Region.antt =====
-- internal/domain/region.go: the regions, by their codes, and `ValidateRegionDetail`.
use claw_hub.Prelude.{Bool, List, [], ◌∷◌, any, length, ltb, Result, refuse_if, ◌>>◌}
use claw_hub.Prelude.Texts.{Text, codes, text_eq, is_empty, trim_space}

pub data DetailError : Type 0 where
  no_detail long_detail : DetailError

-- `regions`
abbrev pub regions : List Text
regions =
    codes "seoul"
    ∷ codes "busan"
    ∷ codes "daegu"
    ∷ codes "incheon"
    ∷ codes "gwangju"
    ∷ codes "daejeon"
    ∷ codes "ulsan"
    ∷ codes "sejong"
    ∷ codes "gyeonggi"
    ∷ codes "gangwon"
    ∷ codes "chungbuk"
    ∷ codes "chungnam"
    ∷ codes "jeonbuk"
    ∷ codes "jeonnam"
    ∷ codes "gyeongbuk"
    ∷ codes "gyeongnam"
    ∷ codes "jeju"
    ∷ []

-- The second result of `RegionByCode`.
unfoldable pub is_region : Text → Bool
is_region code = any (λ r. text_eq r code) regions

-- `ValidateRegionDetail`
unfoldable pub validate_region_detail : Text → Result DetailError (Unit {0})
validate_region_detail s =
    refuse_if (is_empty (trim_space s)) no_detail
    >> refuse_if (ltb 20 (length (trim_space s))) long_detail

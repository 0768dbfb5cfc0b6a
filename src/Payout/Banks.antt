-- ===== src/Payout/Banks.antt =====
-- internal/payout/banks.go: the banks that a customer may choose.
use claw_hub.Prelude.{Bool, Option, String, List, [], ◌∷◌, any, find?}
use claw_hub.Prelude.Texts.{Text, codes, text_eq}

-- `Bank`
pub record Bank : Type 0 where
  pub code : Text
  pub name : Text
  pub short : Text

abbrev bank : String → String → String → Bank
bank code name short = record { code = codes code; name = codes name; short = codes short }

-- `banks`
abbrev pub banks : List Bank
banks =
    bank "090" "토스뱅크" "토스"
    ∷ bank "089" "케이뱅크" "케이뱅크"
    ∷ bank "092" "카카오뱅크" "카카오"
    ∷ bank "004" "국민은행" "국민"
    ∷ bank "088" "신한은행" "신한"
    ∷ bank "020" "우리은행" "우리"
    ∷ bank "081" "하나은행" "하나"
    ∷ bank "011" "농협은행" "농협"
    ∷ bank "003" "기업은행" "기업"
    ∷ bank "023" "SC제일은행" "SC제일"
    ∷ bank "027" "한국씨티은행" "씨티"
    ∷ bank "031" "대구은행" "대구"
    ∷ bank "032" "부산은행" "부산"
    ∷ bank "034" "광주은행" "광주"
    ∷ bank "035" "제주은행" "제주"
    ∷ bank "037" "전북은행" "전북"
    ∷ bank "039" "경남은행" "경남"
    ∷ bank "045" "새마을금고" "새마을"
    ∷ bank "048" "신협" "신협"
    ∷ bank "071" "우체국" "우체국"
    ∷ bank "007" "수협은행" "수협"
    ∷ []

-- `BankByCode`
unfoldable pub bank_by_code : Text → Option Bank
bank_by_code code = find? (λ b. text_eq b.code code) banks

-- Its second result.
unfoldable pub is_bank : Text → Bool
is_bank code = any (λ b. text_eq b.code code) banks

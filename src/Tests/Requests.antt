-- ===== src/Tests/Requests.antt =====
-- A customer's request as it is typed, from its fields to the claim that it becomes, and its risk.
use claw_hub.ClaimStore.Table.{Look}
use claw_hub.Prelude.{
  ◌*◌, ◌+◌, ℕ, zero, suc, none, true, [], ◌∷◌, ◌≡◌, ◌≤◌, refl, ok, arith, take, Option,
}
use claw_hub.Prelude.Int.{pos}
use claw_hub.Prelude.Texts.{trim_space, codes, Text}
use claw_hub.Claim.Status.{parse_payment_method, cash}
use claw_hub.Domain.MachineCode.{normalize_machine_code, validate_machine_code}
use claw_hub.Domain.Issue.{parse_issue_type, doll_stuck}
use claw_hub.Domain.Phone.{normalize_account, normalize_phone, in_shape, domestic, check_digits}
use claw_hub.Risk.Rules.{validate_amount, RiskInput, default_policy, normal, evaluate, status_rank}
use claw_hub.Risk.Verdict.{evaluate-IsStricter, IsGraver}
use claw_hub.Intake.Form.{ClaimForm, Fields, parse_claim_form}
use claw_hub.Intake.Photos.{IsFresh}
use claw_hub.Intake.Handler.{Request, Chance, World, MachineRow, handle_create_claim}
use claw_hub.Intake.Accepted.{IsAccounted, handle_create_claim-Accounted}

-- Letters beyond ASCII stay as they are, and no time is read.
abbrev same : ℕ → ℕ
same c = c

abbrev no_time : Text → Option ℕ
no_time s = none

abbrev hash : Text → ℕ
hash [] = 0
hash (c ∷ s) = c + 2 * hash s

a_code : validate_machine_code (codes "ABC234") ≡ none
unfolding validate_machine_code
a_code = refl

abroad : normalize_phone (codes "+82 10-1234-5678") ≡ ok (codes "01012345678")
unfolding normalize_phone in_shape domestic check_digits
abroad = refl

-- The second claim of a phone in a month, of a machine that it reported ten minutes ago.
abbrev input : RiskInput
input = record {
  amount_krw = pos 3000;
  phone_claims_30d = pos 2;
  phone_paid_total_30d = pos 3000;
  account_distinct_phones = pos 1;
  has_account = true;
  manual_status = normal;
  last_same_machine_at = 1000000000000;
  now = 1600000000000;
}

-- The same with another 3,000 won and a shared account.
abbrev graver : RiskInput
graver = record input { amount_krw = pos 20000; account_distinct_phones = pos 9 }

input-IsGraver : IsGraver input graver
input-IsGraver = record {
  contact = omega arith;
  claims = omega arith;
  paid_out = omega arith;
  phones = omega arith;
  account = λ e. e;
  amount = omega arith;
}

evaluate-IsStricter_example :
    ((evaluate input default_policy).score ≤ (evaluate graver default_policy).score)
    × (status_rank (evaluate input default_policy).status
        ≤ status_rank (evaluate graver default_policy).status)
evaluate-IsStricter_example = evaluate-IsStricter input graver default_policy input-IsGraver

abbrev fields : Fields
fields = record {
  machine_code = codes "abc-234";
  issue_type = "doll_stuck";
  amount_krw = codes " 3000 ";
  description = codes "stuck";
  phone = codes "010-1234-5678";
  payment_method = "cash";
  card_last4 = codes "1234";
  paid_at_guess = [];
  bank_code = codes "090";
  account_no = codes "1000-1234-5678";
  holder = codes "Kim";
}

abbrev form : ClaimForm
form = record {
  machine_code = codes "ABC234";
  issue_type = doll_stuck;
  payment_method = cash;
  amount_krw = pos 3000;
  description = codes "stuck";
  phone = codes "01012345678";
  bank_code = codes "090";
  account = codes "100012345678";
  holder = codes "Kim";
  card_last4 = [];
  paid_at_guess = 0;
}

fields_read : parse_claim_form same no_time fields default_policy ≡ ok form
unfolding parse_claim_form validate_machine_code normalize_machine_code parse_issue_type trim_space
    validate_amount normalize_phone parse_payment_method normalize_account
fields_read = refl

abbrev machine : MachineRow
machine = record { id = 2; store_id = 1; code = codes "ABC234"; active = true; store_type = "claw" }

abbrev world : World
world = record {
  db = record { claims = []; photos = []; events = [] };
  flags = [];
  machines = machine ∷ [];
  media = [];
  cache = [];
}

abbrev request : Request
request = record { key = codes "k-1"; is_multipart = true; fields = fields; files = [] }

abbrev nobody_else : Look
nobody_else = record { indexed = []; readable = [] }

abbrev chance : Chance
chance = record {
  now = 1600000000000;
  id = 1;
  keys = [];
  put_ok = λ k. true;
  delete_ok = λ k. true;
  stores = true;
  first = nobody_else;
  second = nobody_else;
  photo_days = 90;
}

no_keys : (n : ℕ) → IsFresh (take n []) []
unfolding IsFresh
no_keys zero = tt
no_keys (suc n) = tt

handle_create_claim-Accounted_example :
    IsAccounted same no_time hash hash default_policy request chance world
      (handle_create_claim same no_time hash hash default_policy request chance world)
handle_create_claim-Accounted_example =
    handle_create_claim-Accounted same no_time hash hash default_policy request chance world
      (λ k. refl) no_keys

-- ===== src/Tests/Services.antt =====
-- A transfer link, a mistyped number, a claim that a customer asks for, the jobs of two days, the
-- trends of a few characters, a first machine, and two pages of claims.
use claw_hub.Worker.Expired.{purge_runs-expired}
use claw_hub.Worker.Purge.{purge_runs, is_expired, PhotoRow}
use claw_hub.Accounts.Requests.{is_some}
use claw_hub.Intake.Handler.{MachineRow}
use claw_hub.Domain.MachineCode.{generate_machine_code}
use claw_hub.Prelude.{
  not, ◌==◌, ℕ, ◌+◌, ◌≤◌, true, false, none, List, [], ◌∷◌, ◌++◌, map, ◌≡◌, refl, err, arith, All,
  take, keep, length, count_if,
}
use claw_hub.Prelude.Int.{pos}
use claw_hub.Prelude.Texts.{is_space, trim_left, trim_space, Text, codes}
use claw_hub.Payout.Banks.{bank_by_code, Bank}
use claw_hub.Payout.Links.{
  Link, TransferRequest, links, link_for, tokens, template_for, is_unreserved,
}
use claw_hub.Payout.Shape.{links-shape, link_shape, template_shape, is_plain}
use claw_hub.Domain.BizNo.{
  validate_biz_no, validate_biz_no_typo, bad_check, normalize_biz_no, check_digit,
}
use claw_hub.Domain.Characters.{character_by_code, Character, characters}
use claw_hub.Domain.Trend.{
  trend_batches, trend_batches_complete, asked, others, IsRequest, anchor_character, batches_from,
}
use claw_hub.Claim.Status.{Status, pending, on_hold, cash}
use claw_hub.Claim.Machine.{no_method}
use claw_hub.ClaimStore.Table.{Row}
use claw_hub.ClaimStore.Page.{
  page_limit, cut_page, newer, insert_row, is_below, ClaimFilter, follow, sort_rows, is_wanted,
  list_claims,
}
use claw_hub.ClaimStore.Order.{HasUniqueIds}
use claw_hub.ClaimStore.Pages.{follow-all}
use claw_hub.Public.Status.{handle_public_claim_status, StoreColumns, stage_of}
use claw_hub.Public.Secrecy.{IsAlike, handle_public_claim_status-IsAlike}
use claw_hub.Worker.Alerts.{MachineActivity, alerts_of_day}
use claw_hub.Worker.Once.{alerts_about, alerts_of_day-once}
use claw_hub.Worker.Batch.{HasDistinctIds}
use claw_hub.Worker.Digest.{Tick, digests, digests-once, IsForward, can_send, kst_day, kst_hour}
use claw_hub.Machines.Table.{
  has_code, create_from, create_machine, Machine, MachineRequest, handle_create_machine,
}
use claw_hub.Machines.Codes.{Reach, HasGoodCodes, Reach-HasGoodCodes}

abbrev toss : Text
toss = codes "toss"

abbrev templates : List (Text × Text)
templates = (toss, template_for toss []) ∷ []

abbrev transfer : TransferRequest
transfer = record {
  bank_code = codes "004";
  account_no = codes "123-456";
  holder = codes "A&amount=9";
  amount_krw = pos 3000;
}

abbrev kookmin : Bank
kookmin = record { code = codes "004"; name = codes "국민은행"; short = codes "국민" }

abbrev toss_links : List Link
toss_links =
    link_for (tokens kookmin (codes "123456") 3000 (codes "A&amount=9"))
      (toss, template_for toss [])
    ∷ []

links-shape_example : map (link_shape b'&') toss_links ≡ map (template_shape b'&') templates
unfolding links bank_by_code is_plain is_unreserved
links-shape_example = links-shape templates transfer b'&' refl refl

validate_biz_no_typo_example : validate_biz_no (codes "2208162617") ≡ err bad_check
unfolding validate_biz_no normalize_biz_no check_digit
validate_biz_no_typo_example =
    validate_biz_no_typo (codes "2208162") b'5' b'6' (codes "17") refl refl (omega arith) refl

abbrev row_at : ℕ → ℕ → Status → Row
row_at id now status = record {
  claim = record {
    id = id;
    store_id = 1;
    machine_id = 7;
    issue_type = "cash_eaten";
    payment_method = cash;
    amount_krw = pos 3000;
    description = [];
    card_last4 = [];
    paid_at_guess = 0;
    status = status;
    risk_score = 0;
    created_at = now;
    resolved_at = 0;
    paid_at = 0;
    payout_method = no_method;
    paid_amount_krw = pos 0;
  };
  phone_hash = 100;
  account_hash = 200;
  key = codes "k";
  resolved_by = none;
}

abbrev uuid : ℕ → Text
uuid id = codes "0000000" ++ (b'0' + id) ∷ codes "-0000"

abbrev same : Text → Text
same s = s

abbrev machines : List MachineRow
machines =
    record { id = 7; store_id = 1; code = codes "ABCD23"; active = true; store_type = "claw" } ∷ []

abbrev shops : List StoreColumns
shops = record { id = 1; name = codes "shop"; phone = []; store_type = "claw" } ∷ []

handle_public_claim_status-IsAlike_example :
    handle_public_claim_status uuid same
      (λ c. c)
      machines
      shops
      5
      (codes "1.2.3.4")
      (codes "ABCD23")
      (codes "00000005")
      (row_at 4 900 pending ∷ row_at 5 1000 pending ∷ [])
      []
    ≡ handle_public_claim_status uuid same
        (λ c. c)
        machines
        shops
        5
        (codes "1.2.3.4")
        (codes "ABCD23")
        (codes "00000005")
        (row_at 4 900 pending ∷ row_at 5 1000 on_hold ∷ [])
        []
unfolding IsAlike stage_of
handle_public_claim_status-IsAlike_example =
    handle_public_claim_status-IsAlike uuid same (λ c. c) machines shops 5 (codes "1.2.3.4")
      (codes "ABCD23") (codes "00000005") (row_at 4 900 pending ∷ []) (row_at 5 1000 pending)
      (row_at 5 1000 on_hold) [] [] (refl, refl, refl, refl, refl, refl, refl, refl, refl, refl)

abbrev busy : MachineActivity
busy = record { machine_id = 7; store_id = 1; label = codes "3"; count = 4 }

abbrev runs : List (ℕ × List MachineActivity)
runs = (1000, busy ∷ []) ∷ (2000, busy ∷ []) ∷ []

alerts_of_day-once_example : alerts_about 7 (alerts_of_day uuid (codes "2026-01-02") runs []) ≤ 1
alerts_of_day-once_example =
    alerts_of_day-once uuid (codes "2026-01-02") 7 500 runs []
      ((omega arith, omega arith), ((omega arith, omega arith), tt))

abbrev ticks : List Tick
ticks =
    record { now = 10000000000000; gathered = false }
    ∷ record { now = 10300000000000; gathered = true }
    ∷ record { now = 10600000000000; gathered = true }
    ∷ []

digests-once_example : count_if (λ x. x == 0) (digests none ticks) ≡ 1
unfolding IsForward can_send kst_day kst_hour
digests-once_example = digests-once 0 ticks (omega arith, (omega arith, (omega arith, tt)))

abbrev kitty : Character
kitty = record { code = "hello_kitty"; name = "Kitty"; group = "sanrio"; queries = [] }

trend_batches_complete_example :
    (asked kitty (trend_batches kitty (take 7 characters)) ≡ others kitty (take 7 characters))
    × All (IsRequest kitty) (trend_batches kitty (take 7 characters))
trend_batches_complete_example = trend_batches_complete kitty (take 7 characters)

-- The list has its anchor, and takes eighteen requests.
anchor_run : (is_some anchor_character ≡ true) × (length (trend_batches kitty characters) ≡ 18)
unfolding anchor_character trend_batches others batches_from character_by_code
anchor_run = (refl, refl)

abbrev first_request : MachineRequest
first_request = record { label = codes "3"; location = []; active = none }

abbrev first_machine : Machine
first_machine = record {
  id = 7;
  store_id = 1;
  code = codes "ABCDEF";
  label = codes "3";
  location = [];
  active = true;
}

abbrev draws : List (List ℕ)
draws = (0 ∷ 1 ∷ 2 ∷ 3 ∷ 4 ∷ 5 ∷ []) ∷ []

reach_first : Reach (first_machine ∷ [])
unfolding handle_create_machine create_machine create_from has_code generate_machine_code trim_space
    trim_left is_space
reach_first =
    Reach.created 7 1 draws first_request Reach.start
      (
        (
          refl,
          (
            omega arith,
            (omega arith, (omega arith, (omega arith, (omega arith, (omega arith, tt))))),
          ),
        ),
        tt,
      )
      refl

Reach-HasGoodCodes_example : HasGoodCodes (first_machine ∷ [])
Reach-HasGoodCodes_example = Reach-HasGoodCodes reach_first

abbrev filter_all : ClaimFilter
filter_all = record {
  store_id = 1;
  statuses = [];
  machine_id = none;
  from = 0;
  to = 0;
  cursor = none;
  limit = pos 1;
}

abbrev claims : List Row
claims = row_at 4 900 pending ∷ row_at 5 1000 on_hold ∷ []

two_pages : follow 3 filter_all claims ≡ row_at 5 1000 on_hold ∷ row_at 4 900 pending ∷ []
unfolding follow list_claims is_wanted is_below sort_rows insert_row newer cut_page page_limit
two_pages = refl

follow-all_example : follow 3 filter_all claims ≡ sort_rows (keep (is_wanted filter_all) claims)
unfolding HasUniqueIds
follow-all_example = follow-all filter_all claims ((refl, tt), (tt, tt)) refl

abbrev photo : ℕ → ℕ → PhotoRow
photo id at = record { id = id; claim_id = 1; object_key = codes "a"; expires_at = at }

abbrev old_photos : List PhotoRow
old_photos = photo 1 90 ∷ photo 2 30 ∷ photo 3 40 ∷ []

purge_runs-expired_example :
    (count_if (is_expired 40) (purge_runs (λ k. false) (λ id. true) (50 ∷ 60 ∷ []) old_photos []).0
      ≡ 0)
    × (keep
          (λ p. not (is_expired 70 p))
          (purge_runs (λ k. false) (λ id. true) (50 ∷ 60 ∷ []) old_photos []).0
        ≡ keep (λ p. not (is_expired 70 p)) old_photos)
unfolding HasDistinctIds
purge_runs-expired_example =
    purge_runs-expired (λ k. false) (λ id. true) (λ id. refl) 40 70 (50 ∷ 60 ∷ []) old_photos []
      ((omega arith, omega arith), ((omega arith, omega arith), tt))
      ((refl, (refl, tt)), ((refl, tt), (tt, tt))) (omega arith)

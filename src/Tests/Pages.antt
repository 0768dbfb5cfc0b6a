-- ===== src/Tests/Pages.antt =====
-- A shop that signs up, one that the command makes, and the pages of its claims.
use claw_hub.Prelude.Decimal.{atoi}
use claw_hub.Refund.Listing.{
  ListQuery, handle_list_claims, handle_list_claims-own, parse_statuses, status_parts, split_commas,
}
use claw_hub.ClaimStore.Page.{list_claims, is_wanted, sort_rows, insert_row, cut_page, page_limit}
use claw_hub.Prelude.{
  any, ◌||◌, ◌==◌, length, In, All, ◌≤◌, Option, ◌⊎◌, ◌+◌, ℕ, true, false, none, some, List, [],
  ◌∷◌, ◌≡◌, ◌↔◌, refl, ok, err, ◌+◌, Result, is_ok, is_ok-value, subst, eq_of_some, arith,
}
use claw_hub.Prelude.Int.{pos}
use claw_hub.Prelude.Texts.{Text, codes, text_eq, text_eq_refl, trim_space, is_space, trim_left}
use claw_hub.Claim.Status.{status_eq, Status, status_string, approved, paid, cash, ActorKind, Actor}
use claw_hub.Claim.Machine.{Claim, manual, no_method}
use claw_hub.ClaimStore.Table.{Row, Db, Photo, append_event}
use claw_hub.ClaimStore.Detail.{
  Shelf, ClaimDetail, claim_detail, read_claim, view_event, photos_for,
}
use claw_hub.ClaimStore.Viewed.{read_claim-IsOnRecord, newest_name}
use claw_hub.Accounts.Users.{Bcrypt, User, UserRow, new_user}
use claw_hub.Accounts.Desk.{handle_login}
use claw_hub.Accounts.Stores.{StoreRow, create_store_with_owner, Cipher}
use claw_hub.Accounts.Signup.{SignupRequest, Draw, handle_signup, check_signup}
use claw_hub.Accounts.Setup.{
  Flags, Tables, run_setup, create_shop, password_flag, created, keys_printed,
}
use claw_hub.Accounts.Opening.{IsFaithful}
use claw_hub.Accounts.Entrance.{handle_signup-login, run_setup-login_iff}
use claw_hub.Refund.Handlers.{Access, prepare, mark_paid}
use claw_hub.Refund.Page.{
  handle_payout_links, handle_photo, PayoutSheet, void_card, payout_sheet, if_approved, open_photo,
}
use claw_hub.Refund.Sheet.{handle_payout_links-IsAccepted, whole}
use claw_hub.Refund.Shown.{handle_photo-own}

-- What a call gives that does not fail.
abbrev value_or : {E A : Type 0} → A → Result E A → A
value_or d (ok a) = a
value_or d (err e) = d

-- Hashes that are the passwords themselves.
abbrev plain : Bcrypt
plain = record { generate = λ salt p. some p; compare = λ h p. text_eq h p }

plain-IsFaithful : IsFaithful plain
plain-IsFaithful salt p h e = subst (λ x. text_eq x p ≡ true) (eq_of_some e) (text_eq_refl p)

abbrev lower : Text → Text
lower s = s

abbrev draw : Draw
draw = record { store_id = codes "s1"; user_id = codes "u1"; salt = 3 }

abbrev signup : SignupRequest
signup = record {
  store_name = codes " Claws ";
  phone = [];
  store_type = "claw";
  email = codes "kim@x";
  password = codes "longenough";
  name = [];
}

abbrev signed :
    (out : User × List StoreRow × List UserRow) × (handle_signup plain lower true
        (λ s. true)
        draw
        signup
        ([], [])
      ≡ ok out)
unfolding handle_signup check_signup create_store_with_owner trim_space is_space trim_left
signed = is_ok-value (handle_signup plain lower true (λ s. true) draw signup ([], [])) refl

handle_signup-login_example :
    (handle_login plain lower 100 (codes "kim@x ") (codes "longenough") signed.0.2).0
    ≡ ok signed.0.0
unfolding trim_space is_space trim_left
handle_signup-login_example =
    handle_signup-login plain lower plain-IsFaithful true (λ s. true) draw signup ([], []) 100
      (codes "kim@x ") refl signed.1

abbrev flags : Flags
flags = record {
  store = codes "Claws";
  phone = [];
  email = codes "Kim@x";
  password = codes "longenough";
  name = codes "Kim";
  type = "claw";
  reset_password = false;
  list_users = false;
  password_stdin = false;
  vapid_keys = false;
}

abbrev kim : UserRow
kim = new_user (codes "u1") (codes "s1") (codes "Kim@x") (codes "longenough") (codes "Kim") []

abbrev setup_tables : Tables
unfolding run_setup create_shop create_store_with_owner
setup_tables =
    (value_or (keys_printed, ([], [])) (run_setup plain lower 100 draw flags none ([], []))).1

setup_run : run_setup plain lower 100 draw flags none ([], []) ≡ ok (created kim.user, setup_tables)
unfolding run_setup create_shop create_store_with_owner password_flag
setup_run = refl

run_setup-login_iff_example :
    ((handle_login plain lower 100 (codes "kim@x") (codes "longenough") setup_tables.1).0
      ≡ ok kim.user)
    ↔ (trim_space (codes "kim@x") ≡ codes "Kim@x")
unfolding password_flag
run_setup-login_iff_example =
    run_setup-login_iff plain lower plain-IsFaithful draw flags none (codes "longenough") ([], [])
      setup_tables kim.user 100 100 (codes "kim@x") refl setup_run

abbrev owner : Actor
owner = record { kind = ActorKind.owner; id = some 9 }

abbrev access : Access
access = record { store_id = 1; actor = owner }

abbrev approved_claim : Claim
approved_claim = record {
  id = 5;
  store_id = 1;
  machine_id = 7;
  issue_type = "cash_eaten";
  payment_method = cash;
  amount_krw = pos 3000;
  description = [];
  card_last4 = [];
  paid_at_guess = 0;
  status = approved;
  risk_score = 0;
  created_at = 1000;
  resolved_at = 0;
  paid_at = 0;
  payout_method = no_method;
  paid_amount_krw = pos 0;
}

abbrev row : Row
row = record {
  claim = approved_claim;
  phone_hash = 100;
  account_hash = 200;
  key = codes "k-1";
  resolved_by = none;
}

abbrev photo : ℕ × Photo
photo = (5, record { object_key = codes "a.jpg"; expires_at = 9000 })

abbrev db : Db
db = record { claims = row ∷ []; photos = photo ∷ []; events = [] }

abbrev shelf : Shelf
shelf = record {
  sealed = λ id. record {
    phone_enc = codes "01012345678";
    account_enc = codes "123456";
    holder_enc = codes "Kim";
    bank_code = codes "004";
    risk_reasons = [];
  };
  machines = record { id = 7; label = codes "M7"; code = codes "ABCD23" } ∷ [];
  user_name = λ id. codes "Lee";
  decrypt = λ e. some e;
  reasons = λ e. some [];
}

abbrev page : (d : ClaimDetail) × ((read_claim shelf true 1 5 owner 2000 db).0 ≡ ok d)
unfolding read_claim claim_detail
page = is_ok-value (read_claim shelf true 1 5 owner 2000 db).0 refl

read_claim-IsOnRecord_example :
    (page.0.claim.id ≡ 5)
    × (page.0.claim.store_id ≡ 1)
    × (page.0.approved_by ≡ newest_name shelf approved [])
    × (page.0.paid_by ≡ newest_name shelf paid [])
    × ((read_claim shelf true 1 5 owner 2000 db).1 ≡ append_event (view_event 5 owner 2000) db)
read_claim-IsOnRecord_example = read_claim-IsOnRecord shelf true 1 5 owner 2000 db page.1

abbrev cipher : Cipher
cipher = record { encrypt = λ n s. some s; decrypt = λ e. some e }

abbrev uuid : ℕ → Text
uuid id = (b'0' + id) ∷ []

abbrev sheet : PayoutSheet
unfolding handle_payout_links read_claim claim_detail payout_sheet if_approved
sheet =
    value_or (void_card [] 0 (pos 0))
      (handle_payout_links shelf true access 5 2000 db cipher uuid [] []).0

sheet_run : (handle_payout_links shelf true access 5 2000 db cipher uuid [] []).0 ≡ ok sheet
unfolding handle_payout_links read_claim claim_detail payout_sheet if_approved
sheet_run = refl

handle_payout_links-IsAccepted_example :
    is_ok (
      prepare mark_paid access 5
        (some (whole [] manual))
        3000
        (handle_payout_links shelf true access 5 2000 db cipher uuid [] []).1)
    ≡ true
unfolding handle_payout_links read_claim claim_detail payout_sheet if_approved
handle_payout_links-IsAccepted_example =
    handle_payout_links-IsAccepted shelf true access 5 2000 db cipher uuid [] [] [] manual 3000 refl
      (omega arith, tt) sheet_run tt

abbrev photo_id : ℕ × Photo → Text
photo_id p = codes "p1"

photo_run :
    (handle_photo shelf true access 5 2000 db photo_id (codes "a.jpg" ∷ []) (codes "p1")).0
    ≡ ok (codes "a.jpg")
unfolding handle_photo read_claim claim_detail open_photo photos_for
photo_run = refl

handle_photo-own_example :
    ((p : ℕ × Photo) × ((p ≡ photo) ⊎ ⊥)
      × (p.0 ≡ 5)
      × (codes "p1" ≡ codes "p1")
      × (p.1.object_key ≡ codes "a.jpg"))
    × ((r : Row) × ((r ≡ row) ⊎ ⊥) × (r.claim.id ≡ 5) × (r.claim.store_id ≡ 1))
    × ((handle_photo shelf true access 5 2000 db photo_id (codes "a.jpg" ∷ []) (codes "p1")).1 ≡ db)
handle_photo-own_example =
    handle_photo-own shelf true access 5 2000 db photo_id (codes "a.jpg" ∷ []) (codes "p1")
      photo_run

abbrev no_time : Text → Option ℕ
no_time s = none

abbrev asked : ListQuery
asked = record {
  statuses = codes "approved, paid" ∷ [];
  machine_id = none;
  cursor = none;
  limit = codes "20";
  from = [];
  to = [];
}

list_run : handle_list_claims no_time 1 asked (row ∷ []) ≡ ok (row ∷ [], none)
unfolding handle_list_claims parse_statuses status_parts split_commas status_string trim_space
    trim_left is_space atoi list_claims is_wanted sort_rows insert_row cut_page page_limit
list_run = refl

handle_list_claims-own_example :
    (1 ≤ 200)
    × ((sts : List Status) × (parse_statuses (status_parts asked.statuses) ≡ ok sts)
        × All
            (λ r.
              In r (row ∷ [])
              × (r.claim.store_id ≡ 1)
              × (length sts == 0 || any (status_eq r.claim.status) sts ≡ true))
            (row ∷ []))
handle_list_claims-own_example = handle_list_claims-own no_time 1 asked (row ∷ []) list_run

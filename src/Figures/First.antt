-- ===== src/Figures/First.antt =====
-- internal/httpapi/admin_home.go: which line of the home screen is the first.
use claw_hub.Prelude.{
  refl, ◌∙◌, arith, Bool-cases, inl, inr, ◌≡◌, inr, inl, ◌∙◌, arith, Bool-cases, ◌≡◌, ℕ, Bool,
  false, ◌&&◌, ◌||◌, String, str_eq, Option, none, some, List, [], ◌∷◌, ◌++◌, map, any, keep,
  count_if, ltb, ◌==◌,
}
use claw_hub.Prelude.Texts.{Text, codes, is_empty, text_eq}
use claw_hub.Claim.Status.{approved}
use claw_hub.Claim.Machine.{Event}
use claw_hub.ClaimStore.Table.{Row}
use claw_hub.Machines.Table.{Machine}
use claw_hub.Accounts.Stores.{StoreRow}
use claw_hub.Figures.Home.{
  HomeSummary, MachineAlert, home_summary_for, machine_alerts_for, in_status,
}
use claw_hub.Figures.Actions.{
  HomeAction, HomeResponse, build_home_actions, handle_home, with_store, setup_payout, alert_action,
  machine_alert_threshold,
}

-- The kind of the first line.
abbrev pub first_kind : List HomeAction → String
first_kind [] = ""
first_kind (a ∷ rest) = a.kind

first_kind-alerts :
    (uuid : ℕ → Text) (alerts : List MachineAlert)
    → str_eq (first_kind (map (alert_action uuid) alerts)) "payout_pending" ≡ false
first_kind-alerts uuid [] = refl
first_kind-alerts uuid (a ∷ alerts) = refl

first_kind-actions :
    (uuid : ℕ → Text) (sum : HomeSummary) (alerts : List MachineAlert) (now : ℕ)
    → str_eq (first_kind (build_home_actions uuid sum alerts now)) "payout_pending"
      ≡ ltb 0 sum.approved
unfolding build_home_actions
first_kind-actions uuid sum alerts now = elim (Bool-cases (ltb 0 sum.approved)) [
  | inl e ↦ rw e refl
  | inr e ↦ elim (Bool-cases (ltb 0 sum.needs_review)) [
    | inl f ↦ rw (e, f) refl
    | inr f ↦ elim (Bool-cases (ltb 0 sum.pending)) [
      | inl g ↦ rw (e, f, g) refl
      | inr g ↦ elim (Bool-cases (ltb 0 sum.stale_on_hold)) [
        | inl h ↦ rw (e, f, g, h) refl
        | inr h ↦ rw (e, f, g, h) (first_kind-alerts uuid alerts)
      ]
    ]
  ]
]

count_if-any : (p : Row → Bool) (rows : List Row) → ltb 0 (count_if p rows) ≡ any p rows
count_if-any p [] = refl
count_if-any p (r ∷ rows) = ground (arith, count_if-any p rows)

any-keep : (p t : Row → Bool) (rows : List Row) → any p (keep t rows) ≡ any (λ r. t r && p r) rows
any-keep p t [] = refl
any-keep p t (r ∷ rows) = ground (arith, any-keep p t rows)

first_kind-append :
    (actions : List HomeAction)
    → str_eq (first_kind (actions ++ setup_payout ∷ [])) "payout_pending"
      ≡ str_eq (first_kind actions) "payout_pending"
first_kind-append [] = refl
first_kind-append (a ∷ actions) = refl

first_kind-with_store :
    (st : Option StoreRow) (res : HomeResponse)
    → str_eq (first_kind (with_store st res).actions) "payout_pending"
      ≡ str_eq (first_kind res.actions) "payout_pending"
first_kind-with_store none res = refl
first_kind-with_store (some st) res =
    elim (Bool-cases (is_empty st.payout_provider || text_eq st.payout_provider (codes "none"))) [
      | inl e ↦ rw e (first_kind-append res.actions)
      | inr e ↦ rw e refl
    ]

-- The first line of the home screen tells of refunds that are promised and not paid exactly when
-- some claim of the shop is approved; no other line ever comes before it.
pub handle_home-first :
    (uuid : ℕ → Text) (start_of_day : ℕ → ℕ) (store now : ℕ) (st : Option StoreRow)
    (rows : List Row) (events : List Event) (machines : List Machine)
    → str_eq
        (first_kind (handle_home uuid start_of_day store now st rows events machines).actions)
        "payout_pending"
      ≡ any (λ r. r.claim.store_id == store && in_status approved r) rows
unfolding handle_home home_summary_for
handle_home-first uuid start_of_day store now st rows events machines =
    first_kind-with_store st _
    ∙ first_kind-actions uuid (home_summary_for start_of_day store now rows events)
        (machine_alerts_for store machine_alert_threshold now rows machines) now
    ∙ count_if-any (in_status approved) (keep (λ r. r.claim.store_id == store) rows)
    ∙ any-keep (in_status approved) (λ r. r.claim.store_id == store) rows

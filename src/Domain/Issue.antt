-- ===== src/Domain/Issue.antt =====
-- internal/domain/storetype.go and the issues of internal/domain/claim.go: the types of store, and the
-- issues that a customer of each may report.
use claw_hub.Prelude.{
  ◌∙◌, sym, ◌≢◌, String, ℕ, Bool, true, Option, none, some, List, [], ◌∷◌, ◌++◌, str_eq, any, find?,
  if◌then◌else◌, ◌≡◌, refl, arith, ◌==◌,
}

-- `StoreType`; a Go store type is a string, and `unknown_store` is one that no constant names.
pub data StoreType : Type 0 where
  claw laundry karaoke photo study cafe : StoreType
  unknown_store : String → StoreType

unfoldable pub store_type_string : StoreType → String
store_type_string claw = "claw"
store_type_string laundry = "laundry"
store_type_string karaoke = "karaoke"
store_type_string photo = "photo"
store_type_string study = "study"
store_type_string cafe = "cafe"
store_type_string (unknown_store s) = s

-- `AllStoreTypes`
abbrev pub all_store_types : List StoreType
all_store_types = claw ∷ laundry ∷ karaoke ∷ photo ∷ study ∷ cafe ∷ []

-- `ValidStoreType`
unfoldable pub valid_store_type : String → Bool
unfolding store_type_string
valid_store_type s = any (λ t. str_eq (store_type_string t) s) all_store_types

-- The store type that a string is.
unfoldable pub store_type_of : String → StoreType
unfolding store_type_string
store_type_of s = elim (find? (λ t. str_eq (store_type_string t) s) all_store_types) [
  | some t ↦ t
  | none ↦ unknown_store s
]

-- `NormalizeStoreType`
unfoldable pub normalize_store_type : String → StoreType
unfolding valid_store_type store_type_of
normalize_store_type s = if valid_store_type s then store_type_of s else claw

-- `IssueType`
pub data IssueType : Type 0 where
  other doll_stuck cash_eaten claw_broken no_start stopped_mid not_dry no_credit mic_broken cut_off
        no_print bad_print no_shoot no_seat door_locked double_charge no_drink no_cup wrong_drink :
      IssueType

abbrev issue_index : IssueType → ℕ
issue_index other = 0
issue_index doll_stuck = 1
issue_index cash_eaten = 2
issue_index claw_broken = 3
issue_index no_start = 4
issue_index stopped_mid = 5
issue_index not_dry = 6
issue_index no_credit = 7
issue_index mic_broken = 8
issue_index cut_off = 9
issue_index no_print = 10
issue_index bad_print = 11
issue_index no_shoot = 12
issue_index no_seat = 13
issue_index door_locked = 14
issue_index double_charge = 15
issue_index no_drink = 16
issue_index no_cup = 17
issue_index wrong_drink = 18

abbrev issue_eq : IssueType → IssueType → Bool
issue_eq a b = issue_index a == issue_index b

unfoldable pub issue_string : IssueType → String
issue_string other = "other"
issue_string doll_stuck = "doll_stuck"
issue_string cash_eaten = "cash_eaten"
issue_string claw_broken = "claw_broken"
issue_string no_start = "no_start"
issue_string stopped_mid = "stopped_mid"
issue_string not_dry = "not_dry"
issue_string no_credit = "no_credit"
issue_string mic_broken = "mic_broken"
issue_string cut_off = "cut_off"
issue_string no_print = "no_print"
issue_string bad_print = "bad_print"
issue_string no_shoot = "no_shoot"
issue_string no_seat = "no_seat"
issue_string door_locked = "door_locked"
issue_string double_charge = "double_charge"
issue_string no_drink = "no_drink"
issue_string no_cup = "no_cup"
issue_string wrong_drink = "wrong_drink"

-- The table `storeIssues`; `IssuesFor` gives an unknown type those of a claw store.
unfoldable pub issues_for : StoreType → List IssueType
issues_for laundry = no_start ∷ stopped_mid ∷ not_dry ∷ other ∷ []
issues_for karaoke = no_credit ∷ mic_broken ∷ cut_off ∷ other ∷ []
issues_for photo = no_print ∷ bad_print ∷ no_shoot ∷ other ∷ []
issues_for study = no_seat ∷ door_locked ∷ double_charge ∷ other ∷ []
issues_for cafe = no_drink ∷ no_cup ∷ wrong_drink ∷ other ∷ []
issues_for _ = doll_stuck ∷ cash_eaten ∷ claw_broken ∷ other ∷ []

-- `ValidIssueFor`
unfoldable pub valid_issue_for : StoreType → IssueType → Bool
unfolding issues_for
valid_issue_for st it = any (λ v. issue_eq v it) (issues_for st)

-- The two loops of `AllIssueTypes`, on what they have seen so far.
unfoldable pub add_unseen : List IssueType → List IssueType → List IssueType
add_unseen out [] = out
add_unseen out (it ∷ its) =
    add_unseen (if any (λ v. issue_eq v it) out then out else out ++ it ∷ []) its

unfoldable pub collect_issues : List IssueType → List StoreType → List IssueType
unfolding add_unseen issues_for
collect_issues out [] = out
collect_issues out (st ∷ sts) = collect_issues (add_unseen out (issues_for st)) sts

-- `AllIssueTypes`
unfoldable pub all_issue_types : List IssueType
unfolding collect_issues
all_issue_types = collect_issues [] all_store_types

-- `ParseIssueType`: the keys of the table of labels are all the issues.
unfoldable pub parse_issue_type : String → Option IssueType
unfolding issue_string all_issue_types
parse_issue_type s = find? (λ v. str_eq (issue_string v) s) all_issue_types

-- The one store that an issue other than `other` belongs to.
home : IssueType → StoreType
home other = claw
home doll_stuck = claw
home cash_eaten = claw
home claw_broken = claw
home no_start = laundry
home stopped_mid = laundry
home not_dry = laundry
home no_credit = karaoke
home mic_broken = karaoke
home cut_off = karaoke
home no_print = photo
home bad_print = photo
home no_shoot = photo
home no_seat = study
home door_locked = study
home double_charge = study
home no_drink = cafe
home no_cup = cafe
home wrong_drink = cafe

unfoldable pub IsNamed : StoreType → Type 0
IsNamed (unknown_store _) = ⊥
IsNamed _ = Unit

valid-home :
    (a : StoreType) (it : IssueType)
    → IsNamed a
    → valid_issue_for a it ≡ true
    → it ≢ other
    → home it ≡ a
unfolding valid_issue_for home IsNamed
valid-home claw it c h n = ground arith
valid-home laundry it c h n = ground arith
valid-home karaoke it c h n = ground arith
valid-home photo it c h n = ground arith
valid-home study it c h n = ground arith
valid-home cafe it c h n = ground arith
valid-home (unknown_store _) it c h n = elim c [ ]

-- An issue other than `other` is one that the customers of at most one of the named types of store
-- may report.
pub valid_issue_for_unique :
    (a b : StoreType) (it : IssueType)
    → IsNamed a
    → IsNamed b
    → valid_issue_for a it ≡ true
    → valid_issue_for b it ≡ true
    → it ≢ other
    → a ≡ b
valid_issue_for_unique a b it ca cb ha hb n =
    sym (valid-home a it ca ha n) ∙ valid-home b it cb hb n

-- `ParseIssueType` reads the string of an issue as that issue.
parse-issue_string : (it : IssueType) → parse_issue_type (issue_string it) ≡ some it
unfolding parse_issue_type issue_string
parse-issue_string other = refl
parse-issue_string doll_stuck = refl
parse-issue_string cash_eaten = refl
parse-issue_string claw_broken = refl
parse-issue_string no_start = refl
parse-issue_string stopped_mid = refl
parse-issue_string not_dry = refl
parse-issue_string no_credit = refl
parse-issue_string mic_broken = refl
parse-issue_string cut_off = refl
parse-issue_string no_print = refl
parse-issue_string bad_print = refl
parse-issue_string no_shoot = refl
parse-issue_string no_seat = refl
parse-issue_string door_locked = refl
parse-issue_string double_charge = refl
parse-issue_string no_drink = refl
parse-issue_string no_cup = refl
parse-issue_string wrong_drink = refl

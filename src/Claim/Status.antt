-- ===== src/Claim/Status.antt =====
-- internal/domain/claim.go: the states of a claim, its actors, actions and payment methods, and the
-- functions that read them from text. A Go `Status` is a string: `unlisted` is one that no constant
-- names, such as the empty string of a `create` event.
use claw_hub.Prelude.{
  ℕ, String, Bool, true, false, ◌||◌, Option, some, List, [], ◌∷◌, ◌==◌, str_eq, eq_iff, ap, find?,
  ◌≡◌, ◌↔◌, arith,
}

pub data Status : Type 0 where
  pending needs_review on_hold approved rejected paid : Status
  unlisted : String → Status

-- The string that a status is.
unfoldable pub status_string : Status → String
status_string pending = "pending"
status_string needs_review = "needs_review"
status_string on_hold = "on_hold"
status_string approved = "approved"
status_string rejected = "rejected"
status_string paid = "paid"
status_string (unlisted s) = s

abbrev pub status_index : Status → ℕ
status_index pending = 0
status_index needs_review = 1
status_index on_hold = 2
status_index approved = 3
status_index rejected = 4
status_index paid = 5
status_index (unlisted s) = 6

-- `==` on two statuses.
abbrev pub status_eq : Status → Status → Bool
status_eq (unlisted s) (unlisted t) = str_eq s t
status_eq a b = status_index a == status_index b

-- `AllStatuses`
abbrev pub all_statuses : List Status
all_statuses = pending ∷ needs_review ∷ on_hold ∷ approved ∷ rejected ∷ paid ∷ []

-- `Status.IsTerminal`
abbrev pub is_terminal : Status → Bool
is_terminal s = status_eq s paid || status_eq s rejected

-- `ParseStatus`
unfoldable pub parse_status : String → Option Status
unfolding status_string
parse_status s = find? (λ v. str_eq (status_string v) s) all_statuses

-- A status that a constant names.
abbrev pub IsListed : Status → Type 0
IsListed (unlisted s) = ⊥
IsListed _ = Unit

-- `Actor.Kind`; `nobody` is the empty string.
pub data ActorKind : Type 0 where
  nobody customer owner system link : ActorKind

abbrev pub is_nobody : ActorKind → Bool
is_nobody nobody = true
is_nobody _ = false

-- `Actor`, less the name that is filled in for display only; no id is the empty string.
pub record Actor : Type 0 where
  pub kind : ActorKind
  pub id : Option ℕ

pub data Action : Type 0 where
  create transition view_contact : Action

-- `PaymentMethod`
pub data PaymentMethod : Type 0 where
  cash card unknown : PaymentMethod

-- `PaymentMethod.NeedsAccount`
abbrev pub needs_account : PaymentMethod → Bool
needs_account card = false
needs_account _ = true

abbrev pub is_card : PaymentMethod → Bool
is_card card = true
is_card _ = false

unfoldable pub payment_string : PaymentMethod → String
payment_string cash = "cash"
payment_string card = "card"
payment_string unknown = "unknown"

-- `AllPaymentMethods`
abbrev pub all_payment_methods : List PaymentMethod
all_payment_methods = cash ∷ card ∷ []

-- `ParsePaymentMethod`
unfoldable pub parse_payment_method : String → Option PaymentMethod
unfolding payment_string
parse_payment_method s = find? (λ v. str_eq (payment_string v) s) all_payment_methods

-- Every listed status is read back from its own string, and a string is read as a status only if it
-- is that status's string.
pub parse_status_iff :
    (s : String) (v : Status) → (parse_status s ≡ some v) ↔ (IsListed v × (status_string v ≡ s))
unfolding parse_status status_string
parse_status_iff s v = (forth s v, back s v)
  where
    forth : (s : String) (v : Status) → parse_status s ≡ some v → IsListed v × (status_string v ≡ s)
    forth s v h = ground (
      arith,
      eq_iff "pending" s,
      eq_iff "needs_review" s,
      eq_iff "on_hold" s,
      eq_iff "approved" s,
      eq_iff "rejected" s,
      eq_iff "paid" s,
    )

    back : (s : String) (v : Status) → IsListed v × (status_string v ≡ s) → parse_status s ≡ some v
    back s pending (_, e) = rw (← e)
    back s (unlisted t) (no_such, _) = absurd no_such
    back s _ (_, e) = rw (← e)

-- `==` on statuses tells them apart.
pub eq_of_status_eq : (a b : Status) → status_eq a b ≡ true → a ≡ b
eq_of_status_eq (unlisted s) (unlisted t) h = ap unlisted ((eq_iff s t).0 h)
eq_of_status_eq a b h = ground arith

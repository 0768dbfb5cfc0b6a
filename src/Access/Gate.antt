-- ===== src/Access/Gate.antt =====
-- internal/httpapi/auth.go: `userFromSession`, `authed` and `claimScoped`, up to the handler that they
-- call; and the times of internal/httpapi/session.go and claimtoken.go at which tokens end.
use claw_hub.Prelude.{
  [], ℕ, Bool, true, false, Option, none, some, List, if◌then◌else◌, Result, ok, err, ◌≡◌, refl,
  sym, inl, inr, ok-injective, Bool-cases,
}
use claw_hub.Prelude.Texts.{Text, is_empty}
use claw_hub.Claim.Status.{ActorKind, owner, link}
use claw_hub.Accounts.Users.{User, UserRow, user_by_id}
use claw_hub.Access.Tokens.{
  Signing, TokenError, decode_session, decode_link, encode_link, link_message, link_payload,
}
use claw_hub.Access.Signed.{IsBase64, IsToldApart, lacks, decode_link-claim}

-- `sessionLifetime` and `claimTokenTTL`: 14 days and 7 days.
abbrev pub session_lifetime : ℕ
session_lifetime = 1209600000000000

abbrev pub claim_token_ttl : ℕ
claim_token_ttl = 604800000000000

-- `access`
pub record GateAccess : Type 0 where
  pub store_id : Text
  pub kind : ActorKind
  pub actor_id : Text
  pub via_link : Bool

-- What the gates read of a request. No cookie is `none`.
pub record Visit : Type 0 where
  pub cookie : Option Text
  pub claim_token_header : Text
  pub claim_token_query : Text
  pub claim_id : Text

pub data GateError : Type 0 where
  unauthorized : GateError
  invalid_link : TokenError → GateError

-- `claimTokenFrom`
unfoldable pub claim_token_from : Visit → Text
claim_token_from v =
    if is_empty v.claim_token_header then v.claim_token_query else v.claim_token_header

-- What an owner's session is allowed to do.
abbrev pub owner_access : User → GateAccess
owner_access u = record { store_id = u.store_id; kind = owner; actor_id = u.id; via_link = false }

abbrev pub link_access : Text → GateAccess
link_access store_id = record { store_id = store_id; kind = link; actor_id = []; via_link = true }

abbrev pub user_of : List UserRow → Result TokenError Text → Option User
user_of rows (err e) = none
user_of rows (ok id) = user_by_id id rows

abbrev pub linked : Result TokenError Text → Result GateError GateAccess
linked (err e) = err (invalid_link e)
linked (ok store_id) = ok (link_access store_id)

module _ (g : Signing) (now : ℕ) (rows : List UserRow) where
  -- `userFromSession`
  unfoldable pub user_from_session : Option Text → Option User
  unfolding decode_session user_by_id
  user_from_session none = none
  user_from_session (some cookie) = user_of rows (decode_session g cookie now)

  -- `authed`
  unfoldable pub authed : Visit → Result GateError GateAccess
  unfolding user_from_session
  authed v = elim (user_from_session v.cookie) [
    | none ↦ err unauthorized
    | some u ↦ ok (owner_access u)
  ]

  abbrev pub by_link : Visit → Result GateError GateAccess
  by_link v =
      if is_empty (claim_token_from v)
      then err unauthorized
      else linked (decode_link g (claim_token_from v) v.claim_id now)

  -- `claimScoped`
  unfoldable pub claim_scoped : Visit → Result GateError GateAccess
  unfolding user_from_session decode_link claim_token_from
  claim_scoped v = elim (user_from_session v.cookie) [
    | some u ↦ ok (owner_access u)
    | none ↦ by_link v
  ]

linked-ok :
    (r : Result TokenError Text) {a : GateAccess}
    → linked r ≡ ok a
    → (s : Text) × (r ≡ ok s) × (link_access s ≡ a)
linked-ok (err e) h = absurd (cc h)
linked-ok (ok s) h = (s, refl, ok-injective h)

-- Without a session, a link that was made for one claim lets a request through to that claim only: a
-- request that gets through asks for the claim of the link, and acts for the store of the link, as the
-- holder of a link and not as an owner.
pub claim_scoped-link :
    (g : Signing) (now : ℕ) (rows : List UserRow) (v : Visit) (store_id claim_id : Text)
    (expires_at : ℕ) {a : GateAccess}
    → IsBase64 g
    → lacks b':' store_id ≡ true
    → lacks 0 claim_id ≡ true
    → lacks 0 v.claim_id ≡ true
    → IsToldApart g
        (link_message claim_id (link_payload store_id expires_at))
        (link_message v.claim_id (link_payload store_id expires_at))
    → user_from_session g now rows v.cookie ≡ none
    → claim_token_from v ≡ encode_link g store_id claim_id expires_at
    → claim_scoped g now rows v ≡ ok a
    → (v.claim_id ≡ claim_id) × (a ≡ link_access store_id)
unfolding claim_scoped
claim_scoped-link g now rows v store_id claim_id expires_at law l la lb told nobody token h =
    let opened = rw (claim_scoped, nobody) at h in
    elim (Bool-cases (is_empty (claim_token_from v))) [
      | inl e ↦ absurd (cc (rw e at opened))
      | inr e ↦
          let r = linked-ok (decode_link g (claim_token_from v) v.claim_id now) (rw e at opened) in
          let made =
            decode_link-claim g store_id claim_id v.claim_id expires_at now law l la lb told
              (rw token at r.1) in
          (sym made.0, rw (sym made.1) (sym r.2))
    ]

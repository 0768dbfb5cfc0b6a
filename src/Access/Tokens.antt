-- ===== src/Access/Tokens.antt =====
-- internal/httpapi/session.go and claimtoken.go: session cookies and the links to one claim. Base64 and
-- HMAC are parameters, and the bytes of a text stand for the text. Seconds since 1970 count from
-- 62135596800 seconds after Go's zero time.
use claw_hub.Prelude.{
  ℕ, ◌*◌, ◌/◌, Bool, not, ◌||◌, Option, none, some, [], ◌∷◌, ◌++◌, ltb, ◌==◌, if◌then◌else◌, Result,
  ok, err, ◌>>=◌, ◌>>◌, refuse_if,
}
use claw_hub.Prelude.Int.{ℤ, pos, pos_part, neg_part, sub_ℕ, ◌+ℤ◌}
use claw_hub.Prelude.Texts.{Text, codes, text_eq, is_empty}
use claw_hub.Prelude.Decimal.{atoi, format_int}

-- What the tokens use: `base64.RawURLEncoding`, and HMAC with SHA-256.
pub record Signing : Type 0 where
  pub encode : Text → Text
  pub decode : Text → Option Text
  pub mac : Text → Text → Text
  pub secret : Text

pub data TokenError : Type 0 where
  bad_token expired : TokenError

abbrev pub or_bad : {A : Type 0} → Option A → Result TokenError A
or_bad none = err bad_token
or_bad (some a) = ok a

-- `Unix`, and `now.After(time.Unix(exp, 0))`.
unfoldable pub unix : ℕ → ℤ
unix t = sub_ℕ (t / 1000000000) 62135596800

unfoldable pub is_after : ℕ → ℤ → Bool
is_after now exp =
    let s = exp +ℤ pos 62135596800 in ltb 0 (neg_part s) || ltb (pos_part s * 1000000000) now

abbrev pub in_front : ℕ → Option (Text × Text) → Option (Text × Text)
in_front x none = none
in_front x (some p) = some (x ∷ p.0, p.1)

-- `strings.Cut` at one character.
unfoldable pub cut : ℕ → Text → Option (Text × Text)
cut c [] = none
cut c (x ∷ s) = let rest = cut c s in if x == c then some ([], s) else in_front x rest

abbrev pub or_here : ℕ → ℕ → Text → Option (Text × Text) → Option (Text × Text)
or_here c x s none = if x == c then some ([], s) else none
or_here c x s (some p) = some (x ∷ p.0, p.1)

-- The text before and after the last place of a character: `strings.LastIndex` and the two slices.
unfoldable pub cut_last : ℕ → Text → Option (Text × Text)
cut_last c [] = none
cut_last c (x ∷ s) = or_here c x s (cut_last c s)

-- What `sessionCodec.encode` signs.
unfoldable pub session_payload : Text → ℕ → Text
session_payload user_id expires_at = user_id ++ b'.' ∷ format_int (unix expires_at)

-- `claimTokenPurpose`
abbrev pub claim_token_purpose : Text
claim_token_purpose = codes "clawhub:claim-link:v1:"

-- What `claimTokenCodec.sign` signs.
unfoldable pub link_message : Text → Text → Text
link_message claim_id payload = claim_token_purpose ++ claim_id ++ 0 ∷ payload

-- The body of a link's token.
unfoldable pub link_payload : Text → ℕ → Text
link_payload store_id expires_at = store_id ++ b':' ∷ format_int (unix expires_at)

module _ (g : Signing) where
  -- `sessionCodec.sign`
  abbrev pub sign : Text → Text
  sign payload = g.mac g.secret payload

  -- `sessionCodec.encode`
  unfoldable pub encode_session : Text → ℕ → Text
  unfolding session_payload
  encode_session user_id expires_at =
      let payload = session_payload user_id expires_at in payload ++ b'.' ∷ g.encode (sign payload)

  -- `sessionCodec.decode`
  unfoldable pub decode_session : Text → ℕ → Result TokenError Text
  unfolding cut_last atoi is_after
  decode_session token now = do
    t ← or_bad (cut_last b'.' token)
    sig ← or_bad (g.decode t.1)
    refuse_if (not (text_eq sig (sign t.0))) bad_token
    p ← or_bad (cut_last b'.' t.0)
    exp ← or_bad (atoi p.1)
    refuse_if (is_after now exp) expired
    refuse_if (is_empty p.0) bad_token
    ok p.0

  -- `claimTokenCodec.sign`
  abbrev pub sign_link : Text → Text → Text
  sign_link claim_id payload = g.mac g.secret (link_message claim_id payload)

  -- `claimTokenCodec.encode`
  unfoldable pub encode_link : Text → Text → ℕ → Text
  unfolding link_payload link_message
  encode_link store_id claim_id expires_at =
      let payload = link_payload store_id expires_at in
      g.encode payload ++ b'.' ∷ g.encode (sign_link claim_id payload)

  -- `claimTokenCodec.decode`
  unfoldable pub decode_link : Text → Text → ℕ → Result TokenError Text
  unfolding cut atoi is_after link_message
  decode_link token claim_id now = do
    t ← or_bad (cut b'.' token)
    body ← or_bad (g.decode t.0)
    sig ← or_bad (g.decode t.1)
    refuse_if (not (text_eq sig (sign_link claim_id body))) bad_token
    p ← or_bad (cut b':' body)
    refuse_if (is_empty p.0) bad_token
    exp ← or_bad (atoi p.1)
    refuse_if (is_after now exp) expired
    ok p.0

-- ===== src/Access/Signed.antt =====
-- What a signed token gives back: internal/httpapi/session.go and claimtoken.go.
use claw_hub.Prelude.{
  not-false, eq_of_some, ==_iff, ℕ, ◌*◌, ◌/◌, ◌≤◌, Bool, true, false, not, ◌||◌, none, some, [],
  ◌∷◌, ◌++◌, all, ltb, ◌==◌, ok, bind-ok, ok-injective, refuse_if, refuse-ok, ◌≡◌, refl, sym, ap,
  ◌∙◌, arith, Bool-cases, inl, inr, and-true, not-true, drop,
}
use claw_hub.Prelude.Int.{pos, IsInt64, ◌+ℤ◌, sub_ℕ}
use claw_hub.Prelude.Texts.{Text, text_eq, text_eq_refl, text_eq_eq, is_empty, is_digit}
use claw_hub.Prelude.Decimal.{format_int-plain, atoi, format_int, atoi-format_int}
use claw_hub.Access.Tokens.{
  expired, bad_token, Signing, unix, is_after, cut, cut_last, or_bad, session_payload,
  encode_session, decode_session, link_payload, link_message, encode_link, decode_link, sign,
  sign_link,
}

-- A character does not stand in a text.
abbrev pub lacks : ℕ → Text → Bool
lacks c s = all (λ x. not (x == c)) s

cut-append : (c : ℕ) (s t : Text) → lacks c s ≡ true → cut c (s ++ c ∷ t) ≡ some (s, t)
unfolding cut
cut-append c [] t h = (let here : (c == c) ≡ true = ground arith in rw here refl)
cut-append c (x ∷ s) t h =
    let both = and-true (not (x == c)) (lacks c s) h in
    let other : (x == c) ≡ false = not-true (x == c) both.0 in
    rw (other, cut-append c s t both.1) refl

cut_last-none : (c : ℕ) (s : Text) → lacks c s ≡ true → cut_last c s ≡ none
unfolding cut_last
cut_last-none c [] h = refl
cut_last-none c (x ∷ s) h =
    let both = and-true (not (x == c)) (lacks c s) h in
    let other : (x == c) ≡ false = not-true (x == c) both.0 in
    rw (cut_last-none c s both.1, other) refl

cut_last-append : (c : ℕ) (s t : Text) → lacks c t ≡ true → cut_last c (s ++ c ∷ t) ≡ some (s, t)
unfolding cut_last
cut_last-append c [] t h =
    let here : (c == c) ≡ true = ground arith in rw (cut_last-none c t h, here) refl
cut_last-append c (x ∷ s) t h = rw (cut_last-append c s t h) refl

sub_ℕ_back : (a b : ℕ) → sub_ℕ a b +ℤ pos b ≡ pos a
unfolding ◌+ℤ◌
sub_ℕ_back a b = ground arith

-- A time is not after the second it lies in, nor after a later one.
is_after-unix : (now t : ℕ) → now ≤ t / 1000000000 * 1000000000 → is_after now (unix t) ≡ false
unfolding is_after unix
is_after-unix now t h =
    let early : ltb (t / 1000000000 * 1000000000) now ≡ false = ground arith in
    rw (sub_ℕ_back (t / 1000000000) 62135596800, early) refl

-- A number that is written out holds no character but digits and a sign.
lacks_int :
    (c : ℕ) (s : Text)
    → is_digit c || c == b'-' ≡ false
    → all (λ x. is_digit x || x == b'-') s ≡ true
    → lacks c s ≡ true
lacks_int c [] n h = refl
lacks_int c (x ∷ s) n h =
    let both = and-true (is_digit x || x == b'-') (all (λ x. is_digit x || x == b'-') s) h in
    let other : (x == c) ≡ false = elim (Bool-cases (x == c)) [
      | inr e ↦ e
      | inl e ↦ (let same = (==_iff x c).0 e in absurd (cc (n, both.0, same)))
    ] in
    rw (other, lacks_int c s n both.1) refl

-- What base64 promises: what is encoded is decoded again, and there is no dot in it.
abbrev pub IsBase64 : Signing → Type 0
IsBase64 g =
    ((b : Text) → g.decode (g.encode b) ≡ some b) × ((b : Text) → lacks b'.' (g.encode b) ≡ true)

-- A session is read back as its user's until it ends, whatever dots the user's id has.
pub decode_session-encode_session :
    (g : Signing) (user_id : Text) (expires_at now : ℕ)
    → IsBase64 g
    → is_empty user_id ≡ false
    → IsInt64 (unix expires_at)
    → now ≤ expires_at / 1000000000 * 1000000000
    → decode_session g (encode_session g user_id expires_at) now ≡ ok user_id
unfolding decode_session encode_session session_payload
decode_session-encode_session g user_id expires_at now b u i e =
    let exp = format_int (unix expires_at) in
    let payload = user_id ++ b'.' ∷ exp in
    let outer = cut_last-append b'.' payload (g.encode (sign g payload)) (b.1 (sign g payload)) in
    let inner =
      cut_last-append b'.' user_id exp
        (lacks_int b'.' exp refl (format_int-plain (unix expires_at))) in
    rw
      (
        outer,
        b.0 (sign g payload),
        text_eq_refl (sign g payload),
        inner,
        atoi-format_int (unix expires_at) i,
        is_after-unix now expires_at e,
        u,
      )
      refl

-- The owner of a link gets to its claim until it ends.
pub decode_link-encode_link :
    (g : Signing) (store_id claim_id : Text) (expires_at now : ℕ)
    → IsBase64 g
    → is_empty store_id ≡ false
    → lacks b':' store_id ≡ true
    → IsInt64 (unix expires_at)
    → now ≤ expires_at / 1000000000 * 1000000000
    → decode_link g (encode_link g store_id claim_id expires_at) claim_id now ≡ ok store_id
unfolding decode_link encode_link link_payload
decode_link-encode_link g store_id claim_id expires_at now b s l i e =
    let exp = format_int (unix expires_at) in
    let payload = store_id ++ b':' ∷ exp in
    let sig = sign_link g claim_id payload in
    rw
      (
        cut-append b'.' (g.encode payload) (g.encode sig) (b.1 payload),
        b.0 payload,
        b.0 sig,
        text_eq_refl sig,
        cut-append b':' store_id exp l,
        s,
        atoi-format_int (unix expires_at) i,
        is_after-unix now expires_at e,
      )
      refl

-- What two signed texts must meet for their signatures to tell them apart, as HMAC promises.
abbrev pub IsToldApart : Signing → Text → Text → Type 0
IsToldApart g s t = g.mac g.secret s ≡ g.mac g.secret t → s ≡ t

link_message-injective :
    (a b payload : Text)
    → lacks 0 a ≡ true
    → lacks 0 b ≡ true
    → link_message a payload ≡ link_message b payload
    → a ≡ b
unfolding link_message
link_message-injective a b payload la lb h =
    let tails : a ++ 0 ∷ payload ≡ b ++ 0 ∷ payload = ap (λ (s : Text). drop 22 s) h in
    let cuts : some (a, payload) ≡ some (b, payload) =
      sym (cut-append 0 a payload la) ∙ ap (cut 0) tails ∙ cut-append 0 b payload lb in
    ap (λ p. p.0) (eq_of_some cuts)

-- A link that is accepted for a claim was made for that claim, and gives its store.
pub decode_link-claim :
    (g : Signing) (store_id a b : Text) (expires_at now : ℕ) {s : Text}
    → IsBase64 g
    → lacks b':' store_id ≡ true
    → lacks 0 a ≡ true
    → lacks 0 b ≡ true
    → IsToldApart g
        (link_message a (link_payload store_id expires_at))
        (link_message b (link_payload store_id expires_at))
    → decode_link g (encode_link g store_id a expires_at) b now ≡ ok s
    → (a ≡ b) × (s ≡ store_id)
unfolding decode_link encode_link link_payload
decode_link-claim g store_id a b expires_at now law l la lb told h =
    let payload = link_payload store_id expires_at in
    let sig = sign_link g a payload in
    let opened =
      rw
        (
          cut-append b'.' (g.encode payload) (g.encode sig) (law.1 payload),
          law.0 payload,
          law.0 sig,
        )
        at h in
    let exp = format_int (unix expires_at) in
    let same_sig = text_eq sig (sign_link g b payload) in
    let x = bind-ok (refuse_if (not same_sig) bad_token) _ opened in
    let equal =
      text_eq_eq sig (sign_link g b payload)
        (not-false same_sig (refuse-ok (not same_sig) bad_token x.1)) in
    let y =
      bind-ok (refuse_if (is_empty store_id) bad_token) _
        (rw (cut-append b':' store_id exp l) at x.2) in
    let z = bind-ok (or_bad (atoi exp)) _ y.2 in
    let w = bind-ok (refuse_if (is_after now z.0) expired) (λ u. ok store_id) z.2 in
    (link_message-injective a b payload la lb (told equal), sym (ok-injective w.2))

-- ===== src/Worker/Digest.antt =====
-- internal/worker/worker.go: `Run`, as far as it decides when to send the digest of a day. A tick comes
-- with its time and with whether the digest, if it is sent, is gathered without an error.
use claw_hub.Prelude.{
  any, ◌||◌, ◌<◌, ℕ, ◌+◌, ◌/◌, ◌%◌, ◌≤◌, Bool, true, false, not, ◌&&◌, Option, none, some, List, [],
  ◌∷◌, count_if, leb, ◌==◌, if◌then◌else◌, ◌≡◌, refl, arith, Bool-cases, inl, inr,
}

-- The date in Korea, as the number of the day, and the hour of the day.
unfoldable pub kst_day : ℕ → ℕ
kst_day t = (t + 32400000000000) / 86400000000000

unfoldable pub kst_hour : ℕ → ℕ
kst_hour t = (t + 32400000000000) % 86400000000000 / 3600000000000

-- `digestHour`
abbrev pub digest_hour : ℕ
digest_hour = 9

-- A tick of the clock.
pub record Tick : Type 0 where
  pub now : ℕ
  pub gathered : Bool

-- `lastDigest != today`; no day is the empty string.
abbrev pub is_new_day : Option ℕ → ℕ → Bool
is_new_day none today = true
is_new_day (some last) today = not (last == today)

-- Whether a tick sends the digest.
unfoldable pub is_due : Option ℕ → Tick → Bool
unfolding kst_day kst_hour
is_due last t = leb digest_hour (kst_hour t.now) && is_new_day last (kst_day t.now)

-- `lastDigest` after a tick.
unfoldable pub last_after : Option ℕ → Tick → Option ℕ
unfolding is_due
last_after last t = if is_due last t && t.gathered then some (kst_day t.now) else last

-- The days whose digests are sent in full, by the loop of `Run`.
unfoldable pub digests : Option ℕ → List Tick → List ℕ
unfolding is_due last_after
digests last [] = []
digests last (t ∷ ticks) =
    let rest = digests (last_after last t) ticks in
    if is_due last t && t.gathered then kst_day t.now ∷ rest else rest

-- A clock that does not go back.
unfoldable pub IsForward : ℕ → List Tick → Type 0
IsForward from [] = Unit
IsForward from (t ∷ ticks) = (from ≤ t.now) × IsForward t.now ticks

-- The day of the last digest is not after the time so far.
abbrev IsPast : Option ℕ → ℕ → Type 0
IsPast none t = Unit
IsPast (some d) t = d ≤ kst_day t

kst_day_mono : (s t : ℕ) → s ≤ t → kst_day s ≤ kst_day t
unfolding kst_day
kst_day_mono s t h = omega arith

IsPast-later : (last : Option ℕ) (s t : ℕ) → s ≤ t → IsPast last s → IsPast last t
IsPast-later none s t h p = tt
IsPast-later (some d) s t h p = omega (arith, kst_day_mono s t h)

-- A tick at which the digest of a day can be sent: on that day, from nine o'clock on, and gathered
-- without an error.
unfoldable pub can_send : ℕ → Tick → Bool
can_send d t = kst_day t.now == d && leb digest_hour (kst_hour t.now) && t.gathered

-- No tick is on a day that is over.
can_send-over :
    (d from : ℕ) (ticks : List Tick)
    → IsForward from ticks
    → d < kst_day from
    → any (can_send d) ticks ≡ false
unfolding IsForward can_send
can_send-over d from [] f h = refl
can_send-over d from (t ∷ ticks) f h =
    let later = kst_day_mono from t.now f.0 in
    let other : (kst_day t.now == d) ≡ false = ground (arith, h, later) in
    rw other (can_send-over d t.now ticks f.1 (omega (arith, h, later)))

-- How often the digest of a day is still to be sent, from what was sent last and the ticks.
abbrev due_once : ℕ → Option ℕ → List Tick → ℕ
due_once d last ticks = if is_new_day last d && any (can_send d) ticks then 1 else 0

-- A tick that sends nothing cannot have sent the digest that is still to be sent.
unsent :
    (d : ℕ) (last : Option ℕ) (t : Tick) (rest : Bool)
    → is_due last t && t.gathered ≡ false
    → is_new_day last d && (can_send d t || rest) ≡ is_new_day last d && rest
unfolding is_due can_send
unsent d none t rest h = ground (arith, h)
unsent d (some e) t rest h = ground (arith, h)

sent-today :
    (d : ℕ) (last : Option ℕ) (t : Tick)
    → is_due last t && t.gathered ≡ true
    → (kst_day t.now == d) ≡ true
    → (is_new_day last d ≡ true) × (can_send d t ≡ true)
unfolding is_due can_send
sent-today d none t h e = ground (arith, h, e)
sent-today d (some l) t h e = ground (arith, h, e)

sent-other : (d : ℕ) (t : Tick) → (kst_day t.now == d) ≡ false → can_send d t ≡ false
unfolding can_send
sent-other d t e = ground (arith, e)

-- What was sent last does not matter once a later day's digest is sent.
old_day :
    (d from : ℕ) (last : Option ℕ) (t : Tick) (ticks : List Tick)
    → IsPast last t.now
    → IsForward t.now ticks
    → is_due last t && t.gathered ≡ true
    → (kst_day t.now == d) ≡ false
    → is_new_day last d && any (can_send d) ticks ≡ any (can_send d) ticks
unfolding is_due
old_day d from none t ticks p f h e = refl
old_day d from (some l) t ticks p f h e = elim (Bool-cases (l == d)) [
  | inr n ↦ rw n refl
  | inl same ↦
      let over : d < kst_day t.now = ground (arith, h, e, same, p) in
      rw (same, can_send-over d t.now ticks f over) refl
]

digests-due :
    (d : ℕ) (last : Option ℕ) (from : ℕ) (ticks : List Tick)
    → IsForward from ticks
    → IsPast last from
    → count_if (λ x. x == d) (digests last ticks) ≡ due_once d last ticks
unfolding digests IsForward
digests-due d last from [] f p = elim (Bool-cases (is_new_day last d)) [
  | inl e ↦ rw e refl
  | inr e ↦ rw e refl
]
digests-due d last from (t ∷ ticks) f p =
    let today = kst_day t.now in
    let past = IsPast-later last from t.now f.0 p in
    elim (Bool-cases (is_due last t && t.gathered)) [
      | inr n ↦
          rw (n, last_after, unsent d last t (any (can_send d) ticks) n)
            (digests-due d last t.now ticks f.1 past)
      | inl s ↦
          let rest = digests-due d (some today) t.now ticks f.1 (omega arith) in
          elim (Bool-cases (today == d)) [
            | inl same ↦
                let (new, can) = sent-today d last t s same in
                rw (s, last_after, same, new, can) (omega (arith, (rw same at rest)))
            | inr other ↦
                rw
                  (
                    s,
                    last_after,
                    other,
                    sent-other d t other,
                    old_day d from last t ticks past f.1 s other,
                  )
                  (omega (arith, (rw other at rest)))
          ]
    ]

-- From its start on, as long as the clock does not go back, the loop sends the digest of a day once if
-- there is any tick on that day, from nine o'clock on, at which it can be gathered without an error,
-- and not at all otherwise: one that cannot be gathered is tried again at the ticks that follow, and
-- one that is sent is not sent again.
pub digests-once :
    (d : ℕ) (ticks : List Tick)
    → IsForward 0 ticks
    → count_if (λ x. x == d) (digests none ticks) ≡ (if any (can_send d) ticks then 1 else 0)
digests-once d ticks f = digests-due d none 0 ticks f tt

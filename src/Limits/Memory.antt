-- ===== src/Limits/Memory.antt =====
-- internal/cache/cache.go: the cache in memory, a map as an association list in which a key has one
-- entry at most. Its counters stay far below 64 bits. Each operation holds the lock for its whole
-- body, so it is one step.
use claw_hub.Prelude.{
  ℕ, ◌+◌, ◌-◌, ◌≤◌, Bool, true, false, not, Option, none, some, List, [], ◌∷◌, length, keep, ltb,
  leb, if◌then◌else◌, ◌≡◌, refl, arith, All,
}
use claw_hub.Prelude.Texts.{Text, text_eq, text_eq_refl}

-- `entry`
pub record Entry : Type 0 where
  pub val : Text
  pub count : ℕ
  pub expires_at : ℕ

-- `Memory`
abbrev pub Memory : Type 0
Memory = List (Text × Entry)

abbrev pub lookup : Text → Memory → Option Entry
lookup k [] = none
lookup k (e ∷ m) = if text_eq e.0 k then some e.1 else lookup k m

-- `m.data[key] = …`
abbrev pub assign : Text → Entry → Memory → Memory
assign k e m = (k, e) ∷ keep (λ x. not (text_eq x.0 k)) m

-- An entry that has not expired: `ok && !now.After(e.expiresAt)`.
unfoldable pub live : ℕ → Option Entry → Option Entry
live now none = none
live now (some e) = if ltb e.expires_at now then none else some e

-- `sweep`
unfoldable pub sweep : ℕ → Memory → Memory
sweep now m = keep (λ x. not (ltb x.1.expires_at now)) m

-- `Incr`
unfoldable pub incr : ℕ → Text → ℕ → Memory → ℕ × Memory
unfolding live
incr now k ttl m = elim (live now (lookup k m)) [
  | none ↦ (1, assign k (record { val = []; count = 1; expires_at = now + ttl }) m)
  | some e ↦ (e.count + 1, assign k (record e { count = e.count + 1 }) m)
]

-- `SetNX`
unfoldable pub set_nx : ℕ → Text → Text → ℕ → Memory → Bool × Memory
unfolding live sweep
set_nx now k v ttl m = elim (live now (lookup k m)) [
  | some e ↦ (false, m)
  | none ↦
      let m' = assign k (record { val = v; count = 0; expires_at = now + ttl }) m in
      (true, if ltb 1000 (length m') then sweep now m' else m')
]

-- `Get`
unfoldable pub get : ℕ → Text → Memory → Option Text
unfolding live
get now k m = elim (live now (lookup k m)) [ none ↦ none | some e ↦ some e.val ]

-- `ipClaimsPerHour`
abbrev pub ip_claims_per_hour : ℕ
ip_claims_per_hour = 10

-- `rateLimitPublic` and the check of a machine: whether a request goes on.
unfoldable pub admits : ℕ → ℕ → Text → ℕ → Memory → Bool × Memory
admits limit now k ttl m = let r = incr now k ttl m in (leb r.0 limit, r.1)

-- How many of the requests at the given times go on.
unfoldable pub admitted : ℕ → Text → ℕ → List ℕ → Memory → ℕ
admitted limit k ttl [] m = 0
admitted limit k ttl (now ∷ times) m =
    let r = admits limit now k ttl m in (if r.0 then 1 else 0) + admitted limit k ttl times r.1

pub lookup-assign : (k : Text) (e : Entry) (m : Memory) → lookup k (assign k e m) ≡ some e
lookup-assign k e m = rw (text_eq_refl k) refl

pub live-now : (now : ℕ) (e : Entry) → now ≤ e.expires_at → live now (some e) ≡ some e
unfolding live
live-now now e h = ground arith

admits-live :
    (limit : ℕ) (k : Text) (ttl now : ℕ) (m : Memory) (e : Entry)
    → live now (lookup k m) ≡ some e
    → admits limit now k ttl m
      ≡ (leb (e.count + 1) limit, assign k (record e { count = e.count + 1 }) m)
unfolding admits incr
admits-live limit k ttl now m e h = rw (admits, incr, h) refl

admits-new :
    (limit : ℕ) (k : Text) (ttl now : ℕ) (m : Memory)
    → live now (lookup k m) ≡ none
    → admits limit now k ttl m
      ≡ (leb 1 limit, assign k (record { val = []; count = 1; expires_at = now + ttl }) m)
unfolding admits incr
admits-new limit k ttl now m h = rw (admits, incr, h) refl

-- Within one window the counter goes on from where it is, and the window is not moved.
admitted-window :
    (limit : ℕ) (k : Text) (ttl : ℕ) (times : List ℕ) (e : Entry) (m : Memory)
    → lookup k m ≡ some e
    → All (λ t. t ≤ e.expires_at) times
    → admitted limit k ttl times m ≤ limit - e.count
unfolding admitted
admitted-window limit k ttl [] e m l h = omega arith
admitted-window limit k ttl (now ∷ times) e m l h =
    let e' : Entry = record e { count = e.count + 1 } in
    let rest = admitted-window limit k ttl times e' (assign k e' m) (lookup-assign k e' m) h.1 in
    let here : live now (lookup k m) ≡ some e = rw l (live-now now e h.0) in
    rw (admitted, admits-live limit k ttl now m e here) (ground (arith, rest))

-- From the first request of a window on, however often a client knocks until the window ends, no more
-- than the limit of its requests go on.
pub admitted-limit :
    (limit : ℕ) (k : Text) (ttl now : ℕ) (times : List ℕ) (m : Memory)
    → live now (lookup k m) ≡ none
    → All (λ t. t ≤ now + ttl) times
    → admitted limit k ttl (now ∷ times) m ≤ limit
unfolding admitted
admitted-limit limit k ttl now times m n h =
    let e : Entry = record { val = []; count = 1; expires_at = now + ttl } in
    let rest = admitted-window limit k ttl times e (assign k e m) (lookup-assign k e m) h in
    rw (admitted, admits-new limit k ttl now m n) (ground (arith, rest))

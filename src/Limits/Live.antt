-- ===== src/Limits/Live.antt =====
-- internal/cache/cache.go: a key that is set stays set until its time is over, whatever else is set.
use claw_hub.Prelude.{
  ℕ, ◌+◌, ◌≤◌, Bool, true, false, not, some, [], ◌∷◌, keep, length, ltb, ◌≡◌, refl, sym, ap, ◌∙◌,
  arith, Bool-cases, Option-cases, inl, inr, eq_of_some,
}
use claw_hub.Prelude.Texts.{Text, text_eq, text_eq_refl, text_eq_eq}
use claw_hub.Limits.Memory.{
  Memory, Entry, set_nx, lookup, assign, live, sweep, live-now, lookup-assign,
}

-- An entry that a removal passes over is still found.
lookup-keep :
    (k : Text) (p : Text × Entry → Bool) (m : Memory) (e : Entry)
    → lookup k m ≡ some e
    → ((x : Text × Entry) → text_eq x.0 k ≡ true → x.1 ≡ e → p x ≡ true)
    → lookup k (keep p m) ≡ some e
lookup-keep k p [] e h kept = absurd (cc h)
lookup-keep k p (x ∷ m) e h kept = elim (Bool-cases (text_eq x.0 k)) [
  | inl s ↦ let same : x.1 ≡ e = eq_of_some (rw s at h) in rw (kept x s same, s, same) refl
  | inr s ↦
      let rest = lookup-keep k p m e (rw s at h) kept in
      elim (Bool-cases (p x)) [ inl q ↦ rw (q, s) rest | inr q ↦ rw q rest ]
]

-- What `SetNX` writes for a key that is not live.
written : ℕ → Text → Text → ℕ → Memory → Memory
written now k v ttl m = assign k (record { val = v; count = 0; expires_at = now + ttl }) m

lookup-written :
    (now : ℕ) (k k' v : Text) (ttl : ℕ) (m : Memory) (e : Entry)
    → lookup k m ≡ some e
    → text_eq k' k ≡ false
    → lookup k (written now k' v ttl m) ≡ some e
unfolding written
lookup-written now k k' v ttl m e h n = rw n (
    lookup-keep k (λ x. not (text_eq x.0 k')) m e h
      (λ x s same. elim (Bool-cases (text_eq x.0 k')) [
        | inr q ↦ rw q refl
        | inl q ↦
            let first = text_eq_eq x.0 k s in
            let second = text_eq_eq x.0 k' q in
            let both : k' ≡ k = sym second ∙ first in
            absurd (cc (n, text_eq_refl k, ap (λ (y : Text). text_eq y k) both))
      ]))

lookup-sweep :
    (now : ℕ) (k : Text) (m : Memory) (e : Entry)
    → lookup k m ≡ some e
    → now ≤ e.expires_at
    → lookup k (sweep now m) ≡ some e
unfolding sweep
lookup-sweep now k m e h t =
    lookup-keep k (λ x. not (ltb x.1.expires_at now)) m e h
      (λ x s same. let late : ltb e.expires_at now ≡ false = ground arith in rw (same, late) refl)

-- A key that is set keeps the others' entries until they expire, and is not set again.
pub set_nx-keeps :
    (now : ℕ) (k k' v : Text) (ttl : ℕ) (m : Memory) (e : Entry)
    → lookup k m ≡ some e
    → now ≤ e.expires_at
    → lookup k (set_nx now k' v ttl m).1 ≡ some e
unfolding set_nx written
set_nx-keeps now k k' v ttl m e h t = elim (Option-cases (live now (lookup k' m))) [
  | inr (x, l) ↦ rw (set_nx, l) h
  | inl l ↦ elim (Bool-cases (text_eq k' k)) [
    | inl s ↦
        let same : k' ≡ k = text_eq_eq k' k s in
        let alive : live now (lookup k' m) ≡ some e = rw (same, h) (live-now now e t) in
        absurd (cc (l, alive))
    | inr s ↦
        let new = lookup-written now k k' v ttl m e h s in
        elim (Bool-cases (ltb 1000 (length (written now k' v ttl m)))) [
          | inl b ↦ rw (set_nx, l, b) (lookup-sweep now k (written now k' v ttl m) e new t)
          | inr b ↦ rw (set_nx, l, b) new
        ]
  ]
]

pub set_nx-again :
    (now : ℕ) (k v : Text) (ttl : ℕ) (m : Memory) (e : Entry)
    → lookup k m ≡ some e
    → now ≤ e.expires_at
    → (set_nx now k v ttl m).0 ≡ false
unfolding set_nx
set_nx-again now k v ttl m e h t = rw (set_nx, h, live-now now e t) refl

-- A key that is set now expires after its time.
pub set_nx-fresh :
    (now : ℕ) (k v : Text) (ttl : ℕ) (m : Memory)
    → (set_nx now k v ttl m).0 ≡ true
    → (e : Entry) × (lookup k (set_nx now k v ttl m).1 ≡ some e) × (e.expires_at ≡ now + ttl)
unfolding set_nx written
set_nx-fresh now k v ttl m h =
    let e : Entry = record { val = v; count = 0; expires_at = now + ttl } in
    let new = lookup-assign k e m in
    elim (Option-cases (live now (lookup k m))) [
      | inr (x, l) ↦ absurd (cc (rw (set_nx, l) at h))
      | inl l ↦ elim (Bool-cases (ltb 1000 (length (written now k v ttl m)))) [
        | inl b ↦ (
          e,
          rw (set_nx, l, b) (lookup-sweep now k (written now k v ttl m) e new (omega arith)),
          refl,
        )
        | inr b ↦ (e, rw (set_nx, l, b) new, refl)
      ]
    ]

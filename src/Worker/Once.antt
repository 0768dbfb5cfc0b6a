-- ===== src/Worker/Once.antt =====
-- internal/worker/worker.go: how often an owner is told of one machine.
use claw_hub.Prelude.{
  ℕ, ◌+◌, ◌≤◌, false, some, List, [], ◌∷◌, count_if, count_if-append, ◌==◌, ==_iff, ◌≡◌, refl,
  arith, All, All-map, subst, Bool-cases, inl, inr, ◌⊎◌,
}
use claw_hub.Prelude.Texts.{Text, codes}
use claw_hub.Limits.Memory.{Memory, Entry, set_nx, lookup}
use claw_hub.Limits.Live.{set_nx-keeps, set_nx-again, set_nx-fresh}
use claw_hub.Worker.Alerts.{
  MachineActivity, alert_key, check_machine_alerts, alerts_of_day, day_long,
}

-- How often a machine is among those that the owner is told of.
abbrev pub alerts_about : ℕ → List MachineActivity → ℕ
alerts_about id ms = count_if (λ m. m.machine_id == id) ms

module _ (uuid : ℕ → Text) (date : Text) (id : ℕ) where
  -- The key is set, until some time at least.
  IsTaken : ℕ → Memory → Type 0
  IsTaken until cache =
      (e : Entry) × (lookup (alert_key uuid date id) cache ≡ some e) × (until ≤ e.expires_at)

  check-silent :
      (now until : ℕ) (ms : List MachineActivity) (cache : Memory)
      → now ≤ until
      → IsTaken until cache
      → (alerts_about id (check_machine_alerts uuid now date ms cache).0 ≡ 0)
        × IsTaken until (check_machine_alerts uuid now date ms cache).1
  unfolding check_machine_alerts IsTaken
  check-silent now until [] cache n s = (refl, s)
  check-silent now until (m ∷ ms) cache n (e, l, t) =
      let key = alert_key uuid date m.machine_id in
      let r = set_nx now key (codes "1") day_long cache in
      let kept =
        set_nx-keeps now (alert_key uuid date id) key (codes "1") day_long cache e l
          (omega arith) in
      let rest = check-silent now until ms r.1 n (e, kept, t) in
      elim (Bool-cases (m.machine_id == id)) [
        | inl same ↦
            let is : m.machine_id ≡ id = (==_iff m.machine_id id).0 same in
            let again : r.0 ≡ false =
              set_nx-again now key (codes "1") day_long cache e (rw is l) (omega arith) in
            (rw again rest.0, rest.1)
        | inr other ↦ elim (Bool-cases r.0) [
          | inl f ↦ (rw (f, other) (omega (arith, rest.0)), rest.1)
          | inr f ↦ (rw f rest.0, rest.1)
        ]
      ]

  check-once :
      (now : ℕ) (ms : List MachineActivity) (cache : Memory)
      → (alerts_about id (check_machine_alerts uuid now date ms cache).0 ≡ 0)
        ⊎ ((alerts_about id (check_machine_alerts uuid now date ms cache).0 ≡ 1)
            × IsTaken (now + day_long) (check_machine_alerts uuid now date ms cache).1)
  unfolding check_machine_alerts IsTaken
  check-once now [] cache = inl refl
  check-once now (m ∷ ms) cache =
      let key = alert_key uuid date m.machine_id in
      let r = set_nx now key (codes "1") day_long cache in
      let later = check-once now ms r.1 in
      elim (Bool-cases r.0) [
        | inr f ↦ rw f later
        | inl f ↦ elim (Bool-cases (m.machine_id == id)) [
          | inr other ↦
              rw (f, other)
                (elim later [
                  | inl z ↦ inl (omega (arith, z))
                  | inr (z, s) ↦ inr (omega (arith, z), s)
                ])
          | inl same ↦
              let is : m.machine_id ≡ id = (==_iff m.machine_id id).0 same in
              let fresh = set_nx-fresh now key (codes "1") day_long cache f in
              let stored : lookup (alert_key uuid date id) r.1 ≡ some fresh.0 =
                subst (λ (j : ℕ). lookup (alert_key uuid date j) r.1 ≡ some fresh.0) is fresh.1 in
              let set : IsTaken (now + day_long) r.1 = (fresh.0, stored, omega (arith, fresh.2)) in
              let rest = check-silent now (now + day_long) ms r.1 (omega arith) set in
              rw (f, same) (inr (omega (arith, rest.0), rest.1))
        ]
      ]

  alerts-silent :
      (until : ℕ) (runs : List (ℕ × List MachineActivity)) (cache : Memory)
      → All (λ r. r.0 ≤ until) runs
      → IsTaken until cache
      → alerts_about id (alerts_of_day uuid date runs cache) ≡ 0
  unfolding alerts_of_day
  alerts-silent until [] cache n s = refl
  alerts-silent until (run ∷ runs) cache n s =
      let now = check-silent run.0 until run.1 cache n.0 s in
      let rest =
        alerts-silent until runs (check_machine_alerts uuid run.0 date run.1 cache).1 n.1 now.1 in
      let sum =
        count_if-append (λ m. m.machine_id == id)
          (check_machine_alerts uuid run.0 date run.1 cache).0
          (alerts_of_day uuid date runs (check_machine_alerts uuid run.0 date run.1 cache).1) in
      omega (arith, sum, now.0, rest)

  -- Whatever is in the cache and whatever else is set in it by other machines, the owner is told of a
  -- machine at most once in the checks of one date that lie within 24 hours.
  pub alerts_of_day-once :
      (start : ℕ) (runs : List (ℕ × List MachineActivity)) (cache : Memory)
      → All (λ r. (start ≤ r.0) × (r.0 ≤ start + day_long)) runs
      → alerts_about id (alerts_of_day uuid date runs cache) ≤ 1
  unfolding alerts_of_day
  alerts_of_day-once start [] cache n = omega arith
  alerts_of_day-once start (run ∷ runs) cache n =
      let checked = check_machine_alerts uuid run.0 date run.1 cache in
      let sum =
        count_if-append (λ m. m.machine_id == id) checked.0
          (alerts_of_day uuid date runs checked.1) in
      elim (check-once run.0 run.1 cache) [
        | inl z ↦
            (let rest = alerts_of_day-once start runs checked.1 n.1 in omega (arith, sum, z, rest))
        | inr (z, s) ↦
            let in_time : All (λ r. r.0 ≤ run.0 + day_long) runs =
              All-map _ _ (λ r h. let first = n.0.0 in let last = h.1 in omega arith) runs n.1 in
            let rest = alerts-silent (run.0 + day_long) runs checked.1 in_time s in
            omega (arith, sum, z, rest)
      ]

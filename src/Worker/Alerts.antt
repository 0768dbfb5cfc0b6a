-- ===== src/Worker/Alerts.antt =====
-- internal/worker/worker.go: `CheckMachineAlerts`; internal/store/stats.go: `MachinesOverThreshold`,
-- less the counts by issue. `uuid` writes an id, `date` is the date of a time as the source formats it.
use claw_hub.Prelude.{
  ℕ, ◌-◌, Bool, ◌&&◌, List, [], ◌∷◌, ◌++◌, map, keep, count_if, leb, ltb, ◌==◌, if◌then◌else◌,
}
use claw_hub.Prelude.Texts.{Text, codes}
use claw_hub.ClaimStore.Table.{Row}
use claw_hub.Limits.Memory.{Memory, set_nx}

-- A row of `machines`, as the query reads it.
pub record MachineLabel : Type 0 where
  pub id : ℕ
  pub store_id : ℕ
  pub label : Text

-- `MachineActivity`
pub record MachineActivity : Type 0 where
  pub machine_id : ℕ
  pub store_id : ℕ
  pub label : Text
  pub count : ℕ

-- 24 hours.
abbrev pub day_long : ℕ
day_long = 86400000000000

unfoldable pub activity : ℕ → List Row → MachineLabel → MachineActivity
activity now rows m = record {
  machine_id = m.id;
  store_id = m.store_id;
  label = m.label;
  count =
      count_if (λ r. r.claim.machine_id == m.id && leb (now - day_long) r.claim.created_at) rows;
}

-- `MachinesOverThreshold`: a machine without a claim in that time is none of the groups.
unfoldable pub machines_over_threshold : ℕ → ℕ → List Row → List MachineLabel → List MachineActivity
unfolding activity
machines_over_threshold threshold now rows machines =
    keep (λ a. ltb 0 a.count && leb threshold a.count) (map (activity now rows) machines)

-- The key of an alert.
unfoldable pub alert_key : (ℕ → Text) → Text → ℕ → Text
alert_key uuid date id = codes "alert:machine:" ++ uuid id ++ codes ":" ++ date

abbrev pub told : Bool → MachineActivity → List MachineActivity → List MachineActivity
told fresh m rest = if fresh then m ∷ rest else rest

module _ (uuid : ℕ → Text) where
  -- The loop of `CheckMachineAlerts`: the machines that the owner is told of, and the cache.
  unfoldable pub check_machine_alerts :
      ℕ → Text → List MachineActivity → Memory → List MachineActivity × Memory
  unfolding set_nx alert_key
  check_machine_alerts now date [] cache = ([], cache)
  check_machine_alerts now date (m ∷ ms) cache =
      let r = set_nx now (alert_key uuid date m.machine_id) (codes "1") day_long cache in
      let rest = check_machine_alerts now date ms r.1 in (told r.0 m rest.0, rest.1)

  -- The checks of one date, each at its time and with the machines it finds.
  unfoldable pub alerts_of_day :
      Text → List (ℕ × List MachineActivity) → Memory → List MachineActivity
  unfolding check_machine_alerts
  alerts_of_day date [] cache = []
  alerts_of_day date (run ∷ runs) cache =
      let r = check_machine_alerts run.0 date run.1 cache in r.0 ++ alerts_of_day date runs r.1

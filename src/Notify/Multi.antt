-- ===== src/Notify/Multi.antt =====
-- internal/notify/multi.go: several channels as one.
use claw_hub.Prelude.{Option, none, some, List, [], ◌∷◌}
use claw_hub.Notify.Subscriptions.{PushError}
use claw_hub.Notify.Channels.{ClaimNotice, MachineNotice, DigestNotice, Outbox, Notifier}

abbrev pub with_error : Option PushError → List PushError → List PushError
with_error none es = es
with_error (some e) es = e ∷ es

-- `fan`: the errors in the order of the channels.
unfoldable pub fan :
    (Notifier → Outbox → Option PushError × Outbox)
    → List Notifier
    → Outbox
    → List PushError × Outbox
fan send [] w = ([], w)
fan send (t ∷ ts) w =
    let r = send t w in let rest = fan send ts r.1 in (with_error r.0 rest.0, rest.1)

-- `NewMulti` leaves out a channel that is nil.
unfoldable pub new_multi : List (Option Notifier) → List Notifier
new_multi [] = []
new_multi (none ∷ ts) = new_multi ts
new_multi (some t ∷ ts) = t ∷ new_multi ts

unfoldable pub claim_created : List Notifier → ClaimNotice → Outbox → List PushError × Outbox
unfolding fan
claim_created ts n w = fan (λ t. t.claim_created n) ts w

unfoldable pub machine_alert : List Notifier → MachineNotice → Outbox → List PushError × Outbox
unfolding fan
machine_alert ts n w = fan (λ t. t.machine_alert n) ts w

unfoldable pub daily_digest : List Notifier → DigestNotice → Outbox → List PushError × Outbox
unfolding fan
daily_digest ts n w = fan (λ t. t.daily_digest n) ts w

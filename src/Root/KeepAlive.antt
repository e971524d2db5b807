-- ===== src/Root/KeepAlive.antt =====
-- gnosis_vpn-root/src/main.rs: the keepalive timer (`keep_alive_timer`), a task that takes
-- instructions and fires once its countdown ends. Times are given by the caller.
use gnosis_vpn_client.Prelude.{ℕ, ◌+◌, Bool, true, false, Option, none, some, leb, if◌then◌else◌}
use gnosis_vpn_client.Root.Messages.{KeepAliveInstruction, ignite, suspend, resume, restart}

pub record Timer : Type 0 where
  pub active : Bool
  pub suspended : Bool
  pub dur : ℕ
  pub keepalive : ℕ

unfoldable pub new : ℕ → Timer
new now = record { active = false; suspended = false; dur = 0; keepalive = now }

unfoldable pub instruct : Timer → KeepAliveInstruction → ℕ → Timer
instruct t (ignite duration) now = record {
  active = true;
  suspended = false;
  dur = duration;
  keepalive = now + duration;
}
instruct t suspend now = record t { active = false; suspended = true; keepalive = now }
instruct t resume now = record t { active = true; suspended = false; keepalive = now + t.dur }
instruct t restart now = elim t.suspended [
  | true ↦ t
  | false ↦ record t { active = true; keepalive = now + t.dur }
]

-- The countdown has ended: the timer fires once, with its duration.
unfoldable pub fire : Timer → ℕ → Option ℕ × Timer
fire t now = elim t.active [
  | true ↦ if leb t.keepalive now then (some t.dur, record t { active = false }) else (none, t)
  | false ↦ (none, t)
]

-- ===== src/Watcher/Lifecycle.antt =====
-- The rest of `Watcher` (llm/watcher/state.py): the adoption at start, the health check, the stall
-- watchdog and the snapshot that the page and the metrics read.
use podhaus.Watcher.Exec.{Answers, Exec, Result, raised, ◌>>=◌, ok, gets, ◌>>◌, pure}
use podhaus.Watcher.Data.{
  found, name, Settings, Phase, Watcher, GuestMemory, GpuReading, Event, Reason, automatic,
  state_adopted, sample_stale,
}
use podhaus.Watcher.Tick.{report, unhealthy_reason}
use podhaus.Base.{
  ℕ, String, Bool, ℤ, Option, ltb, sub_ℕ, none, sum_of, [], ◌+◌, if◌then◌else◌, some, true, false,
}

unfoldable pub health : ℕ → Watcher → Option Reason
unfolding unhealthy_reason
health now w = unhealthy_reason now w

-- `end_if_stalled`: whether `exit(1)` is called
unfoldable pub end_if_stalled : ℕ → Exec Bool
unfolding report ◌>>=◌
end_if_stalled now = do
  stale ← gets (λ w. ltb (w.sampled_at + w.settings.sample_stale) now)
  if stale then (do report (some sample_stale); pure true) else pure false

pub record Snapshot : Type 0 where
  pub state : String
  pub held : Bool
  pub sample_age : ℤ
  pub gpu : GpuReading
  pub guest : GuestMemory
  pub pool_tokens : ℕ
  pub pool_limit : ℕ

unfoldable pub snapshot : ℕ → GuestMemory → Watcher → Snapshot
unfolding name
snapshot now memory w = record {
  state = name w.phase;
  held = ltb now w.hold_until;
  sample_age = sub_ℕ now w.sampled_at;
  gpu = w.reading;
  guest = memory;
  pool_tokens = sum_of (λ s. s.tokens) w.slots;
  pool_limit = w.settings.pool_tokens;
}

-- `Watcher.__init__`
unfoldable pub new : Settings → Phase → GpuReading → ℕ → Watcher
new settings phase reading now = record {
  settings = settings;
  phase = phase;
  router_state = none;
  reading = reading;
  sampled_at = now;
  samples = [];
  slots = [];
  started_at = now;
  last_active_at = none;
  busy_since = none;
  busy_until = none;
  silent_since = none;
  hold_until = now;
  retry_at = now;
  failures = 0;
  reported = none;
}

-- `Watcher.adopt`: the watcher and the line logged. The first time is the one that the phase is
-- found at, the second the one that `__init__` reads.
unfoldable pub adopt : Settings → ℕ → ℕ → Answers → Result (Watcher × Event)
unfolding new found name
adopt settings now later a = elim a.status [
  | raised e ↦ raised e
  | ok status ↦ elim a.reading [
    | raised e ↦ raised e
    | ok reading ↦
        let phase = found status.state now automatic in
        ok (new settings phase reading later, state_adopted (name phase) none status.state)
  ]
]

-- ===== src/Watcher/Handoff.antt =====
-- The moves of `Watcher` (llm/watcher/state.py) that yield the GPU, load the model, count a failed
-- load, and adopt a state that something else brought about.
use podhaus.Base.{
  ℕ, ⊤, ◌+◌, ◌-◌, ◌*◌, ◌^◌, Bool, true, false, ◌&&◌, Option, none, some, List, [], ◌∷◌,
  if◌then◌else◌, sum_of, ℤ,
}
use podhaus.Watcher.Data.{
  unloaded, ModelStatus, state_eq, Trigger, external_load, Sample, Handoff, Phase, yielding,
  resuming, name, found, is_serving, is_yielded, LoadError, exited_while_serving, state_adopted,
  load_failed, Watcher, declined,
}
use podhaus.Watcher.Exec.{
  Exec, LoadReply, accepted, refused, broken, ok, raised, router_error, loads, ◌>>=◌, ◌>>◌, pure,
  ask, gets, skip, modify, log, used_before, server_unload,
}
use podhaus.Watcher.Sampling.{quiet_since, keeping_away, activity, busy_before}

abbrev pub load_attempts : ℕ
load_attempts = 5

abbrev pub first_retry_ms : ℕ
first_retry_ms = 15000

abbrev pub set_phase : Phase → Exec ⊤
set_phase p = modify (λ w. record w { phase = p })

-- `_unload`
unfoldable pub unload : ℕ → Option Handoff → Exec Bool
unfolding ◌>>=◌ server_unload
unload now handoff = do
  done ← server_unload handoff
  if done then (do set_phase (yielding now handoff false); pure true) else pure false

abbrev pub first_time : List Sample → Option ℕ
first_time [] = none
first_time (s ∷ _) = some s.t

-- The record that `_begin_yield` makes; `requests_cut` sums the busy flags.
unfoldable pub handoff_of : ℕ → Trigger → ℤ → Watcher → Handoff
unfolding activity busy_before
handoff_of now trigger used w = record {
  trigger = trigger;
  decided = now;
  first_activity = first_time (activity w.settings w.samples);
  requests_cut = sum_of (λ s. if s.busy then 1 else 0) w.slots;
  busy_before = busy_before now w;
  guest_mem_used_before_mib = used;
  samples = w.samples;
}

-- `_begin_yield`
unfoldable pub begin_yield : ℕ → Trigger → Exec Bool
unfolding handoff_of unload ◌>>=◌ used_before
begin_yield now trigger = do
  used ← used_before
  handoff ← gets (handoff_of now trigger used)
  unload now (some handoff)

-- `_load_failed`
abbrev count_failure : Watcher → Watcher
count_failure w = record w { failures = w.failures + 1 }

abbrev pub schedule_retry : ℕ → Watcher → Watcher
schedule_retry now w = record w { retry_at = now + first_retry_ms * 2 ^ (w.failures - 1) }

unfoldable pub load_fails : ℕ → LoadError → Exec ⊤
unfolding ◌>>=◌
load_fails now error = do
  modify count_failure
  attempt ← gets (λ w. w.failures)
  log (load_failed attempt error)
  modify (schedule_retry now)

-- The part of `_unexpected` that adopts the router's state.
adopt_found : ℕ → ModelStatus → Exec ⊤
unfolding found load_fails name ◌>>=◌
adopt_found now status = do
  previous ← gets (λ w. w.phase)
  set_phase (found status.state now external_load)
  current ← gets (λ w. w.phase)
  log (state_adopted (name current) (some (name previous)) status.state)
  if is_serving previous && state_eq status.state unloaded
      then load_fails now (exited_while_serving status.exit_code)
      else skip

-- `_unexpected`
unfoldable pub unexpected : ℕ → ModelStatus → Exec ⊤
unfolding adopt_found begin_yield keeping_away ◌>>=◌
unexpected now status = do
  evicts ← gets (λ w. is_yielded w.phase && keeping_away now w)
  if evicts then (do begin_yield now external_load; skip) else adopt_found now status

-- The two ends of `_start_load`'s `try`.
load_began : ℕ → Trigger → Exec ⊤
unfolding quiet_since ◌>>=◌
load_began now trigger = do since ← gets quiet_since; set_phase (resuming trigger (some since) now)

load_refused : ℕ → LoadError → Exec ⊤
unfolding load_fails unexpected ◌>>=◌
load_refused now error = do
  status ← ask (λ a. a.status_again)
  if state_eq status.state unloaded then load_fails now error else unexpected now status

abbrev pub server_load : Exec LoadReply
server_load a r = elim a.load [
  | accepted ↦ (ok accepted, record r { trace = loads ∷ r.trace })
  | refused message ↦ (ok (refused message), r)
  | broken ↦ (raised router_error, r)
]

-- `_start_load`
unfoldable pub start_load : ℕ → Trigger → Exec ⊤
unfolding load_began load_refused ◌>>=◌
start_load now trigger = do
  reply ← server_load
  elim reply [
    | accepted ↦ load_began now trigger
    | refused message ↦ load_refused now (declined message)
    | broken ↦ skip
  ]

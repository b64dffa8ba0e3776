-- ===== src/Watcher/Tick.antt =====
-- The entry points of `Watcher` (llm/watcher/state.py) that the lock guards: `tick`, with the method of
-- each phase and the report of an unhealthy reason, and the two buttons.
use podhaus.Base.{
  ℕ, ⊤, ◌+◌, max, Bool, true, false, not, ◌&&◌, Option, none, some, ltb, leb, if◌then◌else◌, length,
}
use podhaus.Watcher.Data.{
  ModelState, unloaded, loading, loaded, ModelStatus, Trigger, automatic, button, Handoff, Phase,
  serving, yielding, yielded, resuming, expects, Reason, reason_eq, yield_stuck, vram_at_limit,
  load_given_up, server_unresponsive, exited, timed_out, handoff_yield, resume_abandoned,
  handoff_resume, unhealthy, Watcher,
}
use podhaus.Watcher.Exec.{Exec, ◌>>=◌, ◌>>◌, pure, ask, gets, skip, modify, log, used_after}
use podhaus.Watcher.Sampling.{is_restless, activity, read_slots, observe, note_router_state}
use podhaus.Watcher.Handoff.{
  load_attempts, set_phase, unload, begin_yield, load_fails, unexpected, start_load,
}

abbrev pub stable_ms : ℕ
stable_ms = 600000

-- `_while_serving`
abbrev forget_failures : ℕ → ℕ → Watcher → Watcher
forget_failures now since w = record w {
  failures = if leb (since + stable_ms) now then 0 else w.failures;
}

abbrev pub is_wanted : Watcher → Bool
is_wanted w = leb w.settings.activity_samples (length (activity w.settings w.samples))

unfoldable pub while_serving : ℕ → ℕ → Exec ⊤
unfolding ◌>>=◌
while_serving now since = do
  modify (forget_failures now since)
  wanted ← gets is_wanted
  if wanted then (do begin_yield now automatic; skip) else skip

-- `_log_handoff`
unfoldable pub log_handoff : ℕ → Option Handoff → Exec ⊤
unfolding ◌>>=◌ used_after
log_handoff now none = skip
log_handoff now (some handoff) = do used ← used_after; log (handoff_yield handoff now used)

-- `_while_yielding`
unfoldable pub while_yielding : ℕ → ModelState → Option Handoff → Bool → Exec ⊤
unfolding log_handoff ◌>>=◌
while_yielding now unloaded handoff resume_pressed = do
  log_handoff now handoff
  set_phase yielded
  if resume_pressed then start_load now button else skip
while_yielding now _ handoff resume_pressed = skip

-- `_while_yielded`
unfoldable pub may_load : ℕ → Watcher → Bool
unfolding is_restless
may_load now w =
    not (is_restless now w)
    && (ltb w.failures load_attempts && leb (max w.hold_until w.retry_at) now)

unfoldable pub while_yielded : ℕ → Exec ⊤
unfolding may_load ◌>>=◌
while_yielded now = do free ← gets (may_load now); if free then start_load now automatic else skip

-- `_while_resuming`, and `_resumed` for a loaded model
end_late_load : ℕ → Exec ⊤
unfolding ◌>>=◌
end_late_load now = do
  done ← unload now none
  limit ← gets (λ w. w.settings.load_timeout)
  if done then load_fails now (timed_out limit) else skip

unfoldable pub while_resuming : ℕ → ModelStatus → Trigger → Option ℕ → ℕ → Exec ⊤
unfolding end_late_load ◌>>=◌
while_resuming now status trigger quiet_start started = elim status.state [
  | loaded ↦ do log (handoff_resume trigger quiet_start started now); set_phase (serving now)
  | unloaded ↦ do load_fails now (exited status.exit_code); set_phase yielded
  | loading ↦ do
    late ← gets (λ w. ltb (started + w.settings.load_timeout) now)
    if late then end_late_load now else skip
]

-- `_advance`
unfoldable pub advance : ℕ → ModelStatus → Phase → Exec ⊤
unfolding while_serving while_yielding while_yielded while_resuming
advance now status (serving since) = while_serving now since
advance now status (yielding since handoff pressed) =
    while_yielding now status.state handoff pressed
advance now status yielded = while_yielded now
advance now status (resuming trigger quiet_start started) =
    while_resuming now status trigger quiet_start started

-- `_unhealthy_reason`: the `match` with its guards, then the silence
unfoldable pub is_silent : ℕ → Watcher → Bool
is_silent now w = elim w.silent_since [
  | none ↦ false
  | some t ↦ ltb (t + w.settings.server_silent) now
]

unfoldable pub phase_reason : ℕ → Watcher → Phase → Option Reason
phase_reason now w (serving _) =
    if leb w.settings.vram_limit_mib w.reading.memory_used_mib then some vram_at_limit else none
phase_reason now w (yielding since _ _) =
    if ltb (since + w.settings.yield_stuck) now then some yield_stuck else none
phase_reason now w yielded = if leb load_attempts w.failures then some load_given_up else none
phase_reason now w (resuming _ _ _) = none

unfoldable pub unhealthy_reason : ℕ → Watcher → Option Reason
unfolding is_silent phase_reason
unhealthy_reason now w = elim (phase_reason now w w.phase) [
  | some r ↦ some r
  | none ↦ if is_silent now w then some server_unresponsive else none
]

-- `_report`
abbrev pub is_news : Option Reason → Option Reason → Bool
is_news none old = false
is_news (some r) none = true
is_news (some r) (some q) = not (reason_eq r q)

abbrev log_reason : Option Reason → Exec ⊤
log_reason none = skip
log_reason (some r) = log (unhealthy r)

unfoldable pub report : Option Reason → Exec ⊤
unfolding ◌>>=◌
report reason = do
  news ← gets (λ w. is_news reason w.reported)
  if news then log_reason reason else skip
  modify (λ w. record w { reported = reason })

-- The dispatch of `tick` on the phase.
unfoldable pub dispatch : ℕ → ModelStatus → Exec ⊤
unfolding ◌>>=◌
dispatch now status = do
  phase ← gets (λ w. w.phase)
  if expects phase status.state then advance now status phase else unexpected now status

-- The part of `tick` that reads the GPU and the router and takes the sample.
unfoldable pub survey : ℕ → Exec ModelStatus
unfolding ◌>>=◌
survey now = do
  reading ← ask (λ a. a.reading)
  status ← ask (λ a. a.status)
  slots ← read_slots now status
  observe now reading slots
  note_router_state status.state
  pure status

unfoldable pub tick : ℕ → Exec ⊤
unfolding survey dispatch ◌>>=◌
tick now = do
  status ← survey now
  dispatch now status
  reason ← gets (unhealthy_reason now)
  report reason

abbrev pub hold : ℕ → Watcher → Watcher
hold now w = record w { hold_until = max w.hold_until (now + w.settings.button_hold) }

-- The `match` of `yield_now`.
unfoldable pub press_yield : ℕ → Phase → Exec ⊤
unfolding ◌>>=◌
press_yield now (serving _) = do begin_yield now button; skip
press_yield now (resuming _ _ started) = do
  done ← begin_yield now button
  if done then log (resume_abandoned started now) else skip
press_yield now (yielding since handoff _) = set_phase (yielding since handoff false)
press_yield now yielded = skip

unfoldable pub yield_now : ℕ → Exec ⊤
unfolding press_yield ◌>>=◌
yield_now now = do modify (hold now); phase ← gets (λ w. w.phase); press_yield now phase

abbrev pub release_hold : ℕ → Watcher → Watcher
release_hold now w = record w { hold_until = now; retry_at = now; failures = 0 }

-- The `match` of `resume_now`.
unfoldable pub press_resume : ℕ → Phase → Exec ⊤
press_resume now yielded = start_load now button
press_resume now (yielding since handoff _) = set_phase (yielding since handoff true)
press_resume now (serving _) = skip
press_resume now (resuming _ _ _) = skip

unfoldable pub resume_now : ℕ → Exec ⊤
unfolding press_resume ◌>>=◌
resume_now now = do modify (release_hold now); phase ← gets (λ w. w.phase); press_resume now phase

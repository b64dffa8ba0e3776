-- ===== src/Watcher/Sampling.antt =====
-- The reads and tests of `Watcher` (llm/watcher/state.py): the slot report, the samples of the last
-- 30 seconds, the activity among them, and the quiet period.
use podhaus.Base.{
  ℕ, ⊤, ◌+◌, ◌-◌, max, Bool, true, false, not, ◌&&◌, ◌||◌, Option, none, some, List, [], ◌∷◌, ◌++◌,
  ltb, leb, if◌then◌else◌, is_some, get_last?, keep, any, sum_of,
}
use podhaus.Watcher.Data.{
  Settings, GpuReading, ModelState, loaded, loading, ModelStatus, state_eq, Slot, slots_eq, Sample,
  is_serving, Event, slots_changed, Watcher,
}
use podhaus.Watcher.Exec.{Exec, ◌>>=◌, ◌>>◌, pure, ask, gets, modify, skip, log, drop_cache}

abbrev pub record_ms : ℕ
record_ms = 30000

-- `_quiet_since`
unfoldable pub quiet_since : Watcher → ℕ
quiet_since w = elim w.last_active_at [ none ↦ w.started_at | some t ↦ max w.started_at t ]

-- `_quiet_for(now) < quiet_s`
unfoldable pub is_restless : ℕ → Watcher → Bool
unfolding quiet_since
is_restless now w = ltb now (quiet_since w + w.settings.quiet)

-- `_keeping_away`
unfoldable pub keeping_away : ℕ → Watcher → Bool
unfolding is_restless
keeping_away now w = ltb now w.hold_until || is_restless now w

-- `_activity`: the window ends at the newest sample
abbrev pub is_active : Settings → ℕ → Sample → Bool
is_active s newest x =
    ltb newest (x.t + s.activity_window) && (x.counted && leb s.activity_threshold_percent x.util)

unfoldable pub activity : Settings → List Sample → List Sample
activity s xs = elim (get_last? xs) [ none ↦ [] | some n ↦ keep (is_active s n.t) xs ]

-- `_busy_before`: none is infinity
unfoldable pub busy_before : ℕ → Watcher → Option ℕ
busy_before now w = elim w.busy_until [
  | none ↦ some 0
  | some u ↦
      if ltb now (u + record_ms)
      then elim w.busy_since [ none ↦ none | some s ↦ some (u - s) ]
      else some 0
]

-- `_read_slots`: `none` inside is "no report", which a serving model gives while it is in one long
-- step
abbrev pub note_silence : ℕ → Option (List Slot) → Watcher → Watcher
note_silence now (some _) w = record w { silent_since = none }
note_silence now none w = record w {
  silent_since = if is_some w.silent_since then w.silent_since else some now;
}

unfoldable pub read_slots : ℕ → ModelStatus → Exec (Option (List Slot))
unfolding ◌>>=◌
read_slots now status = do
  asked ← gets (λ w. is_serving w.phase && state_eq status.state loaded)
  if asked
      then (do slots ← ask (λ a. a.slots); modify (note_silence now slots); pure slots)
      else (do modify (λ w. record w { silent_since = none }); pure (some []))

-- `while samples[0].t <= now - RECORD_SECONDS: samples.popleft()`
unfoldable pub drop_old : ℕ → List Sample → List Sample
drop_old now [] = []
drop_old now (x ∷ xs) = if leb (x.t + record_ms) now then drop_old now xs else x ∷ xs

abbrev pub busy_report : Option (List Slot) → Bool
busy_report none = true
busy_report (some slots) = any (λ s. s.busy) slots

abbrev pub last_busy : List Sample → Bool
last_busy xs = elim (get_last? xs) [ none ↦ false | some x ↦ x.busy ]

unfoldable pub sample_now : ℕ → GpuReading → Bool → Watcher → Sample
sample_now now reading busy w = record {
  t = now;
  util = reading.util_percent;
  busy = busy;
  counted = is_serving w.phase && not (busy || last_busy w.samples);
}

-- The part of `_observe` that takes the sample.
unfoldable pub take_sample : ℕ → GpuReading → Bool → Watcher → Watcher
unfolding drop_old sample_now
take_sample now reading busy w = record w {
  samples = drop_old now (w.samples ++ sample_now now reading busy w ∷ []);
  reading = reading;
  sampled_at = now;
  last_active_at =
      if leb w.settings.activity_threshold_percent reading.util_percent
      then some now
      else w.last_active_at;
  busy_since = if busy && not (last_busy w.samples) then some now else w.busy_since;
  busy_until = if busy then some now else w.busy_until;
}

-- `_log_slots`
unfoldable pub slots_line : Watcher → Event
slots_line w = slots_changed w.slots (sum_of (λ s. s.tokens) w.slots) w.settings.pool_tokens

unfoldable pub note_slots : Option (List Slot) → Exec ⊤
unfolding slots_line ◌>>=◌
note_slots none = skip
note_slots (some slots) = do
  same ← gets (λ w. slots_eq slots w.slots)
  if same
      then skip
      else (do modify (λ w. record w { slots = slots }); line ← gets slots_line; log line)

-- `_observe`
unfoldable pub observe : ℕ → GpuReading → Option (List Slot) → Exec ⊤
unfolding take_sample note_slots ◌>>=◌
observe now reading slots = do
  modify (take_sample now reading (busy_report slots))
  note_slots slots

-- `_note_router_state`
abbrev pub is_settled : ModelState → Bool
is_settled s = not (state_eq s loading)

abbrev pub is_known : ModelState → Option ModelState → Bool
is_known s none = false
is_known s (some t) = state_eq s t

unfoldable pub note_router_state : ModelState → Exec ⊤
unfolding ◌>>=◌ drop_cache
note_router_state s = do
  changed ← gets (λ w. not (is_known s w.router_state) && is_settled s)
  if changed then drop_cache else skip
  modify (λ w. record w { router_state = some s })

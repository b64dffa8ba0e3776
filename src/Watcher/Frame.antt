-- ===== src/Watcher/Frame.antt =====
-- What the survey at the start of a tick leaves alone (llm/watcher/state.py: `_read_slots`,
-- `_observe`, `_note_router_state`): the phase, the deadlines, the count of failures, and the
-- commands and handoff lines of the trace.
use podhaus.Watcher.Rules.{Respects, bind_rule}
use podhaus.Watcher.Data.{ModelState, ModelStatus, GpuReading, Slot, slots_changed, unhealthy}
use podhaus.Watcher.Tick.{survey, tick, report, dispatch, unhealthy_reason}
use podhaus.Watcher.Exec.{
  Effect, Run, Answers, logs, unloads, loads, drops_cache, Result, pure, ask, ok, ◌>>=◌, Exec, gets,
  ◌>>◌, raised,
}
use podhaus.Watcher.Sampling.{observe, read_slots, note_router_state}
use podhaus.Base.{
  List, ℕ, Bool, keep, arith, ◌≡◌, Option, ◌⊎◌, false, some, true, none, Option-cases, ⊤, inl, refl,
  inr,
}

-- A command that the router answered, or a line of the log about a handoff or a load.
abbrev pub is_move : Effect → Bool
is_move (logs (slots_changed _ _ _)) = false
is_move (logs (unhealthy _)) = false
is_move (logs _) = true
is_move (unloads _ _) = true
is_move loads = true
is_move drops_cache = false

abbrev pub moves : List Effect → List Effect
moves = keep is_move

pub record Frame (now : ℕ) (r s : Run) : Type 0 where
  pub settings : s.watcher.settings ≡ r.watcher.settings
  pub phase : s.watcher.phase ≡ r.watcher.phase
  pub started_at : s.watcher.started_at ≡ r.watcher.started_at
  pub hold_until : s.watcher.hold_until ≡ r.watcher.hold_until
  pub retry_at : s.watcher.retry_at ≡ r.watcher.retry_at
  pub failures : s.watcher.failures ≡ r.watcher.failures
  pub last_active :
      (s.watcher.last_active_at ≡ r.watcher.last_active_at) ⊎ (s.watcher.last_active_at ≡ some now)
  pub same_moves : moves s.trace ≡ moves r.trace

ask-Frame : (now : ℕ) {A : Type 0} (f : Answers → Result A) → Respects (Frame now) (ask f)
ask-Frame now f = record { relates = λ a r. ground arith }

pure-Frame : (now : ℕ) {A : Type 0} (v : A) → Respects (Frame now) (pure v)
pure-Frame now v = record { relates = λ a r. ground arith }

read_slots-Frame : (now : ℕ) (status : ModelStatus) → Respects (Frame now) (read_slots now status)
unfolding read_slots
read_slots-Frame now status = record { relates = λ a r. ground arith }

observe-Frame :
    (now : ℕ) (reading : GpuReading) (slots : Option (List Slot))
    → Respects (Frame now) (observe now reading slots)
unfolding observe
observe-Frame now reading none = record { relates = λ a r. ground arith }
observe-Frame now reading (some slots) = record { relates = λ a r. ground arith }

note_router_state-Frame :
    (now : ℕ) (state : ModelState) → Respects (Frame now) (note_router_state state)
unfolding note_router_state
note_router_state-Frame now state = record { relates = λ a r. ground arith }

Frame-trans : (now : ℕ) (r s t : Run) → Frame now r s → Frame now s t → Frame now r t
Frame-trans now r s t f g = ground arith

survey-Respects : (now : ℕ) → Respects (Frame now) (survey now)
unfolding survey
survey-Respects now =
    search
      (
        bind_rule (Frame now) (Frame-trans now),
        ask-Frame,
        pure-Frame,
        read_slots-Frame,
        observe-Frame,
        note_router_state-Frame,
      )
      depth 9

pub survey-Frame : (now : ℕ) (a : Answers) (r : Run) → Frame now r (survey now a r).1
survey-Frame now a r = (survey-Respects now).relates a r

-- An answer of the router that the survey returns is the one that it read.
survey-status :
    (now : ℕ) (a : Answers) (r : Run) (status : ModelStatus)
    → (survey now a r).0 ≡ ok status
    → a.status ≡ ok status
unfolding survey
survey-status now a r status e = ground arith

-- The health report at the end of a tick.
check : ℕ → Exec ⊤
unfolding ◌>>=◌
check now = do reason ← gets (unhealthy_reason now); report reason

check-Frame : (now : ℕ) (a : Answers) (r : Run) → Frame now r (check now a r).1
unfolding check report
check-Frame now a r = elim (Option-cases (unhealthy_reason now r.watcher)) [
  | inl e ↦ rw (e, report) (ground arith)
  | inr (reason, e) ↦ rw (e, report) (ground arith)
]

Frame-refl : (now : ℕ) (r : Run) → Frame now r r
Frame-refl now r = ground arith

-- A tick ends in its survey, or it dispatches and then only reports.
module _ (now : ℕ) (P : Run → Type 0) (a : Answers) where
  checked :
      (x : Result ⊤ × Run)
      → ((t : Run) → Frame now x.1 t → P t)
      → P (((λ _ _. x) >> check now) a x.1).1
  unfolding ◌>>=◌
  checked (ok v, s) h = h _ (check-Frame now a s)
  checked (raised e, s) h = h s (Frame-refl now s)

  surveyed :
      (x : Result ModelStatus × Run)
      → ((status : ModelStatus) → x.0 ≡ ok status → a.status ≡ ok status)
      → P x.1
      → ((status : ModelStatus)
          → a.status ≡ ok status
          → (t : Run) → Frame now (dispatch now status a x.1).1 t
          → P t)
      → P (((λ _ _. x) >>= λ status. dispatch now status >> check now) a x.1).1
  unfolding ◌>>=◌
  surveyed (raised e, s) known stopped moved = stopped
  surveyed (ok status, s) known stopped moved =
      checked (dispatch now status a s) (moved status (known status refl))

  pub tick_rule :
      (r : Run)
      → P (survey now a r).1
      → ((status : ModelStatus)
          → a.status ≡ ok status
          → (t : Run) → Frame now (dispatch now status a (survey now a r).1).1 t
          → P t)
      → P (tick now a r).1
  unfolding tick check ◌>>=◌
  tick_rule r = surveyed (survey now a r) (survey-status now a r)

  -- With all answers of the survey given, a tick dispatches.
  answered :
      (x : Result ModelStatus × Run) (status : ModelStatus)
      → x.0 ≡ ok status
      → ((t : Run) → Frame now (dispatch now status a x.1).1 t → P t)
      → P (((λ _ _. x) >>= λ status. dispatch now status >> check now) a x.1).1
  unfolding ◌>>=◌
  answered (raised e, s) status known moved = cc
  answered (ok found, s) status known moved =
      checked (dispatch now found a s) (let same : found ≡ status = cc in rw same moved)

  pub answered_rule :
      (r : Run) (status : ModelStatus)
      → (survey now a r).0 ≡ ok status
      → ((t : Run) → Frame now (dispatch now status a (survey now a r).1).1 t → P t)
      → P (tick now a r).1
  unfolding tick check ◌>>=◌
  answered_rule r = answered (survey now a r)

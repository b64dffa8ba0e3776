-- ===== src/Watcher/TickLoads.antt =====
-- The loads that one tick of the watcher may command (llm/watcher/state.py: `tick`).
use podhaus.Watcher.Handoff.{load_attempts}
use podhaus.Watcher.Loads.{
  MayLoad, free, pressed, is_pressed, loads_of, Frame-Calm, Calm, dispatch-LoadsDuly,
}
use podhaus.Watcher.Frame.{Frame, tick_rule, survey-Frame}
use podhaus.Watcher.Data.{Watcher, ModelStatus, yielded, unloaded}
use podhaus.Watcher.Exec.{Answers, Run, ok}
use podhaus.Watcher.Sampling.{quiet_since}
use podhaus.Base.{ℕ, ◌≡◌, ◌<◌, arith, ◌≤◌, ◌+◌, ◌⊎◌, inl, inr, true}
use podhaus.Watcher.Tick.{may_load, tick, dispatch}

-- What the state of the watcher at the start of the tick and the router's answer must be.
abbrev pub LoadDue : ℕ → Answers → Watcher → Type 0
LoadDue now a w =
    ((w.phase ≡ yielded)
      × (w.hold_until ≤ now)
      × (w.retry_at ≤ now)
      × (w.failures < load_attempts)
      × (quiet_since w + w.settings.quiet ≤ now))
    ⊎ ((is_pressed w.phase ≡ true)
        × (status : ModelStatus) × (a.status ≡ ok status)
        × (status.state ≡ unloaded))

-- What the dispatch finds due was due at the start of the tick.
due_before :
    (now : ℕ) (a : Answers) (r s : Run) (status : ModelStatus)
    → 0 < r.watcher.settings.quiet
    → Frame now r s
    → a.status ≡ ok status
    → MayLoad now status.state s.watcher
    → LoadDue now a r.watcher
unfolding quiet_since may_load
due_before now a r s status q f e (free p can) = inl (ground arith)
due_before now a r s status q f e (pressed p gone) = inr (ground arith)

-- No load in this tick, or one that was due.
abbrev pub LoadsWhenDue : ℕ → Answers → Run → Run → Type 0
LoadsWhenDue now a r t =
    (loads_of t.trace ≡ loads_of r.trace)
    ⊎ (LoadDue now a r.watcher × (loads_of t.trace ≤ loads_of r.trace + 1))

after_dispatch :
    (now : ℕ) (a : Answers) (r s t : Run) (status : ModelStatus)
    → 0 < r.watcher.settings.quiet
    → Frame now r s
    → a.status ≡ ok status
    → Frame now (dispatch now status a s).1 t
    → LoadsWhenDue now a r t
after_dispatch now a r s t status q f e g = elim (dispatch-LoadsDuly now status a s) [
  | inl calm ↦ inl (omega (arith, calm.same_loads, before.same_loads, later.same_loads))
  | inr (may, one) ↦ inr (
    due_before now a r s status q f e may,
    omega (arith, one.one_load, before.same_loads, later.same_loads),
  )
]
  where
    before : Calm r s
    before = Frame-Calm now r s f

    later : Calm (dispatch now status a s).1 t
    later = Frame-Calm now _ t g

-- A tick commands a load only if it is due: the model is away, no hold and no wait between retries
-- is left, fewer than five loads have failed in a row, and the GPU has been quiet for the quiet
-- period; or Resume was pressed during an unload that the router now reports done. It commands at
-- most one. The quiet period is not zero.
pub tick-LoadsWhenDue :
    (now : ℕ) (a : Answers) (r : Run)
    → 0 < r.watcher.settings.quiet
    → LoadsWhenDue now a r (tick now a r).1
tick-LoadsWhenDue now a r q =
    tick_rule now (LoadsWhenDue now a r) a r
      (inl (Frame-Calm now r _ (survey-Frame now a r)).same_loads)
      λ status e t. after_dispatch now a r _ t status q (survey-Frame now a r) e

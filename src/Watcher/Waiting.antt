-- ===== src/Watcher/Waiting.antt =====
-- The ticks that wait (llm/watcher/state.py): a load in progress, which the watcher is blind to, and
-- the end of the attempts to load.
use podhaus.Watcher.Lifecycle.{health}
use podhaus.Watcher.Handoff.{load_attempts}
use podhaus.Watcher.Data.{
  expects, Trigger, yielded, ModelStatus, resuming, unloaded, loading, load_given_up,
}
use podhaus.Watcher.Frame.{Frame, moves, survey-Frame, tick_rule}
use podhaus.Watcher.Calls.{Call, ticks, presses_yield, presses_resume, after, play, play_keeps}
use podhaus.Base.{ℕ, ◌∙◌, ◌≡◌, Option, ◌≤◌, ◌+◌, arith, List, All, some, refl}
use podhaus.Watcher.Exec.{Run, Answers, ok}
use podhaus.Watcher.Tick.{
  dispatch, advance, while_resuming, while_yielded, survey, tick, unhealthy_reason, phase_reason,
}

-- The phase and the moves of the trace are those of the start.
abbrev pub Still : Run → Run → Type 0
Still r t = (t.watcher.phase ≡ r.watcher.phase) × (moves t.trace ≡ moves r.trace)

Frame-Still : (now : ℕ) (r s : Run) → Frame now r s → Still r s
Frame-Still now r s f = (f.phase, f.same_moves)

Still-trans : (r s t : Run) → Still r s → Still s t → Still r t
Still-trans r s t f g = (g.0 ∙ f.0, g.1 ∙ f.1)

-- A tick whose dispatch does nothing is still.
idle_tick :
    (now : ℕ) (a : Answers) (r : Run)
    → ((status : ModelStatus)
        → a.status ≡ ok status
        → (dispatch now status a (survey now a r).1).1 ≡ (survey now a r).1)
    → Still r (tick now a r).1
idle_tick now a r idle = tick_rule now (Still r) a r before λ status e t g.
    Still-trans r (survey now a r).1 t before (rw (idle status e) at (Frame-Still now _ t g))
  where
    before : Still r (survey now a r).1
    before = Frame-Still now r _ (survey-Frame now a r)

loading_dispatch :
    (now : ℕ) (status : ModelStatus) (trigger : Trigger) (q : Option ℕ) (started : ℕ) (a : Answers)
    (s : Run)
    → s.watcher.phase ≡ resuming trigger q started
    → status.state ≡ loading
    → now ≤ started + s.watcher.settings.load_timeout
    → (dispatch now status a s).1 ≡ s
unfolding dispatch expects advance while_resuming
loading_dispatch now status trigger q started a s e l early = ground arith

-- While a load is in progress and within its limit, a tick changes no phase and commands and logs
-- nothing about the model, whatever the GPU does.
pub tick-blind :
    (now : ℕ) (a : Answers) (r : Run) (trigger : Trigger) (q : Option ℕ) (started : ℕ)
    (status : ModelStatus)
    → r.watcher.phase ≡ resuming trigger q started
    → a.status ≡ ok status
    → status.state ≡ loading
    → now ≤ started + r.watcher.settings.load_timeout
    → Still r (tick now a r).1
tick-blind now a r trigger q started status e read l early = idle_tick now a r λ status' read'.
    loading_dispatch now status' trigger q started a _ (frame.phase ∙ e) (ground arith)
      (ground (arith, frame.settings))
  where
    frame : Frame now r (survey now a r).1
    frame = survey-Frame now a r

given_up_dispatch :
    (now : ℕ) (status : ModelStatus) (a : Answers) (s : Run)
    → s.watcher.phase ≡ yielded
    → load_attempts ≤ s.watcher.failures
    → status.state ≡ unloaded
    → (dispatch now status a s).1 ≡ s
unfolding dispatch expects advance while_yielded
given_up_dispatch now status a s e spent gone = ground arith

-- A tick that finds the model away, or gets no answer.
abbrev pub FindsAway : Call → Type 0
FindsAway (ticks now a) = (status : ModelStatus) → a.status ≡ ok status → status.state ≡ unloaded
FindsAway (presses_yield _ _) = ⊥
FindsAway (presses_resume _ _) = ⊥

-- The state of a watcher that has given up, `r` being the run at which it had.
pub record HasGivenUp (r t : Run) : Type 0 where
  pub away : t.watcher.phase ≡ yielded
  pub spent : load_attempts ≤ t.watcher.failures
  pub still : moves t.trace ≡ moves r.trace

Frame-HasGivenUp : (now : ℕ) (r s t : Run) → Frame now s t → HasGivenUp r s → HasGivenUp r t
Frame-HasGivenUp now r s t f h = ground arith

tick-HasGivenUp :
    (now : ℕ) (a : Answers) (r s : Run)
    → FindsAway (ticks now a)
    → HasGivenUp r s
    → HasGivenUp r (tick now a s).1
tick-HasGivenUp now a r s away h = tick_rule now (HasGivenUp r) a s before λ status e t g.
    Frame-HasGivenUp now r (survey now a s).1 t
      (rw
        (given_up_dispatch now status a (survey now a s).1 before.away before.spent (away status e))
        at g)
      before
  where
    before : HasGivenUp r (survey now a s).1
    before = Frame-HasGivenUp now r s _ (survey-Frame now a s) h

after-HasGivenUp :
    (r : Run) (c : Call) (s : Run) → FindsAway c → HasGivenUp r s → HasGivenUp r (after c s)
unfolding after
after-HasGivenUp r (ticks now a) s away h = tick-HasGivenUp now a r s away h
after-HasGivenUp r (presses_yield now a) s away h = absurd away
after-HasGivenUp r (presses_resume now a) s away h = absurd away

health-given_up : (r t : Run) (now : ℕ) → HasGivenUp r t → health now t.watcher ≡ some load_given_up
unfolding health unhealthy_reason phase_reason
health-given_up r t now h = ground arith

-- After five failed loads in a row, with the model away, the ticks command and log nothing about the
-- model and the health check says so, for as long as no button is pressed and nothing else brings
-- the model back.
pub play-given_up :
    (r : Run) (cs : List Call) (now : ℕ)
    → r.watcher.phase ≡ yielded
    → load_attempts ≤ r.watcher.failures
    → All FindsAway cs
    → let t = play cs r in
      (moves t.trace ≡ moves r.trace)
      × (t.watcher.phase ≡ yielded)
      × (health now t.watcher ≡ some load_given_up)
play-given_up r cs now e spent away = (end.still, end.away, health-given_up r (play cs r) now end)
  where
    end : HasGivenUp r (play cs r)
    end =
        play_keeps (HasGivenUp r) FindsAway (after-HasGivenUp r) cs r away
          (record { away = e; spent = spent; still = refl })

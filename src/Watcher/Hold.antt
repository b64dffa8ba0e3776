-- ===== src/Watcher/Hold.antt =====
-- The hold of the Yield button (llm/watcher/state.py: `yield_now`, `_keeping_away`): what it keeps
-- away until it ends or Resume is pressed.
use podhaus.Watcher.Frame.{tick_rule, survey-Frame}
use podhaus.Watcher.Loads.{
  Calm, loads_of, is_pressed, MayLoad, free, Frame-Calm, pressed, dispatch-LoadsDuly,
}
use podhaus.Watcher.Handoff.{begin_yield}
use podhaus.Watcher.Data.{Watcher, ModelState}
use podhaus.Watcher.Exec.{Answers, Run}
use podhaus.Base.{ℕ, ◌≤◌, arith, ◌<◌, List, ◌+◌, ◌≡◌, All, false, inl, inr}
use podhaus.Watcher.Calls.{
  after, Call, time_of, ticks, is_resume, presses_yield, presses_resume, play, play_keeps,
}
use podhaus.Watcher.Tick.{yield_now, may_load, tick, survey}

-- A hold up to `deadline`, with no press of Resume waiting for an unload.
pub record IsHeld (deadline : ℕ) (w : Watcher) : Type 0 where
  pub held : deadline ≤ w.hold_until
  pub unpressed : is_pressed w.phase ≡ false

-- The loads so far, under a hold.
pub record Holds (deadline count : ℕ) (r : Run) : Type 0 where
  pub is_held : IsHeld deadline r.watcher
  pub same_loads : loads_of r.trace ≡ count

Calm-Holds :
    (deadline count : ℕ) (r s : Run) → Calm r s → Holds deadline count r → Holds deadline count s
Calm-Holds deadline count r s c h = ground arith

-- Under a hold no load is due.
not-MayLoad :
    (deadline count now : ℕ) (state : ModelState) (r : Run)
    → now < deadline
    → Holds deadline count r
    → ¬ MayLoad now state r.watcher
unfolding may_load
not-MayLoad deadline count now state r lt h (free p can) = ground arith
not-MayLoad deadline count now state r lt h (pressed p gone) = ground arith

tick-Holds :
    (deadline count now : ℕ) (a : Answers) (r : Run)
    → now < deadline
    → Holds deadline count r
    → Holds deadline count (tick now a r).1
tick-Holds deadline count now a r lt h =
    tick_rule now (Holds deadline count) a r surveyed λ status _ t g.
      Calm-Holds deadline count _ t (Frame-Calm now _ t g)
        (elim (dispatch-LoadsDuly now status a (survey now a r).1) [
          | inl calm ↦ Calm-Holds deadline count _ _ calm surveyed
          | inr (may, _) ↦ absurd (not-MayLoad deadline count now status.state _ lt surveyed may)
        ])
  where
    surveyed : Holds deadline count (survey now a r).1
    surveyed = Calm-Holds deadline count r _ (Frame-Calm now r _ (survey-Frame now a r)) h

yield_now-Holds :
    (deadline count now : ℕ) (a : Answers) (r : Run)
    → Holds deadline count r
    → Holds deadline count (yield_now now a r).1
unfolding yield_now begin_yield
yield_now-Holds deadline count now a r h = ground arith

-- Pressing Yield begins a hold, also where the unload fails.
yield_now-held :
    (now : ℕ) (a : Answers) (r : Run)
    → Holds (now + r.watcher.settings.button_hold) (loads_of r.trace) (yield_now now a r).1
unfolding yield_now begin_yield
yield_now-held now a r = ground arith

abbrev pub WithinHold : ℕ → Call → Type 0
WithinHold deadline c = (time_of c < deadline) × (is_resume c ≡ false)

after-Holds :
    (deadline count : ℕ) (c : Call) (r : Run)
    → WithinHold deadline c
    → Holds deadline count r
    → Holds deadline count (after c r)
unfolding after
after-Holds deadline count (ticks now a) r may h = tick-Holds deadline count now a r may.0 h
after-Holds deadline count (presses_yield now a) r may h = yield_now-Holds deadline count now a r h
after-Holds deadline count (presses_resume now a) r may h = cc

-- Once Yield is pressed, no load is commanded before the hold has passed, whatever the ticks read
-- and however often Yield is pressed again, as long as Resume is not pressed.
pub play-hold :
    (now : ℕ) (a : Answers) (r : Run) (cs : List Call)
    → All (WithinHold (now + r.watcher.settings.button_hold)) cs
    → loads_of (play cs (yield_now now a r).1).trace ≡ loads_of r.trace
play-hold now a r cs within =
    (play_keeps (Holds (now + r.watcher.settings.button_hold) (loads_of r.trace)) _
      (after-Holds (now + r.watcher.settings.button_hold) (loads_of r.trace)) cs _ within
      (yield_now-held now a r)).same_loads

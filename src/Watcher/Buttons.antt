-- ===== src/Watcher/Buttons.antt =====
-- The buttons, the wait between loads and the health report (llm/watcher/state.py: `yield_now`,
-- `resume_now`, `_load_failed`, `_report`, `_note_router_state`).
use podhaus.Watcher.Progress.{Answered, phase_rule, surveyed_phase}
use native.Mathlib.Numerals.{towards_suc}
use podhaus.Watcher.Sampling.{quiet_since}
use podhaus.Watcher.Data.{
  Phase, LoadError, expects, Reason, Handoff, yielding, ModelStatus, GuestMemory, unloaded,
  resuming, button, reason_eq, yield_stuck, serving, Trigger, vram_at_limit, load_given_up, yielded,
  server_unresponsive, sample_stale, used_mib,
}
use podhaus.Watcher.Exec.{Run, Answers, ok, accepted, Result, raised}
use podhaus.Watcher.Handoff.{load_fails, start_load, first_retry_ms, begin_yield, handoff_of}
use podhaus.Base.{
  ℕ, Option, ◌≡◌, arith, ◌+◌, max, ◌⊎◌, some, Bool, none, ◌*◌, false, ◌^◌, true, ◌-◌, refl, inl,
  inr,
}
use podhaus.Watcher.Tick.{
  report, resume_now, dispatch, press_resume, advance, while_yielding, press_yield, yield_now, tick,
  survey,
}

-- What a press of Yield leaves: the hold is extended in every phase; an unload on its way loses a
-- press of Resume; a model that serves or loads is unloaded, or its phase stands.
abbrev pub YieldMoves : ℕ → Phase → Phase → Type 0
YieldMoves now p q =
    (q ≡ p)
    ⊎ ((since : ℕ) × (h : Option Handoff) × (q ≡ yielding since h false)
        × ((since ≡ now) ⊎ ((b : Bool) × (p ≡ yielding since h b))))

-- The two ends of a begun yield.
begin_yield_ends :
    (now : ℕ) (trigger : Trigger) (a : Answers) (s : Run)
    → ((begin_yield now trigger a s).1.watcher.phase ≡ s.watcher.phase)
      ⊎ ((h : Handoff) × ((begin_yield now trigger a s).1.watcher.phase
            ≡ yielding now (some h) false))
unfolding begin_yield
begin_yield_ends now trigger a s = go a.memory_before a.unload refl refl
  where
    go :
        (m : Result GuestMemory) (u : Result Bool)
        → a.memory_before ≡ m
        → a.unload ≡ u
        → ((begin_yield now trigger a s).1.watcher.phase ≡ s.watcher.phase)
          ⊎ ((h : Handoff) × ((begin_yield now trigger a s).1.watcher.phase
                ≡ yielding now (some h) false))
    go (raised e) u em eu = inl (ground arith)
    go (ok m) (raised e) em eu = inl (ground arith)
    go (ok m) (ok false) em eu = inl (ground arith)
    go (ok m) (ok true) em eu = inr (handoff_of now trigger (used_mib m) s.watcher, ground arith)

press_yield_ends :
    (now : ℕ) (p : Phase) (a : Answers) (s : Run)
    → s.watcher.phase ≡ p
    → YieldMoves now p (press_yield now p a s).1.watcher.phase
unfolding press_yield
press_yield_ends now (serving since) a s e = elim (begin_yield_ends now button a s) [
  | inl same ↦ inl ground arith
  | inr (h, moved) ↦ inr (now, some h, ground arith, inl refl)
]
press_yield_ends now (yielding since h p) a s e = inr (since, h, refl, inr (p, refl))
press_yield_ends now yielded a s e = inl e
press_yield_ends now (resuming trigger q started) a s e = elim (begin_yield_ends now button a s) [
  | inl same ↦ inl ground arith
  | inr (h, moved) ↦ inr (now, some h, ground arith, inl refl)
]

resume_released :
    (now : ℕ) (a : Answers) (r : Run) (since : ℕ) (h : Option Handoff) (p : Bool)
    → r.watcher.phase ≡ yielding since h p
    → (resume_now now a r).1.watcher.phase ≡ yielding since h true
unfolding resume_now press_resume
resume_released now a r since h p e = ground arith

pressed_dispatch :
    (now since : ℕ) (h : Option Handoff) (a : Answers) (s : Run) (status : ModelStatus)
    (m : GuestMemory)
    → s.watcher.phase ≡ yielding since h true
    → status.state ≡ unloaded
    → a.memory_after ≡ ok m
    → a.load ≡ accepted
    → (dispatch now status a s).1.watcher.phase ≡ resuming button (some (quiet_since s.watcher)) now
unfolding dispatch expects advance while_yielding start_load
pressed_dispatch now since none a s status m e l mem loads = ground arith
pressed_dispatch now since (some h) a s status m e l mem loads = ground arith

-- Resume pressed while an unload is on its way is not lost, hold or no hold: the tick that finds
-- the model gone loads it.
pub resume-reloads :
    (now later since : ℕ) (h : Option Handoff) (p : Bool) (a a' : Answers) (r : Run)
    (status : ModelStatus) (m : GuestMemory)
    → r.watcher.phase ≡ yielding since h p
    → Answered a' status
    → status.state ≡ unloaded
    → a'.memory_after ≡ ok m
    → a'.load ≡ accepted
    → (tick later a' (resume_now now a r).1).1.watcher.phase
      ≡ resuming button
          (some (quiet_since (survey later a' (resume_now now a r).1).1.watcher))
          later
resume-reloads now later since h p a a' r status m e ans gone mem loads =
    phase_rule later a' _ status _ ans (
      pressed_dispatch later since h a' _ status m
        (surveyed_phase later a' _ (resume_released now a r since h p e)) gone mem loads)

yield_now-hold_until :
    (now : ℕ) (a : Answers) (r : Run)
    → (yield_now now a r).1.watcher.hold_until
      ≡ max r.watcher.hold_until (now + r.watcher.settings.button_hold)
unfolding yield_now begin_yield
yield_now-hold_until now a r = ground arith

pub yield_now-moves :
    (now : ℕ) (a : Answers) (r : Run)
    → let s = (yield_now now a r).1 in
      (s.watcher.hold_until ≡ max r.watcher.hold_until (now + r.watcher.settings.button_hold))
      × YieldMoves now r.watcher.phase s.watcher.phase
unfolding yield_now
yield_now-moves now a r =
    (yield_now-hold_until now a r, press_yield_ends now r.watcher.phase a _ refl)

next_power : (n : ℕ) → 2 ^ (n + 1) ≡ 2 * 2 ^ n
next_power n = simp towards_suc (omega arith)

less_one : (n : ℕ) → n + 1 - 1 ≡ n
less_one n = omega arith

-- A failed load waits twice as long as the failure before it, the first one 15 seconds.
pub load_fails-doubles :
    (now later : ℕ) (e e' : LoadError) (a a' : Answers) (r : Run)
    → let s = (load_fails now e a r).1 in
      let t = (load_fails later e' a' s).1 in
      (s.watcher.retry_at ≡ now + first_retry_ms * 2 ^ r.watcher.failures)
      × (t.watcher.retry_at + 2 * now ≡ later + 2 * s.watcher.retry_at)
unfolding load_fails
load_fails-doubles now later e e' a a' r =
    rw
      (
        less_one r.watcher.failures,
        less_one (r.watcher.failures + 1),
        next_power r.watcher.failures,
      )
      (refl, omega arith)

reason_eq_self : (r : Reason) → reason_eq r r ≡ true
reason_eq_self yield_stuck = refl
reason_eq_self vram_at_limit = refl
reason_eq_self load_given_up = refl
reason_eq_self server_unresponsive = refl
reason_eq_self sample_stale = refl

-- A reason that lasts is logged once: to report it again changes nothing.
pub report_again :
    (reason : Option Reason) (a a' : Answers) (r : Run)
    → (report reason a' (report reason a r).1).1 ≡ (report reason a r).1
unfolding report
report_again none a a' r = ground arith
report_again (some reason) a a' r = ground (arith, reason_eq_self reason)

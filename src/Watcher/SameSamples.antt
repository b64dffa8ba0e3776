-- ===== src/Watcher/SameSamples.antt =====
-- The methods that take no sample leave the samples, and the instants kept beside them, alone
-- (llm/watcher/state.py: all but `_observe`).
use podhaus.Watcher.Sampling.{read_slots, note_router_state, note_slots}
use podhaus.Watcher.Rules.{Respects, bind_rule, if_rule}
use podhaus.Watcher.Exec.{Run, modify, gets, skip, pure, Answers, Result, ask}
use podhaus.Watcher.Handoff.{start_load, unexpected, begin_yield, unload, set_phase, load_fails}
use podhaus.Watcher.Tick.{
  while_serving, while_yielded, while_yielding, dispatch, while_resuming, yield_now, advance,
  press_resume, resume_now, log_handoff, report, release_hold,
}
use podhaus.Watcher.Data.{
  Watcher, Phase, ModelState, serving, ModelStatus, Trigger, yielding, Reason, Handoff, resuming,
  unloaded, yielded, button, loading, loaded, Slot,
}
use podhaus.Base.{ℕ, arith, ◌≡◌, Option, true, some, Bool, none, List}

-- The samples and the instants beside them are those of before.
pub record SameSamples (r s : Run) : Type 0 where
  pub samples : s.watcher.samples ≡ r.watcher.samples
  pub sampled_at : s.watcher.sampled_at ≡ r.watcher.sampled_at
  pub busy_since : s.watcher.busy_since ≡ r.watcher.busy_since
  pub busy_until : s.watcher.busy_until ≡ r.watcher.busy_until
  pub last_active_at : s.watcher.last_active_at ≡ r.watcher.last_active_at

unload-Same : (now : ℕ) (h : Option Handoff) → Respects SameSamples (unload now h)
unfolding unload
unload-Same now h = record { relates = λ a r. ground arith }

begin_yield-Same : (now : ℕ) (trigger : Trigger) → Respects SameSamples (begin_yield now trigger)
unfolding begin_yield
begin_yield-Same now trigger = record { relates = λ a r. ground arith }

unexpected-Same : (now : ℕ) (status : ModelStatus) → Respects SameSamples (unexpected now status)
unfolding unexpected
unexpected-Same now status = record { relates = λ a r. ground arith }

pub start_load-Same : (now : ℕ) (trigger : Trigger) → Respects SameSamples (start_load now trigger)
unfolding start_load
start_load-Same now trigger = record { relates = λ a r. ground arith }

pub SameSamples-trans : (r s t : Run) → SameSamples r s → SameSamples s t → SameSamples r t
SameSamples-trans r s t f g = ground arith

pub skip-Same : Respects SameSamples skip
skip-Same = record { relates = λ a r. ground arith }

pub gets-Same : {A : Type 0} (f : Watcher → A) → Respects SameSamples (gets f)
gets-Same f = record { relates = λ a r. ground arith }

pub set_phase-Same : (p : Phase) → Respects SameSamples (set_phase p)
set_phase-Same p = record { relates = λ a r. ground arith }

log_handoff-Same : (now : ℕ) (h : Option Handoff) → Respects SameSamples (log_handoff now h)
unfolding log_handoff
log_handoff-Same now none = record { relates = λ a r. ground arith }
log_handoff-Same now (some h) = record { relates = λ a r. ground arith }

while_resuming-Same :
    (now : ℕ) (status : ModelStatus) (trigger : Trigger) (q : Option ℕ) (started : ℕ)
    → Respects SameSamples (while_resuming now status trigger q started)
unfolding while_resuming load_fails unload
while_resuming-Same now status trigger q started = record { relates = λ a r. ground arith }

ruleset same_samples = (
  skip-Same, gets-Same, set_phase-Same, log_handoff-Same, start_load-Same, unexpected-Same,
  while_resuming-Same,
)

while_serving-Same : (now since : ℕ) → Respects SameSamples (while_serving now since)
unfolding while_serving begin_yield
while_serving-Same now since = record { relates = λ a r. ground arith }

while_yielding-Same :
    (now : ℕ) (state : ModelState) (h : Option Handoff) (p : Bool)
    → Respects SameSamples (while_yielding now state h p)
unfolding while_yielding
while_yielding-Same now unloaded h p =
    search (same_samples, bind_rule SameSamples SameSamples-trans, if_rule SameSamples)
while_yielding-Same now loading h p = skip-Same
while_yielding-Same now loaded h p = skip-Same

while_yielded-Same : (now : ℕ) → Respects SameSamples (while_yielded now)
unfolding while_yielded
while_yielded-Same now =
    search (same_samples, bind_rule SameSamples SameSamples-trans, if_rule SameSamples)

advance-Same :
    (now : ℕ) (status : ModelStatus) (p : Phase) → Respects SameSamples (advance now status p)
unfolding advance
advance-Same now status (serving since) = while_serving-Same now since
advance-Same now status (yielding since h p) = while_yielding-Same now status.state h p
advance-Same now status yielded = while_yielded-Same now
advance-Same now status (resuming trigger q started) =
    while_resuming-Same now status trigger q started

pub dispatch-Same : (now : ℕ) (status : ModelStatus) → Respects SameSamples (dispatch now status)
unfolding dispatch
dispatch-Same now status =
    search
      (same_samples, advance-Same, bind_rule SameSamples SameSamples-trans, if_rule SameSamples)

pub report-Same : (reason : Option Reason) → Respects SameSamples (report reason)
unfolding report
report-Same none = record { relates = λ a r. ground arith }
report-Same (some reason) = record { relates = λ a r. ground arith }

pub yield_now-Same : (now : ℕ) → Respects SameSamples (yield_now now)
unfolding yield_now begin_yield
yield_now-Same now = record { relates = λ a r. ground arith }

press_resume-Same : (now : ℕ) (p : Phase) → Respects SameSamples (press_resume now p)
unfolding press_resume
press_resume-Same now (serving since) = skip-Same
press_resume-Same now (yielding since h p) = set_phase-Same (yielding since h true)
press_resume-Same now yielded = start_load-Same now button
press_resume-Same now (resuming trigger q started) = skip-Same

modify_deadlines-Same : (now : ℕ) → Respects SameSamples (modify (release_hold now))
modify_deadlines-Same now = record { relates = λ a r. ground arith }

pub resume_now-Same : (now : ℕ) → Respects SameSamples (resume_now now)
unfolding resume_now
resume_now-Same now = search (
  same_samples,
  press_resume-Same,
  modify_deadlines-Same,
  bind_rule SameSamples SameSamples-trans,
)

pub ask-Same : {A : Type 0} (f : Answers → Result A) → Respects SameSamples (ask f)
ask-Same f = record { relates = λ a r. ground arith }

pub pure-Same : {A : Type 0} (v : A) → Respects SameSamples (pure v)
pure-Same v = record { relates = λ a r. ground arith }

pub read_slots-Same :
    (now : ℕ) (status : ModelStatus) → Respects SameSamples (read_slots now status)
unfolding read_slots
read_slots-Same now status = record { relates = λ a r. ground arith }

pub note_slots-Same : (slots : Option (List Slot)) → Respects SameSamples (note_slots slots)
unfolding note_slots
note_slots-Same none = record { relates = λ a r. ground arith }
note_slots-Same (some slots) = record { relates = λ a r. ground arith }

pub note_router_state-Same : (state : ModelState) → Respects SameSamples (note_router_state state)
unfolding note_router_state
note_router_state-Same state = record { relates = λ a r. ground arith }

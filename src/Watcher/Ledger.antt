-- ===== src/Watcher/Ledger.antt =====
-- Each yield's record (llm/watcher/state.py: `Handoff`, `_begin_yield`, `_log_handoff`): from the
-- unload that it is made for to the one line of the log that it is written in.
use podhaus.Watcher.Calls.{Call, after, ticks, play, play_keeps, presses_yield, presses_resume}
use podhaus.Watcher.Tick.{
  while_serving, while_resuming, yield_now, press_resume, advance, tick, while_yielding, dispatch,
  resume_now, survey, may_load,
}
use podhaus.Watcher.Handoff.{begin_yield, start_load, unexpected, load_fails, unload}
use podhaus.Watcher.Frame.{Frame, moves, tick_rule, survey-Frame}
use podhaus.Watcher.Data.{
  Phase, Handoff, yielding, handoff_yield, Trigger, ModelStatus, expects, Watcher, ModelState,
  serving, resuming, button, loading, yielded, unloaded, loaded, automatic,
}
use podhaus.Base.{
  ℕ, List, ◌≡◌, ◌∷◌, [], arith, ◌++◌, some, refl, none, Option, true, All, Bool-cases, false, inl,
  Bool, inr,
}
use podhaus.Watcher.Exec.{Run, Answers, Effect, logs, unloads, loads, drops_cache}

-- The records of the unloads that the router carried out, newest first.
abbrev pub begun : List Effect → List Handoff
begun [] = []
begun (unloads (some h) true ∷ trace) = h ∷ begun trace
begun (_ ∷ trace) = begun trace

-- The records that were written to the log, newest first.
abbrev pub logged : List Effect → List Handoff
logged [] = []
logged (logs (handoff_yield h _ _) ∷ trace) = h ∷ logged trace
logged (_ ∷ trace) = logged trace

-- The record that waits for the router to report the model gone.
abbrev pub pending : Phase → List Handoff
pending (yielding _ (some h) _) = h ∷ []
pending _ = []

abbrev pub Ledger : Run → Type 0
Ledger r = begun r.trace ≡ pending r.watcher.phase ++ logged r.trace

begun-moves : (trace : List Effect) → begun (moves trace) ≡ begun trace
begun-moves [] = refl
begun-moves (logs e ∷ trace) = ground (arith, begun-moves trace)
begun-moves (unloads none done ∷ trace) = begun-moves trace
begun-moves (unloads (some h) done ∷ trace) = ground (arith, begun-moves trace)
begun-moves (loads ∷ trace) = begun-moves trace
begun-moves (drops_cache ∷ trace) = begun-moves trace

logged-moves : (trace : List Effect) → logged (moves trace) ≡ logged trace
logged-moves [] = refl
logged-moves (logs e ∷ trace) = ground (arith, logged-moves trace)
logged-moves (unloads h done ∷ trace) = logged-moves trace
logged-moves (loads ∷ trace) = logged-moves trace
logged-moves (drops_cache ∷ trace) = logged-moves trace

Frame-Ledger : (now : ℕ) (r s : Run) → Frame now r s → Ledger r → Ledger s
Frame-Ledger now r s f l =
    ground
      (arith, begun-moves r.trace, begun-moves s.trace, logged-moves r.trace, logged-moves s.trace)

module _ (now : ℕ) (a : Answers) (r : Run) (clear : pending r.watcher.phase ≡ [])
    (l : Ledger r) where
  begin_yield-Ledger : (trigger : Trigger) → Ledger (begin_yield now trigger a r).1
  unfolding begin_yield
  begin_yield-Ledger trigger = ground arith

  unexpected-Ledger : (status : ModelStatus) → Ledger (unexpected now status a r).1
  unfolding unexpected
  unexpected-Ledger status = ground arith

  start_load-Ledger : (trigger : Trigger) → Ledger (start_load now trigger a r).1
  unfolding start_load
  start_load-Ledger trigger = ground arith

  while_resuming-Ledger :
      (status : ModelStatus) (trigger : Trigger) (q : Option ℕ) (started : ℕ)
      → Ledger (while_resuming now status trigger q started a r).1
  unfolding while_resuming load_fails unload
  while_resuming-Ledger status trigger q started = ground arith

  while_serving-Ledger : (since : ℕ) → Ledger (while_serving now since a r).1
  unfolding while_serving begin_yield
  while_serving-Ledger since = ground arith

while_yielding-Ledger :
    (now since : ℕ) (state : ModelState) (h : Option Handoff) (p : Bool) (a : Answers) (r : Run)
    → r.watcher.phase ≡ yielding since h p
    → Ledger r
    → Ledger (while_yielding now state h p a r).1
unfolding while_yielding
while_yielding-Ledger now since unloaded none p a r e l = grind (arith, start_load-Ledger)
while_yielding-Ledger now since unloaded (some h) p a r e l = grind (arith, start_load-Ledger)
while_yielding-Ledger now since loading h p a r e l = l
while_yielding-Ledger now since loaded h p a r e l = l

advance-Ledger :
    (now : ℕ) (status : ModelStatus) (p : Phase) (a : Answers) (r : Run)
    → r.watcher.phase ≡ p
    → Ledger r
    → Ledger (advance now status p a r).1
unfolding advance
advance-Ledger now status (serving since) a r e l = while_serving-Ledger now a r (rw e) l since
advance-Ledger now status (yielding since h p) a r e l =
    while_yielding-Ledger now since status.state h p a r e l
advance-Ledger now status yielded a r e l = elim (Bool-cases (may_load now r.watcher)) [
  | inl free ↦ rw free (start_load-Ledger now a r (rw e) l automatic)
  | inr kept ↦ rw kept l
]
advance-Ledger now status (resuming trigger q started) a r e l =
    while_resuming-Ledger now a r (rw e) l status trigger q started

-- A phase that does not expect the router's state waits for no unload.
clear_of_surprise : (p : Phase) (state : ModelState) → expects p state ≡ false → pending p ≡ []
unfolding expects
clear_of_surprise (serving since) state e = refl
clear_of_surprise (yielding since h pressed) state e = cc
clear_of_surprise yielded state e = refl
clear_of_surprise (resuming trigger q started) state e = cc

dispatch-Ledger :
    (now : ℕ) (status : ModelStatus) (a : Answers) (r : Run)
    → Ledger r
    → Ledger (dispatch now status a r).1
unfolding dispatch
dispatch-Ledger now status a r l = elim (Bool-cases (expects r.watcher.phase status.state)) [
  | inl e ↦ rw e (advance-Ledger now status r.watcher.phase a r refl l)
  | inr e ↦
      rw e (unexpected-Ledger now a r (clear_of_surprise r.watcher.phase status.state e) l status)
]

tick-Ledger : (now : ℕ) (a : Answers) (r : Run) → Ledger r → Ledger (tick now a r).1
tick-Ledger now a r l =
    tick_rule now Ledger a r surveyed
      λ status _ t g. Frame-Ledger now _ t g (dispatch-Ledger now status a _ surveyed)
  where
    surveyed : Ledger (survey now a r).1
    surveyed = Frame-Ledger now r _ (survey-Frame now a r) l

yield_now-Ledger : (now : ℕ) (a : Answers) (r : Run) → Ledger r → Ledger (yield_now now a r).1
unfolding yield_now begin_yield
yield_now-Ledger now a r l = ground arith

press_resume-Ledger :
    (now : ℕ) (p : Phase) (a : Answers) (r : Run)
    → r.watcher.phase ≡ p
    → Ledger r
    → Ledger (press_resume now p a r).1
unfolding press_resume
press_resume-Ledger now (serving since) a r e l = l
press_resume-Ledger now (yielding since h p) a r e l = ground arith
press_resume-Ledger now yielded a r e l = start_load-Ledger now a r (rw e) l button
press_resume-Ledger now (resuming trigger q started) a r e l = l

resume_now-Ledger : (now : ℕ) (a : Answers) (r : Run) → Ledger r → Ledger (resume_now now a r).1
unfolding resume_now
resume_now-Ledger now a r l = press_resume-Ledger now r.watcher.phase a _ refl l

after-Ledger : (c : Call) (r : Run) → Unit {0} → Ledger r → Ledger (after c r)
unfolding after
after-Ledger (ticks now a) r _ l = tick-Ledger now a r l
after-Ledger (presses_yield now a) r _ l = yield_now-Ledger now a r l
after-Ledger (presses_resume now a) r _ l = resume_now-Ledger now a r l

any_call : (cs : List Call) → All (λ (_ : Call). Unit {0}) cs
any_call [] = tt
any_call (c ∷ cs) = (tt, any_call cs)

-- A watcher that starts with no unload on its way logs each yield's record exactly once, in order:
-- after any calls, the records of the unloads that the router carried out for a yield are those in
-- the log, and before them the one that waits for the router to report the model gone.
pub play-Ledger :
    (w : Watcher) (cs : List Call)
    → pending w.phase ≡ []
    → let r = play cs (record { watcher = w; trace = [] }) in
      begun r.trace ≡ pending r.watcher.phase ++ logged r.trace
play-Ledger w cs clear =
    play_keeps Ledger (λ _. Unit {0}) after-Ledger cs (record { watcher = w; trace = [] })
      (any_call cs) (rw clear)

-- ===== src/Watcher/Loads.antt =====
-- When the watcher commands a load (llm/watcher/state.py: `_start_load` and its two callers in
-- `tick`), and what a button hold keeps away.
use podhaus.Watcher.Frame.{Frame, moves}
use podhaus.Watcher.Rules.{Respects}
use podhaus.Base.{
  ℕ, List, ◌≡◌, Bool, arith, Option, length, keep, true, false, ◌≤◌, suc, ◌∷◌, ap, [], ◌+◌, ◌⊎◌,
  refl, Bool-cases, inl, inr, some, none,
}
use podhaus.Watcher.Data.{
  Phase, LoadError, Trigger, ModelStatus, yielding, Reason, Handoff, Watcher, yielded, unloaded,
  automatic, ModelState, loading, loaded, serving, expects, resuming,
}
use podhaus.Watcher.Exec.{Run, Effect, loads, logs, unloads, drops_cache, Answers}
use podhaus.Watcher.Tick.{
  while_resuming, report, while_serving, may_load, while_yielding, while_yielded, dispatch, advance,
}
use podhaus.Watcher.Handoff.{begin_yield, unload, load_fails, unexpected, start_load}

abbrev pub is_load : Effect → Bool
is_load loads = true
is_load _ = false

-- How many loads the router has accepted.
abbrev pub loads_of : List Effect → ℕ
loads_of trace = length (keep is_load trace)

-- Resume was pressed while an unload was on its way.
abbrev pub is_pressed : Phase → Bool
is_pressed (yielding _ _ pressed) = pressed
is_pressed _ = false

-- No load, no change of the hold, and no new press of Resume.
pub record Calm (r s : Run) : Type 0 where
  pub settings : s.watcher.settings ≡ r.watcher.settings
  pub hold_until : s.watcher.hold_until ≡ r.watcher.hold_until
  pub same_loads : loads_of s.trace ≡ loads_of r.trace
  pub unpressed : is_pressed r.watcher.phase ≡ false → is_pressed s.watcher.phase ≡ false

Calm-trans : (r s t : Run) → Calm r s → Calm s t → Calm r t
Calm-trans r s t f g = ground arith

-- A load is a move.
loads_of-moves : (trace : List Effect) → loads_of (moves trace) ≡ loads_of trace
loads_of-moves [] = refl
loads_of-moves (logs e ∷ trace) = ground (arith, loads_of-moves trace)
loads_of-moves (unloads h done ∷ trace) = loads_of-moves trace
loads_of-moves (loads ∷ trace) = ap suc (loads_of-moves trace)
loads_of-moves (drops_cache ∷ trace) = loads_of-moves trace

pub Frame-Calm : (now : ℕ) (r s : Run) → Frame now r s → Calm r s
Frame-Calm now r s f = ground (arith, loads_of-moves r.trace, loads_of-moves s.trace)

begin_yield-Calm : (now : ℕ) (trigger : Trigger) → Respects Calm (begin_yield now trigger)
unfolding begin_yield
begin_yield-Calm now trigger = record { relates = λ a r. ground arith }

unload-Calm : (now : ℕ) (handoff : Option Handoff) → Respects Calm (unload now handoff)
unfolding unload
unload-Calm now handoff = record { relates = λ a r. ground arith }

load_fails-Calm : (now : ℕ) (error : LoadError) → Respects Calm (load_fails now error)
unfolding load_fails
load_fails-Calm now error = record { relates = λ a r. ground arith }

unexpected-Calm : (now : ℕ) (status : ModelStatus) → Respects Calm (unexpected now status)
unfolding unexpected
unexpected-Calm now status = record { relates = λ a r. ground arith }

while_serving-Calm : (now since : ℕ) → Respects Calm (while_serving now since)
unfolding while_serving begin_yield
while_serving-Calm now since = record { relates = λ a r. ground arith }

while_resuming-Calm :
    (now : ℕ) (status : ModelStatus) (trigger : Trigger) (q : Option ℕ) (started : ℕ)
    → Respects Calm (while_resuming now status trigger q started)
unfolding while_resuming load_fails unload
while_resuming-Calm now status trigger q started = record { relates = λ a r. ground arith }

report-Calm : (reason : Option Reason) → Respects Calm (report reason)
unfolding report
report-Calm reason = record { relates = λ a r. ground arith }

-- At most one load, and no change of the hold.
pub record OneLoad (r s : Run) : Type 0 where
  pub hold_until : s.watcher.hold_until ≡ r.watcher.hold_until
  pub one_load : loads_of s.trace ≤ loads_of r.trace + 1

start_load-OneLoad :
    (now : ℕ) (trigger : Trigger) (a : Answers) (r : Run) → OneLoad r (start_load now trigger a r).1
unfolding start_load
start_load-OneLoad now trigger a r = ground arith

-- Why a load was commanded: the watcher was free to load, or Resume was pressed before the model
-- was gone.
pub data MayLoad (now : ℕ) (state : ModelState) (w : Watcher) : Type 0 where
  free : w.phase ≡ yielded → may_load now w ≡ true → MayLoad now state w
  pressed : is_pressed w.phase ≡ true → state ≡ unloaded → MayLoad now state w

-- What a dispatch does about loads: none, or one that was due.
abbrev pub LoadsDuly : ℕ → ModelState → Run → Run → Type 0
LoadsDuly now state r s = Calm r s ⊎ (MayLoad now state r.watcher × OneLoad r s)

while_yielded-LoadsDuly :
    (now : ℕ) (state : ModelState) (a : Answers) (r : Run)
    → r.watcher.phase ≡ yielded
    → LoadsDuly now state r (while_yielded now a r).1
unfolding while_yielded
while_yielded-LoadsDuly now state a r e = elim (Bool-cases (may_load now r.watcher)) [
  | inl can ↦ inr (free e can, ground (arith, start_load-OneLoad now automatic a r))
  | inr cannot ↦ inl (ground arith)
]

while_yielding-LoadsDuly :
    (now since : ℕ) (state : ModelState) (h : Option Handoff) (p : Bool) (a : Answers) (r : Run)
    → r.watcher.phase ≡ yielding since h p
    → LoadsDuly now state r (while_yielding now state h p a r).1
unfolding while_yielding
while_yielding-LoadsDuly now since unloaded h false a r e = inl (ground arith)
while_yielding-LoadsDuly now since unloaded none true a r e =
    inr (pressed (ground arith) refl, grind (arith, start_load-OneLoad))
while_yielding-LoadsDuly now since unloaded (some h) true a r e =
    inr (pressed (ground arith) refl, grind (arith, start_load-OneLoad))
while_yielding-LoadsDuly now since loading h p a r e = inl (ground arith)
while_yielding-LoadsDuly now since loaded h p a r e = inl (ground arith)

advance-LoadsDuly :
    (now : ℕ) (status : ModelStatus) (p : Phase) (a : Answers) (r : Run)
    → r.watcher.phase ≡ p
    → LoadsDuly now status.state r (advance now status p a r).1
unfolding advance
advance-LoadsDuly now status (serving since) a r e =
    inl ((while_serving-Calm now since).relates a r)
advance-LoadsDuly now status (yielding since h p) a r e =
    while_yielding-LoadsDuly now since status.state h p a r e
advance-LoadsDuly now status yielded a r e = while_yielded-LoadsDuly now status.state a r e
advance-LoadsDuly now status (resuming trigger q started) a r e =
    inl ((while_resuming-Calm now status trigger q started).relates a r)

pub dispatch-LoadsDuly :
    (now : ℕ) (status : ModelStatus) (a : Answers) (r : Run)
    → LoadsDuly now status.state r (dispatch now status a r).1
unfolding dispatch
dispatch-LoadsDuly now status a r = elim (Bool-cases (expects r.watcher.phase status.state)) [
  | inl e ↦ rw e (advance-LoadsDuly now status r.watcher.phase a r refl)
  | inr e ↦ rw e (inl ((unexpected-Calm now status).relates a r))
]

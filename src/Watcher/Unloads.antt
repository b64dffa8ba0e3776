-- ===== src/Watcher/Unloads.antt =====
-- Why a tick ends the model process (llm/watcher/state.py: `_unload` and what leads to it).
use podhaus.Watcher.Frame.{moves, Frame, survey-Frame, tick_rule}
use podhaus.Watcher.Loads.{is_pressed}
use podhaus.Watcher.Sampling.{keeping_away}
use podhaus.Watcher.Data.{
  expects, ModelState, Watcher, ModelStatus, Handoff, is_serving, Trigger, yielded, loaded,
  yielding, serving, resuming, unloaded, is_yielded, loading, state_eq, button, GuestMemory, Phase,
  handoff_yield, used_mib,
}
use podhaus.Watcher.Handoff.{unexpected, start_load, load_fails, begin_yield, unload}
use podhaus.Watcher.Exec.{
  Effect, Answers, Run, unloads, ok, Result, raised, logs, loads, drops_cache,
}
use podhaus.Base.{
  ℕ, List, length, Bool, Option, keep, ◌≡◌, true, ◌⊎◌, false, inl, ◌≤◌, Bool-cases, ◌≢◌, ltb, ◌+◌,
  inr, ◌&&◌, arith, refl, ◌<◌, some, ap, ◌∷◌, ◌∙◌, none, suc, [],
}
use podhaus.Watcher.Tick.{
  while_resuming, while_serving, while_yielded, while_yielding, may_load, is_wanted, survey,
  advance, tick, dispatch,
}

abbrev pub is_unload : Effect → Bool
is_unload (unloads _ _) = true
is_unload _ = false

-- How many unloads the router has answered.
abbrev pub unloads_of : List Effect → ℕ
unloads_of trace = length (keep is_unload trace)

-- What the watcher, after its survey, and the router's answers must be.
abbrev pub UnloadDue : ℕ → Answers → ModelState → Watcher → Type 0
UnloadDue now a state w =
    ((is_serving w.phase ≡ true) × (state ≡ loaded) × (is_wanted w ≡ true))
    ⊎ ((w.phase ≡ yielded) × (state ≢ unloaded) × (keeping_away now w ≡ true))
    ⊎ ((is_pressed w.phase ≡ true)
        × (state ≡ unloaded)
        × (keeping_away now w ≡ true)
        × (status : ModelStatus) × (a.status_again ≡ ok status)
        × (status.state ≢ unloaded))
    ⊎ ((trigger : Trigger) × (q : Option ℕ) × (started : ℕ) × (w.phase ≡ resuming trigger q started)
        × (state ≡ loading)
        × (started + w.settings.load_timeout < now))

-- What a dispatch does about unloads: none, or one that was due.
abbrev pub UnloadsDuly : ℕ → Answers → ModelState → Run → Run → Type 0
UnloadsDuly now a state r s =
    (unloads_of s.trace ≡ unloads_of r.trace)
    ⊎ (UnloadDue now a state r.watcher × (unloads_of s.trace ≤ unloads_of r.trace + 1))

while_serving-UnloadsDuly :
    (now since : ℕ) (status : ModelStatus) (a : Answers) (r : Run)
    → r.watcher.phase ≡ serving since
    → status.state ≡ loaded
    → UnloadsDuly now a status.state r (while_serving now since a r).1
unfolding while_serving begin_yield
while_serving-UnloadsDuly now since status a r e l = elim (Bool-cases (is_wanted r.watcher)) [
  | inl wanted ↦ inr (inl (ground arith, l, wanted), ground arith)
  | inr calm ↦ inl ground arith
]

while_yielded-UnloadsDuly :
    (now : ℕ) (status : ModelStatus) (a : Answers) (r : Run)
    → r.watcher.phase ≡ yielded
    → UnloadsDuly now a status.state r (while_yielded now a r).1
unfolding while_yielded start_load keeping_away may_load
while_yielded-UnloadsDuly now status a r e = inl ground arith

-- A refused load turns into an unload only if the model is kept away.
Evicts : ℕ → Answers → Run → Run → Type 0
Evicts now a r s =
    (keeping_away now r.watcher ≡ true)
    × (status : ModelStatus) × (a.status_again ≡ ok status)
    × (status.state ≢ unloaded)
    × (unloads_of s.trace ≤ unloads_of r.trace + 1)

start_load-Evicts :
    (now : ℕ) (trigger : Trigger) (a : Answers) (r : Run)
    → r.watcher.phase ≡ yielded
    → (unloads_of (start_load now trigger a r).1.trace ≡ unloads_of r.trace)
      ⊎ Evicts now a r (start_load now trigger a r).1
unfolding start_load Evicts
start_load-Evicts now trigger a r e = go a.status_again refl
  where
    go :
        (x : Result ModelStatus)
        → a.status_again ≡ x
        → (unloads_of (start_load now trigger a r).1.trace ≡ unloads_of r.trace)
          ⊎ Evicts now a r (start_load now trigger a r).1
    go (raised f) again = inl (ground arith)
    go (ok status) again = elim (Bool-cases (keeping_away now r.watcher)) [
      | inl away ↦ elim (Bool-cases (state_eq status.state unloaded)) [
        | inl gone ↦ inl (ground arith)
        | inr there ↦ inr (away, status, again, ground arith, ground arith)
      ]
      | inr free ↦ inl (ground arith)
    ]

-- The load that Resume asked for, once the model is gone.
resumed-UnloadsDuly :
    (now since : ℕ) (h : Option Handoff) (a : Answers) (r t : Run)
    → r.watcher.phase ≡ yielding since h true
    → t.watcher ≡ record r.watcher { phase = yielded }
    → unloads_of t.trace ≡ unloads_of r.trace
    → UnloadsDuly now a unloaded r (start_load now button a t).1
unfolding Evicts keeping_away
resumed-UnloadsDuly now since h a r t e w u =
    elim (start_load-Evicts now button a t (ap (λ x. x.phase) w)) [
      | inl same ↦ inl (same ∙ u)
      | inr (away, status, again, there, few) ↦ inr (
        inr (inr (inl (ground arith, refl, ground arith, status, again, there))),
        omega (arith, few, u),
      )
    ]

while_yielding-UnloadsDuly :
    (now since : ℕ) (state : ModelState) (h : Option Handoff) (p : Bool) (a : Answers) (r : Run)
    → r.watcher.phase ≡ yielding since h p
    → UnloadsDuly now a state r (while_yielding now state h p a r).1
unfolding while_yielding
while_yielding-UnloadsDuly now since unloaded none false a r e = inl (ground arith)
while_yielding-UnloadsDuly now since unloaded (some h) false a r e = inl (ground arith)
while_yielding-UnloadsDuly now since unloaded none true a r e =
    resumed-UnloadsDuly now since none a r _ e refl refl
while_yielding-UnloadsDuly now since unloaded (some h) true a r e = go a.memory_after refl
  where
    go :
        (x : Result GuestMemory)
        → a.memory_after ≡ x
        → UnloadsDuly now a unloaded r (while_yielding now unloaded (some h) true a r).1
    go (ok m) read = ground (
      arith,
      resumed-UnloadsDuly now since (some h) a r
          (record {
            watcher = record r.watcher { phase = yielded };
            trace = logs (handoff_yield h now (used_mib m)) ∷ r.trace;
          })
          e refl refl,
    )
    go (raised f) read = inl (ground arith)
while_yielding-UnloadsDuly now since loading h p a r e = inl refl
while_yielding-UnloadsDuly now since loaded h p a r e = inl refl

while_resuming-UnloadsDuly :
    (now : ℕ) (status : ModelStatus) (trigger : Trigger) (q : Option ℕ) (started : ℕ) (a : Answers)
    (r : Run)
    → r.watcher.phase ≡ resuming trigger q started
    → UnloadsDuly now a status.state r (while_resuming now status trigger q started a r).1
unfolding while_resuming load_fails unload
while_resuming-UnloadsDuly now status trigger q started a r e =
    elim (Bool-cases (ltb (started + r.watcher.settings.load_timeout) now)) [
      | inl late ↦ elim (Bool-cases (state_eq status.state loading)) [
        | inl is_loading ↦
            inr (inr (inr (inr (trigger, q, started, e, ground arith, ground arith))), ground arith)
        | inr other ↦ inl (ground arith)
      ]
      | inr early ↦ inl (ground arith)
    ]

unexpected-UnloadsDuly :
    (now : ℕ) (status : ModelStatus) (a : Answers) (r : Run)
    → expects r.watcher.phase status.state ≡ false
    → UnloadsDuly now a status.state r (unexpected now status a r).1
unfolding unexpected expects
unexpected-UnloadsDuly now status a r e =
    elim (Bool-cases (is_yielded r.watcher.phase && keeping_away now r.watcher)) [
      | inl evicts ↦ inr (inr (inl (ground arith, ground arith, ground arith)), ground arith)
      | inr adopts ↦ inl (ground arith)
    ]

advance-UnloadsDuly :
    (now : ℕ) (status : ModelStatus) (p : Phase) (a : Answers) (r : Run)
    → r.watcher.phase ≡ p
    → expects p status.state ≡ true
    → UnloadsDuly now a status.state r (advance now status p a r).1
unfolding advance expects
advance-UnloadsDuly now status (serving since) a r e x =
    while_serving-UnloadsDuly now since status a r e (ground arith)
advance-UnloadsDuly now status (yielding since h p) a r e x =
    while_yielding-UnloadsDuly now since status.state h p a r e
advance-UnloadsDuly now status yielded a r e x = while_yielded-UnloadsDuly now status a r e
advance-UnloadsDuly now status (resuming trigger q started) a r e x =
    while_resuming-UnloadsDuly now status trigger q started a r e

dispatch-UnloadsDuly :
    (now : ℕ) (status : ModelStatus) (a : Answers) (r : Run)
    → UnloadsDuly now a status.state r (dispatch now status a r).1
unfolding dispatch
dispatch-UnloadsDuly now status a r = elim (Bool-cases (expects r.watcher.phase status.state)) [
  | inl e ↦ rw e (advance-UnloadsDuly now status r.watcher.phase a r refl e)
  | inr e ↦ rw e (unexpected-UnloadsDuly now status a r e)
]

unloads_of-moves : (trace : List Effect) → unloads_of (moves trace) ≡ unloads_of trace
unloads_of-moves [] = refl
unloads_of-moves (logs e ∷ trace) = ground (arith, unloads_of-moves trace)
unloads_of-moves (unloads h done ∷ trace) = ap suc (unloads_of-moves trace)
unloads_of-moves (loads ∷ trace) = unloads_of-moves trace
unloads_of-moves (drops_cache ∷ trace) = unloads_of-moves trace

unloads_of-Frame : (now : ℕ) (r s : Run) → Frame now r s → unloads_of s.trace ≡ unloads_of r.trace
unloads_of-Frame now r s f = ground (arith, unloads_of-moves r.trace, unloads_of-moves s.trace)

-- No unload in this tick, or one that was due for the state that the survey left and the router's
-- state.
abbrev pub UnloadsWhenDue : ℕ → Answers → Run → Run → Type 0
UnloadsWhenDue now a r t =
    (unloads_of t.trace ≡ unloads_of r.trace)
    ⊎ ((status : ModelStatus) × (a.status ≡ ok status)
        × UnloadDue now a status.state (survey now a r).1.watcher
        × (unloads_of t.trace ≤ unloads_of r.trace + 1))

after_dispatch :
    (now : ℕ) (a : Answers) (r t : Run) (status : ModelStatus)
    → a.status ≡ ok status
    → Frame now (dispatch now status a (survey now a r).1).1 t
    → UnloadsWhenDue now a r t
after_dispatch now a r t status e g = elim (dispatch-UnloadsDuly now status a (survey now a r).1) [
  | inl same ↦ inl (omega (arith, same, before, later))
  | inr (due, few) ↦ inr (status, e, due, omega (arith, few, before, later))
]
  where
    before : unloads_of (survey now a r).1.trace ≡ unloads_of r.trace
    before = unloads_of-Frame now r _ (survey-Frame now a r)

    later : unloads_of t.trace ≡ unloads_of (dispatch now status a (survey now a r).1).1.trace
    later = unloads_of-Frame now _ t g

-- A tick ends the model process only for a reason, and asks at most once: the samples of a serving,
-- loaded model show enough activity; something else brought the model back while it is kept away;
-- the load that Resume asked for was refused because the model was already coming back, and it is
-- kept away; or a load has run past its limit.
pub tick-UnloadsWhenDue :
    (now : ℕ) (a : Answers) (r : Run) → UnloadsWhenDue now a r (tick now a r).1
tick-UnloadsWhenDue now a r =
    tick_rule now (UnloadsWhenDue now a r) a r
      (inl (unloads_of-Frame now r _ (survey-Frame now a r)))
      λ status e t. after_dispatch now a r t status e

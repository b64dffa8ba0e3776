-- ===== src/Watcher/Calls.antt =====
-- The calls that reach a watcher, one after another since each takes the lock: the ticks of
-- llm/watcher/__main__.py and the buttons of llm/watcher/web.py. An exception out of a tick ends the
-- process; one out of a button's handler ends only that request.
use podhaus.Watcher.Tick.{tick, yield_now, resume_now}
use podhaus.Watcher.Exec.{Result, Run, Answers, ok, raised}
use podhaus.Base.{Bool, List, ℕ, ◌∷◌, All, ⊤, true, false, if◌then◌else◌, Bool-cases, [], inl, inr}

pub data Call : Type 0 where
  ticks : (now : ℕ) (answers : Answers) → Call
  presses_yield : (now : ℕ) (answers : Answers) → Call
  presses_resume : (now : ℕ) (answers : Answers) → Call

abbrev pub time_of : Call → ℕ
time_of (ticks now _) = now
time_of (presses_yield now _) = now
time_of (presses_resume now _) = now

abbrev pub is_resume : Call → Bool
is_resume (presses_resume _ _) = true
is_resume _ = false

unfoldable pub after : Call → Run → Run
after (ticks now a) r = (tick now a r).1
after (presses_yield now a) r = (yield_now now a r).1
after (presses_resume now a) r = (resume_now now a r).1

abbrev has_raised : Result ⊤ → Bool
has_raised (ok _) = false
has_raised (raised _) = true

-- Whether the process ends with the call.
unfoldable pub is_last : Call → Run → Bool
is_last (ticks now a) r = has_raised (tick now a r).0
is_last (presses_yield _ _) r = false
is_last (presses_resume _ _) r = false

unfoldable pub play : List Call → Run → Run
play [] r = r
play (c ∷ cs) r = let rest = play cs (after c r) in if is_last c r then after c r else rest

-- What every call keeps holds after all of them.
pub play_keeps :
    (P : Run → Type 0) (may : Call → Type 0)
    → ((c : Call) (r : Run) → may c → P r → P (after c r))
    → (cs : List Call) (r : Run) → All may cs
    → P r
    → P (play cs r)
unfolding play
play_keeps P may keep [] r ok_calls p = p
play_keeps P may keep (c ∷ cs) r ok_calls p = elim (Bool-cases (is_last c r)) [
  | inl e ↦ rw e (keep c r ok_calls.0 p)
  | inr e ↦ rw e (play_keeps P may keep cs (after c r) ok_calls.1 (keep c r ok_calls.0 p))
]

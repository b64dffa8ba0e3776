-- ===== src/Watcher/Progress.antt =====
-- Each tick moves the handoff on when the outside answers (llm/watcher/state.py, "Transition" 1 to
-- 4): a game takes the GPU, the router reports the model gone, the quiet period passes, and the model
-- is ready again.
use podhaus.Watcher.Frame.{survey-Frame, answered_rule}
use podhaus.Watcher.Handoff.{begin_yield, handoff_of, start_load}
use podhaus.Base.{Option, List, ℕ, ◌≡◌, true, some, false, arith, none, ◌∙◌}
use podhaus.Watcher.Sampling.{read_slots, observe, note_router_state, quiet_since}
use podhaus.Watcher.Data.{
  ModelStatus, expects, GpuReading, Slot, GuestMemory, serving, loaded, yielding, automatic,
  used_mib, Handoff, Trigger, resuming, yielded, unloaded, Phase,
}
use podhaus.Watcher.Exec.{Answers, Run, ok, accepted}
use podhaus.Watcher.Tick.{
  dispatch, survey, advance, while_serving, is_wanted, while_yielded, while_yielding,
  while_resuming, may_load, tick,
}

-- Every answer that a survey may read is given; `status` is the router's.
pub record Answered (a : Answers) (status : ModelStatus) : Type 0 where
  pub reading : GpuReading
  pub slots : Option (List Slot)
  pub reading_ok : a.reading ≡ ok reading
  pub status_ok : a.status ≡ ok status
  pub slots_ok : a.slots ≡ ok slots
  pub cache_ok : a.cache_drop ≡ ok tt

survey-ok :
    (now : ℕ) (a : Answers) (r : Run) (status : ModelStatus)
    → Answered a status
    → (survey now a r).0 ≡ ok status
unfolding survey read_slots observe note_router_state
survey-ok now a r status h = ground arith

-- Transition 1: a loaded model that serves yields once the samples of the survey show enough
-- activity; the record says when, and what the watcher knew.
serving_dispatch :
    (now since : ℕ) (a : Answers) (s : Run) (status : ModelStatus) (m : GuestMemory)
    → s.watcher.phase ≡ serving since
    → status.state ≡ loaded
    → is_wanted s.watcher ≡ true
    → a.memory_before ≡ ok m
    → a.unload ≡ ok true
    → (dispatch now status a s).1.watcher.phase
      ≡ yielding now (some (handoff_of now automatic (used_mib m) s.watcher)) false
unfolding dispatch expects advance while_serving begin_yield
serving_dispatch now since a s status m e l wanted mem done = ground arith

-- Transition 2.
yielding_dispatch :
    (now since : ℕ) (h : Option Handoff) (a : Answers) (s : Run) (status : ModelStatus)
    (m : GuestMemory)
    → s.watcher.phase ≡ yielding since h false
    → status.state ≡ unloaded
    → a.memory_after ≡ ok m
    → (dispatch now status a s).1.watcher.phase ≡ yielded
unfolding dispatch expects advance while_yielding
yielding_dispatch now since none a s status m e l mem = ground arith
yielding_dispatch now since (some h) a s status m e l mem = ground arith

-- Transition 3.
yielded_dispatch :
    (now : ℕ) (a : Answers) (s : Run) (status : ModelStatus)
    → s.watcher.phase ≡ yielded
    → status.state ≡ unloaded
    → may_load now s.watcher ≡ true
    → a.load ≡ accepted
    → (dispatch now status a s).1.watcher.phase
      ≡ resuming automatic (some (quiet_since s.watcher)) now
unfolding dispatch expects advance while_yielded start_load
yielded_dispatch now a s status e l free loads = ground arith

-- Transition 4.
resuming_dispatch :
    (now started : ℕ) (trigger : Trigger) (q : Option ℕ) (a : Answers) (s : Run)
    (status : ModelStatus)
    → s.watcher.phase ≡ resuming trigger q started
    → status.state ≡ loaded
    → (dispatch now status a s).1.watcher.phase ≡ serving now
unfolding dispatch expects advance while_resuming
resuming_dispatch now started trigger q a s status e l = ground arith

abbrev pub phase_after : ℕ → Answers → Run → Phase
phase_after now a r = (tick now a r).1.watcher.phase

-- A dispatch that ends in a phase makes the tick end in it.
pub phase_rule :
    (now : ℕ) (a : Answers) (r : Run) (status : ModelStatus) (p : Phase)
    → Answered a status
    → (dispatch now status a (survey now a r).1).1.watcher.phase ≡ p
    → phase_after now a r ≡ p
phase_rule now a r status p h e =
    answered_rule now (λ t. t.watcher.phase ≡ p) a r status (survey-ok now a r status h)
      λ t g. g.phase ∙ e

pub surveyed_phase :
    (now : ℕ) (a : Answers) (r : Run) {p : Phase}
    → r.watcher.phase ≡ p
    → (survey now a r).1.watcher.phase ≡ p
surveyed_phase now a r e = (survey-Frame now a r).phase ∙ e

pub tick-yields :
    (now since : ℕ) (a : Answers) (r : Run) (status : ModelStatus) (m : GuestMemory)
    → Answered a status
    → r.watcher.phase ≡ serving since
    → status.state ≡ loaded
    → is_wanted (survey now a r).1.watcher ≡ true
    → a.memory_before ≡ ok m
    → a.unload ≡ ok true
    → (tick now a r).1.watcher.phase
      ≡ yielding now (some (handoff_of now automatic (used_mib m) (survey now a r).1.watcher)) false
tick-yields now since a r status m h e l wanted mem done =
    phase_rule now a r status _ h
      (serving_dispatch now since a _ status m (surveyed_phase now a r e) l wanted mem done)

-- What the outside does in the three ticks that bring the model back.
pub record Recovery (n₁ n₂ n₃ : ℕ) (a₁ a₂ a₃ : Answers) (r : Run) : Type 0 where
  pub gone : ModelStatus
  pub still_gone : ModelStatus
  pub back : ModelStatus
  pub memory : GuestMemory
  pub answered₁ : Answered a₁ gone
  pub answered₂ : Answered a₂ still_gone
  pub answered₃ : Answered a₃ back
  pub is_gone : gone.state ≡ unloaded
  pub is_still_gone : still_gone.state ≡ unloaded
  pub is_back : back.state ≡ loaded
  pub memory_ok : a₁.memory_after ≡ ok memory
  pub is_free : may_load n₂ (survey n₂ a₂ (tick n₁ a₁ r).1).1.watcher ≡ true
  pub load_ok : a₂.load ≡ accepted

-- After a yield the model comes back in three ticks: one that finds it gone, one that finds the GPU
-- free to take, and one that finds it loaded.
pub tick-returns :
    (n₁ n₂ n₃ since : ℕ) (record_of : Option Handoff) (a₁ a₂ a₃ : Answers) (r : Run)
    → r.watcher.phase ≡ yielding since record_of false
    → Recovery n₁ n₂ n₃ a₁ a₂ a₃ r
    → (tick n₃ a₃ (tick n₂ a₂ (tick n₁ a₁ r).1).1).1.watcher.phase ≡ serving n₃
tick-returns n₁ n₂ n₃ since record_of a₁ a₂ a₃ r e h =
    phase_rule n₃ a₃ _ h.back _ h.answered₃ (
      resuming_dispatch n₃ n₂ automatic _ a₃ _ h.back (surveyed_phase n₃ a₃ _ loading_now)
        h.is_back)
  where
    away : (tick n₁ a₁ r).1.watcher.phase ≡ yielded
    away = phase_rule n₁ a₁ r h.gone _ h.answered₁ (
        yielding_dispatch n₁ since record_of a₁ _ h.gone h.memory (surveyed_phase n₁ a₁ r e)
          h.is_gone h.memory_ok)

    loading_now :
        (tick n₂ a₂ (tick n₁ a₁ r).1).1.watcher.phase
        ≡ resuming automatic (some (quiet_since (survey n₂ a₂ (tick n₁ a₁ r).1).1.watcher)) n₂
    loading_now = phase_rule n₂ a₂ _ h.still_gone _ h.answered₂ (
        yielded_dispatch n₂ a₂ _ h.still_gone (surveyed_phase n₂ a₂ _ away) h.is_still_gone
          h.is_free h.load_ok)

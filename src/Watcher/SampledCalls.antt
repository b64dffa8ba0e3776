-- ===== src/Watcher/SampledCalls.antt =====
-- The invariant of the samples after any calls whose clock does not run backwards, and what a
-- yield's record may then rest on (llm/watcher/state.py: `_busy_before`).
use podhaus.Watcher.Lifecycle.{new}
use podhaus.Watcher.Calls.{
  after, play, Call, time_of, ticks, presses_yield, is_last, presses_resume,
}
use podhaus.Watcher.Rules.{Respects, bind_rule}
use podhaus.Watcher.Sampling.{observe, take_sample, busy_before, busy_report}
use podhaus.Watcher.Sampled.{IsSampled, take_sample-IsSampled, IsStretch}
use podhaus.Watcher.SameSamples.{
  SameSamples, ask-Same, dispatch-Same, pure-Same, note_slots-Same, gets-Same, read_slots-Same,
  report-Same, note_router_state-Same, yield_now-Same, resume_now-Same,
}
use podhaus.Watcher.Data.{GpuReading, Settings, Phase, Watcher, Slot}
use podhaus.Watcher.Exec.{Exec, Run, modify}
use podhaus.Watcher.Tick.{survey, tick}
use podhaus.Base.{
  ℕ, Bool, ◌≤◌, List, Option, arith, ◌∷◌, [], is_some, Bool-cases, ◌≡◌, true, inl, inr, none, some,
  refl,
}

-- The invariant, with no sample after `now`.
pub record SampledBy (now : ℕ) (r : Run) : Type 0 where
  pub sampled : IsSampled r.watcher
  pub past : r.watcher.sampled_at ≤ now

KeepsSampled : ℕ → Run → Run → Type 0
KeepsSampled now r s = SampledBy now r → SampledBy now s

SameSamples-SampledBy : (now : ℕ) (r s : Run) → SameSamples r s → SampledBy now r → SampledBy now s
SameSamples-SampledBy now r s same h = record {
  sampled = record {
    in_order = rw (same.sampled_at, same.samples) h.sampled.in_order;
    fresh = rw (same.sampled_at, same.samples) h.sampled.fresh;
    stretch = rw (same.busy_since, same.busy_until, same.sampled_at) h.sampled.stretch;
    began = rw (same.samples, same.busy_since) h.sampled.began;
    active = rw (same.last_active_at, same.sampled_at) h.sampled.active;
  };
  past = rw same.sampled_at h.past;
}

module _ (now : ℕ) where
  Keeps-trans : (r s t : Run) → KeepsSampled now r s → KeepsSampled now s t → KeepsSampled now r t
  unfolding KeepsSampled
  Keeps-trans r s t f g h = g (f h)

  Same-Keeps : {A : Type 0} {m : Exec A} → Respects SameSamples m → Respects (KeepsSampled now) m
  unfolding KeepsSampled
  Same-Keeps same = record { relates = λ a r. SameSamples-SampledBy now r _ (same.relates a r) }

  sample-Keeps :
      (reading : GpuReading) (busy : Bool)
      → Respects (KeepsSampled now) (modify (take_sample now reading busy))
  unfolding KeepsSampled take_sample
  sample-Keeps reading busy = record {
    relates = λ a r h. record {
      sampled = take_sample-IsSampled now reading busy r.watcher h.past h.sampled;
      past = omega arith;
    };
  }

  observe-Keeps :
      (reading : GpuReading) (slots : Option (List Slot))
      → Respects (KeepsSampled now) (observe now reading slots)
  unfolding observe
  observe-Keeps reading slots =
      bind_rule (KeepsSampled now) Keeps-trans (sample-Keeps reading (busy_report slots))
        (λ _. Same-Keeps (note_slots-Same slots))

  survey-Keeps : Respects (KeepsSampled now) (survey now)
  unfolding survey
  survey-Keeps =
      search
        (
          bind_rule (KeepsSampled now) Keeps-trans,
          observe-Keeps,
          Same-Keeps,
          ask-Same,
          pure-Same,
          read_slots-Same,
          note_router_state-Same,
        )
        depth 12

  tick-Keeps : Respects (KeepsSampled now) (tick now)
  unfolding tick
  tick-Keeps =
      search
        (
          bind_rule (KeepsSampled now) Keeps-trans,
          survey-Keeps,
          Same-Keeps,
          dispatch-Same,
          gets-Same,
          report-Same,
        )
        depth 9

after-Keeps : (c : Call) (r : Run) → SampledBy (time_of c) r → SampledBy (time_of c) (after c r)
unfolding after KeepsSampled
after-Keeps (ticks now a) r h = (tick-Keeps now).relates a r h
after-Keeps (presses_yield now a) r h =
    SameSamples-SampledBy now r _ ((yield_now-Same now).relates a r) h
after-Keeps (presses_resume now a) r h =
    SameSamples-SampledBy now r _ ((resume_now-Same now).relates a r) h

-- The calls' clock begins at `now` or later and never runs backwards.
abbrev pub InOrder : ℕ → List Call → Type 0
InOrder now [] = Unit
InOrder now (c ∷ cs) = (now ≤ time_of c) × InOrder (time_of c) cs

play_from :
    (now : ℕ) (cs : List Call) (r : Run)
    → InOrder now cs
    → SampledBy now r
    → IsSampled (play cs r).watcher
unfolding play
play_from now [] r order h = h.sampled
play_from now (c ∷ cs) r order h = elim (Bool-cases (is_last c r)) [
  | inl e ↦ rw e next.sampled
  | inr e ↦ rw e (play_from (time_of c) cs (after c r) order.1 next)
]
  where
    next : SampledBy (time_of c) (after c r)
    next = after-Keeps c r (record { sampled = h.sampled; past = omega (arith, order.0, h.past) })

busy_before-is_some : (now : ℕ) (w : Watcher) → IsSampled w → is_some (busy_before now w) ≡ true
unfolding busy_before
busy_before-is_some now w h = go w.busy_since w.busy_until h.stretch refl refl
  where
    go :
        (s u : Option ℕ)
        → IsStretch s u w.sampled_at
        → w.busy_since ≡ s
        → w.busy_until ≡ u
        → is_some (busy_before now w) ≡ true
    go none none x es eu = ground arith
    go (some s) (some u) x es eu = ground arith
    go none (some u) x es eu = absurd x
    go (some s) none x es eu = absurd x

new-IsSampled : (s : Settings) (p : Phase) (g : GpuReading) (now : ℕ) → IsSampled (new s p g now)
unfolding new
new-IsSampled s p g now = ground arith

new_past : (s : Settings) (p : Phase) (g : GpuReading) (now : ℕ) → (new s p g now).sampled_at ≤ now
unfolding new
new_past s p g now = omega arith

-- After any calls of a new watcher whose clock does not run backwards, the samples are in the order
-- of their times and all younger than 30 seconds when the newest was taken, the busy stretch and
-- the last activity do not lie after it, and the busy time that a yield would record is finite.
pub play-IsSampled :
    (s : Settings) (p : Phase) (g : GpuReading) (now later : ℕ) (cs : List Call)
    → InOrder now cs
    → let w = (play cs (record { watcher = new s p g now; trace = [] })).watcher in
      IsSampled w × (is_some (busy_before later w) ≡ true)
play-IsSampled s p g now later cs order = (sampled, busy_before-is_some later _ sampled)
  where
    sampled : IsSampled (play cs (record { watcher = new s p g now; trace = [] })).watcher
    sampled =
        play_from now cs _ order
          (record { sampled = new-IsSampled s p g now; past = new_past s p g now })

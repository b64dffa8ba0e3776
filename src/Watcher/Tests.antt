-- ===== src/Watcher/Tests.antt =====
-- Runs of the watcher (llm/watcher) on concrete readings, and each result at one of them.
use podhaus.Watcher.Fixtures.{
  guest, settings, ready, start, quiet_away, game_sample, status_of, idle_gpu, game_gpu, gamed,
  slot,
}
use podhaus.Watcher.Buttons.{YieldMoves, yield_now-moves, resume-reloads}
use podhaus.Watcher.SampledCalls.{play-IsSampled}
use podhaus.Watcher.Hold.{play-hold}
use podhaus.Watcher.Sampled.{IsSampled}
use podhaus.Watcher.Activity.{IsGame, activity_counts}
use podhaus.Watcher.TickLoads.{LoadsWhenDue, tick-LoadsWhenDue}
use podhaus.Watcher.Progress.{Answered, tick-returns, tick-yields, Recovery}
use podhaus.Watcher.Ledger.{begun, pending, logged, play-Ledger}
use podhaus.Watcher.Handoff.{handoff_of, start_load, begin_yield}
use podhaus.Watcher.Frame.{moves}
use podhaus.Watcher.Sampling.{
  read_slots, observe, activity, note_router_state, busy_before, quiet_since,
}
use podhaus.Watcher.Loads.{loads_of}
use podhaus.Watcher.Waiting.{FindsAway, Still, tick-blind, play-given_up}
use podhaus.Watcher.Unloads.{UnloadsWhenDue, tick-UnloadsWhenDue}
use podhaus.Watcher.Tick.{
  survey, tick, report, resume_now, yield_now, is_wanted, advance, while_yielded, while_yielding,
  while_serving, unhealthy_reason, may_load, press_resume,
}
use podhaus.Watcher.Lifecycle.{new, health}
use podhaus.Base.{
  List, All, is_some, false, ◌∷◌, ◌≡◌, [], arith, none, true, some, ◌++◌, ◌+◌, max, refl, ◌≤◌,
  length,
}
use podhaus.Watcher.Data.{
  Watcher, ModelState, unloaded, GpuReading, yielded, loaded, serving, yielding, Sample, resuming,
  automatic, loading, button, expects, load_given_up, used_mib,
}
use podhaus.Watcher.Calls.{play, Call, after, ticks, is_last, presses_resume, presses_yield}

abbrev is_answered : (g : GpuReading) (s : ModelState) → Answered (ready g s) (status_of s)
is_answered g s = record {
  reading = g;
  slots = some (slot ∷ []);
  reading_ok = refl;
  status_ok = refl;
  slots_ok = refl;
  cache_ok = refl;
}

tick-LoadsWhenDue_example :
    LoadsWhenDue 60000
      (ready idle_gpu unloaded)
      (start quiet_away)
      (tick 60000 (ready idle_gpu unloaded) (start quiet_away)).1
unfolding new
tick-LoadsWhenDue_example =
    tick-LoadsWhenDue 60000 (ready idle_gpu unloaded) (start quiet_away) (omega arith)

-- In that tick the load is made.
load_made : loads_of (tick 60000 (ready idle_gpu unloaded) (start quiet_away)).1.trace ≡ 1
unfolding tick new read_slots observe note_router_state expects advance while_yielded start_load
    report unhealthy_reason
load_made = refl

tick-UnloadsWhenDue_example :
    UnloadsWhenDue 3000
      (ready game_gpu loaded)
      (start gamed)
      (tick 3000 (ready game_gpu loaded) (start gamed)).1
tick-UnloadsWhenDue_example = tick-UnloadsWhenDue 3000 (ready game_gpu loaded) (start gamed)

abbrev held_calls : List Call
held_calls =
    ticks 6000 (ready idle_gpu unloaded)
    ∷ ticks 90000 (ready idle_gpu unloaded)
    ∷ presses_yield 91000 (ready idle_gpu unloaded)
    ∷ []

play-hold_example :
    loads_of (play held_calls (yield_now 5000 (ready idle_gpu loaded) (start gamed)).1).trace ≡ 0
unfolding new
play-hold_example =
    play-hold 5000 (ready idle_gpu loaded) (start gamed) held_calls
      ((omega arith, refl), ((omega arith, refl), ((omega arith, refl), tt)))

abbrev handoff_calls : List Call
handoff_calls =
    ticks 3000 (ready game_gpu loaded)
    ∷ ticks 4000 (ready game_gpu unloaded)
    ∷ presses_resume 5000 (ready game_gpu unloaded)
    ∷ []

play-Ledger_example :
    let r = play handoff_calls (start gamed) in
    begun r.trace ≡ pending r.watcher.phase ++ logged r.trace
unfolding new
play-Ledger_example = play-Ledger gamed handoff_calls refl

-- One record has been made and written by then.
one_record : length (logged (play handoff_calls (start gamed)).trace) ≡ 1
unfolding play after is_last tick new read_slots observe note_router_state expects advance
    while_serving begin_yield while_yielding resume_now press_resume start_load report
    unhealthy_reason
one_record = refl

play-IsSampled_example :
    let w = (play handoff_calls (start (new settings (serving 0) idle_gpu 0))).watcher in
    IsSampled w × (is_some (busy_before 6000 w) ≡ true)
play-IsSampled_example =
    play-IsSampled settings (serving 0) idle_gpu 0 6000 handoff_calls (omega arith)

abbrev given_up : Watcher
given_up = record quiet_away { failures = 5 }

abbrev away_calls : List Call
away_calls = ticks 70000 (ready idle_gpu unloaded) ∷ ticks 900000 (ready idle_gpu unloaded) ∷ []

finds_away : All FindsAway away_calls
finds_away = ((λ s e. ground arith), ((λ s e. ground arith), tt))

play-given_up_example :
    let t = play away_calls (start given_up) in
    (moves t.trace ≡ [])
    × (t.watcher.phase ≡ yielded)
    × (health 900001 t.watcher ≡ some load_given_up)
unfolding new
play-given_up_example =
    play-given_up (start given_up) away_calls 900001 refl (omega arith) finds_away

abbrev loading_watcher : Watcher
loading_watcher = new settings (resuming automatic (some 0) 1000) idle_gpu 0

tick-blind_example :
    Still (start loading_watcher) (tick 200000 (ready game_gpu loading) (start loading_watcher)).1
unfolding new
tick-blind_example =
    tick-blind 200000 (ready game_gpu loading) (start loading_watcher) automatic (some 0) 1000
      (status_of loading) refl refl refl (omega arith)

wanted : is_wanted (survey 3000 (ready game_gpu loaded) (start gamed)).1.watcher ≡ true
unfolding survey new read_slots observe note_router_state activity
wanted = refl

tick-yields_example :
    (tick 3000 (ready game_gpu loaded) (start gamed)).1.watcher.phase
    ≡ yielding 3000
        (some (
          handoff_of 3000 automatic
            (used_mib guest)
            (survey 3000 (ready game_gpu loaded) (start gamed)).1.watcher))
        false
unfolding new
tick-yields_example =
    tick-yields 3000 0 (ready game_gpu loaded) (start gamed) (status_of loaded) guest
      (is_answered game_gpu loaded) refl refl wanted refl refl

abbrev releasing : Watcher
releasing = new settings (yielding 500 none false) idle_gpu 0

returns :
    Recovery 1000 61000 90000
      (ready idle_gpu unloaded)
      (ready idle_gpu unloaded)
      (ready idle_gpu loaded)
      (start releasing)
unfolding tick new read_slots observe note_router_state expects advance while_yielding report
    unhealthy_reason may_load
returns = record {
  gone = status_of unloaded;
  still_gone = status_of unloaded;
  back = status_of loaded;
  memory = guest;
  answered₁ = is_answered idle_gpu unloaded;
  answered₂ = is_answered idle_gpu unloaded;
  answered₃ = is_answered idle_gpu loaded;
  is_gone = refl;
  is_still_gone = refl;
  is_back = refl;
  memory_ok = refl;
  is_free = refl;
  load_ok = refl;
}

tick-returns_example :
    let away = (tick 1000 (ready idle_gpu unloaded) (start releasing)).1 in
    let loads_now = (tick 61000 (ready idle_gpu unloaded) away).1 in
    (tick 90000 (ready idle_gpu loaded) loads_now).1.watcher.phase ≡ serving 90000
unfolding new
tick-returns_example =
    tick-returns 1000 61000 90000 500 none (ready idle_gpu unloaded) (ready idle_gpu unloaded)
      (ready idle_gpu loaded) (start releasing) refl returns

resume-reloads_example :
    let a = ready game_gpu unloaded in
    let r = (resume_now 800 a (start releasing)).1 in
    (tick 1000 a r).1.watcher.phase
    ≡ resuming button (some (quiet_since (survey 1000 a r).1.watcher)) 1000
unfolding new
resume-reloads_example =
    resume-reloads 800 1000 500 none false (ready game_gpu unloaded) (ready game_gpu unloaded)
      (start releasing) (status_of unloaded) guest refl (is_answered game_gpu unloaded) refl refl
      refl

abbrev before : List Sample
before = record { t = 500; util = 90; busy = true; counted = false } ∷ []

abbrev burst : List Sample
burst = game_sample 1000 ∷ game_sample 2000 ∷ []

activity_counts_example :
    All (IsGame settings 2000) (activity settings (before ++ burst))
    × (2 ≤ length (activity settings (before ++ burst)))
activity_counts_example =
    activity_counts settings before burst (game_sample 2000) refl
      ((omega arith, refl, omega arith), ((omega arith, refl, omega arith), tt))

yield_now-moves_example :
    let s = (yield_now 5000 (ready idle_gpu loaded) (start gamed)).1 in
    (s.watcher.hold_until ≡ max 0 (5000 + 600000)) × YieldMoves 5000 (serving 0) s.watcher.phase
unfolding new
yield_now-moves_example = yield_now-moves 5000 (ready idle_gpu loaded) (start gamed)

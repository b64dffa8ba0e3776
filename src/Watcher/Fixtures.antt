-- ===== src/Watcher/Fixtures.antt =====
-- A watcher of llm/watcher with the settings of its compose file's shape, in a few states, and the
-- answers of an outside that works.
use podhaus.Watcher.Exec.{Run, Answers, ok, accepted}
use podhaus.Watcher.Lifecycle.{new}
use podhaus.Base.{ℕ, pos, false, ◌∷◌, [], none, true, some}
use podhaus.Watcher.Data.{
  Slot, Watcher, ModelState, unloaded, GuestMemory, Settings, GpuReading, yielded, loaded, serving,
  Sample, ModelStatus,
}

abbrev pub settings : Settings
settings = record {
  server_url = "http://llm:8080";
  model_name = "qwen";
  model_file = "/models/qwen.gguf";
  pool_tokens = 65536;
  listen_port = 8000;
  activity_threshold_percent = 20;
  activity_samples = 3;
  activity_window = 10000;
  quiet = 60000;
  button_hold = 600000;
  yield_stuck = 30000;
  sample_stale = 15000;
  vram_limit_mib = 24000;
  load_timeout = 300000;
  server_silent = 120000;
}

abbrev pub idle_gpu : GpuReading
idle_gpu = record {
  util_percent = 0;
  memory_used_mib = 20000;
  memory_total_mib = 24576;
  power_milliwatts = 30000;
  temperature_celsius = pos 40;
}

abbrev pub game_gpu : GpuReading
game_gpu = record idle_gpu { util_percent = 90 }

abbrev pub guest : GuestMemory
guest = record { total_mib = 32000; free_mib = 10000; available_mib = 12000 }

abbrev pub status_of : ModelState → ModelStatus
status_of s = record { state = s; exit_code = none }

abbrev pub slot : Slot
slot = record { id = 0; tokens = 512; busy = false }

-- Every call outside succeeds.
abbrev pub ready : GpuReading → ModelState → Answers
ready reading state = record {
  reading = ok reading;
  status = ok (status_of state);
  slots = ok (some (slot ∷ []));
  cache_drop = ok tt;
  unload = ok true;
  load = accepted;
  status_again = ok (status_of unloaded);
  memory_before = ok guest;
  memory_after = ok guest;
}

abbrev pub game_sample : ℕ → Sample
game_sample t = record { t = t; util = 90; busy = false; counted = true }

-- Serving, with a game on the GPU in the last two samples.
abbrev pub gamed : Watcher
gamed = record (new settings (serving 0) idle_gpu 0) {
  router_state = some loaded;
  sampled_at = 2000;
  samples = game_sample 1000 ∷ game_sample 2000 ∷ [];
  last_active_at = some 2000;
}

abbrev pub start : Watcher → Run
start w = record { watcher = w; trace = [] }

abbrev pub quiet_away : Watcher
quiet_away = new settings yielded idle_gpu 0

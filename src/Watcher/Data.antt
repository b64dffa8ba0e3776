-- ===== src/Watcher/Data.antt =====
-- The types of llm/watcher: settings.py, gpu.py, guest.py, the states and slots of model_server.py
-- and the phases, samples and records of state.py. A time is a number of milliseconds on the
-- monotonic clock; `none` stands for minus infinity where the source starts from `-math.inf`.
use podhaus.Base.{ℕ, String, Bool, true, false, Option, none, List, [], ◌∷◌, ℤ, sub_ℕ, ◌&&◌, ◌==◌}

pub record Settings : Type 0 where
  pub server_url : String
  pub model_name : String
  pub model_file : String
  pub pool_tokens : ℕ
  pub listen_port : ℕ
  pub activity_threshold_percent : ℕ
  pub activity_samples : ℕ
  pub activity_window : ℕ
  pub quiet : ℕ
  pub button_hold : ℕ
  pub yield_stuck : ℕ
  pub sample_stale : ℕ
  pub vram_limit_mib : ℕ
  pub load_timeout : ℕ
  pub server_silent : ℕ

pub record GpuReading : Type 0 where
  pub util_percent : ℕ
  pub memory_used_mib : ℕ
  pub memory_total_mib : ℕ
  pub power_milliwatts : ℕ
  pub temperature_celsius : ℤ

pub record GuestMemory : Type 0 where
  pub total_mib : ℕ
  pub free_mib : ℕ
  pub available_mib : ℕ

unfoldable pub used_mib : GuestMemory → ℤ
used_mib m = sub_ℕ m.total_mib m.free_mib

pub data ModelState : Type 0 where
  unloaded loading loaded : ModelState

abbrev pub state_eq : ModelState → ModelState → Bool
state_eq unloaded unloaded = true
state_eq loading loading = true
state_eq loaded loaded = true
state_eq _ _ = false

pub record ModelStatus : Type 0 where
  pub state : ModelState
  pub exit_code : Option ℤ

pub record Slot : Type 0 where
  pub id : ℕ
  pub tokens : ℕ
  pub busy : Bool

abbrev pub flag_eq : Bool → Bool → Bool
flag_eq true true = true
flag_eq false false = true
flag_eq _ _ = false

-- `==` on two slot reports
abbrev pub slots_eq : List Slot → List Slot → Bool
slots_eq [] [] = true
slots_eq [] (_ ∷ _) = false
slots_eq (_ ∷ _) [] = false
slots_eq (a ∷ as') (b ∷ bs) =
    (a.id == b.id) && ((a.tokens == b.tokens) && (flag_eq a.busy b.busy && slots_eq as' bs))

pub data Trigger : Type 0 where
  automatic button external_load : Trigger

pub record Sample : Type 0 where
  pub t : ℕ
  pub util : ℕ
  pub busy : Bool
  pub counted : Bool

-- `busy_before` is `none` if the source's subtraction gives infinity.
pub record Handoff : Type 0 where
  pub trigger : Trigger
  pub decided : ℕ
  pub first_activity : Option ℕ
  pub requests_cut : ℕ
  pub busy_before : Option ℕ
  pub guest_mem_used_before_mib : ℤ
  pub samples : List Sample

pub data Phase : Type 0 where
  serving : (since : ℕ) → Phase
  yielding : (since : ℕ) (handoff : Option Handoff) (resume_pressed : Bool) → Phase
  yielded : Phase
  resuming : (trigger : Trigger) (quiet_since : Option ℕ) (load_started : ℕ) → Phase

unfoldable pub name : Phase → String
name (serving _) = "serving"
name (yielding _ _ _) = "yielding"
name yielded = "yielded"
name (resuming _ _ _) = "resuming"

-- `state in phase.expects`
unfoldable pub expects : Phase → ModelState → Bool
expects (serving _) s = state_eq s loaded
expects (yielding _ _ _) _ = true
expects yielded s = state_eq s unloaded
expects (resuming _ _ _) _ = true

abbrev pub is_serving : Phase → Bool
is_serving (serving _) = true
is_serving _ = false

abbrev pub is_yielded : Phase → Bool
is_yielded yielded = true
is_yielded _ = false

unfoldable pub found : ModelState → ℕ → Trigger → Phase
found loaded now _ = serving now
found unloaded _ _ = yielded
found loading now trigger = resuming trigger none now

-- `Unhealthy | Stalled`
pub data Reason : Type 0 where
  yield_stuck vram_at_limit load_given_up server_unresponsive sample_stale : Reason

abbrev pub reason_eq : Reason → Reason → Bool
reason_eq yield_stuck yield_stuck = true
reason_eq vram_at_limit vram_at_limit = true
reason_eq load_given_up load_given_up = true
reason_eq server_unresponsive server_unresponsive = true
reason_eq sample_stale sample_stale = true
reason_eq _ _ = false

-- The texts of a failed load.
pub data LoadError : Type 0 where
  declined : String → LoadError
  exited : Option ℤ → LoadError
  exited_while_serving : Option ℤ → LoadError
  timed_out : ℕ → LoadError

-- One line of the event log. Its times are instants of the monotonic clock, which `EventLog.date`
-- turns into wall times.
pub data Event : Type 0 where
  state_adopted : (state : String) (previous : Option String) (router : ModelState) → Event
  handoff_yield : (handoff : Handoff) (released : ℕ) (guest_mem_used_after_mib : ℤ) → Event
  resume_abandoned : (load_started abandoned : ℕ) → Event
  handoff_resume : (trigger : Trigger) (quiet_since : Option ℕ) (load_started ready : ℕ) → Event
  load_failed : (attempt : ℕ) (error : LoadError) → Event
  slots_changed : (slots : List Slot) (pool_tokens pool_limit : ℕ) → Event
  unhealthy : Reason → Event

pub record Watcher : Type 0 where
  pub settings : Settings
  pub phase : Phase
  pub router_state : Option ModelState
  pub reading : GpuReading
  pub sampled_at : ℕ
  pub samples : List Sample
  pub slots : List Slot
  pub started_at : ℕ
  pub last_active_at : Option ℕ
  pub busy_since : Option ℕ
  pub busy_until : Option ℕ
  pub silent_since : Option ℕ
  pub hold_until : ℕ
  pub retry_at : ℕ
  pub failures : ℕ
  pub reported : Option Reason

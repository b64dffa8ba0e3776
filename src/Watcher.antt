-- ===== src/Watcher.antt =====
-- llm/watcher: who holds the GPU, the model or a game. `Data` has the types, `Exec` the calls that
-- leave the process, `Sampling`, `Handoff` and `Tick` the methods of `Watcher`; the other modules
-- prove what the methods do.
pub mod Data
pub mod Exec
pub mod Sampling
pub mod Handoff
pub mod Tick
pub mod Lifecycle
pub mod Router
pub mod Web
pub mod Rules
pub mod Frame
pub mod Loads
pub mod TickLoads
pub mod Calls
pub mod Hold
pub mod Ledger
pub mod Unloads
pub mod Waiting
pub mod Progress
pub mod Activity
pub mod Buttons
mod Fixtures
mod Tests
mod Replies
pub mod Window
pub mod Sampled
pub mod SameSamples
pub mod SampledCalls

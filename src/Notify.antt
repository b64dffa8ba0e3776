-- ===== src/Notify.antt =====
-- pomerium/ssh-auth-notify/main.py: the sign-in requests of Pomerium, each told once to the account that
-- owns the machine. What the streams and the clocks give is an argument.
pub mod Context
pub mod Forward
pub mod Sync
pub mod Once
pub mod Rounds
pub mod Addressed
pub mod Joined
mod Tests

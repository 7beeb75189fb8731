-- ===== src/State.antt =====
-- crates/skysaga-state/src/lib.rs: accounts, sessions, characters, and what is kept for each player.
pub mod Types
pub mod Policy
pub mod Saves
pub mod Accounts
pub mod Characters
pub mod Queues
pub mod Stored
pub mod Steps
pub mod Effects
pub mod Threads
pub mod Replay
mod Overtaken
pub mod Sound
pub mod Invariant
pub mod Reached
pub mod Sessions
pub mod Spelled
pub mod Kept
pub mod Names
pub mod Lifecycle
pub mod Reservations
pub mod Tests

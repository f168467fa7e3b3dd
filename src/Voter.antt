-- ===== src/Voter.antt =====
-- voter/voterd.c: the voter between a replicated controller and the other components.
pub mod State
pub mod Arguments
pub mod Launch
pub mod Launched
pub mod Timers
pub mod Configured
pub mod Boot
pub mod Send
pub mod Recover
pub mod Vote
pub mod Update
pub mod Output
pub mod Majority
pub mod Sync
pub mod Resync
pub mod Wellformed
pub mod Restarts
pub mod Rounds
pub mod Main
mod Tests
mod LaunchTests

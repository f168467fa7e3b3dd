-- ===== src/Replicas.antt =====
-- include/replicas.h and src/replicas.c: the group of redundant processes that a voter runs. An
-- array reps[] of C is a list, read and written by index; a slot past its end reads as blank.
pub mod Types
pub mod Votes
pub mod Balance
pub mod Start
pub mod Restart
pub mod Progress
pub mod Order
pub mod Gaps
pub mod Applied
pub mod Ranked
pub mod Wellformed
pub mod Revival
pub mod Slots
mod Tests

-- ===== src/CommTypes.antt =====
-- include/commtypes.h and src/commtypes.c: the typed pipes and messages of the components.
pub mod Types
pub mod Bytes
pub mod Pipes
pub mod Serial
pub mod Messages
pub mod Fixed
pub mod Copies
pub mod Stores
pub mod Delivery
pub mod Buffers
mod Tests

-- ===== src/World.antt =====
-- The world in which the CA runs: its data, its state, the monad of its methods and the storage
-- service that they call.
pub mod Types
pub mod Exec
pub mod Storage
pub mod Locks
pub mod Steps

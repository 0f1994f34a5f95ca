-- ===== src/Supersede.antt =====
-- Delayed supersession: internal/ca/supersede.go. Pending holds the list and its reads and writes,
-- Refuse the gate of the renewal paths, Drain the batch, Sweep the operations that rewrite the list.
pub mod Pending
pub mod Refuse
pub mod Drain
pub mod Batch
pub mod Account
pub mod Write
pub mod Gate
pub mod Safety
pub mod Sweep
pub mod Retire

-- ===== src/Managed.antt =====
-- Certificates that the CA keeps for its own services: internal/ca/managedcert.go. Spec holds what a
-- certificate is to be, Key the keys that the CA generates, Decide the decision to issue, Backoff the
-- wait after a store refused a write, Reconcile a pass; Served, Waits, Reuse and Reconciled hold what is
-- proved of them.
pub mod Key
pub mod Spec
pub mod Decide
pub mod Served
pub mod Backoff
pub mod Waits
pub mod Reconcile
pub mod Reuse
pub mod Reconciled

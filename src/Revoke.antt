-- ===== src/Revoke.antt =====
-- Revocation: internal/ca/revoke.go. By serial number, and by subject, which first retires what the
-- subject has waiting in the pending-supersession list.
pub mod Serial
pub mod Subject
pub mod Entries
pub mod Outcome
pub mod Checked
pub mod BySubject

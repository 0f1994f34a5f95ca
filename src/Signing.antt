-- ===== src/Signing.antt =====
-- Issuance: internal/ca/signing.go. Policy holds what a request may ask for, Held what a subject
-- already has, Issue the building and storing of a certificate, Request the operations on requests.
pub mod Policy
pub mod Held
pub mod Issue
pub mod Request
pub mod Renew
pub mod Names
pub mod Duplicate
pub mod Evict
pub mod Outcome
pub mod Carried
pub mod Renewal
pub mod Rollback
pub mod Bulk
pub mod Reported

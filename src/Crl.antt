-- ===== src/Crl.antt =====
-- The revocation list: internal/ca/crl.go, crlchain.go, crlsync.go, and ownCRLIn of caImport.go. The
-- stored blob is the chain of PEM blocks; a list is owned by the CA where the key of the CA
-- certificate signed it. c.mu only serialises the memory of one process, and is not shown.
pub mod Lists
pub mod Sign
pub mod Store
pub mod Chain
pub mod Follow
pub mod Outcome
pub mod Read
pub mod Sync
pub mod Refresh
pub mod Grown
pub mod Growth

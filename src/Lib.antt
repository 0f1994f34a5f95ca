-- ===== src/Lib.antt =====
-- A verification library for the core of openvox-ca, a certificate authority for OpenVox and Puppet:
-- revocation, the revocation list (CRL) and its cached copy, delayed supersession of renewed
-- certificates, issuance and renewal, the OCSP responder, the certificates that it keeps for its own
-- services, and who may make a request.
--
-- The parts, and where they are modelled:
--   * Serial: serial numbers as text, `NormaliseSerial` of internal/storage/storage.go and
--     `serialHexStr` of internal/ca/signing.go.
--   * Subject: certnames, `ValidateSubject` of internal/ca/signing.go.
--   * World: the state and the monad. Types holds certificates, requests and lists as Go's decoders
--     give them, the stored blobs (Store), the fields of the CA struct that methods change (Mem) and
--     those set at start-up (Config). Exec holds the world and the monad, Locks `WithLock` and
--     `withCRLLockCounted`, Storage the methods of `StorageService` that the CA calls.
--   * Crl: internal/ca/crl.go, crlchain.go, crlsync.go and `ownCRLIn` of caImport.go. Lists compares
--     and selects lists, Store reads the stored chain and replaces the cached list, Sign signs,
--     publishes, re-signs and refreshes.
--   * Revoke: internal/ca/revoke.go. Serial revokes by serial number, Subject by certname.
--   * Supersede: internal/ca/supersede.go and `refuseIfRevoked` of signing.go. Pending holds the list,
--     Refuse the gate of renewals, Drain the batch, Sweep the operations that rewrite the list.
--   * Signing: internal/ca/signing.go, `validatePublicKey` of keys.go and the arcs of oids.go. Policy
--     holds what a request may ask for, Held what a subject has, Issue the making and storing of a
--     certificate, Request `SaveRequest`, `DeleteRequest` and `Clean`, Renew the two renewals, Bulk the
--     operations on many names.
--   * Cleanup: internal/ca/cleanup.go.
--   * Ocsp: the responder and its cache of signed responses, internal/ca/ocsp.go.
--   * SerialSync: the sync of the index of serials with the inventory, internal/ca/serialsync.go.
--   * ChainFile: the operator's file of upstream lists, internal/ca/crlchainfile.go.
--   * Generate: certificates whose key the CA makes for a caller, internal/ca/generate.go and
--     authgrant.go, with `loadCRLCache` of init.go.
--   * Managed: certificates that the CA keeps for its own services, internal/ca/managedcert.go, with the
--     checks of generate.go and reservedsubject.go and the keys of keys.go that it uses.
--   * ClientCrl: the lists of other CAs and the check of a chain, internal/api/clientcrl.go.
--   * Auth: who may make a request, internal/api/auth.go and `attribute` of trustdomain.go.
--   * Examples: concrete runs.
-- A function has the name of the Go function in the spelling of this language. Revocation, the drain
-- and the re-signing all sign through Crl.Sign; renewals pass Supersede.Refuse twice, issue through
-- Signing.Issue, and hand the old serial to Supersede.Sweep. An installed list and a pruned serial evict
-- what the responder has cached; a managed certificate is issued and retired as a renewed one is.
--
-- State and failure. A method is a function from a world to a result and a world, and what was written
-- before an error stays written. The world carries functions that decide, by the count of calls made,
-- which storage call or lock acquisition fails, what other goroutines and replicas do to the store and
-- the memory while a lock is waited for, and the random serials; they are arbitrary, so a theorem
-- about a method holds for each of them. While a lock is held, nobody else changes what it guards. The
-- same functions decide how far the clock moves while the responder's key signs, and how many entries
-- one prune of the inventory takes out, since a backend may bound that or stop between two batches.
--
-- Bounds. Every loop is structural recursion over the list that the code ranges over, so there is
-- no fuel. Times are whole seconds and never negative; Go's time.Duration is taken not to overflow,
-- which holds for validities up to 292 years; the wait of Managed.Backoff, where it may, keeps the
-- 64 bits. A serial number is an integer, and stands for its printed form as a key of the maps in
-- memory.
--
-- Not modelled: encodings (PEM, DER, JSON), signatures (a list or certificate names the key that
-- signed it), contexts and timeouts but for the failure of a lock, log records, c.mu (one process
-- is serialised already), start-up, the HTTP handlers, the storage backends. What upstreamCRLs
-- answers while a list is signed is a field of the configuration; ChainFile shows what such an
-- answer holds, and its pass over the file gives the signing the second reading of it. CheckAutosign, the hash functions of the responder, the store of a managed
-- certificate, the verification of a client's certificate and the decoding of a string in it are
-- parameters. A certificate's extensions are those that no field of it stands for; the alternative
-- names and the usages, which a renewal carries as extensions over the template's own, are fields. Left
-- out are also reads that only feed a log record, such as the lookup of the revocation in
-- warnIfDisplacing, and what others may do between the read of the stored list and taking c.mu. A first
-- block of another type than a list is an error, where the code parses whatever bytes it holds.
pub mod Prelude
pub mod Serial
pub mod Subject
pub mod World
pub mod Crl
pub mod Revoke
pub mod Supersede
pub mod Signing
pub mod Cleanup
pub mod ChainFile
pub mod Ocsp
pub mod SerialSync
pub mod Managed
pub mod Examples
pub mod Generate
pub mod Auth
pub mod ClientCrl

-- ===== src/World/Types.antt =====
-- The data of internal/ca: certificates, requests and revocation lists as the code reads them after
-- Go's decoders, the configuration, the stored blobs and the CA's memory.
use openvox_ca.Prelude.{ℕ, ℤ, Bool, Option, List, String, Map}
use openvox_ca.Serial.{SerialText}

-- Times are whole seconds since an epoch early enough for every time that the code forms.
abbrev pub Seconds : Type 0
Seconds = ℕ

-- An object identifier, by its arcs.
abbrev pub Oid : Type 0
Oid = List ℕ

-- `pkix.Extension`.
pub record Extension : Type 0 where
  pub id : Oid
  pub critical : Bool
  pub value : List ℕ

-- `crypto.PublicKey`, by what validatePublicKey looks at; `identity` tells two keys apart.
pub data KeyKind : Type 0 where
  rsa : ℕ → KeyKind
  ecdsa : ℕ → KeyKind
  other_key : KeyKind

pub record PublicKey : Type 0 where
  pub kind : KeyKind
  pub identity : ℕ

-- The four kinds of subject alternative names, each rendered as Go's `String` renders it.
pub record SubjectAltNames : Type 0 where
  pub dns_names : List String
  pub ip_addresses : List String
  pub email_addresses : List String
  pub uris : List String

pub data ExtKeyUsage : Type 0 where
  server_auth client_auth : ExtKeyUsage
  other_usage : ℕ → ExtKeyUsage

-- `x509.Certificate`, as a template and as parsed back. `signer` is the identity of the key whose
-- signature it bears, which is what CheckSignatureFrom establishes. `extensions` are those that no
-- other field stands for: the alternative names, the extended key usage and the two lists of addresses
-- are extensions in the certificate too.
pub record Cert : Type 0 where
  pub serial : ℤ
  pub common_name : String
  pub not_before : Seconds
  pub not_after : Seconds
  pub public_key : PublicKey
  pub signer : ℕ
  pub ext_key_usage : List ExtKeyUsage
  pub sans : SubjectAltNames
  pub crl_urls : List String
  pub ocsp_urls : List String
  pub extensions : List Extension

-- `x509.CertificateRequest`; `signature_ok` is the answer of its CheckSignature.
pub record Csr : Type 0 where
  pub common_name : String
  pub public_key : PublicKey
  pub signature_ok : Bool
  pub sans : SubjectAltNames
  pub extensions : List Extension

-- What decoding a stored or submitted PEM blob gives.
pub data Pem {ℓ} (A : Type ℓ) : Type ℓ where
  no_block : Pem A
  malformed : Pem A
  parsed : A → Pem A

-- `x509.RevocationListEntry`.
pub record RevocationEntry : Type 0 where
  pub serial : ℤ
  pub revocation_time : Seconds

-- `x509.RevocationList`.
pub record Crl : Type 0 where
  pub entries : List RevocationEntry
  pub number : Option ℕ
  pub this_update : Seconds
  pub next_update : Seconds
  pub signer : ℕ
  -- the encoding with its signature, as a number
  pub raw : ℕ

-- One PEM block of the stored CRL chain.
pub data CrlBlock : Type 0 where
  crl_block : Crl → CrlBlock
  bad_crl : CrlBlock
  other_block : CrlBlock

abbrev pub CrlBlob : Type 0
CrlBlob = List CrlBlock

-- storage.InventoryEntry; `not_after` is `none` where it does not parse as a time.
pub record InventoryEntry : Type 0 where
  pub serial : SerialText
  pub not_before : Seconds
  pub not_after : Option Seconds
  pub subject : String

-- supersededEntry of supersede.go.
pub record SupersededEntry : Type 0 where
  pub serial : SerialText
  pub subject : String
  pub revoke_at : Seconds

-- The stored pending-revocation list, by what json.Unmarshal makes of it: the entries decoded, and
-- whether it then reported an error.
pub record SupersededBlob : Type 0 where
  pub recovered : List SupersededEntry
  pub corrupt : Bool

-- The keys of the storage backend.
pub record Store : Type 0 where
  pub certs : Map (Pem Cert)
  pub csrs : Map (Pem Csr)
  pub inventory : List InventoryEntry
  pub crl : Option CrlBlob
  pub superseded : Option SupersededBlob
  -- the revocations projected into the certificate index, the latest first
  pub revoked_marks : List (SerialText × Seconds)

-- `crypto.Hash`, by Go's number of it.
abbrev pub HashId : Type 0
HashId = ℕ

-- The status of an OCSP response; a revoked one carries its revocation time.
pub data OcspStatus : Type 0 where
  good : OcspStatus
  revoked_at : Seconds → OcspStatus
  unknown : OcspStatus

-- A signed OCSP response, by what was signed.
pub record OcspResponse : Type 0 where
  pub serial : ℤ
  pub issuer_hash : HashId
  pub status : OcspStatus
  pub this_update : Seconds
  pub next_update : Option Seconds
  pub nonce : Option Extension
  pub signer : ℕ

-- ocspCacheEntry of ocsp.go with its key, ocspCacheKey.
pub record CachedResponse : Type 0 where
  pub serial : ℤ
  pub hash : HashId
  pub der : OcspResponse
  pub expires_at : Seconds

-- managedSaveFailure of managedcert.go.
pub record SaveFailure : Type 0 where
  pub count : ℕ
  pub last : Seconds

-- The fields of the CA struct that the methods change.
pub record Mem : Type 0 where
  pub cached_crl : Option Crl
  pub ocsp_cache : List CachedResponse
  pub serial_index : List (ℤ × String)
  pub serial_index_epoch : ℕ
  pub serial_index_removal_epoch : ℕ
  pub crl_update_failures : ℕ
  pub crl_sync_failures : ℕ
  pub serial_index_sync_failures : ℕ
  pub supersede_failures : ℕ
  -- saveBackoff: the subjects whose store refused the last writes
  pub save_failures : Map SaveFailure
  -- the one slot of the channel crlNotify
  pub crl_notify : Bool

-- The CA's own certificate: the identity of its key, the encoded subject, the bits of the public key
-- where its encoding parses, and the end of its validity.
pub record CaCert : Type 0 where
  pub key : ℕ
  pub raw_subject : List ℕ
  pub public_key_bits : Option (List ℕ)
  pub not_after : Seconds

-- KeyConfig of keys.go.
pub record KeyConfig : Type 0 where
  pub algo : String
  pub size : ℕ

-- The states that a DuplicateCertError reports.
pub data DuplicateState : Type 0 where
  requested signed revoked : DuplicateState

-- The errors that callers tell apart, and one constructor for each other way to fail.
pub data Error : Type 0 where
  not_exist backend_fault lock_fault signing_fault signing_slot_fault : Error
  invalid_subject not_initialized cert_exists cert_revoked cert_superseded : Error
  duplicate_cert : DuplicateState → Error
  foreign_certificate renewal_subject_mismatch disallowed_sans disallowed_extensions : Error
  key_policy ca_expired duplicate_serial malformed_serial : Error
  serial_unknown serial_is_current serial_state_unknown subject_unknown : Error
  foreign_stored_crl bad_crl_pem bad_crl_chain no_own_crl crl_not_loaded chain_file_error : Error
  no_prior_crl random_fault not_found no_csr bad_csr_pem bad_csr bad_csr_signature
        csr_name_mismatch :
      Error
  bad_cert_pem superseded_unreadable autosign_fault : Error
  bad_ocsp_request not_authoritative internal_error signing_busy nil_dereference : Error
  chain_not_read bad_key_config bad_spec save_fault reserved_subject bad_dns_alt_names
        bad_auth_grant :
      Error

-- What upstreamCRLs of crlchainfile.go answers while a list is signed.
pub data Upstream : Type 0 where
  not_configured : Upstream
  upstream_fault : Error → Upstream
  unstated : Upstream
  stated : List Crl → Upstream

-- The fields of the CA struct that are set at startup.
pub record Config : Type 0 where
  pub ca_cert : Option CaCert
  -- the identity of the key that CAKey signs with
  pub ca_key : Option ℕ
  pub allow_duplicate_certs : Bool
  pub allow_subject_alt_names : Bool
  pub promote_cn_to_san : Bool
  pub revoke_on_auto_renew : Bool
  pub supersede_after : Seconds
  pub leaf_validity_days : ℕ
  pub crl_validity_days : ℕ
  pub leaf_backdate : Seconds
  pub leaf_key_config : KeyConfig
  pub crl_urls : List String
  pub ocsp_urls : List String
  pub upstream : Upstream

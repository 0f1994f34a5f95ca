-- ===== src/Generate.antt =====
-- Certificates with a key that the CA generates: Generate and GenerateWithOptions of
-- internal/ca/generate.go, authGrantExtensions of authgrant.go, loadCRLCache of init.go.
pub mod Replace
pub mod Outcome
use openvox_ca.Prelude.{
  ℕ, Bool, true, false, not, ◌&&◌, Option, none, some, List, [], ◌∷◌, String, codes_eq,
  if◌then◌else◌,
}
use openvox_ca.Serial.{SerialText, serial_hex_str}
use openvox_ca.Subject.{validate_subject}
use openvox_ca.World.Types.{
  Oid, Extension, Pem, no_block, malformed, parsed, Cert, CaCert, PublicKey, Seconds, Config, Crl,
  CrlBlob, Error, invalid_subject, not_initialized, bad_cert_pem, reserved_subject,
  bad_dns_alt_names, bad_auth_grant, save_fault,
}
use openvox_ca.World.Exec.{
  World, Exec, Result, ok, err, pure, raise, attempt, best_effort, ◌>>=◌, ◌>>◌,
}
use openvox_ca.World.Locks.{with_lock}
use openvox_ca.World.Storage.{get_crl, get_cert, has_cert, has_csr, delete_cert, delete_csr}
use openvox_ca.Crl.Lists.{select_own_crl}
use openvox_ca.Crl.Store.{leading_crl, install_cached_crl_locked}
use openvox_ca.Revoke.Serial.{revoke_serial_locked}
use openvox_ca.Signing.Held.{evict_revoked_locked}
use openvox_ca.Signing.Issue.{LeafRequest, issue_leaf_locked}
use openvox_ca.Managed.Key.{generate_key, leaf_key_config}
use openvox_ca.Managed.Spec.{check_key_subject, validate_dns_alt_names}

-- AuthGrant, with the value as asn1 encodes it; the zero value has no identifier.
pub record AuthGrant : Type 0 where
  pub oid : Oid
  pub value : List ℕ

abbrev pub is_zero_grant : Oid → Bool
is_zero_grant [] = true
is_zero_grant (arc ∷ arcs) = false

unfoldable pub is_seen : Oid → List Oid → Bool
is_seen oid [] = false
is_seen oid (o ∷ seen_oids) = if codes_eq oid o then true else is_seen oid seen_oids

abbrev pub add_extension : Extension → Result (List Extension) → Result (List Extension)
add_extension e (err bad) = err bad
add_extension e (ok es) = ok (e ∷ es)

unfoldable pub grants_after : List Oid → List AuthGrant → Result (List Extension)
unfolding is_seen
grants_after seen_oids [] = ok []
grants_after seen_oids (g ∷ gs) =
    let rest = grants_after (g.oid ∷ seen_oids) gs in
    if is_zero_grant g.oid
    then err bad_auth_grant
    else if is_seen g.oid seen_oids
    then err bad_auth_grant
    else add_extension (record { id = g.oid; critical = false; value = g.value }) rest

-- authGrantExtensions.
unfoldable pub auth_grant_extensions : List AuthGrant → Result (List Extension)
unfolding grants_after
auth_grant_extensions grants = grants_after [] grants

-- The list that loadCRLCache caches: our newest of the chain, or else the first block.
abbrev pub loaded_crl : Crl → Result (Option Crl) → Crl
loaded_crl lead (ok (some newest)) = newest
loaded_crl lead _ = lead

abbrev pub load_leading : Config → CrlBlob → Result Crl → Exec (Unit {0})
load_leading c blob (err e) = raise e
load_leading c blob (ok lead) =
    install_cached_crl_locked (loaded_crl lead (select_own_crl c.ca_cert blob))

-- loadCRLCache.
unfoldable pub load_crl_cache : Config → Exec (Unit {0})
load_crl_cache c = do blob ← get_crl; load_leading c blob (leading_crl blob)

-- GenerateOptions; `emit_key` is `none` where the option is nil.
pub record GenerateOptions : Type 0 where
  pub dns_alt_names : List String
  pub auth_grants : List AuthGrant
  pub ttl : Seconds
  pub replace_existing : Bool
  pub retain_private_key : Bool
  pub emit_key : Option (PublicKey → Exec (Unit {0}))

pub record GenerateResult : Type 0 where
  pub private_key : PublicKey
  pub certificate : Cert
  pub replaced : Bool

abbrev pub serial_of_stored : Pem Cert → Exec SerialText
serial_of_stored no_block = raise bad_cert_pem
serial_of_stored malformed = raise bad_cert_pem
serial_of_stored (parsed cert) = pure (serial_hex_str cert.serial)

-- storedCertSerialLocked of generate.go.
unfoldable pub stored_cert_serial_locked : String → Exec SerialText
stored_cert_serial_locked subject = do cert ← get_cert subject; serial_of_stored cert

-- The serial to revoke first, where there is a certificate and it is to be replaced.
unfoldable pub to_replace : Config → String → Bool → Exec (Option SerialText)
to_replace c subject replace = do
  there ← has_cert subject
  (if there
      then load_crl_cache c
        >> (if replace
            then (stored_cert_serial_locked subject >>= λ serial. pure (some serial))
            else pure none)
      else pure none)

abbrev pub revoke_replaced : Config → Option SerialText → Exec (Unit {0})
revoke_replaced c none = pure tt
revoke_replaced c (some serial) = with_lock (revoke_serial_locked c serial)

abbrev pub reload : Config → Option SerialText → Exec (Unit {0})
reload c none = pure tt
reload c (some serial) = load_crl_cache c

abbrev pub is_replacing : Option SerialText → Bool
is_replacing none = false
is_replacing (some serial) = true

-- What issueLeafLocked is asked for: the names given, or the subject where there are none and that is
-- promoted.
abbrev pub alt_names : Config → String → List String → List String
alt_names c subject [] = if c.promote_cn_to_san then subject ∷ [] else []
alt_names c subject (n ∷ ns) = n ∷ ns

abbrev pub generate_request :
    Config → String → GenerateOptions → List Extension → PublicKey → LeafRequest
generate_request c subject opts extensions key = record {
  common_name = subject;
  public_key = key;
  sans = record {
    dns_names = alt_names c subject opts.dns_alt_names;
    ip_addresses = [];
    email_addresses = [];
    uris = [];
  };
  extensions = extensions;
  ext_key_usage = [];
  ttl = opts.ttl;
}

abbrev pub delete_on : String → Result (Unit {0}) → Exec (Unit {0})
delete_on subject (ok _) w = (ok tt, w)
delete_on subject (err e) w = (err e, (delete_cert subject w).1)

-- SavePrivateKey writes a local file, which is not of the state here; where it fails the certificate is
-- taken out again.
abbrev pub retain_key : String → Bool → Exec (Unit {0})
retain_key subject false w = (ok tt, w)
retain_key subject true w = delete_on subject (attempt save_fault w).0 (attempt save_fault w).1

abbrev pub drop_pending : String → Exec (Unit {0})
drop_pending subject = do
  there ← has_csr subject
  (if there then best_effort (delete_csr subject) else pure tt)

-- From the eviction on, under both locks.
unfoldable pub issue_generated :
    Config
    → String
    → GenerateOptions
    → List Extension
    → PublicKey
    → Option SerialText
    → Exec GenerateResult
issue_generated c subject opts extensions key old = do
  evict_revoked_locked subject
  cert ← issue_leaf_locked c subject (generate_request c subject opts extensions key)
  retain_key subject opts.retain_private_key
  drop_pending subject
  pure (record { private_key = key; certificate = cert; replaced = is_replacing old })

-- What runs under the subject's lock. replacementFailed only wraps the errors that follow a revocation.
unfoldable pub generate_locked :
    Config → String → GenerateOptions → List Extension → PublicKey → Exec GenerateResult
generate_locked c subject opts extensions key = do
  old ← to_replace c subject opts.replace_existing
  revoke_replaced c old
  reload c old
  issue_generated c subject opts extensions key old

abbrev pub emit : Option (PublicKey → Exec (Unit {0})) → PublicKey → Exec (Unit {0})
emit none key = pure tt
emit (some f) key = f key

unfoldable pub generate_granted :
    Config → String → GenerateOptions → Result (List Extension) → Exec GenerateResult
generate_granted c subject opts (err e) = raise e
generate_granted c subject opts (ok extensions) = do
  key ← generate_key (leaf_key_config c)
  emit opts.emit_key key
  with_lock (generate_locked c subject opts extensions key)

abbrev pub generate_if_initialised :
    Config → String → GenerateOptions → Option CaCert → Option ℕ → Exec GenerateResult
generate_if_initialised c subject opts (some ca) (some key) =
    generate_granted c subject opts (auth_grant_extensions opts.auth_grants)
generate_if_initialised c subject opts _ _ = raise not_initialized

-- GenerateWithOptions.
unfoldable pub generate_with_options : Config → String → GenerateOptions → Exec GenerateResult
generate_with_options c subject opts =
    if validate_subject subject
    then (if check_key_subject subject
        then (if validate_dns_alt_names opts.dns_alt_names
            then generate_if_initialised c subject opts c.ca_cert c.ca_key
            else raise bad_dns_alt_names)
        else raise reserved_subject)
    else raise invalid_subject

-- Generate.
unfoldable pub generate : Config → String → List String → Exec GenerateResult
generate c subject dns_alt_names = generate_with_options c subject (record {
  dns_alt_names = dns_alt_names;
  auth_grants = [];
  ttl = 0;
  replace_existing = false;
  retain_private_key = true;
  emit_key = none;
})

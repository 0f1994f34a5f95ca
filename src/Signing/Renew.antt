-- ===== src/Signing/Renew.antt =====
-- Renewal: assertOwnCertificate, reissueLeafLocked, Renew and AutoRenew of internal/ca/signing.go.
-- The gate on the presented certificate is in Supersede.Refuse.
use openvox_ca.Prelude.{
  Bool, true, false, Option, none, some, List, [], ◌∷◌, String, str_eq, ◌==◌, if◌then◌else◌,
  codes_eq,
}
use openvox_ca.Serial.{SerialText, serial_hex_str}
use openvox_ca.Subject.{validate_subject}
use openvox_ca.World.Types.{
  Oid, Extension, Cert, Csr, Pem, PublicKey, CaCert, Config, not_initialized, foreign_certificate,
  renewal_subject_mismatch, invalid_subject, not_exist,
}
use openvox_ca.World.Exec.{Exec, Result, ok, err, pure, raise, best_effort, ◌>>=◌, ◌>>◌}
use openvox_ca.World.Locks.{with_lock}
use openvox_ca.World.Storage.{latest_serial_for_subject, delete_csr}
use openvox_ca.Supersede.Refuse.{refuse_if_revoked}
use openvox_ca.Supersede.Sweep.{supersede_replaced}
use openvox_ca.Signing.Policy.{oid_basic_constraints}
use openvox_ca.Signing.Issue.{LeafRequest, issue_leaf_locked}
use openvox_ca.Signing.Request.{submitted_csr}

abbrev pub own_certificate : Option CaCert → Cert → Result (Unit {0})
own_certificate none cert = err not_initialized
own_certificate (some ca) cert = if cert.signer == ca.key then ok tt else err foreign_certificate

unfoldable pub assert_own_certificate : Config → Cert → Result (Unit {0})
assert_own_certificate c cert = own_certificate c.ca_cert cert

abbrev pub renewal_refreshed_extensions : List Oid
renewal_refreshed_extensions =
    (2 ∷ 5 ∷ 29 ∷ 35 ∷ [])
    ∷ (2 ∷ 5 ∷ 29 ∷ 14 ∷ [])
    ∷ (2 ∷ 5 ∷ 29 ∷ 31 ∷ [])
    ∷ (1 ∷ 3 ∷ 6 ∷ 1 ∷ 5 ∷ 5 ∷ 7 ∷ 1 ∷ 1 ∷ [])
    ∷ oid_basic_constraints
    ∷ []

unfoldable pub is_refreshed : Oid → List Oid → Bool
is_refreshed id [] = false
is_refreshed id (o ∷ os) = if codes_eq id o then true else is_refreshed id os

unfoldable pub carried_extensions : List Extension → List Extension
unfolding is_refreshed
carried_extensions [] = []
carried_extensions (e ∷ es) =
    let rest = carried_extensions es in
    if is_refreshed e.id renewal_refreshed_extensions then rest else e ∷ rest

-- Everything but the key is the original's: its alternative names and its extended key usage, which
-- travel as extensions too and override what the template would give, are those of the certificate's
-- fields; one without a usage gets the default. The addresses of lists and responders are refreshed.
unfoldable pub renewal_request : Cert → PublicKey → LeafRequest
unfolding carried_extensions
renewal_request original key = record {
  common_name = original.common_name;
  public_key = key;
  sans = original.sans;
  extensions = carried_extensions original.extensions;
  ext_key_usage = original.ext_key_usage;
  ttl = 0;
}

unfoldable pub reissue_leaf_locked : Config → String → Cert → PublicKey → Exec Cert
reissue_leaf_locked c subject original key =
    issue_leaf_locked c subject (renewal_request original key)

-- The serial that the subject has now, if any.
abbrev pub old_serial_of : Result SerialText → Result (Option SerialText)
old_serial_of (ok s) = ok (some s)
old_serial_of (err not_exist) = ok none
old_serial_of (err e) = err e

abbrev pub retire_old : Config → String → Option SerialText → Exec (Unit {0})
retire_old c subject none = pure tt
retire_old c subject (some serial) = best_effort (supersede_replaced c subject serial)

-- What runs under the subject's lock: the gate again, then the issue, then the predecessor.
unfoldable pub renew_locked : Config → String → Cert → PublicKey → Exec Cert
renew_locked c subject presented key = do
  refuse_if_revoked c presented
  old ← λ w. (
    old_serial_of (latest_serial_for_subject subject w).0,
    (latest_serial_for_subject subject w).1,
  )
  cert ← reissue_leaf_locked c subject presented key
  best_effort (delete_csr subject)
  retire_old c subject old
  pure cert

abbrev pub renew_csr : Config → String → Cert → Result Csr → Exec Cert
renew_csr c subject presented (err e) = raise e
renew_csr c subject presented (ok csr) = with_lock (renew_locked c subject presented csr.public_key)

-- The checks after the first gate.
abbrev pub renew_named : Config → String → Cert → Pem Csr → Exec Cert
renew_named c subject presented pem =
    if str_eq presented.common_name subject
    then (if validate_subject subject
        then renew_csr c subject presented (submitted_csr subject pem)
        else raise invalid_subject)
    else raise renewal_subject_mismatch

abbrev pub after_own : Result (Unit {0}) → Exec Cert → Exec Cert
after_own (ok _) m w = m w
after_own (err e) m w = (err e, w)

-- Renew.
unfoldable pub renew : Config → String → Pem Csr → Option Cert → Exec Cert
renew c subject pem none = raise foreign_certificate
renew c subject pem (some presented) =
    after_own (assert_own_certificate c presented)
      (refuse_if_revoked c presented >> renew_named c subject presented pem)

unfoldable pub auto_renew_locked : Config → Cert → Exec Cert
auto_renew_locked c presented = do
  refuse_if_revoked c presented
  cert ← reissue_leaf_locked c presented.common_name presented presented.public_key
  (if c.revoke_on_auto_renew
      then best_effort
          (supersede_replaced c presented.common_name (serial_hex_str presented.serial))
      else pure tt)
  pure cert

-- AutoRenew.
unfoldable pub auto_renew : Config → Option Cert → Exec Cert
auto_renew c none = raise foreign_certificate
auto_renew c (some presented) = after_own (assert_own_certificate c presented) (
    if validate_subject presented.common_name
    then refuse_if_revoked c presented >> with_lock (auto_renew_locked c presented)
    else raise invalid_subject)

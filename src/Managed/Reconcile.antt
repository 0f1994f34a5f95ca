-- ===== src/Managed/Reconcile.antt =====
-- A pass over managed certificates: ReconcileManaged, reconcileManagedCert, storedMaterialRevoked,
-- issueManagedUnderSubjectLock and issuanceKeyFor of internal/ca/managedcert.go. The store of an
-- entry is not the CA's: its Load and Save are arbitrary calls.
use openvox_ca.Prelude.{
  ℕ, suc, Bool, true, false, not, ◌&&◌, Option, none, some, List, [], ◌∷◌, String, if◌then◌else◌,
}
use openvox_ca.Serial.{serial_hex_str}
use openvox_ca.World.Types.{
  Cert, CaCert, Config, parsed, PublicKey, Seconds, Error, not_initialized,
}
use openvox_ca.World.Exec.{World, Exec, Result, ok, err, pure, raise, best_effort, ◌>>=◌, ◌>>◌}
use openvox_ca.World.Locks.{with_lock}
use openvox_ca.World.Storage.{get_cert, save_cert}
use openvox_ca.Crl.Store.{is_revoked_serial}
use openvox_ca.Revoke.Serial.{revoke_serial_locked}
use openvox_ca.Supersede.Sweep.{supersede_replaced_after}
use openvox_ca.Signing.Issue.{LeafRequest, leaf_backdate, issue_leaf_locked}
use openvox_ca.Managed.Key.{generate_key}
use openvox_ca.Managed.Spec.{CertSpec, validate_spec, key_config_for, supersede_after_for}
use openvox_ca.Managed.Decide.{
  Stored, IssueReason, issue_decision, is_due, current_is_this_subjects, stored_key_is_ours,
}
use openvox_ca.Managed.Backoff.{skip_for_save_backoff, record_save_outcome}

-- ManagedCert, with both its functions set.
pub record ManagedCert : Type 0 where
  pub spec : CertSpec
  pub load : Exec (Stored Cert × Stored PublicKey)
  pub save : Cert → PublicKey → Exec (Unit {0})

pub record RevocationState : Type 0 where
  pub is_revoked : Bool
  pub known : Bool

abbrev pub unknown_revocation : RevocationState
unknown_revocation = record { is_revoked = false; known = false }

abbrev pub state_of : Result Bool → RevocationState
state_of (ok b) = record { is_revoked = b; known = true }
state_of (err e) = unknown_revocation

-- storedMaterialRevoked.
unfoldable pub stored_material_revoked : Stored Cert → Exec RevocationState
stored_material_revoked (some (parsed leaf)) w =
    (ok (state_of (is_revoked_serial leaf.serial w).0), (is_revoked_serial leaf.serial w).1)
stored_material_revoked _ w = (ok unknown_revocation, w)

-- The stored key, where issuanceKeyFor returns it.
unfoldable pub reusable_key :
    Config → CertSpec → Option Cert → Stored PublicKey → RevocationState → Option PublicKey
reusable_key c spec (some leaf) (some (parsed key)) revocation =
    if spec.reuse_key
      && stored_key_is_ours c.ca_cert (some leaf) key spec.subject
      && not revocation.is_revoked
      && revocation.known
    then some key
    else none
reusable_key c spec _ _ revocation = none

abbrev pub reuse_or_generate : Config → CertSpec → Option PublicKey → Exec PublicKey
reuse_or_generate c spec (some key) = pure key
reuse_or_generate c spec none = generate_key (key_config_for c spec)

unfoldable pub issuance_key_for :
    Config → CertSpec → Option Cert → Stored PublicKey → RevocationState → Exec PublicKey
unfolding reusable_key
issuance_key_for c spec current key revocation =
    reuse_or_generate c spec (reusable_key c spec current key revocation)

-- What issueManagedUnderSubjectLock asks of issueLeafLocked.
abbrev pub managed_request : CertSpec → PublicKey → LeafRequest
managed_request spec key = record {
  common_name = spec.subject;
  public_key = key;
  sans = spec.sans;
  extensions = [];
  ext_key_usage = spec.ext_key_usage;
  ttl = spec.ttl;
}

abbrev pub restore_record : Config → String → Option Cert → Exec (Unit {0})
restore_record c subject none = pure tt
restore_record c subject (some leaf) =
    if current_is_this_subjects c.ca_cert (some leaf) subject
    then best_effort (save_cert subject (parsed leaf))
    else pure tt

abbrev pub retire_predecessor : Config → CertSpec → Option Cert → RevocationState → Exec (Unit {0})
retire_predecessor c spec none revocation = pure tt
retire_predecessor c spec (some leaf) revocation =
    if current_is_this_subjects c.ca_cert (some leaf) spec.subject && not revocation.is_revoked
    then best_effort (
        supersede_replaced_after c spec.subject (serial_hex_str leaf.serial)
          (supersede_after_for c spec))
    else pure tt

-- What follows the store's answer: the new certificate is revoked and the record of the old one put
-- back where the store refused, else the old certificate is retired.
abbrev pub after_save :
    Config → CertSpec → Option Cert → RevocationState → Cert → Result (Unit {0}) → Exec Bool
after_save c spec current revocation cert (err e) = do
  λ w. record_save_outcome spec.subject w.now true w
  best_effort (with_lock (revoke_serial_locked c (serial_hex_str cert.serial)))
  restore_record c spec.subject current
  raise e
after_save c spec current revocation cert (ok _) = do
  λ w. record_save_outcome spec.subject w.now false w
  retire_predecessor c spec current revocation
  pure true

-- issueManagedUnderSubjectLock.
unfoldable pub issue_managed :
    Config → ManagedCert → Option Cert → Stored PublicKey → RevocationState → Exec Bool
issue_managed c m current stored_key revocation = do
  key ← issuance_key_for c m.spec current stored_key revocation
  cert ← issue_leaf_locked c m.spec.subject (managed_request m.spec key)
  λ w. after_save c m.spec current revocation cert (m.save cert key w).0 (m.save cert key w).1

-- warnIfDisplacingUnderSubjectLock reads the certificate of the name, and only logs.
abbrev pub warn_if_displacing : String → Exec (Unit {0})
warn_if_displacing subject = best_effort (get_cert subject >>= λ _. pure tt)

-- The pass is withheld where time is left of the wait.
abbrev pub unless_withheld : Option ℕ → Exec Bool → Exec Bool
unless_withheld (some left) m = pure false
unless_withheld none m = m

unfoldable pub issue_if_due :
    Config
    → ManagedCert
    → Seconds
    → Stored PublicKey
    → RevocationState
    → IssueReason × Option Cert
    → Exec Bool
unfolding issue_managed
issue_if_due c m now stored_key revocation (reason, current) w =
    if is_due reason
    then unless_withheld (skip_for_save_backoff w.mem m.spec.subject now)
        (do warn_if_displacing m.spec.subject; issue_managed c m current stored_key revocation) w
    else (ok false, w)

-- What runs under the subject's lock.
unfoldable pub reconcile_locked : Config → ManagedCert → Seconds → Exec Bool
unfolding issue_if_due
reconcile_locked c m now = do
  stored ← m.load
  revocation ← stored_material_revoked stored.0
  issue_if_due c m now stored.1 revocation (
      issue_decision stored.0 stored.1 m.spec c.ca_cert (leaf_backdate c) now revocation.is_revoked)

abbrev pub is_initialised : Option CaCert → Option ℕ → Bool
is_initialised (some ca) (some key) = true
is_initialised _ _ = false

abbrev pub if_valid : Result (Unit {0}) → Exec Bool → Exec Bool
if_valid (ok _) m = m
if_valid (err e) m = raise e

-- reconcileManagedCert, at the time that ReconcileManagedCert reads: whether it issued.
unfoldable pub reconcile_managed_cert : Config → ManagedCert → Exec Bool
unfolding reconcile_locked
reconcile_managed_cert c m w =
    if_valid (validate_spec m.spec)
      (if is_initialised c.ca_cert c.ca_key
        then with_lock (reconcile_locked c m w.now)
        else raise not_initialized)
      w

abbrev pub one_if : Result Bool → ℕ → ℕ
one_if (ok true) n = suc n
one_if _ n = n

abbrev pub first_error : Result Bool → Option Error → Option Error
first_error (ok b) later = later
first_error (err e) later = some e

-- ReconcileManaged: how many certificates were issued, the first error, and the world after.
unfoldable pub reconcile_managed : Config → List ManagedCert → World → ℕ × Option Error × World
reconcile_managed c [] w = (0, none, w)
reconcile_managed c (m ∷ ms) w =
    let this = reconcile_managed_cert c m w in
    let rest = reconcile_managed c ms this.1 in
    (one_if this.0 rest.0, first_error this.0 rest.1, rest.2)

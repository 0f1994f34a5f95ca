-- ===== src/Managed/Reconciled.antt =====
-- What a pass over a managed certificate that issues has established: reconcileManagedCert and
-- issuanceKeyFor of internal/ca/managedcert.go.
use openvox_ca.Prelude.{
  ◌≡◌, refl, Bool, true, false, inl, inr, Option, none, Bool-cases, Option-cases, if◌then◌else◌,
}
use openvox_ca.World.Types.{Cert, Config, PublicKey, Seconds, Error, not_initialized}
use openvox_ca.World.Exec.{World, Exec, Result, ok, err, fails, best_effort, raise, ◌>>◌}
use openvox_ca.World.Locks.{with_lock, granted}
use openvox_ca.World.Steps.{bind-ok}
use openvox_ca.Signing.Outcome.{Issued, issue-ok}
use openvox_ca.Signing.Issue.{issue_leaf_locked, leaf_backdate}
use openvox_ca.Managed.Spec.{CertSpec, validate_spec}
use openvox_ca.Managed.Decide.{Stored, IssueReason, issue_decision, is_due}
use openvox_ca.Managed.Reconcile.{
  ManagedCert, RevocationState, stored_material_revoked, issuance_key_for, managed_request,
  after_save, issue_managed, issue_if_due, reconcile_locked, reconcile_managed_cert, if_valid,
  is_initialised, warn_if_displacing, restore_record,
}
use openvox_ca.Managed.Backoff.{record_save_outcome, skip_for_save_backoff}
use openvox_ca.Revoke.Serial.{revoke_serial_locked}
use openvox_ca.Serial.{serial_hex_str}
use openvox_ca.Managed.Reuse.{KeyFor, issuance_key_for-KeyFor}

-- A chain that ends in an error gives no value.
raise_last :
    (m n k : Exec (Unit {0})) (e : Error) (w : World) {b : Bool}
    → ((m >> (n >> (k >> raise e))) w).0 ≡ ok b
    → ⊥
raise_last m n k e w h =
    let (u, _, _, h1) = bind-ok (m w).0 (λ _. n >> (k >> raise e)) (m w).1 h in
    let (v, _, _, h2) = bind-ok (n (m w).1).0 (λ _. k >> raise e) (n (m w).1).1 h1 in
    let at = (n (m w).1).1 in let (x, _, _, h3) = bind-ok (k at).0 (λ _. raise e) (k at).1 h2 in cc

-- Where the store refused the certificate, the pass gives an error.
saved-of :
    (c : Config) (spec : CertSpec) (current : Option Cert) (revocation : RevocationState)
    (cert : Cert) (answer : Result (Unit {0})) (w : World)
    → (after_save c spec current revocation cert answer w).0 ≡ ok true
    → answer ≡ ok tt
saved-of c spec current revocation cert (ok _) w h = refl
saved-of c spec current revocation cert (err e) w h = absurd (
    raise_last (λ v. record_save_outcome spec.subject v.now true v)
      (best_effort (with_lock (revoke_serial_locked c (serial_hex_str cert.serial))))
      (restore_record c spec.subject current) e w h)

-- What was issued and stored from the world `w` on: the world that the key was made or found in is the
-- one that the certificate is issued in, and what that leaves is what the entry's store is given.
pub record Delivered (c : Config) (m : ManagedCert) (current : Option Cert)
    (stored : Stored PublicKey) (revocation : RevocationState) (w : World) : Type 0 where
  pub key : PublicKey
  pub keyed : KeyFor c m.spec current revocation w key
  pub chosen : (issuance_key_for c m.spec current stored revocation w).0 ≡ ok key
  pub cert : Cert
  pub issued :
      let start = (issuance_key_for c m.spec current stored revocation w).1 in
      Issued c m.spec.subject
        (managed_request m.spec key)
        start
        (issue_leaf_locked c m.spec.subject (managed_request m.spec key) start).1
        cert
  pub saved :
      let start = (issuance_key_for c m.spec current stored revocation w).1 in
      (m.save cert key (issue_leaf_locked c m.spec.subject (managed_request m.spec key) start).1).0
      ≡ ok tt

issue_managed-Delivered :
    (c : Config) (m : ManagedCert) (current : Option Cert) (stored : Stored PublicKey)
    (revocation : RevocationState) (w : World)
    → (issue_managed c m current stored revocation w).0 ≡ ok true
    → Delivered c m current stored revocation w
unfolding issue_managed
issue_managed-Delivered c m current stored revocation w h =
    let made = issuance_key_for c m.spec current stored revocation w in
    let (key, has_key, _, h1) = bind-ok made.0 _ made.1 h in
    let issue = issue_leaf_locked c m.spec.subject (managed_request m.spec key) made.1 in
    let (cert, has_cert, _, h2) = bind-ok issue.0 _ issue.1 h1 in
    record {
      key = key;
      keyed = issuance_key_for-KeyFor c m.spec current stored revocation w has_key;
      chosen = has_key;
      cert = cert;
      issued = issue-ok c m.spec.subject (managed_request m.spec key) made.1 has_cert;
      saved =
          saved-of c m.spec current revocation cert (m.save cert key issue.1).0
            (m.save cert key issue.1).1 h2;
    }

-- The part after the decision.
record Due (c : Config) (m : ManagedCert) (now : Seconds) (reason : IssueReason)
    (current : Option Cert) (stored : Stored PublicKey) (revocation : RevocationState) (w : World)
    : Type 0 where
  due : is_due reason ≡ true
  not_withheld : skip_for_save_backoff w.mem m.spec.subject now ≡ none
  delivered : Delivered c m current stored revocation (warn_if_displacing m.spec.subject w).1

issue_if_due-Due :
    (c : Config) (m : ManagedCert) (now : Seconds) (stored : Stored PublicKey)
    (revocation : RevocationState) (reason : IssueReason) (current : Option Cert) (w : World)
    → (issue_if_due c m now stored revocation (reason, current) w).0 ≡ ok true
    → Due c m now reason current stored revocation w
unfolding issue_if_due
issue_if_due-Due c m now stored revocation reason current w = elim (Bool-cases (is_due reason)) [
  | inr fine ↦ rw fine (λ h. cc)
  | inl due ↦ rw due (elim (Option-cases (skip_for_save_backoff w.mem m.spec.subject now)) [
    | inr (left, wait) ↦ rw wait (λ h. cc)
    | inl free ↦ rw free (λ h.
        (let warned = warn_if_displacing m.spec.subject w in
          let (u, _, _, h1) =
            bind-ok warned.0 (λ _. issue_managed c m current stored revocation) warned.1 h in
          record {
            due = due;
            not_withheld = free;
            delivered = issue_managed-Delivered c m current stored revocation warned.1 h1;
          }))
  ])
]

-- The world in which the pass decides: the lock was granted, the entry's store read, and the
-- revocation of the stored certificate looked up.
abbrev pub judged_world : ManagedCert → World → Stored Cert → World
judged_world m w cert = (stored_material_revoked cert (m.load (granted w)).1).1

-- What a pass that issues has established: it read the entry's store under the subject's lock, the
-- decision on what it read was to issue, no wait was in force, and the certificate was issued for
-- the spec and accepted by the store.
pub record Reconciled (c : Config) (m : ManagedCert) (w : World) : Type 0 where
  pub stored : Stored Cert × Stored PublicKey
  pub loaded : (m.load (granted w)).0 ≡ ok stored
  pub revocation : RevocationState
  pub read : (stored_material_revoked stored.0 (m.load (granted w)).1).0 ≡ ok revocation
  pub reason : IssueReason
  pub current : Option Cert
  pub decided :
      issue_decision stored.0 stored.1 m.spec c.ca_cert
        (leaf_backdate c)
        w.now
        revocation.is_revoked
      ≡ (reason, current)
  pub due : is_due reason ≡ true
  pub not_withheld :
      skip_for_save_backoff (judged_world m w stored.0).mem m.spec.subject w.now ≡ none
  pub delivered :
      Delivered c m current stored.1 revocation
        (warn_if_displacing m.spec.subject (judged_world m w stored.0)).1

reconcile_locked-Reconciled :
    (c : Config) (m : ManagedCert) (w : World)
    → (reconcile_locked c m w.now (granted w)).0 ≡ ok true
    → Reconciled c m w
unfolding reconcile_locked
reconcile_locked-Reconciled c m w h =
    let read = m.load (granted w) in
    let (stored, loaded, _, h1) = bind-ok read.0 _ read.1 h in
    let checked = stored_material_revoked stored.0 read.1 in
    let (revocation, known, _, h2) = bind-ok checked.0 _ checked.1 h1 in
    let decision =
      issue_decision stored.0 stored.1 m.spec c.ca_cert (leaf_backdate c) w.now
        revocation.is_revoked in
    let part = issue_if_due-Due c m w.now stored.1 revocation decision.0 decision.1 checked.1 h2 in
    record {
      stored = stored;
      loaded = loaded;
      revocation = revocation;
      read = known;
      reason = decision.0;
      current = decision.1;
      decided = refl;
      due = part.due;
      not_withheld = part.not_withheld;
      delivered = part.delivered;
    }

-- A pass that gives a value has run its body under the lock.
pass_body :
    (r : Result (Unit {0})) (initialised : Bool) (body : Exec Bool) (w : World) {b : Bool}
    → (if_valid r (if initialised then with_lock body else raise not_initialized) w).0 ≡ ok b
    → (body (granted w)).0 ≡ ok b
unfolding with_lock
pass_body (err e) initialised body w = λ h. cc
pass_body (ok _) false body w = λ h. cc
pass_body (ok _) true body w = elim (Bool-cases (fails w)) [
  | inl bad ↦ rw bad (λ h. cc)
  | inr good ↦ rw good (λ h. h)
]

-- A pass over a managed certificate that reports having issued read the entry's store once the
-- subject's lock was granted, decided on what it read that a certificate is due, was not within a
-- wait by the memory in which it decided, and issued for the spec a certificate that the entry's store
-- accepted, each step in the world that the one before it left. Its key is the next that is drawn
-- then, or it is the stored one, of a certificate that this CA had signed for this very subject
-- and that a revocation list which could be read does not name.
pub reconcile_managed_cert-Reconciled :
    (c : Config) (m : ManagedCert) (w : World)
    → (reconcile_managed_cert c m w).0 ≡ ok true
    → Reconciled c m w
unfolding reconcile_managed_cert
reconcile_managed_cert-Reconciled c m w h = reconcile_locked-Reconciled c m w (
    pass_body (validate_spec m.spec) (is_initialised c.ca_cert c.ca_key)
      (reconcile_locked c m w.now) w h)

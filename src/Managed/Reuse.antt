-- ===== src/Managed/Reuse.antt =====
-- Which key a managed certificate is signed for: issuanceKeyFor of internal/ca/managedcert.go.
use openvox_ca.Prelude.{
  ◌≡◌, refl, ap, ◌∙◌, Bool, true, false, not, ◌&&◌, ◌⊎◌, inl, inr, Option, none, some, arith,
  Bool-cases, Option-cases, and_true, String, str_eq_iff, ==_iff,
}
use openvox_ca.World.Types.{Cert, CaCert, Config, no_block, malformed, parsed, PublicKey, KeyKind}
use openvox_ca.World.Exec.{World, ok, fails}
use openvox_ca.Managed.Key.{generate_key, fresh_key, validate_key_config}
use openvox_ca.Managed.Spec.{CertSpec, key_config_for}
use openvox_ca.Managed.Decide.{Stored, stored_key_is_ours}
use openvox_ca.Managed.Reconcile.{RevocationState, reusable_key, issuance_key_for}

-- The key of a certificate that this CA issued for the subject, that the store held beside it, and
-- that the revocation list was read for and does not name.
pub record Reused (c : Config) (spec : CertSpec) (current : Option Cert)
    (revocation : RevocationState) (key : PublicKey) : Type 0 where
  pub asked : spec.reuse_key ≡ true
  pub leaf : Cert
  pub has_leaf : current ≡ some leaf
  pub ca : CaCert
  pub has_ca : c.ca_cert ≡ some ca
  pub ours : leaf.signer ≡ ca.key
  pub named : leaf.common_name ≡ spec.subject
  pub same_key : key.identity ≡ leaf.public_key.identity
  pub known : revocation.known ≡ true
  pub unrevoked : revocation.is_revoked ≡ false

-- A key drawn at random in the world.
abbrev pub Fresh : PublicKey → World → Type 0
Fresh key w = key.identity ≡ w.random w.tick

ours-of :
    (ca : Option CaCert) (leaf : Cert) (key : PublicKey) (subject : String)
    → stored_key_is_ours ca (some leaf) key subject ≡ true
    → (a : CaCert) × (ca ≡ some a)
      × (leaf.signer ≡ a.key)
      × (leaf.common_name ≡ subject)
      × (key.identity ≡ leaf.public_key.identity)
ours-of none leaf key subject h = cc
ours-of (some a) leaf key subject h =
    let (front, same) = and_true _ _ h in
    let (front2, name) = and_true _ _ front in
    let (nonempty, signed) = and_true _ _ front2 in
    (
      a,
      refl,
      (==_iff leaf.signer a.key).0 signed,
      (str_eq_iff leaf.common_name subject).0 name,
      (==_iff key.identity leaf.public_key.identity).0 same,
    )

not-true : (b : Bool) → not b ≡ true → b ≡ false
not-true true h = cc
not-true false h = refl

Reused-when :
    (c : Config) (spec : CertSpec) (leaf : Cert) (key : PublicKey) (revocation : RevocationState)
    → (spec.reuse_key
        && stored_key_is_ours c.ca_cert (some leaf) key spec.subject
        && not revocation.is_revoked
        && revocation.known)
      ≡ true
    → Reused c spec (some leaf) revocation key
Reused-when c spec leaf key revocation h =
    let (front, known) = and_true _ _ h in
    let (front2, clear) = and_true _ _ front in
    let (asked, mine) = and_true _ _ front2 in
    let (ca, has_ca, ours, named, same) = ours-of c.ca_cert leaf key spec.subject mine in
    record {
      asked = asked;
      leaf = leaf;
      has_leaf = refl;
      ca = ca;
      has_ca = has_ca;
      ours = ours;
      named = named;
      same_key = same;
      known = known;
      unrevoked = not-true revocation.is_revoked clear;
    }

Reused-of :
    (c : Config) (spec : CertSpec) (current : Option Cert) (stored : Stored PublicKey)
    (revocation : RevocationState) (key : PublicKey)
    → reusable_key c spec current stored revocation ≡ some key
    → Reused c spec current revocation key
unfolding reusable_key
Reused-of c spec (some leaf) (some (parsed k)) revocation key =
    elim (Bool-cases (
      spec.reuse_key
      && stored_key_is_ours c.ca_cert (some leaf) k spec.subject
      && not revocation.is_revoked
      && revocation.known)) [
        | inr no_reuse ↦ rw no_reuse (λ h. cc)
        | inl reuse ↦ rw reuse (λ h.
            (let same : k ≡ key = ground (arith, h) in
              rw (← same) (Reused-when c spec leaf k revocation reuse)))
      ]
Reused-of c spec none stored revocation key = λ h. cc
Reused-of c spec (some leaf) none revocation key = λ h. cc
Reused-of c spec (some leaf) (some no_block) revocation key = λ h. cc
Reused-of c spec (some leaf) (some malformed) revocation key = λ h. cc

-- The key that is signed is the stored key, under the conditions of its reuse, or was drawn in the
-- call.
abbrev pub KeyFor : Config → CertSpec → Option Cert → RevocationState → World → PublicKey → Type 0
KeyFor c spec current revocation w key = Reused c spec current revocation key ⊎ Fresh key w

Fresh-of :
    (kind : Option KeyKind) (w : World) {key : PublicKey}
    → (fresh_key kind w).0 ≡ ok key
    → Fresh key w
Fresh-of none w = λ h. cc
Fresh-of (some kind) w = elim (Bool-cases (fails w)) [
  | inl bad ↦ rw bad (λ h. cc)
  | inr good ↦ rw good (λ h. ground (arith, h))
]

pub issuance_key_for-KeyFor :
    (c : Config) (spec : CertSpec) (current : Option Cert) (stored : Stored PublicKey)
    (revocation : RevocationState) (w : World) {key : PublicKey}
    → (issuance_key_for c spec current stored revocation w).0 ≡ ok key
    → KeyFor c spec current revocation w key
unfolding issuance_key_for generate_key
issuance_key_for-KeyFor c spec current stored revocation w {key} =
    elim (Option-cases (reusable_key c spec current stored revocation)) [
      | inl no_reuse ↦
          rw no_reuse (λ h. inr (Fresh-of (validate_key_config (key_config_for c spec)) w h))
      | inr (k, reuse) ↦ rw reuse (λ h.
          (let same : k ≡ key = ground (arith, h) in
            inl (Reused-of c spec current stored revocation key (reuse ∙ ap some same))))
    ]

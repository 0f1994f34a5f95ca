-- ===== src/Signing/Evict.antt =====
-- What an eviction lets through (evictRevokedLocked).
use openvox_ca.Prelude.{
  ◌≡◌, refl, Bool, true, false, Option, none, some, Bool-cases, inl, inr, ◌⊎◌, ◌↔◌, if◌then◌else◌,
  String, lookup,
}
use openvox_ca.World.Types.{Cert, Crl, Pem, no_block, malformed, parsed, cert_exists}
use openvox_ca.World.Exec.{World, Exec, ok, fails, ticked, raise, best_effort, ◌>>=◌}
use openvox_ca.World.Storage.{has_cert, get_cert, delete_cert, is_there, found}
use openvox_ca.Crl.Lists.{serial_in_crl}
use openvox_ca.Signing.Held.{
  evict_revoked_locked, held_revoked, stored_cert_locked, revoked_locked, readable,
}

-- The stored entry is a certificate that the list in memory holds.
pub record IsListed (stored : Option (Pem Cert)) (cached : Option Crl) : Type 0 where
  pub cert : Cert
  pub crl : Crl
  pub reads : stored ≡ some (parsed cert)
  pub in_memory : cached ≡ some crl
  pub on_list : serial_in_crl crl cert.serial ≡ true

revoked_locked-none : (cached : Option Crl) → revoked_locked cached none ≡ false
unfolding revoked_locked
revoked_locked-none none = refl
revoked_locked-none (some crl) = refl

revoked_locked_iff :
    (stored : Option (Pem Cert)) (cached : Option Crl)
    → (revoked_locked cached (readable (found stored)) ≡ true) ↔ IsListed stored cached
unfolding revoked_locked
revoked_locked_iff none none = (λ h. cc, λ l. cc)
revoked_locked_iff none (some crl) = (λ h. cc, λ l. cc (l.reads))
revoked_locked_iff (some no_block) none = (λ h. cc, λ l. cc (l.in_memory))
revoked_locked_iff (some malformed) none = (λ h. cc, λ l. cc (l.in_memory))
revoked_locked_iff (some (parsed cert)) none = (λ h. cc, λ l. cc (l.in_memory))
revoked_locked_iff (some no_block) (some crl) = (λ h. cc, λ l. cc (l.reads))
revoked_locked_iff (some malformed) (some crl) = (λ h. cc, λ l. cc (l.reads))
revoked_locked_iff (some (parsed cert)) (some crl) = (
  λ h. record { cert = cert; crl = crl; reads = refl; in_memory = refl; on_list = h },
  λ l. cc (l.reads, l.in_memory, l.on_list),
)

-- The verdict on the certificate that is there.
abbrev verdict : String → Bool → Exec (Unit {0})
verdict subject gone = if gone then best_effort (delete_cert subject) else raise cert_exists

verdict_iff :
    (subject : String) (gone : Bool) (w : World)
    → ((verdict subject gone w).0 ≡ ok tt) ↔ (gone ≡ true)
verdict_iff subject true w = (λ h. refl, λ h. refl)
verdict_iff subject false w = (λ h. cc, λ h. cc)

-- The stored certificate can be read, and the list in memory holds it.
abbrev pub IsRevoked : String → World → Type 0
IsRevoked subject w =
    (fails (ticked w) ≡ false) × IsListed (lookup subject w.store.certs) w.mem.cached_crl

present_iff :
    (subject : String) (w : World)
    → (((held_revoked subject >>= verdict subject) (ticked w)).0 ≡ ok tt) ↔ IsRevoked subject w
unfolding stored_cert_locked get_cert
present_iff subject w = elim (Bool-cases (fails (ticked w))) [
  | inl failed ↦ rw failed (rw (revoked_locked-none w.mem.cached_crl) (λ h. cc, λ h. cc (h.0)))
  | inr fine ↦
      let stored = lookup subject w.store.certs in
      let cached = w.mem.cached_crl in
      let gone = revoked_locked cached (readable (found stored)) in
      let (passes, passing) = verdict_iff subject gone (ticked (ticked w)) in
      let (listed, listing) = revoked_locked_iff stored cached in
      rw fine (λ h. (refl, listed (passes h)), λ (_, l). passing (listing l))
]

-- An eviction lets an issue go on exactly where the check for a certificate failed, none is stored for
-- the subject, or the stored one can be read and is on the list in memory.
pub evict_revoked_locked_iff :
    (subject : String) (w : World)
    → ((evict_revoked_locked subject w).0 ≡ ok tt)
      ↔ ((fails w ≡ true) ⊎ (is_there (lookup subject w.store.certs) ≡ false) ⊎ IsRevoked subject w)
unfolding evict_revoked_locked has_cert
evict_revoked_locked_iff subject w = elim (Bool-cases (fails w)) [
  | inl failed ↦ rw failed (λ h. inl refl, λ h. refl)
  | inr fine ↦ rw fine (elim (Bool-cases (is_there (lookup subject w.store.certs))) [
    | inr absent ↦ rw absent (λ h. inr (inl refl), λ h. refl)
    | inl there ↦ rw there (
      λ h. inr (inr ((present_iff subject w).0 h)),
      λ s. elim s [
        | inl f ↦ cc
        | inr t ↦ elim t [ inl a ↦ cc | inr r ↦ (present_iff subject w).1 r ]
      ],
    )
  ])
]

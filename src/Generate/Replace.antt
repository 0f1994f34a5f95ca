-- ===== src/Generate/Replace.antt =====
-- What a generation revokes to make room (storedCertSerialLocked and GenerateWithOptions of
-- internal/ca/generate.go).
use openvox_ca.Prelude.{
  ◌≡◌, refl, sym, ap, ◌∙◌, Bool, true, false, inl, inr, Option, none, some, arith, Bool-cases,
  String, lookup, if◌then◌else◌,
}
use openvox_ca.Serial.{SerialText, serial_hex_str}
use openvox_ca.World.Types.{Pem, no_block, malformed, parsed, Cert, Config}
use openvox_ca.World.Exec.{World, Exec, Result, ok, pure, fails, ticked, continue, ◌>>=◌, ◌>>◌}
use openvox_ca.World.Locks.{with_lock, granted}
use openvox_ca.World.Steps.{bind-ok}
use openvox_ca.World.Storage.{has_cert, get_cert, found}
use openvox_ca.Revoke.Serial.{revoke_serial_locked}
use openvox_ca.Generate.{
  to_replace, revoke_replaced, load_crl_cache, stored_cert_serial_locked, serial_of_stored,
  is_replacing,
}

-- The world in which a certificate that is to be replaced is read, after the list was loaded.
abbrev pub reading_world : Config → String → World → World
reading_world c subject w = (load_crl_cache c (has_cert subject w).1).1

-- The certificate that was stored for the subject in the world `before` was revoked right after it was
-- read, in the world that the list's lock was granted in.
pub record OldRevoked (c : Config) (subject : String) (before : World) : Type 0 where
  pub old : Cert
  pub held : lookup subject before.store.certs ≡ some (parsed old)
  pub revoked :
      (revoke_serial_locked c (serial_hex_str old.serial) (granted (ticked before))).0 ≡ ok tt

-- What the reading of the old serial found.
abbrev ReadOld : String → SerialText → World → World → Type 0
ReadOld subject serial before after =
    (old : Cert) × (lookup subject before.store.certs ≡ some (parsed old))
    × (serial ≡ serial_hex_str old.serial)
    × (after ≡ ticked before)

found-ReadOld :
    (subject : String) (v : World) (stored : Option (Pem Cert)) {s : SerialText}
    → lookup subject v.store.certs ≡ stored
    → (continue (found stored) serial_of_stored (ticked v)).0 ≡ ok s
    → ReadOld subject s v (continue (found stored) serial_of_stored (ticked v)).1
found-ReadOld subject v none held h = cc
found-ReadOld subject v (some no_block) held h = cc
found-ReadOld subject v (some malformed) held h = cc
found-ReadOld subject v (some (parsed cert)) held h = (cert, held, ground (arith, h), refl)

stored_cert_serial_locked-ReadOld :
    (subject : String) (v : World) {s : SerialText}
    → (stored_cert_serial_locked subject v).0 ≡ ok s
    → ReadOld subject s v (stored_cert_serial_locked subject v).1
unfolding stored_cert_serial_locked get_cert
stored_cert_serial_locked-ReadOld subject v = elim (Bool-cases (fails v)) [
  | inl bad ↦ rw bad (λ h. cc)
  | inr fine ↦ rw fine (λ h. found-ReadOld subject v (lookup subject v.store.certs) refl h)
]

-- What follows the check for a certificate.
abbrev read_if : Config → String → Bool → Bool → Exec (Option SerialText)
read_if c subject there replace =
    if there
    then load_crl_cache c
      >> (if replace
          then (stored_cert_serial_locked subject >>= λ serial. pure (some serial))
          else pure none)
    else pure none

-- A certificate is read to be revoked only where that was asked for.
read_if-ReadOld :
    (c : Config) (subject : String) (there replace : Bool) (w : World) {s : SerialText}
    → (read_if c subject there replace w).0 ≡ ok (some s)
    → (replace ≡ true)
      × ReadOld subject s (load_crl_cache c w).1 (read_if c subject there replace w).1
read_if-ReadOld c subject false replace w h = cc
read_if-ReadOld c subject true false w h =
    let loaded = load_crl_cache c w in
    let (u, _, _, h1) = bind-ok loaded.0 (λ _. pure none) loaded.1 h in cc
read_if-ReadOld c subject true true w h =
    let loaded = load_crl_cache c w in
    let last = λ (serial : SerialText). pure (some serial) in
    let (u, _, e1, h1) =
      bind-ok loaded.0 (λ _. stored_cert_serial_locked subject >>= last) loaded.1 h in
    let read = stored_cert_serial_locked subject loaded.1 in
    let (serial, is, e2, h2) = bind-ok read.0 last read.1 h1 in
    let same : serial ≡ _ = ground (arith, h2) in
    let (old, held, text, after) = stored_cert_serial_locked-ReadOld subject loaded.1 is in
    (
      refl,
      (
        old,
        held,
        sym same ∙ text,
        ap (λ (p : Result (Option SerialText) × World). p.1) (e1 ∙ e2) ∙ after,
      ),
    )

to_replace-ReadOld :
    (c : Config) (subject : String) (replace : Bool) (w : World) {s : SerialText}
    → (to_replace c subject replace w).0 ≡ ok (some s)
    → (replace ≡ true)
      × ReadOld subject s (reading_world c subject w) (to_replace c subject replace w).1
unfolding to_replace
to_replace-ReadOld c subject replace w h =
    let there = has_cert subject w in
    let (b, _, e, h1) = bind-ok there.0 (λ b. read_if c subject b replace) there.1 h in
    let (asked, (old, held, text, after)) = read_if-ReadOld c subject b replace there.1 h1 in
    (asked, (old, held, text, ap (λ (p : Result (Option SerialText) × World). p.1) e ∙ after))

-- A revocation that ran to make room was of the stored certificate.
pub revoke_replaced-OldRevoked :
    (c : Config) (subject : String) (replace : Bool) (old : Option SerialText) (w : World)
    → (to_replace c subject replace w).0 ≡ ok old
    → (revoke_replaced c old (to_replace c subject replace w).1).0 ≡ ok tt
    → is_replacing old ≡ true
    → (replace ≡ true) × OldRevoked c subject (reading_world c subject w)
unfolding with_lock
revoke_replaced-OldRevoked c subject replace none w asked h k = cc
revoke_replaced-OldRevoked c subject replace (some serial) w asked h k =
    let found = (to_replace c subject replace w).1 in
    let (given, (old, held, text, after)) = to_replace-ReadOld c subject replace w asked in
    elim (Bool-cases (fails found)) [
      | inl bad ↦ cc (rw bad at h)
      | inr fine ↦
          let done : (revoke_serial_locked c serial (granted found)).0 ≡ ok tt = rw fine at h in
          (given, record { old = old; held = held; revoked = rw (text, after) at done })
    ]

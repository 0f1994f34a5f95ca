-- ===== src/Revoke/Checked.antt =====
-- What a revocation by serial number has established before it revokes (RevokeSerial and
-- revokeSerialCheckedLocked).
use openvox_ca.Prelude.{
  ◌≡◌, refl, ap, sym, ◌∙◌, Bool, false, Option, none, some, arith, ℤ, String, lookup, codes_eq_iff,
}
use openvox_ca.Serial.{SerialText, set_string, serial_hex_str, normalise_serial}
use openvox_ca.Serial.Canonical.{StandsFor, normalise_serial-canonical}
use openvox_ca.World.Types.{Cert, parsed, Config, Store, Error}
use openvox_ca.World.Exec.{World, Exec, Result, ok, err, fails}
use openvox_ca.World.Locks.{with_crl_lock_counted, granted}
use openvox_ca.World.Storage.{subject_for_serial, subject_of, get_cert}
use openvox_ca.World.Steps.{bind-ok}
use openvox_ca.Crl.Chain.{IsReady}
use openvox_ca.Revoke.Serial.{
  revoke_serial_locked, stored_cert_serial, live_guard, go_on, unknown_serial,
  revoke_serial_checked_locked, revoke_normalised, revoke_serial,
}
use openvox_ca.Revoke.Outcome.{SerialRevoked, revoke_serial_locked-ok}

-- The serial is that of the certificate stored for the subject.
abbrev pub IsLive : String → SerialText → Store → Type 0
IsLive subject serial s =
    (cert : Cert) × (lookup subject s.certs ≡ some (parsed cert))
    × (serial_hex_str cert.serial ≡ serial)

-- What a revocation of `serial` that succeeds has found in the store `s`.
pub record Checked (serial : SerialText) (force : Bool) (s : Store) : Type 0 where
  pub canon : SerialText
  pub canonical : normalise_serial serial ≡ some canon
  pub subject : String
  pub issued : subject_of canon s.inventory ≡ ok subject
  pub spares_live : force ≡ false → ¬ IsLive subject canon s

found-subject :
    (canon : SerialText) (w : World) {subject : String}
    → normalise_serial canon ≡ some canon
    → (subject_for_serial canon w).0 ≡ ok subject
    → (subject_of canon w.store.inventory ≡ ok subject)
      × ((subject_for_serial canon w).1.store ≡ w.store)
unfolding subject_for_serial
found-subject canon w h = rw h (λ k. (ground arith, ground arith))

live-serial :
    (subject : String) (w : World) (cert : Cert)
    → lookup subject w.store.certs ≡ some (parsed cert)
    → fails w ≡ false
    → (stored_cert_serial subject w).0 ≡ ok (serial_hex_str cert.serial)
unfolding stored_cert_serial get_cert
live-serial subject w cert held fine = rw (fine, held) refl

-- The guard lets a revocation that is not forced go on only past a certificate of another serial.
guard-IsLive :
    (canon : SerialText) (subject : String) (w : World)
    → live_guard canon false (stored_cert_serial subject w).0 ≡ none
    → ¬ IsLive subject canon w.store
unfolding stored_cert_serial get_cert live_guard
guard-IsLive canon subject w passes (cert, held, same) =
    ground (arith, passes, held, same, codes_eq_iff (serial_hex_str cert.serial) canon)

guarded :
    (o : Option Error) (m : Exec (Unit {0})) (w : World)
    → (go_on o m w).0 ≡ ok tt
    → (o ≡ none) × (go_on o m w ≡ m w)
guarded none m w h = (refl, refl)
guarded (some e) m w h = cc

known :
    (r : Result String) (w : World) {subject : String}
    → (unknown_serial r w).0 ≡ ok subject
    → (r ≡ ok subject) × ((unknown_serial r w).1 ≡ w)
known (ok s) w h = (h, refl)
known (err e) w h = ground (arith, h)

stored-store : (subject : String) (w : World) → (stored_cert_serial subject w).1.store ≡ w.store
unfolding stored_cert_serial get_cert
stored-store subject w = ground arith

-- What a revocation under the lock has found and done.
abbrev CheckedRevoked : Config → SerialText → Bool → World → World → Type 0
CheckedRevoked c canon force w w' =
    (subject : String) × (subject_of canon w.store.inventory ≡ ok subject)
    × (force ≡ false → ¬ IsLive subject canon w.store)
    × ((n : ℤ) × (set_string canon ≡ some n) × SerialRevoked c n w w')

SerialRevoked-from :
    {c : Config} {n : ℤ} {w v u : World}
    → v.store ≡ w.store
    → SerialRevoked c n v u
    → SerialRevoked c n w u
SerialRevoked-from {c} {n} {w} {v} {u} same r = record {
  on_list = λ m. rw (← same) (r.on_list m);
  rest = rw (← same) r.rest;
}

spares :
    (canon : SerialText) (subject : String) (force : Bool) (w v : World)
    → v.store ≡ w.store
    → live_guard canon force (stored_cert_serial subject v).0 ≡ none
    → force ≡ false
    → ¬ IsLive subject canon w.store
spares canon subject force w v same passes unforced live =
    guard-IsLive canon subject v (rw (← unforced) passes) (rw same live)

checked-ok :
    (c : Config) (canon : SerialText) (force : Bool) (w : World)
    → IsReady c
    → normalise_serial canon ≡ some canon
    → (revoke_serial_checked_locked c canon force w).0 ≡ ok tt
    → CheckedRevoked c canon force w (revoke_serial_checked_locked c canon force w).1
unfolding revoke_serial_checked_locked
checked-ok c canon force w ready canonical h =
    let find = subject_for_serial canon w in
    let asked = unknown_serial find.0 find.1 in
    let rest = λ (subject : String) (v : World).
      go_on (live_guard canon force (stored_cert_serial subject v).0) (revoke_serial_locked c canon)
        (stored_cert_serial subject v).1 in
    let (subject, answer, to_rest, h1) = bind-ok asked.0 rest asked.1 h in
    let (found, same_world) = known find.0 find.1 answer in
    let (issued, unchanged) = found-subject canon w canonical found in
    let v = asked.1 in
    let start = ap (λ (u : World). u.store) same_world ∙ unchanged in
    let (passes, goes) =
      guarded (live_guard canon force (stored_cert_serial subject v).0)
        (revoke_serial_locked c canon) (stored_cert_serial subject v).1 h1 in
    let (n, number, revoked) =
      revoke_serial_locked-ok c canon (stored_cert_serial subject v).1 ready
        (ap (λ (p : Result (Unit {0}) × World). p.0) (sym goes) ∙ h1) in
    (
      subject,
      issued,
      spares canon subject force w v start passes,
      (n, number, rw (to_rest, goes) (SerialRevoked-from (stored-store subject v ∙ start) revoked)),
    )

lock-ok :
    (m : Exec (Unit {0})) (w : World)
    → (with_crl_lock_counted m w).0 ≡ ok tt
    → ((m (granted w)).0 ≡ ok tt) × (with_crl_lock_counted m w ≡ m (granted w))
unfolding with_crl_lock_counted
lock-ok m w h = (ground arith, ground arith)

-- A revocation by serial number, by a CA that has its certificate and key, that returns no error was
-- of a serial that normalises and that the inventory has a subject for when the lock is granted,
-- whether it is forced or not; unless it is forced, that serial is not the one of the certificate
-- stored for that subject; and the stored list has gained the number that the given text stands for
-- in base 16, kept all others and gained no others.
pub revoke_serial-Checked :
    (c : Config) (serial : SerialText) (force : Bool) (w : World)
    → IsReady c
    → (revoke_serial c serial force w).0 ≡ ok tt
    → Checked serial force (granted w).store
      × ((n : ℤ) × StandsFor serial n
          × SerialRevoked c n (granted w) (revoke_serial c serial force w).1)
unfolding revoke_serial
revoke_serial-Checked c serial force w ready h = go (normalise_serial serial) refl h
  where
    go :
        (o : Option SerialText)
        → normalise_serial serial ≡ o
        → (revoke_normalised c force o w).0 ≡ ok tt
        → Checked serial force (granted w).store
          × ((n : ℤ) × StandsFor serial n
              × SerialRevoked c n (granted w) (revoke_normalised c force o w).1)
    go none e k = cc
    go (some canon) e k =
        let (done, runs) = lock-ok (revoke_serial_checked_locked c canon force) w k in
        let (m, value, printed, reads, stays) = normalise_serial-canonical serial e in
        let (subject, issued, spared, (n, number, revoked)) =
          checked-ok c canon force (granted w) ready stays done in
        (
          record {
            canon = canon;
            canonical = e;
            subject = subject;
            issued = issued;
            spares_live = spared;
          },
          (n, value ∙ sym reads ∙ number, rw runs revoked),
        )

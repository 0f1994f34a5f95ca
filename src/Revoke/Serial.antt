-- ===== src/Revoke/Serial.antt =====
-- Revocation of one serial number: revokeSerialLocked, RevokeSerial, revokeSerialCheckedLocked and
-- storedCertSerial of internal/ca/revoke.go.
use openvox_ca.Prelude.{
  Bool, not, ◌&&◌, Option, none, some, List, [], ◌∷◌, ◌++◌, ℤ, ◌==ℤ◌, String, codes_eq,
  if◌then◌else◌,
}
use openvox_ca.Serial.{SerialText, set_string, serial_hex_str, normalise_serial}
use openvox_ca.World.Types.{
  RevocationEntry, Seconds, Config, Cert, Pem, parsed, no_block, malformed, Error, malformed_serial,
  not_exist, serial_unknown, serial_is_current, serial_state_unknown, bad_cert_pem,
}
use openvox_ca.World.Exec.{
  World, Exec, Result, ok, err, raise, modify_mem, best_effort, ◌>>=◌, ◌>>◌,
}
use openvox_ca.World.Locks.{with_crl_lock_counted, count_crl_failure}
use openvox_ca.World.Storage.{mark_cert_revoked, get_cert, subject_for_serial}
use openvox_ca.Crl.Store.{StoredCrl, read_stored_crl, counted, evict_ocsp}
use openvox_ca.Crl.Sign.{sign_crl_locked}

-- markCertRevokedIndex: a failure is only logged.
unfoldable pub mark_cert_revoked_index : SerialText → Seconds → Exec (Unit {0})
unfolding mark_cert_revoked
mark_cert_revoked_index serial at = best_effort (mark_cert_revoked serial at)

-- The revocation time of the first entry with the serial.
unfoldable pub first_time : ℤ → List RevocationEntry → Option Seconds
first_time n [] = none
first_time n (e ∷ es) = if e.serial ==ℤ n then some e.revocation_time else first_time n es

abbrev pub entry_now : ℤ → World → RevocationEntry
entry_now n w = record { serial = n; revocation_time = w.now }

-- Appending the entry, signing, and what follows a list that was written.
unfoldable pub append_entry : Config → SerialText → ℤ → StoredCrl → Exec (Unit {0})
append_entry c serial n stored w =
    (do
      sign_crl_locked c (some stored) (stored.own.entries ++ entry_now n w ∷ [])
      mark_cert_revoked_index serial w.now
      modify_mem (λ m. record m { ocsp_cache = evict_ocsp n m.ocsp_cache }))
      w

abbrev pub add_unless : Config → SerialText → ℤ → StoredCrl → Option Seconds → Exec (Unit {0})
add_unless c serial n stored (some at) = mark_cert_revoked_index serial at
add_unless c serial n stored none = append_entry c serial n stored

unfoldable pub revoke_number : Config → SerialText → ℤ → Exec (Unit {0})
revoke_number c serial n = do
  stored ← read_stored_crl c
  add_unless c serial n stored (first_time n stored.own.entries)

abbrev pub revoke_parsed : Config → SerialText → Option ℤ → Exec (Unit {0})
revoke_parsed c serial none = counted (raise malformed_serial)
revoke_parsed c serial (some n) = revoke_number c serial n

unfoldable pub revoke_serial_locked : Config → SerialText → Exec (Unit {0})
unfolding counted revoke_number
revoke_serial_locked c serial = revoke_parsed c serial (set_string serial)

abbrev pub serial_of : Pem Cert → Result SerialText
serial_of (parsed cert) = ok (serial_hex_str cert.serial)
serial_of no_block = err bad_cert_pem
serial_of malformed = err bad_cert_pem

-- storedCertSerial.
unfoldable pub stored_cert_serial : String → Exec SerialText
unfolding get_cert
stored_cert_serial subject = do pem ← get_cert subject; λ w. (serial_of pem, w)

-- The `switch` on the stored certificate: `none` lets the revocation go on.
unfoldable pub live_guard : SerialText → Bool → Result SerialText → Option Error
live_guard serial force (err not_exist) = none
live_guard serial force (err e) = if force then none else some serial_state_unknown
live_guard serial force (ok live) =
    if codes_eq live serial && not force then some serial_is_current else none

abbrev pub go_on : Option Error → Exec (Unit {0}) → Exec (Unit {0})
go_on none m w = m w
go_on (some e) m w = (err e, w)

-- An inventory that has no such entry is the caller's mistake; one that cannot be read is counted.
abbrev pub unknown_serial : Result String → World → Result String × World
unknown_serial (err not_exist) w = (err serial_unknown, w)
unknown_serial (err e) w = (err e, record w { mem = count_crl_failure w.mem })
unknown_serial (ok subject) w = (ok subject, w)

unfoldable pub revoke_serial_checked_locked : Config → SerialText → Bool → Exec (Unit {0})
revoke_serial_checked_locked c serial force = do
  subject ← λ w. unknown_serial (subject_for_serial serial w).0 (subject_for_serial serial w).1
  λ w.
      go_on (live_guard serial force (stored_cert_serial subject w).0)
        (revoke_serial_locked c serial) (stored_cert_serial subject w).1

abbrev pub revoke_normalised : Config → Bool → Option SerialText → Exec (Unit {0})
revoke_normalised c force none = raise malformed_serial
revoke_normalised c force (some serial) =
    with_crl_lock_counted (revoke_serial_checked_locked c serial force)

-- RevokeSerial.
unfoldable pub revoke_serial : Config → SerialText → Bool → Exec (Unit {0})
unfolding with_crl_lock_counted
revoke_serial c serial force = revoke_normalised c force (normalise_serial serial)

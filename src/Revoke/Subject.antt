-- ===== src/Revoke/Subject.antt =====
-- Revocation by subject: revokeLocked, findSerialForSubject and Revoke of internal/ca/revoke.go.
use openvox_ca.Prelude.{String, if◌then◌else◌}
use openvox_ca.Serial.{SerialText}
use openvox_ca.Subject.{validate_subject}
use openvox_ca.World.Types.{Config, not_exist, subject_unknown, invalid_subject}
use openvox_ca.World.Exec.{World, Exec, Result, ok, err, raise, ◌>>=◌}
use openvox_ca.World.Locks.{with_lock, with_crl_lock_counted, count_crl_failure}
use openvox_ca.World.Storage.{latest_serial_for_subject}
use openvox_ca.Revoke.Serial.{revoke_serial_locked}
use openvox_ca.Supersede.Sweep.{retire_superseded_for_subject_locked}

-- A subject without an entry is the caller's mistake; an inventory that cannot be read is counted.
abbrev pub unknown_subject : Result SerialText × World → Result SerialText × World
unknown_subject (ok s, w) = (ok s, w)
unknown_subject (err not_exist, w) = (err subject_unknown, w)
unknown_subject (err e, w) = (err e, record w { mem = count_crl_failure w.mem })

-- The predecessors inside their window go first, whatever becomes of the subject's own serial.
unfoldable pub revoke_locked : Config → String → Exec (Unit {0})
revoke_locked c subject w =
    (do
      serial ← λ v. unknown_subject (latest_serial_for_subject subject v)
      revoke_serial_locked c serial)
      (retire_superseded_for_subject_locked c subject w)

unfoldable pub revoke : Config → String → Exec (Unit {0})
unfolding with_lock with_crl_lock_counted
revoke c subject =
    if validate_subject subject
    then with_lock (with_crl_lock_counted (revoke_locked c subject))
    else raise invalid_subject

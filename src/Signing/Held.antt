-- ===== src/Signing/Held.antt =====
-- What a subject already holds: evictRevokedLocked, checkDuplicateLocked, storedCertLocked and
-- revokedLocked of internal/ca/signing.go.
use openvox_ca.Prelude.{Bool, false, Option, none, some, String, if◌then◌else◌}
use openvox_ca.World.Types.{
  Cert, Crl, Pem, no_block, malformed, parsed, Config, DuplicateState, requested, signed, revoked,
  cert_exists, duplicate_cert,
}
use openvox_ca.World.Exec.{World, Exec, Result, ok, err, pure, raise, best_effort, ◌>>=◌}
use openvox_ca.World.Storage.{has_cert, get_cert, delete_cert, cert_exists_in, csr_exists_in}
use openvox_ca.Crl.Lists.{serial_in_crl}

abbrev pub readable : Result (Pem Cert) → Option Cert
readable (err e) = none
readable (ok no_block) = none
readable (ok malformed) = none
readable (ok (parsed cert)) = some cert

unfoldable pub stored_cert_locked : String → World → Option Cert × World
unfolding get_cert
stored_cert_locked subject w = (readable (get_cert subject w).0, (get_cert subject w).1)

unfoldable pub revoked_locked : Option Crl → Option Cert → Bool
revoked_locked (some crl) (some cert) = serial_in_crl crl cert.serial
revoked_locked _ _ = false

-- Whether the stored certificate is on the cached list.
abbrev pub held_revoked : String → Exec Bool
held_revoked subject w =
    let (held, v) = stored_cert_locked subject w in (ok (revoked_locked v.mem.cached_crl held), v)

unfoldable pub evict_revoked_locked : String → Exec (Unit {0})
evict_revoked_locked subject = do
  there ← has_cert subject
  (if there
      then (held_revoked subject >>= λ gone.
          if gone then best_effort (delete_cert subject) else raise cert_exists)
      else pure tt)

-- The state found, if any: a certificate goes before a request.
unfoldable pub held_state : String → Exec (Option DuplicateState)
held_state subject = do
  has_cert ← cert_exists_in subject
  (if has_cert
      then (held_revoked subject >>= λ gone. pure (some (if gone then revoked else signed)))
      else (csr_exists_in subject >>= λ has_csr. pure (if has_csr then some requested else none)))

abbrev pub judge_held : Config → Option DuplicateState → Exec (Unit {0})
judge_held c none = pure tt
judge_held c (some state) =
    if c.allow_duplicate_certs then pure tt else raise (duplicate_cert state)

unfoldable pub check_duplicate_locked : Config → String → Exec (Unit {0})
unfolding held_state
check_duplicate_locked c subject = do held ← held_state subject; judge_held c held

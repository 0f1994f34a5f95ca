-- ===== src/Signing/Request.antt =====
-- The operations on a subject's request and certificate: SaveRequest, DeleteRequest and Clean of
-- internal/ca/signing.go. CheckAutosign of autosign.go is a parameter.
use openvox_ca.Prelude.{Bool, true, false, not, String, str_eq, if◌then◌else◌}
use openvox_ca.Subject.{validate_subject}
use openvox_ca.World.Types.{
  Csr, Pem, no_block, malformed, parsed, Config, invalid_subject, bad_csr_pem, bad_csr,
  bad_csr_signature, csr_name_mismatch, no_csr, not_exist, not_found,
}
use openvox_ca.World.Exec.{World, Exec, Result, ok, err, pure, raise, best_effort, ◌>>=◌, ◌>>◌}
use openvox_ca.World.Locks.{with_lock}
use openvox_ca.World.Storage.{has_cert, has_csr, save_csr, delete_cert, delete_csr}
use openvox_ca.Revoke.Subject.{revoke_locked}
use openvox_ca.Signing.Held.{check_duplicate_locked}
use openvox_ca.Signing.Issue.{sign_with_duration}

-- The checks before anything is written.
unfoldable pub submitted_csr : String → Pem Csr → Result Csr
submitted_csr subject no_block = err bad_csr_pem
submitted_csr subject malformed = err bad_csr
submitted_csr subject (parsed csr) =
    if not csr.signature_ok
    then err bad_csr_signature
    else if str_eq csr.common_name subject
    then ok csr
    else err csr_name_mismatch

abbrev pub sign_if : Config → String → Bool → Exec Bool
sign_if c subject true = sign_with_duration c subject 0 >> pure true
sign_if c subject false = pure false

-- What runs under the subject's lock.
unfoldable pub save_request_locked : Config → (Csr → Exec Bool) → String → Csr → Exec Bool
save_request_locked c check_autosign subject csr = do
  check_duplicate_locked c subject
  save_csr subject (parsed csr)
  should_sign ← check_autosign csr
  sign_if c subject should_sign

abbrev pub with_submitted : Result Csr → (Csr → Exec Bool) → Exec Bool
with_submitted (err e) body w = (err e, w)
with_submitted (ok csr) body w = body csr w

-- SaveRequest: whether the request was signed at once.
unfoldable pub save_request : Config → (Csr → Exec Bool) → String → Pem Csr → Exec Bool
save_request c check_autosign subject pem =
    if validate_subject subject
    then with_submitted (submitted_csr subject pem)
        (λ csr. with_lock (save_request_locked c check_autosign subject csr))
    else raise invalid_subject

abbrev pub no_csr_of : Result (Unit {0}) × World → Result (Unit {0}) × World
no_csr_of (ok _, w) = (ok tt, w)
no_csr_of (err not_exist, w) = (err no_csr, w)
no_csr_of (err e, w) = (err e, w)

-- DeleteRequest.
unfoldable pub delete_request : String → Exec (Unit {0})
delete_request subject =
    if validate_subject subject
    then with_lock (λ w. no_csr_of (delete_csr subject w))
    else raise invalid_subject

-- The certificate goes even where its revocation failed.
abbrev pub clean_cert : Config → String → Bool → Exec (Unit {0})
clean_cert c subject false = pure tt
clean_cert c subject true =
    best_effort (with_lock (revoke_locked c subject)) >> best_effort (delete_cert subject)

abbrev pub clean_csr : String → Bool → Exec (Unit {0})
clean_csr subject false = pure tt
clean_csr subject true = best_effort (delete_csr subject)

abbrev pub clean_held : Config → String → Bool → Bool → Exec (Unit {0})
clean_held c subject false false = raise not_found
clean_held c subject cert csr = clean_cert c subject cert >> clean_csr subject csr

unfoldable pub clean_locked : Config → String → Exec (Unit {0})
clean_locked c subject = do
  cert ← has_cert subject
  csr ← has_csr subject
  clean_held c subject cert csr

-- Clean.
unfoldable pub clean : Config → String → Exec (Unit {0})
clean c subject =
    if validate_subject subject then with_lock (clean_locked c subject) else raise invalid_subject

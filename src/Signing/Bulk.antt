-- ===== src/Signing/Bulk.antt =====
-- The bulk operations: SignMultiple, SignAll and CleanMultiple of internal/ca/signing.go, ListCSRs of
-- internal/storage/storage.go. A failure for one name does not stop the others.
use openvox_ca.Prelude.{Bool, true, List, [], ◌∷◌, String, Map}
use openvox_ca.World.Types.{Cert, Config, Error}
use openvox_ca.World.Exec.{World, Exec, Result, ok, err}
use openvox_ca.World.Storage.{has_csr, read_store}
use openvox_ca.Signing.Issue.{sign_with_ttl}
use openvox_ca.Signing.Request.{clean}

pub record SignResult : Type 0 where
  pub signed : List String
  pub no_csr : List String
  pub signing_errors : List String

pub data SignReport : Type 0 where
  was_signed without_csr with_error : SignReport

abbrev pub signing_report : Result Cert → SignReport
signing_report (ok cert) = was_signed
signing_report (err e) = with_error

-- Sign is SignWithTTL without a lifetime.
abbrev pub sign_present : Config → String → Result Bool → World → SignReport × World
sign_present c subject (ok true) w =
    (signing_report (sign_with_ttl c subject 0 w).0, (sign_with_ttl c subject 0 w).1)
sign_present c subject _ w = (without_csr, w)

unfoldable pub sign_one : Config → String → World → SignReport × World
sign_one c subject w = sign_present c subject (has_csr subject w).0 (has_csr subject w).1

abbrev pub add_report : String → SignReport → SignResult → SignResult
add_report subject was_signed r = record r { signed = subject ∷ r.signed }
add_report subject without_csr r = record r { no_csr = subject ∷ r.no_csr }
add_report subject with_error r = record r { signing_errors = subject ∷ r.signing_errors }

-- SignMultiple.
unfoldable pub sign_multiple : Config → List String → World → SignResult × World
sign_multiple c [] w = (record { signed = []; no_csr = []; signing_errors = [] }, w)
sign_multiple c (s ∷ subjects) w =
    let this = sign_one c s w in
    let rest = sign_multiple c subjects this.1 in (add_report s this.0 rest.0, rest.1)

unfoldable pub keys_of {ℓ} : {A : Type ℓ} → Map A → List String
keys_of [] = []
keys_of ((k, a) ∷ m) = k ∷ keys_of m

unfoldable pub list_csrs : Exec (List String)
unfolding keys_of
list_csrs = read_store (λ s. ok (keys_of s.csrs))

abbrev pub sign_listed : Config → Result (List String) × World → Result SignResult × World
sign_listed c (err e, w) = (err e, w)
sign_listed c (ok subjects, w) = (ok (sign_multiple c subjects w).0, (sign_multiple c subjects w).1)

-- SignAll.
unfoldable pub sign_all : Config → Exec SignResult
unfolding sign_multiple list_csrs
sign_all c w = sign_listed c (list_csrs w)

pub record CleanResult : Type 0 where
  pub cleaned : List String
  pub not_found : List String
  pub clean_errors : List String

abbrev pub add_clean : String → Result (Unit {0}) → CleanResult → CleanResult
add_clean subject (ok _) r = record r { cleaned = subject ∷ r.cleaned }
add_clean subject (err Error.not_found) r = record r { not_found = subject ∷ r.not_found }
add_clean subject (err _) r = record r { clean_errors = subject ∷ r.clean_errors }

-- CleanMultiple.
unfoldable pub clean_multiple : Config → List String → World → CleanResult × World
clean_multiple c [] w = (record { cleaned = []; not_found = []; clean_errors = [] }, w)
clean_multiple c (s ∷ subjects) w =
    let this = clean c s w in
    let rest = clean_multiple c subjects this.1 in (add_clean s this.0 rest.0, rest.1)

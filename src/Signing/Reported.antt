-- ===== src/Signing/Reported.antt =====
-- What SignMultiple of internal/ca/signing.go reports.
use openvox_ca.Prelude.{
  ℕ, suc, ◌+◌, ◌≡◌, ◌≢◌, refl, Bool, true, false, List, [], ◌∷◌, String, str_eq, arith,
  if◌then◌else◌,
}
use openvox_ca.World.Types.{Cert, Config, Error}
use openvox_ca.World.Exec.{World, Result, ok, err}
use openvox_ca.World.Storage.{has_csr}
use openvox_ca.Signing.Issue.{sign_with_ttl}
use openvox_ca.Signing.Bulk.{
  SignResult, signing_report, sign_present, sign_one, add_report, sign_multiple,
}

-- How often a name is in a list.
unfoldable pub tally : String → List String → ℕ
tally s [] = 0
tally s (k ∷ ks) = if str_eq s k then suc (tally s ks) else tally s ks

-- A run over the names, from one world to another: each name is handled in the world that the one
-- before it left, and what it left is the world of the next. A name that the lookup finds no request
-- for is passed over; for any other one a signing was tried, which gave a certificate or an error.
pub data Run (c : Config) : List String → World → SignResult → World → Type 0 where
  finished : (w : World) → Run c [] w (record { signed = []; no_csr = []; signing_errors = [] }) w
  signs :
      (s : String) (cert : Cert) {subjects : List String} {w w' : World} {r : SignResult}
      → (has_csr s w).0 ≡ ok true
      → (sign_with_ttl c s 0 (has_csr s w).1).0 ≡ ok cert
      → Run c subjects (sign_with_ttl c s 0 (has_csr s w).1).1 r w'
      → Run c (s ∷ subjects) w (record r { signed = s ∷ r.signed }) w'
  fails_to :
      (s : String) (e : Error) {subjects : List String} {w w' : World} {r : SignResult}
      → (has_csr s w).0 ≡ ok true
      → (sign_with_ttl c s 0 (has_csr s w).1).0 ≡ err e
      → Run c subjects (sign_with_ttl c s 0 (has_csr s w).1).1 r w'
      → Run c (s ∷ subjects) w (record r { signing_errors = s ∷ r.signing_errors }) w'
  passes_over :
      (s : String) {subjects : List String} {w w' : World} {r : SignResult}
      → (has_csr s w).0 ≢ ok true
      → Run c subjects (has_csr s w).1 r w'
      → Run c (s ∷ subjects) w (record r { no_csr = s ∷ r.no_csr }) w'

pub record Reported (c : Config) (subjects : List String) (w : World) (r : SignResult) (w' : World)
    : Type 0 where
  pub run : Run c subjects w r w'
  pub accounted :
      (s : String)
      → tally s r.signed + tally s r.no_csr + tally s r.signing_errors ≡ tally s subjects

-- A run reports each name once for each time that it is asked.
Run-accounted :
    (c : Config) {subjects : List String} {w w' : World} {r : SignResult}
    → Run c subjects w r w'
    → (s : String)
    → tally s r.signed + tally s r.no_csr + tally s r.signing_errors ≡ tally s subjects
unfolding tally
Run-accounted c (finished w) t = refl
Run-accounted c (signs s cert there signed rest) t =
    let before = Run-accounted c rest t in ground (arith, before)
Run-accounted c (fails_to s e there failed rest) t =
    let before = Run-accounted c rest t in ground (arith, before)
Run-accounted c (passes_over s absent rest) t =
    let before = Run-accounted c rest t in ground (arith, before)

-- What is reported for one name, and the world left, decide how the run goes on.
one-Run :
    (c : Config) (s : String) (subjects : List String) (w : World)
    → let this = sign_one c s w in
      let rest = sign_multiple c subjects this.1 in
      Run c subjects this.1 rest.0 rest.1
      → Run c (s ∷ subjects) w (add_report s this.0 rest.0) rest.1
unfolding sign_one
one-Run c s subjects w = go (has_csr s w).0 refl
  where
    signed_or_not :
        (r : Result Cert)
        → (has_csr s w).0 ≡ ok true
        → (sign_with_ttl c s 0 (has_csr s w).1).0 ≡ r
        → let v = (sign_with_ttl c s 0 (has_csr s w).1).1 in
          let rest = sign_multiple c subjects v in
          Run c subjects v rest.0 rest.1
          → Run c (s ∷ subjects) w (add_report s (signing_report r) rest.0) rest.1
    signed_or_not (ok cert) there is run = signs s cert there is run
    signed_or_not (err e) there is run = fails_to s e there is run

    go :
        (there : Result Bool)
        → (has_csr s w).0 ≡ there
        → let this = sign_present c s there (has_csr s w).1 in
          let rest = sign_multiple c subjects this.1 in
          Run c subjects this.1 rest.0 rest.1
          → Run c (s ∷ subjects) w (add_report s this.0 rest.0) rest.1
    go (ok true) is run = signed_or_not (sign_with_ttl c s 0 (has_csr s w).1).0 is refl run
    go (ok false) is run = passes_over s (λ h. cc (is, h)) run
    go (err e) is run = passes_over s (λ h. cc (is, h)) run

sign_multiple-Run :
    (c : Config) (subjects : List String) (w : World)
    → Run c subjects w (sign_multiple c subjects w).0 (sign_multiple c subjects w).1
unfolding sign_multiple
sign_multiple-Run c [] w = finished w
sign_multiple-Run c (s ∷ subjects) w =
    one-Run c s subjects w (sign_multiple-Run c subjects (sign_one c s w).1)

-- The names are handled one after the other, each in the world that the one before it left, whatever
-- became of that one, and the last one's world is what is left: a name is reported as signed where a
-- certificate was then signed for it, as failed where the signing gave an error, and as without a
-- request where none was found. So each name is reported exactly once for each time that it is asked.
pub sign_multiple-Reported :
    (c : Config) (subjects : List String) (w : World)
    → Reported c subjects w (sign_multiple c subjects w).0 (sign_multiple c subjects w).1
sign_multiple-Reported c subjects w =
    let run = sign_multiple-Run c subjects w in
    record { run = run; accounted = Run-accounted c run }

-- ===== src/Signing/Duplicate.antt =====
-- The duplicate-certificate policy (checkDuplicateLocked and SaveRequest).
use openvox_ca.Prelude.{
  ◌≡◌, refl, ap, ◌∙◌, Bool, true, false, Option, none, some, arith, Bool-cases, inl, inr, ◌⊎◌, ◌≢◌,
  String, lookup,
}
use openvox_ca.Subject.{validate_subject}
use openvox_ca.World.Types.{Csr, Pem, Config, Store, DuplicateState}
use openvox_ca.World.Exec.{World, Exec, Result, ok, err, fails, continue, ◌>>=◌, ◌>>◌}
use openvox_ca.World.Locks.{with_lock, granted}
use openvox_ca.World.Storage.{cert_exists_in, csr_exists_in, is_there, get_cert, save_csr}
use openvox_ca.Signing.Held.{held_state, judge_held, check_duplicate_locked, stored_cert_locked}
use openvox_ca.Signing.Request.{
  submitted_csr, save_request, save_request_locked, with_submitted, sign_if,
}
use openvox_ca.World.Steps.{bind-ok}

-- The subject has a certificate or a pending request.
abbrev pub IsHeld : String → Store → Type 0
IsHeld subject s =
    (is_there (lookup subject s.certs) ≡ true) ⊎ (is_there (lookup subject s.csrs) ≡ true)

-- What the first steps of the check find.
held-state : (subject : String) (w : World) → (held_state subject w).1.store ≡ w.store
unfolding held_state cert_exists_in csr_exists_in stored_cert_locked get_cert
held-state subject w = ground arith

held-none :
    (subject : String) (w : World)
    → (held_state subject w).0 ≡ ok none
    → (is_there (lookup subject w.store.certs) ≡ false)
      × (is_there (lookup subject w.store.csrs) ≡ false)
unfolding held_state cert_exists_in csr_exists_in stored_cert_locked get_cert
held-none subject w h = (ground arith, ground arith)

judged-held :
    (c : Config) (m : Option DuplicateState) (w : World)
    → c.allow_duplicate_certs ≡ false
    → (judge_held c m w).0 ≡ ok tt
    → m ≡ none
judged-held c none w h k = refl
judged-held c (some s) w h k = ground arith

judge-store : (c : Config) (m : Option DuplicateState) (w : World) → (judge_held c m w).1 ≡ w
judge-store c none w = refl
judge-store c (some s) w = ground arith

-- A continuation that keeps the store keeps it whatever came before it.
bind-store :
    {A B : Type 0} (r : Result A) (f : A → World → Result B × World) (w : World)
    → ((a : A) → (f a w).1 ≡ w)
    → (continue r f w).1 ≡ w
bind-store (ok a) f w h = h a
bind-store (err e) f w h = refl

check-store :
    (c : Config) (subject : String) (w : World)
    → (check_duplicate_locked c subject w).1.store ≡ w.store
unfolding check_duplicate_locked
check-store c subject w =
    let held = held_state subject w in
    ap (λ (v : World). v.store)
      (bind-store held.0 (judge_held c) held.1 (λ m. judge-store c m held.1))
    ∙ held-state subject w

-- Where duplicates are not allowed, the check passes only for a subject that has neither.
check-held :
    (c : Config) (subject : String) (w : World)
    → c.allow_duplicate_certs ≡ false
    → IsHeld subject w.store
    → (check_duplicate_locked c subject w).0 ≢ ok tt
unfolding check_duplicate_locked
check-held c subject w strict held passes =
    let state = held_state subject w in
    let (m, found, _, judged) = bind-ok state.0 (judge_held c) state.1 passes in
    let (no_cert, no_csr) =
      held-none subject w (found ∙ ap ok (judged-held c m state.1 strict judged)) in
    elim held [ inl cert ↦ absurd (cc (cert, no_cert)) | inr csr ↦ absurd (cc (csr, no_csr)) ]

-- The submission fails, and leaves the store that it found.
abbrev Refused : Result Bool × World → Store → Type 0
Refused p s = ((b : Bool) → p.0 ≢ ok b) × (p.1.store ≡ s)

unpassed :
    {B : Type 0} (r : Result (Unit {0})) (f : Unit {0} → World → Result B × World) (w : World)
    → r ≢ ok tt
    → ((b : B) → (continue r f w).0 ≢ ok b) × ((continue r f w).1 ≡ w)
unpassed (ok _) f w h = absurd (h refl)
unpassed (err e) f w h = (λ b k. cc, refl)

locked-Refused :
    (c : Config) (check_autosign : Csr → Exec Bool) (subject : String) (csr : Csr) (w : World)
    → c.allow_duplicate_certs ≡ false
    → IsHeld subject w.store
    → Refused (save_request_locked c check_autosign subject csr w) w.store
unfolding save_request_locked
locked-Refused c check_autosign subject csr w strict held =
    let checked = check_duplicate_locked c subject w in
    let (fails_all, same) =
      unpassed checked.0
        (λ _.
          save_csr subject (Pem.parsed csr)
          >> (check_autosign csr >>= λ should_sign. sign_if c subject should_sign))
        checked.1 (check-held c subject w strict held) in
    (fails_all, ap (λ (v : World). v.store) same ∙ check-store c subject w)

abbrev RefusedEither : Result Bool × World → World → Type 0
RefusedEither p w =
    ((b : Bool) → p.0 ≢ ok b) × ((p.1.store ≡ w.store) ⊎ (p.1.store ≡ (granted w).store))

lock-Refused :
    (m : Exec Bool) (w : World)
    → Refused (m (granted w)) (granted w).store
    → RefusedEither (with_lock m w) w
unfolding with_lock
lock-Refused m w (fails_all, same) = elim (Bool-cases (fails w)) [
  | inl failed ↦ rw failed (λ b h. cc, inl refl)
  | inr fine ↦ rw fine (fails_all, inr same)
]

submitted-refused :
    (c : Config) (check_autosign : Csr → Exec Bool) (subject : String) (r : Result Csr) (w : World)
    → c.allow_duplicate_certs ≡ false
    → IsHeld subject (granted w).store
    → RefusedEither
        (with_submitted r (λ csr. with_lock (save_request_locked c check_autosign subject csr)) w)
        w
submitted-refused c check_autosign subject (err e) w strict held = (λ b h. cc, inl refl)
submitted-refused c check_autosign subject (ok csr) w strict held =
    lock-Refused (save_request_locked c check_autosign subject csr) w
      (locked-Refused c check_autosign subject csr (granted w) strict held)

-- Where duplicates are not allowed, a submission for a subject that has a certificate, revoked or
-- not, or a pending request when the subject's lock is granted is not accepted, whatever fails and
-- however autosigning decides, and leaves the store as it was or as others left it.
pub save_request-refuses :
    (c : Config) (check_autosign : Csr → Exec Bool) (subject : String) (pem : Pem Csr) (w : World)
    → c.allow_duplicate_certs ≡ false
    → IsHeld subject (granted w).store
    → ((b : Bool) → (save_request c check_autosign subject pem w).0 ≢ ok b)
      × (((save_request c check_autosign subject pem w).1.store ≡ w.store)
          ⊎ ((save_request c check_autosign subject pem w).1.store ≡ (granted w).store))
unfolding save_request
save_request-refuses c check_autosign subject pem w strict held =
    elim (Bool-cases (validate_subject subject)) [
      | inr bad ↦ rw bad (λ b h. cc, inl refl)
      | inl valid ↦
          rw valid
            (submitted-refused c check_autosign subject (submitted_csr subject pem) w strict held)
    ]

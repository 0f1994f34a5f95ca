-- ===== src/Revoke/BySubject.antt =====
-- What a revocation by certname leaves (revokeLocked).
use openvox_ca.Prelude.{
  ◌≡◌, refl, ap, sym, ◌∙◌, true, ◌||◌, some, List, [], ◌∷◌, arith, Bool-cases, inl, inr, ℤ, ◌==ℤ◌,
  ==ℤ_refl, String,
}
use openvox_ca.Serial.{SerialText, set_string}
use openvox_ca.World.Types.{Config, Store, SupersededEntry}
use openvox_ca.World.Exec.{World, Result, ok, err, fails}
use openvox_ca.World.Steps.{bind-ok}
use openvox_ca.World.Storage.{latest_serial, latest_serial_for_subject, non_empty}
use openvox_ca.Crl.Chain.{IsReady, on_stored_crl}
use openvox_ca.Revoke.Serial.{revoke_serial_locked}
use openvox_ca.Revoke.Subject.{revoke_locked, unknown_subject}
use openvox_ca.Revoke.Outcome.{SerialRevoked, revoke_serial_locked-ok}
use openvox_ca.Supersede.Sweep.{retire_superseded_for_subject_locked}
use openvox_ca.Supersede.Retire.{RetireSafe, retire_superseded_for_subject_locked-RetireSafe}

-- What a revocation of a subject leaves on the stored list.
pub record SubjectRevoked (c : Config) (subject : String) (s s' : Store) : Type 0 where
  pub serial : SerialText
  pub latest : latest_serial [] subject s.inventory ≡ serial
  pub number : ℤ
  pub reads : set_string serial ≡ some number
  pub on_list : on_stored_crl c number s' ≡ true
  pub kept : (m : ℤ) → on_stored_crl c m s ≡ true → on_stored_crl c m s' ≡ true
  pub certs : s'.certs ≡ s.certs
  pub csrs : s'.csrs ≡ s.csrs
  pub inventory : s'.inventory ≡ s.inventory

non_empty-ok : (t : SerialText) {u : SerialText} → non_empty t ≡ ok u → t ≡ u
non_empty-ok [] h = cc
non_empty-ok (x ∷ xs) h = ground (arith, h)

latest-store :
    (subject : String) (w : World) → (latest_serial_for_subject subject w).1.store ≡ w.store
unfolding latest_serial_for_subject
latest-store subject w = ground arith

latest-ok :
    (subject : String) (w : World) {t : SerialText}
    → (latest_serial_for_subject subject w).0 ≡ ok t
    → latest_serial [] subject w.store.inventory ≡ t
unfolding latest_serial_for_subject
latest-ok subject w = elim (Bool-cases (fails w)) [
  | inl bad ↦ rw bad (λ h. cc)
  | inr fine ↦ rw fine (λ h. non_empty-ok (latest_serial [] subject w.store.inventory) h)
]

revoked-of :
    (c : Config) (subject : String) (t : SerialText) (n : ℤ) (w v : World) (u : World) (s : Store)
    → {es : List SupersededEntry} → RetireSafe c subject es s w.store
    → latest_serial [] subject w.store.inventory ≡ t
    → v.store ≡ w.store
    → set_string t ≡ some n
    → SerialRevoked c n v u
    → SubjectRevoked c subject s u.store
revoked-of c subject t n w v u s safe latest same reads revoked =
    let on =
      λ (m : ℤ). revoked.on_list m ∙ ap (λ (x : Store). on_stored_crl c m x || (n ==ℤ m)) same in
    record {
      serial = t;
      latest = ap (latest_serial [] subject) (sym safe.inventory) ∙ latest;
      number = n;
      reads = reads;
      on_list = on n ∙ ground (arith, ==ℤ_refl n);
      kept = λ m h. on m ∙ ground (arith, safe.kept m h);
      certs = revoked.rest.certs ∙ ap (λ (x : Store). x.certs) same ∙ safe.certs;
      csrs = revoked.rest.csrs ∙ ap (λ (x : Store). x.csrs) same ∙ safe.csrs;
      inventory = revoked.rest.inventory ∙ ap (λ (x : Store). x.inventory) same ∙ safe.inventory;
    }

found-latest :
    (subject : String) (w : World) {t : SerialText}
    → (unknown_subject (latest_serial_for_subject subject w)).0 ≡ ok t
    → (latest_serial [] subject w.store.inventory ≡ t)
      × ((unknown_subject (latest_serial_for_subject subject w)).1.store ≡ w.store)
found-latest subject w =
    go (latest_serial_for_subject subject w) (latest-store subject w) (λ t. latest-ok subject w)
  where
    go :
        {t : SerialText} (p : Result SerialText × World)
        → p.1.store ≡ w.store
        → ((u : SerialText) → p.0 ≡ ok u → latest_serial [] subject w.store.inventory ≡ u)
        → (unknown_subject p).0 ≡ ok t
        → (latest_serial [] subject w.store.inventory ≡ t) × ((unknown_subject p).1.store ≡ w.store)
    go (ok u, v) same latest h = (ground (arith, latest u refl, h), same)
    go (err e, v) same latest h = ground (arith, h)

-- A revocation of a subject that returns no error, by a CA that has its certificate and key, has put
-- the last serial that the inventory holds for the subject on the stored list; that list kept all it
-- held, and the certificates, requests and inventory are as they were.
pub revoke_locked-SubjectRevoked :
    (c : Config) (subject : String) (w : World)
    → IsReady c
    → (revoke_locked c subject w).0 ≡ ok tt
    → SubjectRevoked c subject w.store (revoke_locked c subject w).1.store
unfolding revoke_locked
revoke_locked-SubjectRevoked c subject w ready h =
    let v = retire_superseded_for_subject_locked c subject w in
    let safe = retire_superseded_for_subject_locked-RetireSafe c subject w ready in
    let r = unknown_subject (latest_serial_for_subject subject v) in
    let (t, found, to_rest, h1) = bind-ok r.0 (revoke_serial_locked c) r.1 h in
    let (latest, same) = found-latest subject v found in
    let (n, reads, revoked) = revoke_serial_locked-ok c t r.1 ready h1 in
    rw to_rest (revoked-of c subject t n v r.1 _ w.store safe latest same reads revoked)

-- ===== src/Revoke/Outcome.antt =====
-- What the revocation of one serial number leaves behind (revokeSerialLocked).
use openvox_ca.Prelude.{
  ◌≡◌, refl, ap, sym, ◌∙◌, true, ◌||◌, Option, none, some, List, [], ◌∷◌, ◌++◌, arith, Option-cases,
  inl, inr, ℤ, ◌==ℤ◌,
}
use openvox_ca.Serial.{SerialText, set_string}
use openvox_ca.World.Types.{RevocationEntry, Seconds, Config, Store, Error}
use openvox_ca.World.Exec.{World, Result, ok, err, modify_mem, ◌>>◌, ◌>>=◌}
use openvox_ca.Crl.Lists.{listed}
use openvox_ca.Crl.Store.{StoredCrl, read_stored_crl, counted, evict_ocsp}
use openvox_ca.Crl.Sign.{sign_crl_locked}
use openvox_ca.Crl.Chain.{IsReady, stored_crl, on_stored_crl}
use openvox_ca.Crl.Outcome.{Untouched, Signed, sign-ok, sign-failed}
use openvox_ca.Crl.Read.{SameState, read-ok, read-failed}
use openvox_ca.Revoke.Serial.{
  mark_cert_revoked_index, append_entry, entry_now, add_unless, revoke_number, revoke_serial_locked,
  revoke_parsed, first_time,
}
use openvox_ca.Revoke.Entries.{listed-append, first_time-listed, listed-or}

-- The keys of the store that a change of the stored list leaves alone.
pub record KeepsRest (s s' : Store) : Type 0 where
  pub certs : s'.certs ≡ s.certs
  pub csrs : s'.csrs ≡ s.csrs
  pub inventory : s'.inventory ≡ s.inventory
  pub superseded : s'.superseded ≡ s.superseded

-- The stored list gained the serial, kept all others, gained no others, and nothing else of the
-- store changed but the marks of the certificate index.
pub record SerialRevoked (c : Config) (n : ℤ) (w w' : World) : Type 0 where
  pub on_list : (m : ℤ) → on_stored_crl c m w'.store ≡ (on_stored_crl c m w.store || (n ==ℤ m))
  pub rest : KeepsRest w.store w'.store

pub on_stored_crl-eq :
    (c : Config) (m : ℤ) (s s' : Store)
    → s'.crl ≡ s.crl
    → on_stored_crl c m s' ≡ on_stored_crl c m s
unfolding on_stored_crl
on_stored_crl-eq c m s s' e = rw e

pub on_stored_crl_of :
    (c : Config) (m : ℤ) (s : Store) {st : StoredCrl}
    → stored_crl c s ≡ some st
    → on_stored_crl c m s ≡ listed m st.own.entries
unfolding on_stored_crl
on_stored_crl_of c m s e = rw e

pub mark-keeps :
    (serial : SerialText) (at : Seconds) (w : World)
    → let w' = (mark_cert_revoked_index serial at w).1 in
      (w'.store.crl ≡ w.store.crl)
      × KeepsRest w.store w'.store
      × (w'.mem ≡ w.mem)
      × (w'.now ≡ w.now)
unfolding mark_cert_revoked_index
mark-keeps serial at w = ground arith

abbrev entry : ℤ → World → List RevocationEntry
entry n w = entry_now n w ∷ []

-- What append_entry does with the outcome of the signing.
abbrev after_sign : SerialText → ℤ → Seconds → Result (Unit {0}) → World → Result (Unit {0}) × World
after_sign serial n at r =
    (λ w. (r, w))
    >> mark_cert_revoked_index serial at
    >> modify_mem (λ m. record m { ocsp_cache = evict_ocsp n m.ocsp_cache })

append_entry_lem :
    (c : Config) (serial : SerialText) (n : ℤ) (st : StoredCrl) (w : World)
    → let r = sign_crl_locked c (some st) (st.own.entries ++ entry n w) w in
      append_entry c serial n st w ≡ after_sign serial n w.now r.0 r.1
unfolding append_entry
append_entry_lem c serial n st w = ground arith

after_sign-ok :
    (serial : SerialText) (n : ℤ) (at : Seconds) (r : Result (Unit {0})) (w : World)
    → (after_sign serial n at r w).0 ≡ ok tt
    → (r ≡ ok tt)
      × ((after_sign serial n at r w).1.store.crl ≡ w.store.crl)
      × KeepsRest w.store (after_sign serial n at r w).1.store
unfolding mark_cert_revoked_index
after_sign-ok serial n at (ok _) w h = (refl, ground arith, ground arith)
after_sign-ok serial n at (err e) w h = cc

after_sign-failed :
    (serial : SerialText) (n : ℤ) (at : Seconds) (r : Result (Unit {0})) (w : World) {e : Error}
    → (after_sign serial n at r w).0 ≡ err e
    → (r ≡ err e) × ((after_sign serial n at r w).1 ≡ w)
unfolding mark_cert_revoked_index
after_sign-failed serial n at (ok _) w h = cc
after_sign-failed serial n at (err e) w h = (h, refl)

pub KeepsRest-trans : {s t u : Store} → KeepsRest s t → KeepsRest t u → KeepsRest s u
KeepsRest-trans a b = record {
  certs = b.certs ∙ a.certs;
  csrs = b.csrs ∙ a.csrs;
  inventory = b.inventory ∙ a.inventory;
  superseded = b.superseded ∙ a.superseded;
}

pub Signed-rest :
    {c : Config} {prev : StoredCrl} {revoked : List RevocationEntry} {w w' : World}
    → Signed c prev revoked w w'
    → KeepsRest w.store w'.store
Signed-rest s = record {
  certs = ap (λ (t : Store). t.certs) s.published.store;
  csrs = ap (λ (t : Store). t.csrs) s.published.store;
  inventory = ap (λ (t : Store). t.inventory) s.published.store;
  superseded = ap (λ (t : Store). t.superseded) s.published.store;
}

pub KeepsRest-of_eq : {s s' : Store} → s' ≡ s → KeepsRest s s'
KeepsRest-of_eq e = record {
  certs = ap (λ (t : Store). t.certs) e;
  csrs = ap (λ (t : Store). t.csrs) e;
  inventory = ap (λ (t : Store). t.inventory) e;
  superseded = ap (λ (t : Store). t.superseded) e;
}

append_entry-ok :
    (c : Config) (serial : SerialText) (n : ℤ) (st : StoredCrl) (w : World)
    → IsReady c
    → stored_crl c w.store ≡ some st
    → (append_entry c serial n st w).0 ≡ ok tt
    → SerialRevoked c n w (append_entry c serial n st w).1
append_entry-ok c serial n st w ready read h = rw (append_entry_lem c serial n st w) (
    let r = sign_crl_locked c (some st) (st.own.entries ++ entry n w) w in
    let (done, crl, rest) =
      after_sign-ok serial n w.now r.0 r.1 (rw (append_entry_lem c serial n st w) at h) in
    let s = sign-ok c st (st.own.entries ++ entry n w) w ready done in
    record {
      on_list = λ m.
          on_stored_crl-eq c m r.1.store _ crl
          ∙ on_stored_crl_of c m r.1.store s.published.next_read
          ∙ ap (listed m) s.made.entries
          ∙ listed-append m st.own.entries (entry_now n w)
          ∙ ap (λ b. b || (n ==ℤ m)) (sym (on_stored_crl_of c m w.store read));
      rest = KeepsRest-trans (Signed-rest s) rest;
    })

append_entry-failed :
    (c : Config) (serial : SerialText) (n : ℤ) (st : StoredCrl) (w : World) {e : Error}
    → (append_entry c serial n st w).0 ≡ err e
    → Untouched e w (append_entry c serial n st w).1
append_entry-failed c serial n st w h = rw (append_entry_lem c serial n st w) (
    let r = sign_crl_locked c (some st) (st.own.entries ++ entry n w) w in
    let (failed, same) =
      after_sign-failed serial n w.now r.0 r.1 (rw (append_entry_lem c serial n st w) at h) in
    rw same (sign-failed c st (st.own.entries ++ entry n w) w failed))

marked-revoked :
    (c : Config) (serial : SerialText) (n : ℤ) (at : Seconds) (st : StoredCrl) (w : World)
    → stored_crl c w.store ≡ some st
    → listed n st.own.entries ≡ true
    → SerialRevoked c n w (mark_cert_revoked_index serial at w).1
marked-revoked c serial n at st w read old =
    let (crl, rest, _, _) = mark-keeps serial at w in
    record {
      on_list = λ m.
          on_stored_crl-eq c m w.store _ crl
          ∙ on_stored_crl_of c m w.store read
          ∙ listed-or n m st.own.entries old
          ∙ ap (λ b. b || (n ==ℤ m)) (sym (on_stored_crl_of c m w.store read));
      rest = rest;
    }

add_unless-ok :
    (c : Config) (serial : SerialText) (n : ℤ) (st : StoredCrl) (w : World)
    → IsReady c
    → stored_crl c w.store ≡ some st
    → (add_unless c serial n st (first_time n st.own.entries) w).0 ≡ ok tt
    → SerialRevoked c n w (add_unless c serial n st (first_time n st.own.entries) w).1
add_unless-ok c serial n st w ready read = elim (Option-cases (first_time n st.own.entries)) [
  | inl new ↦ rw new (append_entry-ok c serial n st w ready read)
  | inr (at, old) ↦
      rw old
        (λ _. marked-revoked c serial n at st w read (first_time-listed n st.own.entries at old))
]

mark-ok :
    (serial : SerialText) (at : Seconds) (w : World)
    → (mark_cert_revoked_index serial at w).0 ≡ ok tt
unfolding mark_cert_revoked_index
mark-ok serial at w = refl

add_unless-failed :
    (c : Config) (serial : SerialText) (n : ℤ) (st : StoredCrl) (o : Option Seconds) (w : World)
    {e : Error}
    → (add_unless c serial n st o w).0 ≡ err e
    → Untouched e w (add_unless c serial n st o w).1
add_unless-failed c serial n st none w h = append_entry-failed c serial n st w h
add_unless-failed c serial n st (some at) w h = absurd (cc (mark-ok serial at w))

-- What revoke_number does with the outcome of the read.
abbrev after_read : Config → SerialText → ℤ → Result StoredCrl → World → Result (Unit {0}) × World
after_read c serial n r =
    (λ w. (r, w)) >>= λ st. add_unless c serial n st (first_time n st.own.entries)

SerialRevoked-from :
    {c : Config} {n : ℤ} {w v w' : World}
    → v.store ≡ w.store
    → SerialRevoked c n v w'
    → SerialRevoked c n w w'
SerialRevoked-from {c} {n} {w} {v} {w'} e s = record {
  on_list = λ m. s.on_list m ∙ ap (λ (t : Store). on_stored_crl c m t || (n ==ℤ m)) e;
  rest = rw e at s.rest;
}

after_read-ok :
    (c : Config) (serial : SerialText) (n : ℤ) (r : Result StoredCrl) (w v : World)
    → IsReady c
    → ((st : StoredCrl) → r ≡ ok st → (stored_crl c w.store ≡ some st) × SameState w v)
    → (after_read c serial n r v).0 ≡ ok tt
    → SerialRevoked c n w (after_read c serial n r v).1
after_read-ok c serial n (ok st) w v ready read h =
    let (found, same) = read st refl in
    SerialRevoked-from same.store
      (add_unless-ok c serial n st v ready (ap (stored_crl c) same.store ∙ found) h)
after_read-ok c serial n (err e) w v ready read h = cc

pub Untouched-from :
    {e : Error} {w v w' : World} → SameState w v → Untouched e v w' → Untouched e w w'
Untouched-from s u = ground arith

after_read-failed :
    (c : Config) (serial : SerialText) (n : ℤ) (r : Result StoredCrl) (w v : World) {e : Error}
    → ((st : StoredCrl) → r ≡ ok st → SameState w v)
    → ((x : Error) → r ≡ err x → Untouched x w v)
    → (after_read c serial n r v).0 ≡ err e
    → Untouched e w (after_read c serial n r v).1
after_read-failed c serial n (ok st) w v fine bad h =
    Untouched-from (fine st refl)
      (add_unless-failed c serial n st (first_time n st.own.entries) v h)
after_read-failed c serial n (err x) w v fine bad h = ground (arith, bad x refl)

-- A serial that reads as no number fails with nothing done but the count.
revoke_parsed-ok :
    (c : Config) (serial : SerialText) (o : Option ℤ) (w : World)
    → IsReady c
    → (revoke_parsed c serial o w).0 ≡ ok tt
    → (n : ℤ) × (o ≡ some n) × SerialRevoked c n w (revoke_parsed c serial o w).1
unfolding revoke_number counted
revoke_parsed-ok c serial none w ready h = cc
revoke_parsed-ok c serial (some n) w ready h = (
  n,
  refl,
  after_read-ok c serial n (read_stored_crl c w).0 w (read_stored_crl c w).1 ready
      (λ st e. read-ok c w e) h,
)

revoke_parsed-failed :
    (c : Config) (serial : SerialText) (o : Option ℤ) (w : World) {e : Error}
    → (revoke_parsed c serial o w).0 ≡ err e
    → Untouched e w (revoke_parsed c serial o w).1
unfolding revoke_number counted
revoke_parsed-failed c serial none w h = ground arith
revoke_parsed-failed c serial (some n) w h =
    after_read-failed c serial n (read_stored_crl c w).0 w (read_stored_crl c w).1
      (λ st e. (read-ok c w e).1) (λ x e. read-failed c w e) h

-- A revocation, by a CA that has its certificate and key, that returns no error has put the serial on
-- the stored list, which kept all others and gained no others; it left the certificates, requests,
-- inventory and pending list as they were.
pub revoke_serial_locked-ok :
    (c : Config) (serial : SerialText) (w : World)
    → IsReady c
    → (revoke_serial_locked c serial w).0 ≡ ok tt
    → (n : ℤ) × (set_string serial ≡ some n)
      × SerialRevoked c n w (revoke_serial_locked c serial w).1
unfolding revoke_serial_locked
revoke_serial_locked-ok c serial w ready h = revoke_parsed-ok c serial (set_string serial) w ready h

-- A revocation that returns an error has changed neither the store nor the list in the memory, and
-- it has moved the counter of failed updates unless the chain file was at fault.
pub revoke_serial_locked-failed :
    (c : Config) (serial : SerialText) (w : World) {e : Error}
    → (revoke_serial_locked c serial w).0 ≡ err e
    → Untouched e w (revoke_serial_locked c serial w).1
unfolding revoke_serial_locked
revoke_serial_locked-failed c serial w h = revoke_parsed-failed c serial (set_string serial) w h

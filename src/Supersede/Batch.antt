-- ===== src/Supersede/Batch.antt =====
-- What the batched revocation leaves behind (appendCRLEntriesLocked and drainDueLocked).
use openvox_ca.Prelude.{
  ◌≡◌, refl, ap, sym, ◌∙◌, ◌||◌, some, List, arith, Bool-cases, inl, inr, ℤ, if◌then◌else◌,
}
use openvox_ca.World.Types.{RevocationEntry, Config, Store, Error}
use openvox_ca.World.Exec.{World, Result, ok, err, ◌>>=◌, ◌>>◌, pure}
use openvox_ca.Crl.Lists.{listed}
use openvox_ca.Crl.Store.{StoredCrl, read_stored_crl}
use openvox_ca.Crl.Sign.{sign_crl_locked}
use openvox_ca.Crl.Chain.{IsReady, stored_crl, on_stored_crl}
use openvox_ca.Crl.Outcome.{Untouched, sign-ok, sign-failed}
use openvox_ca.Crl.Read.{SameState, read-ok, read-failed}
use openvox_ca.Revoke.Entries.{among, listed-append_new, appends_any-among}
use openvox_ca.Revoke.Outcome.{
  KeepsRest, on_stored_crl_of, on_stored_crl-eq, Signed-rest, Untouched-from, KeepsRest-trans,
  KeepsRest-of_eq,
}
use openvox_ca.Supersede.Drain.{append_new, appends_any, append_crl_entries_locked}

-- The stored list gained the serials given, kept all others, and gained no others.
pub record BatchRevoked (c : Config) (ns : List ℤ) (w w' : World) : Type 0 where
  pub on_list : (m : ℤ) → on_stored_crl c m w'.store ≡ (on_stored_crl c m w.store || among m ns)
  pub rest : KeepsRest w.store w'.store

-- What follows the read.
abbrev after_read :
    Config → List ℤ → Result StoredCrl → World → Result (List RevocationEntry) × World
after_read c add r = (λ w. (r, w)) >>= λ stored w.
    let revoked = append_new w.now stored.own.entries add in
    if appends_any stored.own.entries add
    then (sign_crl_locked c (some stored) revoked >> pure revoked) w
    else (ok revoked, w)

abbrev then_pure {ℓ} : {A : Type ℓ} → A → Result (Unit {0}) → Result A
then_pure a (ok _) = ok a
then_pure a (err e) = err e

sign_then :
    (c : Config) (st : StoredCrl) (revoked : List RevocationEntry) (w : World)
    → (sign_crl_locked c (some st) revoked >> pure revoked) w ≡ (
      then_pure revoked (sign_crl_locked c (some st) revoked w).0,
      (sign_crl_locked c (some st) revoked w).1,
    )
sign_then c st revoked w = ground arith

then_pure-ok {ℓ} :
    {A : Type ℓ} (a : A) (r : Result (Unit {0})) {b : A} → then_pure a r ≡ ok b → r ≡ ok tt
then_pure-ok a (ok _) h = refl
then_pure-ok a (err e) h = cc

then_pure-failed {ℓ} :
    {A : Type ℓ} (a : A) (r : Result (Unit {0})) {e : Error} → then_pure a r ≡ err e → r ≡ err e
then_pure-failed a (ok _) h = cc
then_pure-failed a (err e) h = cc

signed-batch :
    (c : Config) (add : List ℤ) (st : StoredCrl) (w v : World)
    → IsReady c
    → SameState w v
    → stored_crl c w.store ≡ some st
    → (sign_crl_locked c (some st) (append_new v.now st.own.entries add) v).0 ≡ ok tt
    → BatchRevoked c add w (sign_crl_locked c (some st) (append_new v.now st.own.entries add) v).1
signed-batch c add st w v ready same read h =
    let s = sign-ok c st (append_new v.now st.own.entries add) v ready h in
    record {
      on_list = λ m.
          on_stored_crl_of c m _ s.published.next_read
          ∙ ap (listed m) s.made.entries
          ∙ listed-append_new m v.now st.own.entries add
          ∙ ap (λ b. b || among m add) (sym (on_stored_crl_of c m w.store read));
      rest = KeepsRest-trans (KeepsRest-of_eq same.store) (Signed-rest s);
    }

appended-ok :
    (c : Config) (add : List ℤ) (st : StoredCrl) (w v : World) {times : List RevocationEntry}
    → IsReady c
    → SameState w v
    → stored_crl c w.store ≡ some st
    → (after_read c add (ok st) v).0 ≡ ok times
    → BatchRevoked c add w (after_read c add (ok st) v).1
appended-ok c add st w v ready same read = elim (Bool-cases (appends_any st.own.entries add)) [
  | inl signs ↦
      rw (signs, sign_then c st (append_new v.now st.own.entries add) v)
        (λ h. signed-batch c add st w v ready same read (then_pure-ok _ _ h))
  | inr nothing ↦ rw nothing (λ _. record {
    on_list = λ m.
        on_stored_crl-eq c m w.store v.store (ap (λ (t : Store). t.crl) same.store)
        ∙ on_stored_crl_of c m w.store read
        ∙ appends_any-among m st.own.entries add nothing
        ∙ ap (λ b. b || among m add) (sym (on_stored_crl_of c m w.store read));
    rest = ground (arith, same);
  })
]

appended-failed :
    (c : Config) (add : List ℤ) (st : StoredCrl) (w v : World) {e : Error}
    → SameState w v
    → (after_read c add (ok st) v).0 ≡ err e
    → Untouched e w (after_read c add (ok st) v).1
appended-failed c add st w v same = elim (Bool-cases (appends_any st.own.entries add)) [
  | inl signs ↦
      rw (signs, sign_then c st (append_new v.now st.own.entries add) v)
        (λ h.
          Untouched-from same
            (sign-failed c st (append_new v.now st.own.entries add) v (then_pure-failed _ _ h)))
  | inr nothing ↦ rw nothing (λ h. cc)
]

after_read-ok :
    (c : Config) (add : List ℤ) (r : Result StoredCrl) (w v : World) {times : List RevocationEntry}
    → IsReady c
    → ((st : StoredCrl) → r ≡ ok st → (stored_crl c w.store ≡ some st) × SameState w v)
    → (after_read c add r v).0 ≡ ok times
    → BatchRevoked c add w (after_read c add r v).1
after_read-ok c add (ok st) w v ready read h =
    appended-ok c add st w v ready (read st refl).1 (read st refl).0 h
after_read-ok c add (err e) w v ready read h = cc

after_read-failed :
    (c : Config) (add : List ℤ) (r : Result StoredCrl) (w v : World) {e : Error}
    → ((st : StoredCrl) → r ≡ ok st → SameState w v)
    → ((x : Error) → r ≡ err x → Untouched x w v)
    → (after_read c add r v).0 ≡ err e
    → Untouched e w (after_read c add r v).1
after_read-failed c add (ok st) w v fine bad h = appended-failed c add st w v (fine st refl) h
after_read-failed c add (err x) w v fine bad h = ground (arith, bad x refl)

-- Where the entries of a batch are appended without an error, by a CA that has its certificate and
-- key, the stored list holds exactly what it held and the serials of the batch, and the
-- certificates, requests, inventory and pending list are as they were.
pub append-ok :
    (c : Config) (add : List ℤ) (w : World) {times : List RevocationEntry}
    → IsReady c
    → (append_crl_entries_locked c add w).0 ≡ ok times
    → BatchRevoked c add w (append_crl_entries_locked c add w).1
unfolding append_crl_entries_locked
append-ok c add w ready h =
    after_read-ok c add (read_stored_crl c w).0 w (read_stored_crl c w).1 ready
      (λ st e. read-ok c w e) h

-- Where appending a batch returns an error, none of it is on the stored list: the store and the list in
-- the memory are as they were, and the failure is counted unless the chain file was at fault.
pub append-failed :
    (c : Config) (add : List ℤ) (w : World) {e : Error}
    → (append_crl_entries_locked c add w).0 ≡ err e
    → Untouched e w (append_crl_entries_locked c add w).1
unfolding append_crl_entries_locked
append-failed c add w h =
    after_read-failed c add (read_stored_crl c w).0 w (read_stored_crl c w).1
      (λ st e. (read-ok c w e).1) (λ x e. read-failed c w e) h

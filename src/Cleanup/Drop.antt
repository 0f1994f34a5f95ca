-- ===== src/Cleanup/Drop.antt =====
-- What dropping serials from the revocation list leaves (dropCRLEntriesLocked).
use openvox_ca.Prelude.{
  ◌≡◌, refl, ap, sym, ◌∙◌, true, some, List, Bool-cases, inl, inr, ◌⊎◌, ℤ, if◌then◌else◌,
}
use openvox_ca.World.Types.{Config, Store, Error}
use openvox_ca.World.Exec.{World, Result, ok, err, pure, continue}
use openvox_ca.Crl.Lists.{listed}
use openvox_ca.Crl.Store.{StoredCrl, read_stored_crl}
use openvox_ca.Crl.Sign.{sign_crl_locked}
use openvox_ca.Crl.Chain.{IsReady, stored_crl, on_stored_crl}
use openvox_ca.Crl.Outcome.{Signed, sign-ok, sign-failed}
use openvox_ca.Crl.Read.{SameState, read-ok, read-failed}
use openvox_ca.Revoke.Outcome.{
  KeepsRest, KeepsRest-trans, KeepsRest-of_eq, on_stored_crl-eq, on_stored_crl_of, Signed-rest,
}
use openvox_ca.Cleanup.{is_removed, kept_revocations, drops_any, drop_crl_entries_locked}
use openvox_ca.Cleanup.Entries.{listed-kept_revocations, kept_revocations-listed}

-- What dropping some numbers from the list may change.
pub record Dropped (c : Config) (removed : List ℤ) (s s' : Store) : Type 0 where
  pub kept :
      (m : ℤ)
      → on_stored_crl c m s ≡ true
      → (on_stored_crl c m s' ≡ true) ⊎ (is_removed m removed ≡ true)
  pub none_new : (m : ℤ) → on_stored_crl c m s' ≡ true → on_stored_crl c m s ≡ true
  pub rest : KeepsRest s s'

unchanged-Dropped : (c : Config) (removed : List ℤ) (s s' : Store) → s' ≡ s → Dropped c removed s s'
unchanged-Dropped c removed s s' same = record {
  kept = λ m h. inl (on_stored_crl-eq c m s s' (ap (λ (t : Store). t.crl) same) ∙ h);
  none_new = λ m h. sym (on_stored_crl-eq c m s s' (ap (λ (t : Store). t.crl) same)) ∙ h;
  rest = KeepsRest-of_eq same;
}

Signed-Dropped :
    (c : Config) (removed : List ℤ) (st : StoredCrl) (w v u : World)
    → stored_crl c w.store ≡ some st
    → v.store ≡ w.store
    → Signed c st (kept_revocations removed st.own.entries) v u
    → Dropped c removed w.store u.store
Signed-Dropped c removed st w v u read same s =
    let before = λ (m : ℤ). on_stored_crl_of c m w.store read in
    let after = λ (m : ℤ).
      on_stored_crl_of c m u.store s.published.next_read ∙ ap (listed m) s.made.entries in
    record {
      kept = λ m h. elim (listed-kept_revocations m removed st.own.entries (sym (before m) ∙ h)) [
        | inl on ↦ inl (after m ∙ on)
        | inr gone ↦ inr gone
      ];
      none_new =
          λ m h. before m ∙ kept_revocations-listed m removed st.own.entries (sym (after m) ∙ h);
      rest = KeepsRest-trans (KeepsRest-of_eq same) (Signed-rest s);
    }

-- What follows the read.
abbrev after_read : Config → List ℤ → StoredCrl → World → Result (Unit {0}) × World
after_read c removed stored =
    if drops_any removed stored.own.entries
    then sign_crl_locked c (some stored) (kept_revocations removed stored.own.entries)
    else pure tt

read-Dropped :
    (c : Config) (removed : List ℤ) (st : StoredCrl) (w v : World)
    → IsReady c
    → stored_crl c w.store ≡ some st
    → v.store ≡ w.store
    → Dropped c removed w.store (after_read c removed st v).1.store
read-Dropped c removed st w v ready read same =
    elim (Bool-cases (drops_any removed st.own.entries)) [
      | inr nothing ↦ rw nothing (unchanged-Dropped c removed w.store v.store same)
      | inl some_there ↦
          rw some_there
            (go (sign_crl_locked c (some st) (kept_revocations removed st.own.entries) v).0 refl)
    ]
  where
    go :
        (r : Result (Unit {0}))
        → (sign_crl_locked c (some st) (kept_revocations removed st.own.entries) v).0 ≡ r
        → Dropped c removed w.store
            (sign_crl_locked c (some st) (kept_revocations removed st.own.entries) v).1.store
    go (ok _) h =
        Signed-Dropped c removed st w v _ read same
          (sign-ok c st (kept_revocations removed st.own.entries) v ready h)
    go (err e) h =
        unchanged-Dropped c removed w.store _
          ((sign-failed c st (kept_revocations removed st.own.entries) v h).store ∙ same)

pub drop-Dropped :
    (c : Config) (removed : List ℤ) (w : World)
    → IsReady c
    → Dropped c removed w.store (drop_crl_entries_locked c removed w).1.store
unfolding drop_crl_entries_locked
drop-Dropped c removed w ready =
    go (read_stored_crl c w).0 (λ st e. read-ok c w e) (λ x e. (read-failed c w e).store)
  where
    go :
        (r : Result StoredCrl)
        → ((st : StoredCrl)
            → r ≡ ok st
            → (stored_crl c w.store ≡ some st) × SameState w (read_stored_crl c w).1)
        → ((x : Error) → r ≡ err x → (read_stored_crl c w).1.store ≡ w.store)
        → Dropped c removed w.store
            (continue r (after_read c removed) (read_stored_crl c w).1).1.store
    go (ok st) fine bad =
        let (read, same) = fine st refl in
        read-Dropped c removed st w (read_stored_crl c w).1 ready read same.store
    go (err x) fine bad = unchanged-Dropped c removed w.store _ (bad x refl)

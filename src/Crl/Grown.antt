-- ===== src/Crl/Grown.antt =====
-- Each operation that writes the list raises its number by one or leaves the chain alone.
use openvox_ca.Prelude.{
  ℕ, ◌+◌, ◌≡◌, refl, ap, sym, ◌∙◌, ◌⊎◌, inl, inr, Bool-cases, Option, none, some, List, [], ◌∷◌,
  ◌++◌, map, arith, ℤ, ltb, true,
}
use openvox_ca.Serial.{SerialText, set_string}
use openvox_ca.World.Types.{crl_block, RevocationEntry, Config, Store, Seconds}
use openvox_ca.World.Exec.{World, Exec, Result, ok, err, pure, continue, ◌>>=◌, ◌>>◌}
use openvox_ca.Crl.Store.{StoredCrl, read_stored_crl, counted, install_cached_crl_locked}
use openvox_ca.Crl.Sign.{sign_crl_locked, reissue_crl_locked, refresh_crl_locked, adopt}
use openvox_ca.Crl.Chain.{IsReady, stored_in, stored_crl}
use openvox_ca.Crl.Outcome.{sign-ok, sign-failed}
use openvox_ca.Crl.Read.{read-ok, read-failed}
use openvox_ca.Revoke.Serial.{
  revoke_serial_locked, revoke_parsed, revoke_number, add_unless, append_entry, entry_now,
  first_time, mark_cert_revoked_index,
}
use openvox_ca.Revoke.Outcome.{mark-keeps}
use openvox_ca.Supersede.Drain.{append_crl_entries_locked, append_new, appends_any}
use openvox_ca.Cleanup.{drop_crl_entries_locked, drops_any, kept_revocations}

abbrev pub HasNumber : Config → ℕ → World → Type 0
HasNumber c n w = (st : StoredCrl) × (stored_crl c w.store ≡ some st) × (st.own.number ≡ some n)

-- The chain is as it was, or the list of ours in it has the next number.
abbrev pub Grown : Config → ℕ → World → World → Type 0
Grown c n w v = (v.store.crl ≡ w.store.crl) ⊎ HasNumber c (n + 1) v

pub HasNumber-moved :
    (c : Config) (n : ℕ) (w v : World)
    → v.store.crl ≡ w.store.crl
    → HasNumber c n w
    → HasNumber c n v
unfolding stored_crl
HasNumber-moved c n w v same (st, read, number) = (st, ap (stored_in c.ca_cert) same ∙ read, number)

sign-Grown :
    (c : Config) (n : ℕ) (prev : StoredCrl) (revoked : List RevocationEntry) (w : World)
    → IsReady c
    → stored_crl c w.store ≡ some prev
    → HasNumber c n w
    → Grown c n w (sign_crl_locked c (some prev) revoked w).1
sign-Grown c n prev revoked w ready read (st, read', number) =
    go (sign_crl_locked c (some prev) revoked w).0 refl
  where
    go :
        (r : Result (Unit {0}))
        → (sign_crl_locked c (some prev) revoked w).0 ≡ r
        → Grown c n w (sign_crl_locked c (some prev) revoked w).1
    go (err e) h =
        let kept = (sign-failed c prev revoked w h).store in inl (ap (λ (s : Store). s.crl) kept)
    go (ok _) h =
        let s = sign-ok c prev revoked w ready h in
        let found : some prev ≡ some st = sym read ∙ read' in
        let same : prev ≡ st = ground (arith, found) in
        let grown : s.crl.number ≡ some (n + 1) =
          s.made.number n (ap (λ (t : StoredCrl). t.own.number) same ∙ number) in
        inr (
          record { own = s.crl; blob = map crl_block (s.crl ∷ s.published.behind) },
          s.published.next_read,
          grown,
        )

-- What follows a step leaves the chain alone.
abbrev LeavesChain : {A : Type 0} → Exec A → Type 0
LeavesChain m = (v : World) → (m v).1.store.crl ≡ v.store.crl

after-Grown :
    {A B : Type 0} (c : Config) (n : ℕ) (r : Result A) (f : A → Exec B) (w v : World)
    → ((a : A) → LeavesChain (f a))
    → Grown c n w v
    → Grown c n w (continue r f v).1
after-Grown c n (err e) f w v leaves g = g
after-Grown c n (ok a) f w v leaves (inl same) = inl (leaves a v ∙ same)
after-Grown c n (ok a) f w v leaves (inr has) =
    inr (HasNumber-moved c (n + 1) v (f a v).1 (leaves a v) has)

-- An operation that first reads the stored chain.
read-Grown :
    {A : Type 0} (c : Config) (n : ℕ) (f : StoredCrl → Exec A) (w : World)
    → ((st : StoredCrl) (v : World)
        → stored_crl c v.store ≡ some st
        → HasNumber c n v
        → Grown c n v (f st v).1)
    → HasNumber c n w
    → Grown c n w ((read_stored_crl c >>= f) w).1
read-Grown c n f w each has = go (read_stored_crl c w).0 refl
  where
    go :
        (r : Result StoredCrl)
        → (read_stored_crl c w).0 ≡ r
        → Grown c n w (continue r f (read_stored_crl c w).1).1
    go (err e) h = inl (ap (λ (s : Store). s.crl) (read-failed c w h).store)
    go (ok st) h =
        let v = (read_stored_crl c w).1 in
        let (read, same) = read-ok c w h in
        let crl = ap (λ (s : Store). s.crl) same.store in
        elim (each st v (ap (stored_crl c) same.store ∙ read) (HasNumber-moved c n w v crl has)) [
          | inl left ↦ inl (left ∙ crl)
          | inr grown ↦ inr grown
        ]

pub reissue-Grown :
    (c : Config) (n : ℕ) (w : World)
    → IsReady c
    → HasNumber c n w
    → Grown c n w (reissue_crl_locked c w).1
unfolding reissue_crl_locked
reissue-Grown c n w ready =
    read-Grown c n (λ st. sign_crl_locked c (some st) st.own.entries) w
      (λ st v read has. sign-Grown c n st st.own.entries v ready read has)

adopt-chain : (stored : StoredCrl) → LeavesChain (adopt stored)
unfolding install_cached_crl_locked
adopt-chain stored v = ground arith

pub refresh-Grown :
    (c : Config) (n : ℕ) (before : Seconds) (w : World)
    → IsReady c
    → HasNumber c n w
    → Grown c n w (refresh_crl_locked c before w).1
unfolding refresh_crl_locked
refresh-Grown c n before w ready = read-Grown c n _ w (λ st v read has.
    elim (Bool-cases (ltb (v.now + before) st.own.next_update)) [
      | inl early ↦ rw early (inl (adopt-chain st v))
      | inr due ↦ rw due (
          after-Grown c n (sign_crl_locked c (some st) st.own.entries v).0 (λ _. pure true) v _
            (λ _ u. refl) (sign-Grown c n st st.own.entries v ready read has))
    ])

pub drop-Grown :
    (c : Config) (n : ℕ) (removed : List ℤ) (w : World)
    → IsReady c
    → HasNumber c n w
    → Grown c n w (drop_crl_entries_locked c removed w).1
unfolding drop_crl_entries_locked
drop-Grown c n removed w ready = read-Grown c n _ w (λ st v read has.
    elim (Bool-cases (drops_any removed st.own.entries)) [
      | inl some_there ↦
          rw some_there
            (sign-Grown c n st (kept_revocations removed st.own.entries) v ready read has)
      | inr no_one ↦ rw no_one (inl refl)
    ])

pub append-Grown :
    (c : Config) (n : ℕ) (add : List ℤ) (w : World)
    → IsReady c
    → HasNumber c n w
    → Grown c n w (append_crl_entries_locked c add w).1
unfolding append_crl_entries_locked
append-Grown c n add w ready = read-Grown c n _ w (λ st v read has.
    elim (Bool-cases (appends_any st.own.entries add)) [
      | inl new ↦
          let revoked = append_new v.now st.own.entries add in
          rw new (
            after-Grown c n (sign_crl_locked c (some st) revoked v).0 (λ _. pure revoked) v _
              (λ _ u. refl) (sign-Grown c n st revoked v ready read has))
      | inr old ↦ rw old (inl refl)
    ])

mark-chain : (serial : SerialText) (at : Seconds) → LeavesChain (mark_cert_revoked_index serial at)
mark-chain serial at v = (mark-keeps serial at v).0

noted-chain :
    (serial : SerialText) (at : Seconds) (m : Exec (Unit {0}))
    → LeavesChain m
    → LeavesChain (mark_cert_revoked_index serial at >> m)
noted-chain serial at m leaves v =
    go (mark_cert_revoked_index serial at v).0 (mark_cert_revoked_index serial at v).1
      (mark-chain serial at v)
  where
    go :
        (r : Result (Unit {0})) (u : World)
        → u.store.crl ≡ v.store.crl
        → (continue r (λ _. m) u).1.store.crl ≡ v.store.crl
    go (ok _) u same = leaves u ∙ same
    go (err e) u same = same

add-Grown :
    (c : Config) (n : ℕ) (serial : SerialText) (number : ℤ) (st : StoredCrl) (o : Option Seconds)
    (v : World)
    → IsReady c
    → stored_crl c v.store ≡ some st
    → HasNumber c n v
    → Grown c n v (add_unless c serial number st o v).1
unfolding append_entry
add-Grown c n serial number st (some at) v ready read has = inl (mark-chain serial at v)
add-Grown c n serial number st none v ready read has =
    let revoked = st.own.entries ++ entry_now number v ∷ [] in
    after-Grown c n (sign_crl_locked c (some st) revoked v).0 _ v _
      (λ _. noted-chain serial v.now _ (λ u. refl)) (sign-Grown c n st revoked v ready read has)

pub revoke-Grown :
    (c : Config) (n : ℕ) (serial : SerialText) (w : World)
    → IsReady c
    → HasNumber c n w
    → Grown c n w (revoke_serial_locked c serial w).1
unfolding revoke_serial_locked revoke_number counted
revoke-Grown c n serial w ready has = go (set_string serial)
  where
    go : (o : Option ℤ) → Grown c n w (revoke_parsed c serial o w).1
    go none = inl refl
    go (some m) =
        read-Grown c n (λ st. add_unless c serial m st (first_time m st.own.entries)) w
          (λ st v read h. add-Grown c n serial m st (first_time m st.own.entries) v ready read h)
          has

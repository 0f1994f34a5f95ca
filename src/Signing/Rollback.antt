-- ===== src/Signing/Rollback.antt =====
-- What an issue that fails leaves in the store (issueLeafLocked).
use openvox_ca.Prelude.{
  ℕ, suc, ◌≡◌, refl, ap, ◌∙◌, false, Option, none, some, [], ◌∷◌, ◌++◌, arith, Bool-cases, inl, inr,
  ◌⊎◌, String, leb, lookup, insert, delete, lookup-insert, lookup-delete, str_eq, str_eq_refl,
}
use openvox_ca.World.Types.{
  Cert, parsed, CaCert, Config, Store, Error, InventoryEntry, signing_fault, signing_slot_fault,
}
use openvox_ca.World.Exec.{
  World, Exec, Result, ok, err, attempt, pure, fails, continue, ◌>>=◌, ◌>>◌,
}
use openvox_ca.World.Steps.{delete_cert-store}
use openvox_ca.World.Storage.{has_serial, save_cert, append_inventory_record}
use openvox_ca.Signing.Policy.{validate_public_key}
use openvox_ca.Signing.Issue.{
  LeafRequest, leaf_template, inventory_line, store_leaf, sign_leaf, roll_back_on, random_serial,
  unless_expired, after_policy, issue_with, issue_leaf_locked, index_serial_locked,
}

-- A certificate was stored for the subject, and the rest of the issue failed.
pub record Abandoned (subject : String) (cert : Cert) (s s' : Store) : Type 0 where
  pub held : (lookup subject s'.certs ≡ none) ⊎ (lookup subject s'.certs ≡ some (parsed cert))
  pub others : (j : String) → str_eq subject j ≡ false → lookup j s'.certs ≡ lookup j s.certs
  pub inventory :
      (s'.inventory ≡ s.inventory)
      ⊎ (s'.inventory ≡ s.inventory ++ inventory_line cert subject ∷ [])
  pub csrs : s'.csrs ≡ s.csrs
  pub crl : s'.crl ≡ s.crl
  pub superseded : s'.superseded ≡ s.superseded

-- The certificate is the template for the request under a key of the CA.
abbrev pub IsTemplate : Config → LeafRequest → ℕ → Cert → Type 0
IsTemplate c r now cert =
    (ca : CaCert) × (key : ℕ) × (number : ℕ) × (c.ca_cert ≡ some ca)
    × (c.ca_key ≡ some key)
    × (cert ≡ leaf_template c ca key r number now)

abbrev pub LeftBy : String → (Cert → Type 0) → Store → Store → Type 0
LeftBy subject made s s' = (s' ≡ s) ⊎ ((cert : Cert) × made cert × Abandoned subject cert s s')

-- The first step of a chain kept the store, and the rest is known.
bind-LeftBy :
    {A : Type 0} {made : Cert → Type 0} (subject : String) (s : Store) (r : Result A)
    (f : A → Exec Cert) (w : World) {e : Error}
    → w.store ≡ s
    → ((a : A) → (f a w).0 ≡ err e → LeftBy subject made s (f a w).1.store)
    → (continue r f w).0 ≡ err e
    → LeftBy subject made s (continue r f w).1.store
bind-LeftBy subject s (ok a) f w kept rest h = rest a h
bind-LeftBy subject s (err x) f w kept rest h = inl kept

append-store :
    (e : InventoryEntry) (w : World)
    → ((append_inventory_record e w).1.store ≡ w.store)
      ⊎ ((append_inventory_record e w).1.store
          ≡ record w.store { inventory = w.store.inventory ++ e ∷ [] })
unfolding append_inventory_record
append-store e w = elim (Bool-cases (fails w)) [
  | inl bad ↦ rw bad (inl refl)
  | inr fine ↦ rw fine (elim (Bool-cases (has_serial e.serial w.store.inventory)) [
    | inl there ↦ rw there (inl refl)
    | inr fresh ↦ rw fresh (inr (ground arith))
  ])
]

-- The store with the certificate, before the rollback.
record Entered (subject : String) (cert : Cert) (s u : Store) : Type 0 where
  certs : u.certs ≡ insert subject (parsed cert) s.certs
  inventory :
      (u.inventory ≡ s.inventory) ⊎ (u.inventory ≡ s.inventory ++ inventory_line cert subject ∷ [])
  csrs : u.csrs ≡ s.csrs
  crl : u.crl ≡ s.crl
  superseded : u.superseded ≡ s.superseded

appended-Entered :
    (subject : String) (cert : Cert) (s t u : Store)
    → t ≡ record s { certs = insert subject (parsed cert) s.certs }
    → (u ≡ t) ⊎ (u ≡ record t { inventory = t.inventory ++ inventory_line cert subject ∷ [] })
    → Entered subject cert s u
appended-Entered subject cert s t u saved (inl same) =
    rw (same, saved)
      (record { certs = refl; inventory = inl refl; csrs = refl; crl = refl; superseded = refl })
appended-Entered subject cert s t u saved (inr more) =
    rw (more, saved)
      (record { certs = refl; inventory = inr refl; csrs = refl; crl = refl; superseded = refl })

Entered-Abandoned :
    (subject : String) (cert : Cert) (s u v : Store)
    → Entered subject cert s u
    → (v ≡ u) ⊎ (v ≡ record u { certs = delete subject u.certs })
    → Abandoned subject cert s v
Entered-Abandoned subject cert s u v entered (inl left) = rw left (record {
  held = inr (rw (entered.certs, lookup-insert, str_eq_refl subject) refl);
  others = λ j other. rw (entered.certs, lookup-insert, other) refl;
  inventory = entered.inventory;
  csrs = entered.csrs;
  crl = entered.crl;
  superseded = entered.superseded;
})
Entered-Abandoned subject cert s u v entered (inr done) = rw done (record {
  held = inl (rw (lookup-delete, str_eq_refl subject) refl);
  others = λ j other. rw (lookup-delete, other) (rw (entered.certs, lookup-insert, other) refl);
  inventory = entered.inventory;
  csrs = entered.csrs;
  crl = entered.crl;
  superseded = entered.superseded;
})

rolled-Abandoned :
    (subject : String) (cert : Cert) (s : Store) (r : Result (Unit {0})) (w : World) {e : Error}
    → ((v : Store)
        → (v ≡ w.store) ⊎ (v ≡ record w.store { certs = delete subject w.store.certs })
        → Abandoned subject cert s v)
    → ((roll_back_on subject r >>= λ _. index_serial_locked cert.serial subject >> pure cert) w).0
      ≡ err e
    → Abandoned subject cert s
        ((roll_back_on subject r >>= λ _. index_serial_locked cert.serial subject >> pure cert)
          w).1.store
unfolding index_serial_locked
rolled-Abandoned subject cert s (ok _) w left h = cc
rolled-Abandoned subject cert s (err x) w left h = left _ (delete_cert-store subject w)

store_leaf-LeftBy :
    {made : Cert → Type 0} (subject : String) (cert : Cert) (w : World) {e : Error}
    → made cert
    → (store_leaf subject cert w).0 ≡ err e
    → LeftBy subject made w.store (store_leaf subject cert w).1.store
unfolding store_leaf save_cert
store_leaf-LeftBy subject cert w is_made = elim (Bool-cases (fails w)) [
  | inl bad ↦ rw bad (λ h. inl refl)
  | inr fine ↦ rw fine (λ h.
      let v = record w {
        store = record w.store { certs = insert subject (parsed cert) w.store.certs };
        tick = suc w.tick;
      } in
      let r = append_inventory_record (inventory_line cert subject) v in
      let entered =
        appended-Entered subject cert w.store v.store r.1.store refl
          (append-store (inventory_line cert subject) v) in
      inr (
        cert,
        is_made,
        rolled-Abandoned subject cert w.store r.0 r.1
            (λ x. Entered-Abandoned subject cert w.store r.1.store x entered) h,
      ))
]

attempt-store : (e : Error) (w : World) → (attempt e w).1.store ≡ w.store
unfolding attempt
attempt-store e w = ground arith

random-store : (w : World) → (random_serial w).1.store ≡ w.store
unfolding random_serial
random-store w = ground arith

random-now : (w : World) → (random_serial w).1.now ≡ w.now
unfolding random_serial
random-now w = ground arith

LeftBy-from :
    {subject : String} {made : Cert → Type 0} {s t u : Store}
    → t ≡ s
    → LeftBy subject made t u
    → LeftBy subject made s u
LeftBy-from p l = rw (← p) l

sign_leaf-LeftBy :
    {made : Cert → Type 0} (subject : String) (cert : Cert) (w : World) {e : Error}
    → made cert
    → (sign_leaf subject cert w).0 ≡ err e
    → LeftBy subject made w.store (sign_leaf subject cert w).1.store
unfolding sign_leaf
sign_leaf-LeftBy subject cert w is_made h =
    let slot = attempt signing_slot_fault w in
    let sign = attempt signing_fault slot.1 in
    let first = attempt-store signing_slot_fault w in
    let second = attempt-store signing_fault slot.1 ∙ first in
    bind-LeftBy subject w.store slot.0 (λ _. attempt signing_fault >> store_leaf subject cert)
      slot.1 first
      (λ _.
        bind-LeftBy subject w.store sign.0 (λ _. store_leaf subject cert) sign.1 second
          (λ _ k. LeftBy-from second (store_leaf-LeftBy subject cert sign.1 is_made k)))
      h

unexpired-LeftBy :
    {made : Cert → Type 0} (c : Config) (ca : CaCert) (key : ℕ) (subject : String) (r : LeafRequest)
    (n : ℕ) (w : World) {e : Error}
    → made (leaf_template c ca key r n w.now)
    → (unless_expired c ca key subject r n w).0 ≡ err e
    → LeftBy subject made w.store (unless_expired c ca key subject r n w).1.store
unexpired-LeftBy c ca key subject r n w is_made = elim (Bool-cases (leb ca.not_after w.now)) [
  | inl expired ↦ rw expired (λ h. inl refl)
  | inr valid ↦
      rw valid (λ h. sign_leaf-LeftBy subject (leaf_template c ca key r n w.now) w is_made h)
]

policy-LeftBy :
    {made : Cert → Type 0} (subject : String) (s : Store) (r : Result (Unit {0})) (m : Exec Cert)
    (w : World) {e : Error}
    → w.store ≡ s
    → ((m w).0 ≡ err e → LeftBy subject made s (m w).1.store)
    → (after_policy r m w).0 ≡ err e
    → LeftBy subject made s (after_policy r m w).1.store
policy-LeftBy subject s (ok _) m w kept rest h = rest h
policy-LeftBy subject s (err x) m w kept rest h = inl kept

-- An issue that fails leaves the store as it was; or it made a certificate, the template for the
-- request, and leaves the subject with that one or with none, whatever the subject held before, the
-- inventory as it was or with the line of that certificate appended, and the certificates of other
-- subjects, the requests, the list and the pending entries as they were.
pub issue-failed :
    (c : Config) (subject : String) (r : LeafRequest) (w : World) {e : Error}
    → (issue_leaf_locked c subject r w).0 ≡ err e
    → LeftBy subject (IsTemplate c r w.now) w.store (issue_leaf_locked c subject r w).1.store
unfolding issue_leaf_locked
issue-failed c subject r w {e = e} h = go c.ca_cert c.ca_key refl refl h
  where
    go :
        (ca : Option CaCert) (key : Option ℕ)
        → c.ca_cert ≡ ca
        → c.ca_key ≡ key
        → (issue_with c subject r ca key w).0 ≡ err e
        → LeftBy subject (IsTemplate c r w.now) w.store (issue_with c subject r ca key w).1.store
    go none key p q k = inl refl
    go (some ca) none p q k = inl refl
    go (some ca) (some key) p q k =
        let f = unless_expired c ca key subject r in
        policy-LeftBy subject w.store (validate_public_key r.public_key) (random_serial >>= f) w
          refl
          (bind-LeftBy subject w.store (random_serial w).0 f (random_serial w).1 (random-store w)
            (λ n l. LeftBy-from (random-store w) (
              unexpired-LeftBy c ca key subject r n (random_serial w).1
                (ca, key, n, p, q, ap (leaf_template c ca key r n) (random-now w)) l)))
          k

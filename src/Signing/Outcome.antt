-- ===== src/Signing/Outcome.antt =====
-- What a certificate that was issued is, and what its issue leaves in the store (issueLeafLocked).
use openvox_ca.Prelude.{
  ℕ, ◌+◌, ◌-◌, ◌^◌, ◌≤◌, ◌<◌, ◌≡◌, refl, ap, sym, ◌∙◌, false, Option, none, some, List, [], ◌∷◌,
  ◌++◌, arith, Bool-cases, inl, inr, String, ℤ, pos, leb, lookup, insert, lookup-insert, str_eq,
  str_eq_refl,
}
use openvox_ca.Serial.{serial_hex_str}
use openvox_ca.World.Types.{
  Cert, ExtKeyUsage, server_auth, client_auth, Pem, parsed, CaCert, Config, Store, Seconds, Error,
  InventoryEntry, signing_fault, signing_slot_fault,
}
use openvox_ca.World.Exec.{World, Exec, Result, ok, err, attempt, pure, ◌>>=◌, ◌>>◌}
use openvox_ca.World.Steps.{bind-ok}
use openvox_ca.World.Storage.{has_serial, save_cert, append_inventory_record}
use openvox_ca.Signing.Policy.{validate_public_key}
use openvox_ca.Signing.Issue.{
  LeafRequest, leaf_template, leaf_validity, inventory_line, store_leaf, sign_leaf, roll_back_on,
  random_serial, unless_expired, after_policy, issue_with, issue_leaf_locked, index_serial_locked,
  min,
}

-- The store after a certificate was stored under the subject, and what it was before.
pub record Stored (subject : String) (cert : Cert) (s s' : Store) : Type 0 where
  pub held : lookup subject s'.certs ≡ some (parsed cert)
  pub others : (j : String) → str_eq subject j ≡ false → lookup j s'.certs ≡ lookup j s.certs
  pub appended : s'.inventory ≡ s.inventory ++ inventory_line cert subject ∷ []
  pub fresh : has_serial (serial_hex_str cert.serial) s.inventory ≡ false
  pub csrs : s'.csrs ≡ s.csrs
  pub crl : s'.crl ≡ s.crl
  pub superseded : s'.superseded ≡ s.superseded
  pub revoked_marks : s'.revoked_marks ≡ s.revoked_marks

saved :
    (subject : String) (p : Pem Cert) (w : World)
    → (save_cert subject p w).0 ≡ ok tt
    → (save_cert subject p w).1.store ≡ record w.store { certs = insert subject p w.store.certs }
unfolding save_cert
saved subject p w h = ground arith

appended :
    (e : InventoryEntry) (w : World)
    → (append_inventory_record e w).0 ≡ ok tt
    → ((append_inventory_record e w).1.store
        ≡ record w.store { inventory = w.store.inventory ++ e ∷ [] })
      × (has_serial e.serial w.store.inventory ≡ false)
unfolding append_inventory_record
appended e w h = (ground arith, ground arith)

rolled-ok :
    (subject : String) (r : Result (Unit {0})) (w : World)
    → (roll_back_on subject r w).0 ≡ ok tt
    → (r ≡ ok tt) × ((roll_back_on subject r w).1 ≡ w)
rolled-ok subject (ok _) w h = (refl, refl)
rolled-ok subject (err e) w h = cc

written :
    (subject : String) (cert : Cert) (s t u : Store)
    → t ≡ record s { certs = insert subject (parsed cert) s.certs }
    → u ≡ record t { inventory = t.inventory ++ inventory_line cert subject ∷ [] }
    → has_serial (serial_hex_str cert.serial) t.inventory ≡ false
    → Stored subject cert s u
written subject cert s t u saved appended fresh = record {
  held = rw (appended, saved, lookup-insert) (rw (str_eq_refl subject) refl);
  others = λ j other. rw (appended, saved, lookup-insert) (rw other refl);
  appended = rw (appended, saved) refl;
  fresh = rw saved at fresh;
  csrs = rw (appended, saved) refl;
  crl = rw (appended, saved) refl;
  superseded = rw (appended, saved) refl;
  revoked_marks = rw (appended, saved) refl;
}

index-store :
    (n : ℤ) (subject : String) (w : World) → (index_serial_locked n subject w).1.store ≡ w.store
unfolding index_serial_locked
index-store n subject w = refl

indexed-ok :
    (subject : String) (cert : Cert) (w : World) {cert' : Cert}
    → ((index_serial_locked cert.serial subject >> pure cert) w).0 ≡ ok cert'
    → (cert ≡ cert') × ((index_serial_locked cert.serial subject >> pure cert) w).1.store ≡ w.store
unfolding index_serial_locked
indexed-ok subject cert w h = (ground (arith, h), refl)

abbrev append_rolled : String → Cert → Exec (Unit {0})
append_rolled subject cert w =
    let r = append_inventory_record (inventory_line cert subject) w in roll_back_on subject r.0 r.1

store_leaf-ok :
    (subject : String) (cert : Cert) (w : World) {cert' : Cert}
    → (store_leaf subject cert w).0 ≡ ok cert'
    → (cert ≡ cert') × Stored subject cert w.store (store_leaf subject cert w).1.store
unfolding store_leaf inventory_line
store_leaf-ok subject cert w h =
    let r = save_cert subject (parsed cert) w in
    let (u, save, to_rest, h1) =
      bind-ok r.0
        (λ _. append_rolled subject cert >> (index_serial_locked cert.serial subject >> pure cert))
        r.1 h in
    let a = append_rolled subject cert r.1 in
    let (u', append, to_end, h2) =
      bind-ok a.0 (λ _. index_serial_locked cert.serial subject >> pure cert) a.1 h1 in
    let (same, store) = indexed-ok subject cert a.1 h2 in
    let (recorded, rolled) =
      rolled-ok subject (append_inventory_record (inventory_line cert subject) r.1).0
        (append_inventory_record (inventory_line cert subject) r.1).1 append in
    let (inventory, fresh) = appended (inventory_line cert subject) r.1 recorded in
    let end =
      ap (λ (p : Result Cert × World). p.1.store) (to_rest ∙ to_end)
      ∙ store
      ∙ ap (λ (v : World). v.store) rolled in
    (
      same,
      rw end (
          written subject cert w.store r.1.store _ (saved subject (parsed cert) w save) inventory
            fresh),
    )

-- The certificate has what the request asks for, the CA's addresses, and the given number and key.
pub record AsAsked (c : Config) (r : LeafRequest) (number key : ℕ) (now : Seconds) (cert : Cert)
    : Type 0 where
  pub serial : cert.serial ≡ pos number
  pub common_name : cert.common_name ≡ r.common_name
  pub public_key : cert.public_key ≡ r.public_key
  pub signer : cert.signer ≡ key
  pub sans : cert.sans ≡ r.sans
  pub extensions : cert.extensions ≡ r.extensions
  pub usage :
      (u : ExtKeyUsage) (us : List ExtKeyUsage)
      → r.ext_key_usage ≡ u ∷ us
      → cert.ext_key_usage ≡ u ∷ us
  pub default_usage : r.ext_key_usage ≡ [] → cert.ext_key_usage ≡ server_auth ∷ client_auth ∷ []
  pub crl_urls : cert.crl_urls ≡ c.crl_urls
  pub ocsp_urls : cert.ocsp_urls ≡ c.ocsp_urls
  pub lifetime : 0 < r.ttl → cert.not_after ≤ now + r.ttl

template-AsAsked :
    (c : Config) (ca : CaCert) (key : ℕ) (r : LeafRequest) (n : ℕ) (now : Seconds)
    → AsAsked c r n key now (leaf_template c ca key r n now)
unfolding leaf_template leaf_validity
template-AsAsked c ca key r n now = record {
  serial = refl;
  common_name = refl;
  public_key = refl;
  signer = refl;
  sans = refl;
  extensions = refl;
  usage = λ u us h. rw h refl;
  default_usage = λ h. rw h refl;
  crl_urls = refl;
  ocsp_urls = refl;
  lifetime = λ h. ground (arith, h);
}

-- What an issue that succeeds gives.
pub record Issued (c : Config) (subject : String) (r : LeafRequest) (w w' : World) (cert : Cert)
    : Type 0 where
  pub ca : CaCert
  pub has_ca : c.ca_cert ≡ some ca
  pub key : ℕ
  pub has_key : c.ca_key ≡ some key
  pub number : ℕ
  pub asked : AsAsked c r number key w.now cert
  pub number_bound : number < 2 ^ 128
  pub key_policy : validate_public_key r.public_key ≡ ok tt
  pub starts : cert.not_before ≤ w.now
  pub lasts : w.now < cert.not_after
  pub within_ca : cert.not_after ≤ ca.not_after
  pub stored : Stored subject cert w.store w'.store

validity-positive : (c : Config) (ttl : Seconds) → 0 < leaf_validity c ttl
unfolding leaf_validity
validity-positive c ttl = ground arith

Stored-moved :
    {subject : String} {cert cert' : Cert} {s t u v : Store}
    → s ≡ t
    → v ≡ u
    → cert' ≡ cert
    → Stored subject cert t u
    → Stored subject cert' s v
Stored-moved p q e stored = rw (p, q, e) stored

min_lem : (a b : ℕ) → 0 < a → 0 < b → (0 < min a b) × (min a b ≤ b)
min_lem a b h k = (ground arith, ground arith)

template-times :
    (c : Config) (ca : CaCert) (key : ℕ) (r : LeafRequest) (n : ℕ) (now : Seconds)
    → now < ca.not_after
    → let t = leaf_template c ca key r n now in
      (t.not_before ≤ now) × (now < t.not_after) × (t.not_after ≤ ca.not_after)
unfolding leaf_template
template-times c ca key r n now h =
    let (positive, bounded) =
      min_lem (leaf_validity c r.ttl) (ca.not_after - now) (validity-positive c r.ttl)
        (omega (arith, h)) in
    (omega arith, omega (arith, positive), omega (arith, bounded, h))

random-ok :
    (w : World) {n : ℕ}
    → (random_serial w).0 ≡ ok n
    → (n < 2 ^ 128) × ((random_serial w).1.store ≡ w.store) × ((random_serial w).1.now ≡ w.now)
unfolding random_serial
random-ok w h = (ground arith, ground arith, ground arith)

attempt-ok :
    (e : Error) (w : World) {u : Unit {0}}
    → (attempt e w).0 ≡ ok u
    → (attempt e w).1.store ≡ w.store
unfolding attempt
attempt-ok e w h = ground arith

sign_leaf-ok :
    (subject : String) (cert : Cert) (w : World) {cert' : Cert}
    → (sign_leaf subject cert w).0 ≡ ok cert'
    → (cert ≡ cert') × Stored subject cert w.store (sign_leaf subject cert w).1.store
unfolding sign_leaf
sign_leaf-ok subject cert w h =
    let slot = attempt signing_slot_fault w in
    let (u, e, to_sign, h1) =
      bind-ok slot.0 (λ _. attempt signing_fault >> store_leaf subject cert) slot.1 h in
    let sign = attempt signing_fault slot.1 in
    let (u', e', to_store, h2) = bind-ok sign.0 (λ _. store_leaf subject cert) sign.1 h1 in
    let (same, stored) = store_leaf-ok subject cert sign.1 h2 in
    let start = attempt-ok signing_fault slot.1 e' ∙ attempt-ok signing_slot_fault w e in
    (
      same,
      Stored-moved (sym start) (ap (λ (p : Result Cert × World). p.1.store) (to_sign ∙ to_store))
          refl stored,
    )

unexpired-ok :
    (c : Config) (ca : CaCert) (key : ℕ) (subject : String) (r : LeafRequest) (n : ℕ) (w v : World)
    {cert : Cert}
    → c.ca_cert ≡ some ca
    → c.ca_key ≡ some key
    → n < 2 ^ 128
    → validate_public_key r.public_key ≡ ok tt
    → v.store ≡ w.store
    → v.now ≡ w.now
    → (unless_expired c ca key subject r n v).0 ≡ ok cert
    → Issued c subject r w (unless_expired c ca key subject r n v).1 cert
unfolding leaf_template
unexpired-ok c ca key subject r n w v has_ca has_key bound policy store now =
    elim (Bool-cases (leb ca.not_after v.now)) [
      | inl expired ↦ rw expired (λ h. cc)
      | inr valid ↦ rw valid (λ h.
          let (same, stored) = sign_leaf-ok subject (leaf_template c ca key r n v.now) v h in
          let (starts, lasts, within) = template-times c ca key r n v.now (ground (arith, valid)) in
          record {
            ca = ca;
            has_ca = has_ca;
            key = key;
            has_key = has_key;
            number = n;
            asked = rw (← same, ← now) (template-AsAsked c ca key r n v.now);
            number_bound = bound;
            key_policy = policy;
            starts = rw (← same, ← now) starts;
            lasts = rw (← same, ← now) lasts;
            within_ca = rw (← same) within;
            stored = Stored-moved (sym store) refl (sym same) stored;
          })
    ]

policy-ok :
    (r : Result (Unit {0})) (m : Exec Cert) (w : World) {cert : Cert}
    → (after_policy r m w).0 ≡ ok cert
    → (r ≡ ok tt) × (after_policy r m w ≡ m w)
policy-ok (ok _) m w h = (refl, refl)
policy-ok (err e) m w h = cc

keyed-ok :
    (c : Config) (ca : CaCert) (key : ℕ) (subject : String) (r : LeafRequest) (w : World)
    {cert : Cert}
    → c.ca_cert ≡ some ca
    → c.ca_key ≡ some key
    → (issue_with c subject r (some ca) (some key) w).0 ≡ ok cert
    → Issued c subject r w (issue_with c subject r (some ca) (some key) w).1 cert
keyed-ok c ca key subject r w has_ca has_key h =
    let f = unless_expired c ca key subject r in
    let (policy, allowed) =
      policy-ok (validate_public_key r.public_key) (random_serial >>= f) w h in
    let draw = random_serial w in
    let (n, drawn, to_rest, h1) =
      bind-ok draw.0 f draw.1 (ap (λ (p : Result Cert × World). p.0) (sym allowed) ∙ h) in
    let (bound, store, now) = random-ok w drawn in
    rw (allowed, to_rest)
      (unexpired-ok c ca key subject r n w draw.1 has_ca has_key bound policy store now h1)

-- A certificate is issued only under a key of the CA and for a public key that the policy admits. It
-- has the name, the key, the alternative names and the extensions of the request, its usages or else
-- those of servers and clients, the CA's addresses and a serial below 2^128; it is valid at the time
-- of its issue, ends no later than the CA certificate and, where the request gives a lifetime, when
-- that has passed. And then it is the one stored for the subject, the inventory ends in its line and
-- held no line with its serial, and nothing else of the store changed.
pub issue-ok :
    (c : Config) (subject : String) (r : LeafRequest) (w : World) {cert : Cert}
    → (issue_leaf_locked c subject r w).0 ≡ ok cert
    → Issued c subject r w (issue_leaf_locked c subject r w).1 cert
unfolding issue_leaf_locked
issue-ok c subject r w {cert = cert} h = go c.ca_cert c.ca_key refl refl h
  where
    go :
        (ca : Option CaCert) (key : Option ℕ)
        → c.ca_cert ≡ ca
        → c.ca_key ≡ key
        → (issue_with c subject r ca key w).0 ≡ ok cert
        → Issued c subject r w (issue_with c subject r ca key w).1 cert
    go none key p q h = cc
    go (some ca) none p q h = cc
    go (some ca) (some key) p q h = keyed-ok c ca key subject r w p q h

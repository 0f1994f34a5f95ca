-- ===== src/Signing/Issue.antt =====
-- The building, signing and storing of a leaf certificate: issueLeafLocked and signWithDuration of
-- internal/ca/signing.go, indexSerialLocked of ocsp.go.
use openvox_ca.Prelude.{
  ℕ, suc, ◌+◌, ◌-◌, ◌*◌, ◌%◌, ◌^◌, Bool, true, false, not, ◌&&◌, Option, none, some, List, [], ◌∷◌,
  String, ℤ, pos, ◌==ℤ◌, ltb, leb, if◌then◌else◌, str_eq,
}
use openvox_ca.Serial.{serial_hex_str}
use openvox_ca.Subject.{validate_subject}
use openvox_ca.World.Types.{
  Cert, Csr, Pem, no_block, malformed, parsed, PublicKey, SubjectAltNames, Extension, ExtKeyUsage,
  server_auth, client_auth, CaCert, Config, Seconds, not_initialized, random_fault, ca_expired,
  signing_fault, signing_slot_fault, invalid_subject, bad_csr_pem, bad_csr, bad_csr_signature,
  disallowed_extensions, InventoryEntry,
}
use openvox_ca.World.Exec.{
  Exec, Result, ok, err, pure, raise, attempt, best_effort, modify_mem, fails, ticked, ◌>>=◌, ◌>>◌,
}
use openvox_ca.World.Locks.{with_lock}
use openvox_ca.World.Storage.{save_cert, delete_cert, append_inventory_record, get_csr, delete_csr}
use openvox_ca.Signing.Policy.{
  validate_public_key, copied_extensions, requests_ca, check_subject_alt_names,
}

abbrev pub drop_serial : ℤ → List (ℤ × String) → List (ℤ × String)
drop_serial n [] = []
drop_serial n ((m, s) ∷ index) =
    let rest = drop_serial n index in if m ==ℤ n then rest else (m, s) ∷ rest

-- indexSerialLocked; a serial stands for its key in the index, of which its printed form is the text.
unfoldable pub index_serial_locked : ℤ → String → Exec (Unit {0})
index_serial_locked n subject = modify_mem λ m. record m {
  serial_index = (n, subject) ∷ drop_serial n m.serial_index;
  serial_index_epoch = suc m.serial_index_epoch;
}

-- leafBackdate, with the default of five minutes.
unfoldable pub leaf_backdate : Config → Seconds
leaf_backdate c = if ltb 0 c.leaf_backdate then c.leaf_backdate else 300

abbrev pub cert_validity : Seconds
cert_validity = 5 * 365 * 24 * 3600

-- The lifetime asked for: the caller's, the configured one, or five years.
unfoldable pub leaf_validity : Config → Seconds → Seconds
leaf_validity c ttl =
    if ltb 0 ttl
    then ttl
    else if ltb 0 c.leaf_validity_days
    then c.leaf_validity_days * 24 * 3600
    else cert_validity

abbrev pub min : ℕ → ℕ → ℕ
min a b = if leb a b then a else b

abbrev pub usage_or_default : List ExtKeyUsage → List ExtKeyUsage
usage_or_default [] = server_auth ∷ client_auth ∷ []
usage_or_default (u ∷ us) = u ∷ us

-- `rand.Int` below 2^128.
unfoldable pub random_serial : Exec ℕ
random_serial w =
    if fails w then (err random_fault, ticked w) else (ok (w.random w.tick % 2 ^ 128), ticked w)

-- What the caller of issueLeafLocked gives.
pub record LeafRequest : Type 0 where
  pub common_name : String
  pub public_key : PublicKey
  pub sans : SubjectAltNames
  pub extensions : List Extension
  pub ext_key_usage : List ExtKeyUsage
  pub ttl : Seconds

-- The template, with the signature of the key `key`. `ocsp_urls` stands for the extension that holds
-- them, and the other extensions override what the template's fields would give.
unfoldable pub leaf_template : Config → CaCert → ℕ → LeafRequest → ℕ → Seconds → Cert
unfolding leaf_validity leaf_backdate
leaf_template c ca key r serial now = record {
  serial = pos serial;
  common_name = r.common_name;
  not_before = now - leaf_backdate c;
  not_after = now + min (leaf_validity c r.ttl) (ca.not_after - now);
  public_key = r.public_key;
  signer = key;
  ext_key_usage = usage_or_default r.ext_key_usage;
  sans = r.sans;
  crl_urls = c.crl_urls;
  ocsp_urls = c.ocsp_urls;
  extensions = r.extensions;
}

unfoldable pub inventory_line : Cert → String → InventoryEntry
inventory_line cert subject = record {
  serial = serial_hex_str cert.serial;
  not_before = cert.not_before;
  not_after = some cert.not_after;
  subject = subject;
}

abbrev pub roll_back_on : String → Result (Unit {0}) → Exec (Unit {0})
roll_back_on subject (ok _) w = (ok tt, w)
roll_back_on subject (err e) w = (err e, (delete_cert subject w).1)

-- The certificate is stored, and taken out again where the inventory does not accept its entry.
unfoldable pub store_leaf : String → Cert → Exec Cert
store_leaf subject cert = do
  save_cert subject (parsed cert)
  λ w.
      (let r = append_inventory_record (inventory_line cert subject) w in
        roll_back_on subject r.0 r.1)
  index_serial_locked cert.serial subject
  pure cert

-- Signing under a slot of the CA key.
unfoldable pub sign_leaf : String → Cert → Exec Cert
sign_leaf subject cert = do
  attempt signing_slot_fault
  attempt signing_fault
  store_leaf subject cert

abbrev pub unless_expired : Config → CaCert → ℕ → String → LeafRequest → ℕ → Exec Cert
unless_expired c ca key subject r serial w =
    if leb ca.not_after w.now
    then (err ca_expired, w)
    else sign_leaf subject (leaf_template c ca key r serial w.now) w

abbrev pub after_policy : Result (Unit {0}) → Exec Cert → Exec Cert
after_policy (ok _) m w = m w
after_policy (err e) m w = (err e, w)

abbrev pub issue_with : Config → String → LeafRequest → Option CaCert → Option ℕ → Exec Cert
issue_with c subject r (some ca) (some key) =
    after_policy (validate_public_key r.public_key)
      (random_serial >>= λ serial. unless_expired c ca key subject r serial)
issue_with c subject r _ _ = raise not_initialized

unfoldable pub issue_leaf_locked : Config → String → LeafRequest → Exec Cert
issue_leaf_locked c subject r = issue_with c subject r c.ca_cert c.ca_key

abbrev pub is_none {ℓ} : {A : Type ℓ} → Option A → Bool
is_none none = true
is_none (some _) = false

-- The DNS names of the request, or its common name where it has none and that is promoted.
unfoldable pub promoted_names : Config → Csr → List String
promoted_names c csr = elim csr.sans.dns_names [
  | [] ↦ if c.promote_cn_to_san && not (str_eq csr.common_name "") then csr.common_name ∷ [] else []
  | d ∷ ds ↦ d ∷ ds
]

unfoldable pub leaf_request : Config → Csr → Seconds → LeafRequest
unfolding promoted_names copied_extensions
leaf_request c csr ttl = record {
  common_name = csr.common_name;
  public_key = csr.public_key;
  sans = record {
    dns_names = promoted_names c csr;
    ip_addresses = [];
    email_addresses = [];
    uris = [];
  };
  extensions = copied_extensions csr.extensions;
  ext_key_usage = [];
  ttl = ttl;
}

-- The checks on a request that was read, in the order of the code.
unfoldable pub accept_csr : Config → String → Pem Csr → Result Csr
accept_csr c subject no_block = err bad_csr_pem
accept_csr c subject malformed = err bad_csr
accept_csr c subject (parsed csr) =
    if not csr.signature_ok
    then err bad_csr_signature
    else if requests_ca csr.extensions
    then err disallowed_extensions
    else elim (check_subject_alt_names c subject csr) [ ok _ ↦ ok csr | err e ↦ err e ]

unfoldable pub sign_csr : Config → String → Seconds → Exec Cert
sign_csr c subject ttl = do
  pem ← get_csr subject
  csr ← λ w. (accept_csr c subject pem, w)
  cert ← issue_leaf_locked c subject (leaf_request c csr ttl)
  best_effort (delete_csr subject)
  pure cert

unfoldable pub sign_with_duration : Config → String → Seconds → Exec Cert
sign_with_duration c subject ttl =
    if is_none c.ca_cert
    then raise not_initialized
    else if is_none c.ca_key
    then raise not_initialized
    else if validate_subject subject
    then sign_csr c subject ttl
    else raise invalid_subject

-- SignWithTTL, and Sign with a `ttl` of 0.
unfoldable pub sign_with_ttl : Config → String → Seconds → Exec Cert
sign_with_ttl c subject ttl =
    if validate_subject subject
    then with_lock (sign_with_duration c subject ttl)
    else raise invalid_subject

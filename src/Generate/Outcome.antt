-- ===== src/Generate/Outcome.antt =====
-- What a generation that succeeds has checked, revoked and issued (GenerateWithOptions).
use openvox_ca.Prelude.{
  ℕ, ◌≡◌, refl, ap, sym, ◌∙◌, Bool, true, false, ◌⊎◌, inl, inr, Option, none, some, List, arith,
  Bool-cases, String, lookup, if◌then◌else◌,
}
use openvox_ca.Serial.{SerialText}
use openvox_ca.Subject.{validate_subject}
use openvox_ca.World.Types.{
  Extension, CaCert, PublicKey, Config, Error, invalid_subject, reserved_subject, bad_dns_alt_names,
}
use openvox_ca.World.Exec.{World, Exec, Result, ok, err, pure, raise, fails, ◌>>◌}
use openvox_ca.World.Locks.{with_lock, granted}
use openvox_ca.World.Steps.{bind-ok}
use openvox_ca.World.Storage.{is_there}
use openvox_ca.Signing.Held.{evict_revoked_locked}
use openvox_ca.Signing.Issue.{issue_leaf_locked}
use openvox_ca.Signing.Outcome.{Issued, issue-ok}
use openvox_ca.Signing.Evict.{IsRevoked, evict_revoked_locked_iff}
use openvox_ca.Managed.Spec.{check_key_subject, validate_dns_alt_names}
use openvox_ca.Managed.Key.{generate_key, leaf_key_config}
use openvox_ca.Generate.{
  GenerateOptions, GenerateResult, auth_grant_extensions, to_replace, revoke_replaced, reload,
  is_replacing, generate_request, retain_key, drop_pending, issue_generated, generate_locked, emit,
  generate_granted, generate_if_initialised, generate_with_options,
}
use openvox_ca.Generate.Replace.{OldRevoked, reading_world, revoke_replaced-OldRevoked}

-- The world in which the body of the subject's lock starts: the key was made and handed out.
abbrev pub locked_world : Config → GenerateOptions → PublicKey → World → World
locked_world c opts key w =
    granted (emit opts.emit_key key (generate_key (leaf_key_config c) w).1).1

-- The world that follows the revocation of the old certificate, if any, and the reading of the list.
abbrev pub cleared_world : Config → String → Bool → Option SerialText → World → World
cleared_world c subject replace old w =
    (reload c old (revoke_replaced c old (to_replace c subject replace w).1).1).1

-- The name was free in the world, and the certificate was issued in the world that its eviction left.
pub record Made (c : Config) (subject : String) (opts : GenerateOptions)
    (extensions : List Extension) (w : World) (r : GenerateResult) : Type 0 where
  pub cleared :
      (fails w ≡ true) ⊎ (is_there (lookup subject w.store.certs) ≡ false) ⊎ IsRevoked subject w
  pub issued :
      let start = (evict_revoked_locked subject w).1 in
      let request = generate_request c subject opts extensions r.private_key in
      Issued c subject request start (issue_leaf_locked c subject request start).1 r.certificate

-- What runs under the lock of the subject, from the world `w` on.
pub record Placed (c : Config) (subject : String) (opts : GenerateOptions)
    (extensions : List Extension) (w : World) (r : GenerateResult) : Type 0 where
  pub old : Option SerialText
  pub found : (to_replace c subject opts.replace_existing w).0 ≡ ok old
  pub made : Made c subject opts extensions (cleared_world c subject opts.replace_existing old w) r
  pub replaced : r.replaced ≡ is_replacing old
  pub replaces :
      r.replaced ≡ true
      → (opts.replace_existing ≡ true) × OldRevoked c subject (reading_world c subject w)

-- What a certificate that was generated took.
pub record Generated (c : Config) (subject : String) (opts : GenerateOptions) (w : World)
    (r : GenerateResult) : Type 0 where
  pub valid_name : validate_subject subject ≡ true
  pub unreserved : check_key_subject subject ≡ true
  pub valid_alt_names : validate_dns_alt_names opts.dns_alt_names ≡ true
  pub extensions : List Extension
  pub grants : auth_grant_extensions opts.auth_grants ≡ ok extensions
  pub key : (generate_key (leaf_key_config c) w).0 ≡ ok r.private_key
  pub placed : Placed c subject opts extensions (locked_world c opts r.private_key w) r

last_of :
    (m n : Exec (Unit {0})) (a : GenerateResult) (w : World) {b : GenerateResult}
    → ((m >> (n >> pure a)) w).0 ≡ ok b
    → a ≡ b
last_of m n a w h =
    let (u, _, _, h1) = bind-ok (m w).0 (λ _. n >> pure a) (m w).1 h in
    let (v, _, _, h2) = bind-ok (n (m w).1).0 (λ _. pure a) (n (m w).1).1 h1 in ground (arith, h2)

issue_generated-Made :
    (c : Config) (subject : String) (opts : GenerateOptions) (extensions : List Extension)
    (key : PublicKey) (old : Option SerialText) (w : World) {r : GenerateResult}
    → (issue_generated c subject opts extensions key old w).0 ≡ ok r
    → Made c subject opts extensions w r × (r.replaced ≡ is_replacing old) × (key ≡ r.private_key)
unfolding issue_generated
issue_generated-Made c subject opts extensions key old w {r = r} h =
    let evict = evict_revoked_locked subject w in
    let (u, clear, _, h1) = bind-ok evict.0 _ evict.1 h in
    let request = generate_request c subject opts extensions key in
    let issue = issue_leaf_locked c subject request evict.1 in
    let (cert, made, _, h2) = bind-ok issue.0 _ issue.1 h1 in
    let result : GenerateResult = record {
      private_key = key;
      certificate = cert;
      replaced = is_replacing old;
    } in
    let same : result ≡ r =
      last_of (retain_key subject opts.retain_private_key) (drop_pending subject) result issue.1
        h2 in
    let built : Made c subject opts extensions w result = record {
      cleared = (evict_revoked_locked_iff subject w).0 clear;
      issued = issue-ok c subject request evict.1 made;
    } in
    rw (← same) (built, refl, refl)

generate_locked-Placed :
    (c : Config) (subject : String) (opts : GenerateOptions) (extensions : List Extension)
    (key : PublicKey) (w : World) {r : GenerateResult}
    → (generate_locked c subject opts extensions key w).0 ≡ ok r
    → Placed c subject opts extensions w r × (key ≡ r.private_key)
unfolding generate_locked
generate_locked-Placed c subject opts extensions key w h =
    let found = to_replace c subject opts.replace_existing w in
    let (old, asked, _, h1) = bind-ok found.0 _ found.1 h in
    let revoked = revoke_replaced c old found.1 in
    let (u, gone, _, h2) =
      bind-ok revoked.0 (λ _. reload c old >> issue_generated c subject opts extensions key old)
        revoked.1 h1 in
    let fresh = reload c old revoked.1 in
    let (v, _, _, h3) =
      bind-ok fresh.0 (λ _. issue_generated c subject opts extensions key old) fresh.1 h2 in
    let (made, replaced, same_key) =
      issue_generated-Made c subject opts extensions key old fresh.1 h3 in
    (
      record {
        old = old;
        found = asked;
        made = made;
        replaced = replaced;
        replaces = λ k.
            revoke_replaced-OldRevoked c subject opts.replace_existing old w asked gone
              (sym replaced ∙ k);
      },
      same_key,
    )

lock-Placed :
    (c : Config) (subject : String) (opts : GenerateOptions) (extensions : List Extension)
    (key : PublicKey) (w : World) {r : GenerateResult}
    → (with_lock (generate_locked c subject opts extensions key) w).0 ≡ ok r
    → Placed c subject opts extensions (granted w) r × (key ≡ r.private_key)
unfolding with_lock
lock-Placed c subject opts extensions key w h = elim (Bool-cases (fails w)) [
  | inl bad ↦ cc (rw bad at h)
  | inr fine ↦ generate_locked-Placed c subject opts extensions key (granted w) (rw fine at h)
]

-- What follows the checks.
abbrev KeyedPlaced :
    Config → String → GenerateOptions → World → GenerateResult → List Extension → Type 0
KeyedPlaced c subject opts w r extensions =
    ((generate_key (leaf_key_config c) w).0 ≡ ok r.private_key)
    × Placed c subject opts extensions (locked_world c opts r.private_key w) r

Placed-keyed :
    (c : Config) (subject : String) (opts : GenerateOptions) (extensions : List Extension)
    (w : World) {k k' : PublicKey} {r : GenerateResult}
    → k ≡ k'
    → Placed c subject opts extensions (locked_world c opts k w) r
    → Placed c subject opts extensions (locked_world c opts k' w) r
Placed-keyed c subject opts extensions w same p = rw (← same) p

granted-Placed :
    (c : Config) (subject : String) (opts : GenerateOptions) (g : Result (List Extension))
    (w : World) {r : GenerateResult}
    → (generate_granted c subject opts g w).0 ≡ ok r
    → (extensions : List Extension) × (g ≡ ok extensions)
      × KeyedPlaced c subject opts w r extensions
unfolding generate_granted
granted-Placed c subject opts (err e) w {r = r} h = cc
granted-Placed c subject opts (ok extensions) w {r = r} h =
    let made = generate_key (leaf_key_config c) w in
    let (key, has_key, _, h1) = bind-ok made.0 _ made.1 h in
    let given = emit opts.emit_key key made.1 in
    let (u, _, _, h2) =
      bind-ok given.0 (λ _. with_lock (generate_locked c subject opts extensions key)) given.1 h1 in
    let (placed, same) = lock-Placed c subject opts extensions key given.1 h2 in
    (extensions, refl, (has_key ∙ ap ok same, Placed-keyed c subject opts extensions w same placed))

initialised-Placed :
    (c : Config) (subject : String) (opts : GenerateOptions) (ca : Option CaCert) (k : Option ℕ)
    (w : World) {r : GenerateResult}
    → (generate_if_initialised c subject opts ca k w).0 ≡ ok r
    → (extensions : List Extension) × (auth_grant_extensions opts.auth_grants ≡ ok extensions)
      × KeyedPlaced c subject opts w r extensions
initialised-Placed c subject opts (some ca) (some k) w h =
    granted-Placed c subject opts (auth_grant_extensions opts.auth_grants) w h
initialised-Placed c subject opts (some ca) none w h = cc
initialised-Placed c subject opts none k w h = cc

-- A chain of checks that gives a value has passed the check.
checked :
    (b : Bool) (m : Exec GenerateResult) (e : Error) (w : World) {r : GenerateResult}
    → ((if b then m else raise e) w).0 ≡ ok r
    → (b ≡ true) × ((m w).0 ≡ ok r)
checked true m e w h = (refl, h)
checked false m e w h = cc

-- A generation that succeeds was for a valid name other than the reserved one, with valid alternative
-- names and grants, and issued a certificate for that name with the granted extensions and the key
-- that it made first. In the world that follows the revocation of what is replaced, the name was free:
-- the check for a certificate failed, none was stored, or the one stored was on the list in memory; the
-- certificate is issued in the world that this check left. It says that it replaced a certificate only
-- where that was asked for, and then the certificate that it read for the name was revoked right after.
pub generate_with_options-Generated :
    (c : Config) (subject : String) (opts : GenerateOptions) (w : World) {r : GenerateResult}
    → (generate_with_options c subject opts w).0 ≡ ok r
    → Generated c subject opts w r
unfolding generate_with_options
generate_with_options-Generated c subject opts w h =
    let (name, h1) = checked (validate_subject subject) _ invalid_subject w h in
    let (unreserved, h2) = checked (check_key_subject subject) _ reserved_subject w h1 in
    let (names, h3) =
      checked (validate_dns_alt_names opts.dns_alt_names)
        (generate_if_initialised c subject opts c.ca_cert c.ca_key) bad_dns_alt_names w h2 in
    let (extensions, grants, (key, placed)) =
      initialised-Placed c subject opts c.ca_cert c.ca_key w h3 in
    record {
      valid_name = name;
      unreserved = unreserved;
      valid_alt_names = names;
      extensions = extensions;
      grants = grants;
      key = key;
      placed = placed;
    }

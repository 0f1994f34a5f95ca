-- ===== src/Examples/Renewals.antt =====
-- Runs of issuance and renewal.
use openvox_ca.Prelude.{
  ◌≡◌, refl, Bool, true, false, [], ◌∷◌, codes_eq, ◌==ℤ◌, ◌⊎◌, inl, Memᴰ, lookup, ◌≢◌, ◌↔◌, ◌++◌,
  ◌==◌, none, insert, delete,
}
use openvox_ca.World.Types.{backend_fault, Cert, Csr, parsed, PublicKey, Extension, Oid}
use openvox_ca.World.Exec.{World, Exec, ok, err, attempt, pure, fails}
use openvox_ca.World.Locks.{granted}
use openvox_ca.World.Storage.{is_there, delete_cert, save_cert, append_inventory_record}
use openvox_ca.Serial.{serial_hex_str}
use openvox_ca.Signing.Policy.{
  validate_public_key, copied_extensions, check_subject_alt_names, puppet_oid_arc,
  puppet_auth_oid_arc,
}
use openvox_ca.Signing.Names.{mem-copied_extensions, OwnNames, check_subject_alt_names_iff}
use openvox_ca.Signing.Duplicate.{IsHeld, save_request-refuses}
use openvox_ca.Signing.Issue.{
  issue_leaf_locked, sign_leaf, store_leaf, random_serial, index_serial_locked, leaf_template,
  inventory_line, LeafRequest,
}
use openvox_ca.Signing.Renew.{renewal_request}
use openvox_ca.Signing.Request.{save_request}
use openvox_ca.Signing.Outcome.{Issued, issue-ok}
use openvox_ca.Signing.Held.{evict_revoked_locked}
use openvox_ca.Signing.Evict.{IsRevoked, evict_revoked_locked_iff}
use openvox_ca.Signing.Rollback.{LeftBy, IsTemplate, issue-failed}
use openvox_ca.Examples.Data.{ca, config, world, agent_cert, agent_csr, new_key}

-- The certificate that a renewal for the key gives.
abbrev successor : PublicKey → Cert
successor key = leaf_template config ca 7 (renewal_request agent_cert key) 255 100

abbrev request : LeafRequest
request = renewal_request agent_cert new_key

issue_runs :
    (issue_leaf_locked config "web01" request world).0
    ≡ ok (leaf_template config ca 7 request 255 100)
unfolding issue_leaf_locked validate_public_key random_serial sign_leaf attempt store_leaf save_cert
    append_inventory_record index_serial_locked ◌==ℤ◌ codes_eq serial_hex_str renewal_request
    inventory_line leaf_template
issue_runs = refl

issue-ok_example :
    Issued config "web01" request world
      (issue_leaf_locked config "web01" request world).1
      (leaf_template config ca 7 request 255 100)
issue-ok_example = issue-ok config "web01" request world issue_runs

-- The inventory entry is written, and the value that protects the inventory is not.
abbrev torn_world : World
torn_world = record world { faults = λ n. n == 5 }

issue_fails : (issue_leaf_locked config "web01" request torn_world).0 ≡ err backend_fault
unfolding issue_leaf_locked validate_public_key random_serial sign_leaf attempt store_leaf save_cert
    append_inventory_record index_serial_locked ◌==ℤ◌ codes_eq serial_hex_str renewal_request
    inventory_line leaf_template
issue_fails = refl

-- The subject had a certificate, and has none.
issue_forgets :
    lookup "web01" (issue_leaf_locked config "web01" request torn_world).1.store.certs ≡ none
unfolding issue_leaf_locked validate_public_key random_serial sign_leaf attempt store_leaf save_cert
    append_inventory_record index_serial_locked ◌==ℤ◌ codes_eq serial_hex_str renewal_request
    inventory_line leaf_template delete_cert lookup insert delete
issue_forgets = refl

issue-failed_example :
    LeftBy "web01"
      (IsTemplate config request torn_world.now)
      torn_world.store
      (issue_leaf_locked config "web01" request torn_world).1.store
issue-failed_example = issue-failed config "web01" request torn_world issue_fails

-- A submission whose request is signed at once.
abbrev sign_all : Csr → Exec Bool
sign_all csr = pure true

held : IsHeld "web01" (granted world).store
unfolding lookup
held = inl refl

save_request-refuses_example :
    ((b : Bool) → (save_request config sign_all "web01" (parsed agent_csr) world).0 ≢ ok b)
    × (((save_request config sign_all "web01" (parsed agent_csr) world).1.store ≡ world.store)
        ⊎ ((save_request config sign_all "web01" (parsed agent_csr) world).1.store
            ≡ (granted world).store))
save_request-refuses_example =
    save_request-refuses config sign_all "web01" (parsed agent_csr) world refl held

abbrev role : Extension
role = record { id = 1 ∷ 3 ∷ 6 ∷ 1 ∷ 4 ∷ 1 ∷ 34380 ∷ 1 ∷ 1 ∷ 13 ∷ []; critical = false; value = [] }

abbrev admin : Extension
admin = record {
  id = 1 ∷ 3 ∷ 6 ∷ 1 ∷ 4 ∷ 1 ∷ 34380 ∷ 1 ∷ 3 ∷ 39 ∷ [];
  critical = false;
  value = [];
}

mem-copied_extensions_example : Memᴰ admin (copied_extensions (role ∷ admin ∷ [])) ↔ (
    Memᴰ admin (role ∷ admin ∷ [])
    × ((rest : Oid) × (admin.id ≡ puppet_oid_arc ++ rest))
    × ((rest : Oid) → admin.id ≢ puppet_auth_oid_arc ++ rest))
mem-copied_extensions_example = mem-copied_extensions admin (role ∷ admin ∷ [])

abbrev two_names : Csr
two_names = record agent_csr {
  sans = record {
    dns_names = "WEB01" ∷ "db01" ∷ [];
    ip_addresses = [];
    email_addresses = [];
    uris = [];
  };
}

check_subject_alt_names_iff_example :
    (check_subject_alt_names config "web01" two_names ≡ ok tt)
    ↔ ((config.allow_subject_alt_names ≡ true) ⊎ OwnNames "web01" two_names.sans)
check_subject_alt_names_iff_example = check_subject_alt_names_iff config "web01" two_names

evict_revoked_locked_iff_example : ((evict_revoked_locked "web01" world).0 ≡ ok tt) ↔ (
    (fails world ≡ true)
    ⊎ (is_there (lookup "web01" world.store.certs) ≡ false)
    ⊎ IsRevoked "web01" world)
evict_revoked_locked_iff_example = evict_revoked_locked_iff "web01" world

-- ===== src/Examples/Generations.antt =====
-- A run of a generation that replaces the certificate of the agent, and a bulk signing.
use openvox_ca.Prelude.{◌≡◌, refl, true, false, none, [], ◌∷◌, ◌==ℤ◌, codes_eq, lookup, codes, pos}
use openvox_ca.World.Exec.{World, ok}
use openvox_ca.Serial.{serial_hex_str, set_string}
use openvox_ca.Subject.{validate_subject}
use openvox_ca.World.Exec.{attempt}
use openvox_ca.World.Locks.{with_lock}
use openvox_ca.World.Storage.{
  has_cert, get_crl, get_cert, has_csr, save_cert, delete_cert, append_inventory_record,
}
use openvox_ca.Crl.Lists.{select_own_crl, crl_signed_by, serial_in_crl}
use openvox_ca.Crl.Store.{install_cached_crl_locked, read_stored_crl}
use openvox_ca.Crl.Sign.{sign_crl_locked, create_crl, publish_crl}
use openvox_ca.Revoke.Serial.{
  revoke_serial_locked, first_time, append_entry, mark_cert_revoked_index,
}
use openvox_ca.Signing.Held.{evict_revoked_locked, stored_cert_locked, revoked_locked}
use openvox_ca.Signing.Bulk.{sign_multiple}
use openvox_ca.Signing.Reported.{Reported, sign_multiple-Reported}
use openvox_ca.Signing.Policy.{validate_public_key}
use openvox_ca.Signing.Issue.{
  issue_leaf_locked, random_serial, sign_leaf, store_leaf, index_serial_locked, leaf_template,
  inventory_line,
}
use openvox_ca.Managed.Key.{generate_key, leaf_key_config}
use openvox_ca.Managed.Spec.{validate_dns_alt_names}
use openvox_ca.Generate.{
  auth_grant_extensions, generate_granted, generate_locked, to_replace, load_crl_cache,
  stored_cert_serial_locked, issue_generated, GenerateOptions, GenerateResult,
  generate_with_options,
}
use openvox_ca.Generate.Outcome.{Generated, generate_with_options-Generated}
use openvox_ca.World.Types.{Cert, PublicKey, KeyKind, parsed, server_auth, client_auth}
use openvox_ca.Examples.Data.{config, world, agent_cert, agent_csr}

-- The option to authorise the bearer with the CA, as PpCliAuth grants it.
abbrev options : GenerateOptions
options = record {
  dns_alt_names = "web01.example" ∷ [];
  auth_grants =
      record {
        oid = 1 ∷ 3 ∷ 6 ∷ 1 ∷ 4 ∷ 1 ∷ 34380 ∷ 1 ∷ 3 ∷ 39 ∷ [];
        value = 12 ∷ 4 ∷ codes "true";
      }
      ∷ [];
  ttl = 600;
  replace_existing = true;
  retain_private_key = true;
  emit_key = none;
}

abbrev made_key : PublicKey
made_key = record { kind = KeyKind.rsa 2048; identity = 255 }

abbrev made_cert : Cert
made_cert = record agent_cert {
  serial = pos 255;
  not_before = 0;
  not_after = 700;
  public_key = made_key;
  ext_key_usage = server_auth ∷ client_auth ∷ [];
  sans = record {
    dns_names = "web01.example" ∷ [];
    ip_addresses = [];
    email_addresses = [];
    uris = [];
  };
  extensions =
      record {
        id = 1 ∷ 3 ∷ 6 ∷ 1 ∷ 4 ∷ 1 ∷ 34380 ∷ 1 ∷ 3 ∷ 39 ∷ [];
        critical = false;
        value = 12 ∷ 4 ∷ codes "true";
      }
      ∷ [];
}

abbrev made_result : GenerateResult
made_result = record { private_key = made_key; certificate = made_cert; replaced = true }

generation_runs : (generate_with_options config "web01" options world).0 ≡ ok made_result
unfolding generate_with_options validate_subject auth_grant_extensions generate_granted generate_key
    leaf_key_config with_lock generate_locked to_replace has_cert load_crl_cache get_crl
    install_cached_crl_locked select_own_crl crl_signed_by stored_cert_serial_locked get_cert
    revoke_serial_locked read_stored_crl sign_crl_locked create_crl publish_crl attempt
    evict_revoked_locked stored_cert_locked revoked_locked serial_in_crl delete_cert issue_generated
    issue_leaf_locked validate_public_key random_serial sign_leaf store_leaf save_cert
    append_inventory_record index_serial_locked leaf_template inventory_line serial_hex_str has_csr
    lookup codes_eq ◌==ℤ◌ validate_dns_alt_names set_string first_time append_entry
    mark_cert_revoked_index
generation_runs = refl

generate_with_options-Generated_example : Generated config "web01" options world made_result
generate_with_options-Generated_example =
    generate_with_options-Generated config "web01" options world generation_runs

-- One name has a request, the other has not.
abbrev pending_world : World
pending_world = record world {
  store = record world.store {
    csrs = ("web02", parsed (record agent_csr { common_name = "web02" })) ∷ [];
  };
}

sign_multiple-Reported_example :
    Reported config
      ("web02" ∷ "web03" ∷ [])
      pending_world
      (sign_multiple config ("web02" ∷ "web03" ∷ []) pending_world).0
      (sign_multiple config ("web02" ∷ "web03" ∷ []) pending_world).1
sign_multiple-Reported_example =
    sign_multiple-Reported config ("web02" ∷ "web03" ∷ []) pending_world

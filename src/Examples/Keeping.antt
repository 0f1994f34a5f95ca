-- ===== src/Examples/Keeping.antt =====
-- Runs of the managed certificates.
use openvox_ca.Prelude.{
  ◌+◌, ◌-◌, ◌*◌, ◌/◌, ◌^◌, ◌≤◌, ◌≡◌, refl, arith, true, none, some, [], ◌∷◌, ltb, lookup, codes_eq,
  if◌then◌else◌,
}
use openvox_ca.Serial.{serial_hex_str}
use openvox_ca.World.Types.{Cert, parsed, server_auth, Seconds}
use openvox_ca.World.Exec.{ok, pure, attempt}
use openvox_ca.World.Locks.{with_lock}
use openvox_ca.World.Storage.{get_cert, save_cert, append_inventory_record}
use openvox_ca.Crl.Lists.{serial_in_crl}
use openvox_ca.Crl.Store.{is_revoked_serial}
use openvox_ca.Supersede.Sweep.{supersede_replaced_after}
use openvox_ca.Signing.Policy.{validate_public_key}
use openvox_ca.Signing.Issue.{
  min, leaf_backdate, issue_leaf_locked, random_serial, sign_leaf, store_leaf, leaf_template,
  inventory_line, index_serial_locked,
}
use openvox_ca.Managed.Spec.{CertSpec, validate_spec, supersede_after_for}
use openvox_ca.Managed.Decide.{issue_decision, current, renew_window}
use openvox_ca.Managed.Served.{issued-Current, decided_at, due_at, managed_leaf, granted_life}
use openvox_ca.Managed.Backoff.{
  skip_for_save_backoff, record_save_outcome, save_backoff_wait, save_backoff_base,
  save_backoff_cap,
}
use openvox_ca.Managed.Waits.{save_backoff_wait-doubles}
use openvox_ca.Managed.Reconcile.{
  ManagedCert, stored_material_revoked, issuance_key_for, reconcile_managed_cert,
}
use openvox_ca.Managed.Reconciled.{Reconciled, reconcile_managed_cert-Reconciled}
use openvox_ca.Examples.Data.{config, world, ca, agent_cert, agent_key}

-- A certificate for a service of the CA, whose key is kept.
abbrev spec : CertSpec
spec = record {
  subject = "web01";
  sans = record {
    dns_names = "web01.example" ∷ [];
    ip_addresses = [];
    email_addresses = [];
    uris = [];
  };
  ext_key_usage = server_auth ∷ [];
  ttl = 0;
  renew_before = 3600;
  key_config = record { algo = ""; size = 0 };
  reuse_key = true;
  supersede_after = none;
}

abbrev bare_cert : Cert
bare_cert = record agent_cert {
  sans = record { dns_names = []; ip_addresses = []; email_addresses = []; uris = [] };
}

-- Its store holds a certificate that lacks the name, and the key of that.
abbrev managed : ManagedCert
managed = record {
  spec = spec;
  load = pure (some (parsed bare_cert), some (parsed agent_key));
  save = λ cert key. pure tt;
}

backdate-within : leaf_backdate config ≤ 1000
unfolding leaf_backdate
backdate-within = omega arith

issued-Current_example :
    ((later : Seconds)
      → decided_at config ca spec agent_key 77 1000 later ≡ (
        if ltb later (due_at config ca spec agent_key 77 1000) then current else renew_window,
        some (managed_leaf config ca spec agent_key 77 1000),
      ))
    × (1000 + (granted_life config ca 0 1000 - granted_life config ca 0 1000 / 2)
        ≤ due_at config ca spec agent_key 77 1000)
issued-Current_example = issued-Current config ca spec agent_key 77 1000 backdate-within

save_backoff_wait-doubles_example :
    save_backoff_wait 60 ≡ min (save_backoff_base * 2 ^ (60 - 2)) save_backoff_cap
save_backoff_wait-doubles_example = save_backoff_wait-doubles 60 (omega arith)

managed-issued : (reconcile_managed_cert config managed world).0 ≡ ok true
unfolding reconcile_managed_cert validate_spec with_lock stored_material_revoked issue_decision
    skip_for_save_backoff lookup is_revoked_serial issuance_key_for serial_in_crl issue_leaf_locked
    validate_public_key random_serial get_cert sign_leaf attempt store_leaf save_cert
    append_inventory_record index_serial_locked supersede_replaced_after supersede_after_for
    record_save_outcome leaf_template codes_eq inventory_line serial_hex_str
managed-issued = refl

reconcile_managed_cert-Reconciled_example : Reconciled config managed world
reconcile_managed_cert-Reconciled_example =
    reconcile_managed_cert-Reconciled config managed world managed-issued

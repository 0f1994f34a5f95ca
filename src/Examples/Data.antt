-- ===== src/Examples/Data.antt =====
-- A CA with one certificate of one agent, which has been renewed once: its first serial waits in the
-- pending list, and another serial is on the revocation list.
use openvox_ca.Prelude.{refl, true, false, some, none, [], ◌∷◌, pos, codes}
use openvox_ca.World.Types.{
  KeyKind, PublicKey, SubjectAltNames, Cert, Csr, parsed, Crl, CrlBlob, crl_block, SupersededEntry,
  Store, Mem, CaCert, CachedResponse, good, not_configured, Config, server_auth,
}
use openvox_ca.World.Exec.{World}
use openvox_ca.Crl.Chain.{IsReady}

abbrev pub ca : CaCert
ca = record {
  key = 7;
  raw_subject = codes "CN=Puppet CA";
  public_key_bits = some (4 ∷ 17 ∷ 99 ∷ []);
  not_after = 1000000;
}

abbrev pub config : Config
config = record {
  ca_cert = some ca;
  ca_key = some 7;
  allow_duplicate_certs = false;
  allow_subject_alt_names = false;
  promote_cn_to_san = true;
  revoke_on_auto_renew = true;
  supersede_after = 60;
  leaf_validity_days = 30;
  crl_validity_days = 7;
  leaf_backdate = 0;
  leaf_key_config = record { algo = ""; size = 0 };
  crl_urls = [];
  ocsp_urls = [];
  upstream = not_configured;
}

pub config-IsReady : IsReady config
config-IsReady = record {
  cert = ca;
  has_cert = refl;
  has_key = refl;
  upstream_foreign = λ crls h. cc;
}

abbrev pub agent_key : PublicKey
agent_key = record { kind = KeyKind.rsa 2048; identity = 1 }

abbrev pub new_key : PublicKey
new_key = record { kind = KeyKind.ecdsa 256; identity = 2 }

abbrev pub no_sans : SubjectAltNames
no_sans = record { dns_names = []; ip_addresses = []; email_addresses = []; uris = [] }

abbrev pub agent_cert : Cert
agent_cert = record {
  serial = pos 31;
  common_name = "web01";
  not_before = 10;
  not_after = 500;
  public_key = agent_key;
  signer = 7;
  ext_key_usage = server_auth ∷ [];
  sans = record {
    dns_names = "web01.example" ∷ [];
    ip_addresses = [];
    email_addresses = [];
    uris = [];
  };
  crl_urls = [];
  ocsp_urls = [];
  extensions =
      record {
        id = 1 ∷ 3 ∷ 6 ∷ 1 ∷ 4 ∷ 1 ∷ 34380 ∷ 1 ∷ 1 ∷ 13 ∷ [];
        critical = false;
        value = 119 ∷ [];
      }
      ∷ record { id = 2 ∷ 5 ∷ 29 ∷ 35 ∷ []; critical = false; value = 1 ∷ [] }
      ∷ [];
}

abbrev pub agent_csr : Csr
agent_csr = record {
  common_name = "web01";
  public_key = new_key;
  signature_ok = true;
  sans = no_sans;
  extensions = [];
}

abbrev pub own_crl : Crl
own_crl = record {
  entries = record { serial = pos 5; revocation_time = 20 } ∷ [];
  number = some 3;
  this_update = 20;
  next_update = 90;
  signer = 7;
  raw = 1;
}

abbrev pub old_crl : Crl
old_crl = record {
  entries = [];
  number = some 2;
  this_update = 15;
  next_update = 85;
  signer = 7;
  raw = 0;
}

abbrev pub other_crl : Crl
other_crl = record {
  entries = [];
  number = some 9;
  this_update = 1;
  next_update = 99;
  signer = 8;
  raw = 2;
}

abbrev pub chain : CrlBlob
chain = crl_block own_crl ∷ crl_block other_crl ∷ []

abbrev pub first_entry : SupersededEntry
first_entry = record { serial = codes "1e"; subject = "web01"; revoke_at = 50 }

abbrev pub later_entry : SupersededEntry
later_entry = record { serial = codes "2A"; subject = "web02"; revoke_at = 150 }

abbrev pub store : Store
store = record {
  certs = ("web01", parsed agent_cert) ∷ [];
  csrs = [];
  inventory =
      record { serial = codes "1E"; not_before = 5; not_after = some 400; subject = "web01" }
      ∷ record { serial = codes "1F"; not_before = 10; not_after = some 500; subject = "web01" }
      ∷ [];
  crl = some chain;
  superseded = some (record { recovered = first_entry ∷ later_entry ∷ []; corrupt = false });
  revoked_marks = [];
}

-- The answer for the serial that the agent uses now.
abbrev pub cached_answer : CachedResponse
cached_answer = record {
  serial = pos 31;
  hash = 3;
  der = record {
    serial = pos 31;
    issuer_hash = 3;
    status = good;
    this_update = 50;
    next_update = some 14450;
    nonce = none;
    signer = 7;
  };
  expires_at = 14450;
}

abbrev pub mem : Mem
mem = record {
  cached_crl = some old_crl;
  ocsp_cache = cached_answer ∷ [];
  serial_index = (pos 31, "web01") ∷ [];
  serial_index_epoch = 0;
  serial_index_removal_epoch = 0;
  crl_update_failures = 0;
  crl_sync_failures = 0;
  serial_index_sync_failures = 0;
  supersede_failures = 0;
  save_failures = [];
  crl_notify = false;
}

-- Nothing fails, and nobody else changes anything.
abbrev pub world : World
world = record {
  store = store;
  mem = mem;
  now = 100;
  tick = 0;
  faults = λ n. false;
  others = λ n s m. (s, m);
  random = λ n. 255;
}

-- Every call fails.
abbrev pub faulty_world : World
faulty_world = record world { faults = λ n. true }

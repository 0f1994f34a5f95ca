-- ===== src/Examples/Requests.antt =====
-- A request of an agent for its own certificate request.
use openvox_ca.Prelude.{
  ◌≡◌, refl, true, false, none, some, [], ◌∷◌, ◌⊎◌, pos, codes, codes_eq, lookup, ◌==ℤ◌, ◌==◌,
  if◌then◌else◌,
}
use openvox_ca.Crl.Lists.{serial_in_crl, listed}
use openvox_ca.ClientCrl.{ClientCrl, new_client_crl_set}
use openvox_ca.Auth.{
  TrustDomain, AuthConfig, StringDecoder, moment, HttpRequest, served, refused, tier_public,
  lookup_tier, authorise,
}
use openvox_ca.Auth.Admitted.{Admitted, authorise-Admitted}
use openvox_ca.Examples.Data.{agent_cert, own_crl}

abbrev decode_string : StringDecoder
decode_string bits = some bits

-- The roots verify what the key of the CA signed.
abbrev own_domain : TrustDomain
own_domain = record {
  own = true;
  pp_cli_auth = true;
  admins = some (("admin", true) ∷ []);
  verify = λ cert others. if cert.signer == 7 then some (cert ∷ []) else none;
  crls = none;
}

abbrev auth_config : AuthConfig
auth_config = record {
  allow_public_status = false;
  domains = own_domain ∷ [];
  client_revocation_policy = "";
}

abbrev own_request : HttpRequest
own_request = record {
  method = "GET";
  path = codes "/puppet-ca/v1/certificate_request/web01";
  peers = agent_cert ∷ [];
}

own_request-served :
    authorise decode_string (some own_crl) 100 (some auth_config) own_request ≡ served
unfolding authorise serial_in_crl listed codes_eq lookup ◌==ℤ◌
own_request-served = refl

-- The same without a certificate.
own_request-refused :
    authorise decode_string
      (some own_crl)
      100
      (some auth_config)
      (record own_request { peers = [] })
    ≡ refused
unfolding authorise codes_eq
own_request-refused = refl

authorise-Admitted_example :
    (lookup_tier own_request.method own_request.path auth_config ≡ tier_public)
    ⊎ Admitted decode_string
        (moment (some own_crl) 100 auth_config)
        auth_config.domains
        own_request
        (lookup_tier own_request.method own_request.path auth_config)
authorise-Admitted_example =
    authorise-Admitted decode_string (some own_crl) 100 auth_config own_request own_request-served

-- An agent of another domain, whose list of its own CA revokes a different one.
abbrev foreign_list : ClientCrl
foreign_list = record {
  signer = 1;
  this_update = 50;
  next_update = some 200;
  entries = record { serial = pos 5; revocation_time = 20 } ∷ [];
  partial = false;
}

abbrev foreign_domain : TrustDomain
foreign_domain = record own_domain {
  own = false;
  verify = λ cert others. some (cert ∷ agent_cert ∷ []);
  crls = some (new_client_crl_set (foreign_list ∷ []) (agent_cert ∷ []));
}

abbrev admin_request : HttpRequest
admin_request = record {
  method = "DELETE";
  path = codes "/puppet-ca/v1/certificate_status/web01";
  peers = record agent_cert { common_name = "admin" } ∷ [];
}

admin_request-served :
    authorise decode_string none 100
      (some (record auth_config { domains = foreign_domain ∷ [] }))
      admin_request
    ≡ served
unfolding authorise codes_eq lookup new_client_crl_set listed ◌==ℤ◌
admin_request-served = refl

-- The same after the end of the list.
late_request-refused :
    authorise decode_string none 300
      (some (record auth_config { domains = foreign_domain ∷ [] }))
      admin_request
    ≡ refused
unfolding authorise codes_eq lookup new_client_crl_set listed ◌==ℤ◌
late_request-refused = refl

-- ===== src/Signing/Renewal.antt =====
-- What a renewal that succeeds has checked, and what it issues (Renew and AutoRenew).
use openvox_ca.Prelude.{◌≡◌, true, some, List, [], ◌∷◌, Memᴰ, ◌↔◌}
use openvox_ca.Subject.{validate_subject}
use openvox_ca.World.Types.{
  Cert, PublicKey, Extension, ExtKeyUsage, server_auth, client_auth, CaCert, Config,
}
use openvox_ca.World.Exec.{World, Exec}
use openvox_ca.World.Locks.{granted}
use openvox_ca.World.Storage.{latest_serial_for_subject}
use openvox_ca.Supersede.Refuse.{refuse_if_revoked}
use openvox_ca.Supersede.Gate.{Passes}
use openvox_ca.Signing.Outcome.{Issued}
use openvox_ca.Signing.Carried.{IsRefreshed}
use openvox_ca.Signing.Renew.{renewal_request, reissue_leaf_locked}

-- The world in which the body of the subject's lock starts, after the first pass of the gate.
abbrev pub locked_after : Config → Cert → World → World
locked_after c presented w = granted (refuse_if_revoked c presented w).1

-- The certificate is that of the presented one's name, names and usages for the key, with the presented
-- one's extensions but those that are refreshed, and with the CA's addresses.
pub record Succeeds (c : Config) (presented : Cert) (key : PublicKey) (cert : Cert) : Type 0 where
  pub common_name : cert.common_name ≡ presented.common_name
  pub public_key : cert.public_key ≡ key
  pub sans : cert.sans ≡ presented.sans
  pub extensions :
      (e : Extension) → Memᴰ e cert.extensions ↔ (Memᴰ e presented.extensions × ¬ IsRefreshed e.id)
  pub usage :
      (u : ExtKeyUsage) (us : List ExtKeyUsage)
      → presented.ext_key_usage ≡ u ∷ us
      → cert.ext_key_usage ≡ u ∷ us
  pub default_usage :
      presented.ext_key_usage ≡ [] → cert.ext_key_usage ≡ server_auth ∷ client_auth ∷ []
  pub crl_urls : cert.crl_urls ≡ c.crl_urls
  pub ocsp_urls : cert.ocsp_urls ≡ c.ocsp_urls

-- What a renewal of `presented` for the public key `key` has checked, and what it issued from the world
-- `start` on.
pub record Renewed (c : Config) (presented : Cert) (key : PublicKey) (w start : World) (cert : Cert)
    : Type 0 where
  pub ca : CaCert
  pub has_ca : c.ca_cert ≡ some ca
  pub own : presented.signer ≡ ca.key
  pub valid_name : validate_subject presented.common_name ≡ true
  pub before_lock : Passes c presented w
  pub under_lock : Passes c presented (locked_after c presented w)
  pub successor : Succeeds c presented key cert
  pub issued :
      Issued c presented.common_name
        (renewal_request presented key)
        start
        (reissue_leaf_locked c presented.common_name presented key start).1
        cert

-- What runs under the lock passes the gate again before it issues.
abbrev IssuedUnder : Config → Cert → PublicKey → World → World → Cert → Type 0
IssuedUnder c presented key w start cert =
    Passes c presented w
    × Issued c presented.common_name (renewal_request presented key) start
        (reissue_leaf_locked c presented.common_name presented key start).1 cert

-- The world in which a renewal with a request issues: the gate was passed under the lock, and the serial
-- to supersede looked up.
abbrev pub named_world : Config → Cert → World → World
named_world c presented w =
    (latest_serial_for_subject presented.common_name (refuse_if_revoked c presented w).1).1

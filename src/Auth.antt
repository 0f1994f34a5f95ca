-- ===== src/Auth.antt =====
-- Who may make a request: lookupTier, extractPathSubject, isAdmin and newAuthMiddleware of
-- internal/api/auth.go, attribute of trustdomain.go. A refusal is an answer with the status 403.
pub mod Admitted
use openvox_ca.Prelude.{
  ℕ, Bool, true, false, not, ◌&&◌, ◌||◌, Option, none, some, List, [], ◌∷◌, String, Map, lookup,
  codes, codes_eq, str_eq, ◌==◌, if◌then◌else◌,
}
use openvox_ca.World.Types.{Oid, Extension, Cert, Crl, Seconds}
use openvox_ca.ClientCrl.{ClientCrlSet, RevocationPolicy, policy_of, check_chain_revocation}
use openvox_ca.World.Exec.{Result, ok, err}
use openvox_ca.Crl.Store.{revoked_in}

pub data AuthTier : Type 0 where
  tier_public tier_own_client tier_self_or_admin tier_admin_only : AuthTier

-- TrustDomain. `verify` is what the library's Verify against the roots answers for a certificate and
-- the others presented: the first chain.
pub record TrustDomain : Type 0 where
  pub own : Bool
  pub pp_cli_auth : Bool
  pub admins : Option (Map Bool)
  pub verify : Cert → List Cert → Option (List Cert)
  pub crls : Option ClientCrlSet

pub record AuthConfig : Type 0 where
  pub allow_public_status : Bool
  pub domains : List TrustDomain
  pub client_revocation_policy : String

-- Decoding a string with asn1.Unmarshal, `none` for an error or bytes left over.
abbrev pub StringDecoder : Type 0
StringDecoder = List ℕ → Option (List ℕ)

pub record HttpRequest : Type 0 where
  pub method : String
  pub path : List ℕ
  -- the certificates presented, none where there is no TLS
  pub peers : List Cert

pub data Verdict : Type 0 where
  served refused : Verdict

-- What is left of a text after a prefix.
unfoldable pub after_prefix : List ℕ → List ℕ → Option (List ℕ)
after_prefix [] path = some path
after_prefix (a ∷ prefix) [] = none
after_prefix (a ∷ prefix) (b ∷ path) =
    let rest = after_prefix prefix path in if a == b then rest else none

abbrev pub is_prefix : Option (List ℕ) → Bool
is_prefix none = false
is_prefix (some rest) = true

unfoldable pub starts_with : String → List ℕ → Bool
unfolding after_prefix
starts_with prefix path = is_prefix (after_prefix (codes prefix) path)

abbrev pub or_whole : Option (List ℕ) → List ℕ → List ℕ
or_whole none path = path
or_whole (some rest) path = rest

-- strings.TrimPrefix.
unfoldable pub trim_prefix : String → List ℕ → List ℕ
unfolding after_prefix
trim_prefix prefix path = or_whole (after_prefix (codes prefix) path) path

-- The switch of lookupTier, on what follows the base of the path.
unfoldable pub tier_of : String → List ℕ → Bool → AuthTier
unfolding starts_with
tier_of method p allow_public_status =
    if str_eq method "GET" && starts_with "/healthz/" p
    then tier_public
    else if str_eq method "GET" && starts_with "/certificate/" p
    then tier_public
    else if str_eq method "GET" && starts_with "/certificate_revocation_list/" p
    then tier_public
    else if str_eq method "PUT" && starts_with "/certificate_request/" p
    then tier_public
    else if starts_with "/ocsp" p
    then tier_public
    else if str_eq method "GET" && starts_with "/certificate_status/" p
    then (if allow_public_status then tier_public else tier_admin_only)
    else if str_eq method "GET" && codes_eq p (codes "/expirations")
    then tier_public
    else if str_eq method "GET" && starts_with "/certificate_request/" p
    then tier_self_or_admin
    else if str_eq method "POST" && codes_eq p (codes "/certificate_renewal")
    then tier_own_client
    else tier_admin_only

unfoldable pub lookup_tier : String → List ℕ → AuthConfig → AuthTier
unfolding tier_of trim_prefix
lookup_tier method path cfg =
    tier_of method (trim_prefix "/puppet-ca/v1" path) cfg.allow_public_status

abbrev pub or_empty : Option (List ℕ) → List ℕ
or_empty none = []
or_empty (some rest) = rest

unfoldable pub subject_after : List String → List ℕ → List ℕ
unfolding after_prefix
subject_after [] path = []
subject_after (prefix ∷ prefixes) path =
    let rest = subject_after prefixes path in
    elim (after_prefix (codes prefix) path) [ none ↦ rest | some subject ↦ subject ]

unfoldable pub extract_path_subject : List ℕ → List ℕ
unfolding subject_after trim_prefix
extract_path_subject path =
    subject_after ("/certificate/" ∷ "/certificate_status/" ∷ "/certificate_request/" ∷ [])
      (trim_prefix "/puppet-ca/v1" path)

abbrev pub oid_pp_cli_auth : Oid
oid_pp_cli_auth = 1 ∷ 3 ∷ 6 ∷ 1 ∷ 4 ∷ 1 ∷ 34380 ∷ 1 ∷ 3 ∷ 39 ∷ []

abbrev pub is_true_text : Option (List ℕ) → Bool
is_true_text none = false
is_true_text (some text) = codes_eq text (codes "true")

-- hasPpCliAuth: the first extension of the kind decides.
unfoldable pub has_pp_cli_auth : StringDecoder → List Extension → Bool
has_pp_cli_auth k [] = false
has_pp_cli_auth k (e ∷ es) =
    let rest = has_pp_cli_auth k es in
    if codes_eq e.id oid_pp_cli_auth then is_true_text (k e.value) else rest

abbrev pub is_set_true : Option Bool → Bool
is_set_true none = false
is_set_true (some b) = b

-- IsAdminCN.
abbrev pub is_admin_cn : Option (Map Bool) → String → Bool
is_admin_cn none cn = false
is_admin_cn (some cns) cn = is_set_true (lookup cn cns)

unfoldable pub is_admin : StringDecoder → TrustDomain → Cert → Bool
unfolding has_pp_cli_auth
is_admin k domain cert =
    is_admin_cn domain.admins cert.common_name
    || (domain.pp_cli_auth && has_pp_cli_auth k cert.extensions)

-- attribute: the first domain whose roots verify the certificate.
unfoldable pub attribute : List TrustDomain → Cert → List Cert → Option (TrustDomain × List Cert)
attribute [] cert others = none
attribute (d ∷ domains) cert others =
    let rest = attribute domains cert others in
    elim (d.verify cert others) [ none ↦ rest | some chain ↦ some (d, chain) ]

abbrev pub is_unrevoked : Result Bool → Bool
is_unrevoked (ok revoked) = not revoked
is_unrevoked (err e) = false

-- What the middleware reads beside the configuration: the list that IsRevokedSerial reads, the time,
-- and the policy for other domains.
pub record Moment : Type 0 where
  pub crl : Option Crl
  pub now : Seconds
  pub policy : RevocationPolicy

-- The check of revocation: our list for a certificate of ours, else those of the domain for the chain.
abbrev pub passes_revocation : Moment → TrustDomain → Cert → List Cert → Bool
passes_revocation t domain cert chain =
    if domain.own
    then is_unrevoked (revoked_in t.crl cert.serial)
    else check_chain_revocation chain domain.crls t.policy t.now

abbrev pub is_empty : List ℕ → Bool
is_empty [] = true
is_empty (c ∷ cs) = false

abbrev pub is_self : TrustDomain → Cert → List ℕ → Bool
is_self domain cert subject =
    domain.own && not (is_empty subject) && codes_eq (codes cert.common_name) subject

-- The switch on the tier.
unfoldable pub meets_tier : StringDecoder → TrustDomain → Cert → List ℕ → AuthTier → Bool
unfolding is_admin extract_path_subject
meets_tier k domain cert path tier_public = true
meets_tier k domain cert path tier_own_client = domain.own
meets_tier k domain cert path tier_self_or_admin =
    is_admin k domain cert || is_self domain cert (extract_path_subject path)
meets_tier k domain cert path tier_admin_only = is_admin k domain cert

abbrev pub serve_if : Bool → Verdict
serve_if b = if b then served else refused

abbrev pub judge :
    StringDecoder → Moment → Cert → List ℕ → AuthTier → Option (TrustDomain × List Cert) → Verdict
judge k t cert path tier none = refused
judge k t cert path tier (some (domain, chain)) =
    serve_if (passes_revocation t domain cert chain && meets_tier k domain cert path tier)

abbrev pub judge_peers :
    StringDecoder → Moment → List TrustDomain → List ℕ → AuthTier → List Cert → Verdict
judge_peers k t domains path tier [] = refused
judge_peers k t domains path tier (cert ∷ others) =
    judge k t cert path tier (attribute domains cert others)

abbrev pub judge_tier : StringDecoder → Moment → List TrustDomain → HttpRequest → AuthTier → Verdict
judge_tier k t domains r tier_public = served
judge_tier k t domains r tier = judge_peers k t domains r.path tier r.peers

abbrev pub moment : Option Crl → Seconds → AuthConfig → Moment
moment crl now cfg = record {
  crl = crl;
  now = now;
  policy = policy_of cfg.client_revocation_policy;
}

-- newAuthMiddleware; without a configuration all is served.
unfoldable pub authorise :
    StringDecoder → Option Crl → Seconds → Option AuthConfig → HttpRequest → Verdict
unfolding lookup_tier attribute meets_tier check_chain_revocation
authorise k crl now none r = served
authorise k crl now (some cfg) r =
    judge_tier k (moment crl now cfg) cfg.domains r (lookup_tier r.method r.path cfg)

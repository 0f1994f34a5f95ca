-- ===== src/Managed/Spec.antt =====
-- What a managed certificate is to be: CertSpec and its Validate of internal/ca/managedcert.go,
-- validateDNSAltNames of generate.go, CheckKeySubject of reservedsubject.go.
use openvox_ca.Prelude.{
  ℕ, ◌+◌, Bool, true, false, not, ◌&&◌, ◌||◌, Option, none, some, List, [], ◌∷◌, String, str_eq,
  codes, leb, ltb, ◌==◌, length, if◌then◌else◌,
}
use openvox_ca.World.Types.{
  KeyConfig, ExtKeyUsage, SubjectAltNames, Seconds, Config, invalid_subject, bad_spec, KeyKind,
}
use openvox_ca.World.Exec.{Result, ok, err}
use openvox_ca.Subject.{validate_subject}
use openvox_ca.Managed.Key.{validate_key_config, leaf_key_config, is_set}

-- The durations of a spec are not negative here, so the checks of their signs are left out.
pub record CertSpec : Type 0 where
  pub subject : String
  pub sans : SubjectAltNames
  pub ext_key_usage : List ExtKeyUsage
  pub ttl : Seconds
  pub renew_before : Seconds
  pub key_config : KeyConfig
  pub reuse_key : Bool
  pub supersede_after : Option Seconds

-- Where dnsNameRegex stands: before a label, after a letter or digit, after a dash.
pub data DnsState : Type 0 where
  before_label after_alnum after_dash : DnsState

abbrev pub is_alnum : ℕ → Bool
is_alnum c = (leb b'a' c && leb c b'z') || (leb b'0' c && leb c b'9')

abbrev pub dns_step : DnsState → ℕ → Option DnsState
dns_step before_label c = if is_alnum c then some after_alnum else none
dns_step after_alnum c =
    if is_alnum c
    then some after_alnum
    else if c == b'-'
    then some after_dash
    else if c == b'.'
    then some before_label
    else none
dns_step after_dash c =
    if is_alnum c then some after_alnum else if c == b'-' then some after_dash else none

abbrev pub ends_label : DnsState → Bool
ends_label after_alnum = true
ends_label _ = false

unfoldable pub dns_from : Option DnsState → List ℕ → Bool
dns_from none cs = false
dns_from (some state) [] = ends_label state
dns_from (some state) (c ∷ cs) = dns_from (dns_step state c) cs

-- dnsNameRegex.
unfoldable pub dns_name_regex : List ℕ → Bool
unfolding dns_from
dns_name_regex cs = dns_from (some before_label) cs

abbrev pub max_dns_alt_names : ℕ
max_dns_alt_names = 100

abbrev pub max_dns_name_len : ℕ
max_dns_name_len = 253

unfoldable pub each_dns_name : List String → Bool
unfolding dns_name_regex
each_dns_name [] = true
each_dns_name (n ∷ ns) =
    leb (length (codes n)) max_dns_name_len && dns_name_regex (codes n) && each_dns_name ns

-- `true` where validateDNSAltNames returns nil.
unfoldable pub validate_dns_alt_names : List String → Bool
unfolding each_dns_name
validate_dns_alt_names names = leb (length names) max_dns_alt_names && each_dns_name names

unfoldable pub none_empty : List String → Bool
none_empty [] = true
none_empty (n ∷ ns) = not (str_eq n "") && none_empty ns

-- `true` where CheckKeySubject returns nil.
abbrev pub check_key_subject : String → Bool
check_key_subject subject = not (str_eq subject "ca")

abbrev pub count_others : SubjectAltNames → ℕ
count_others s = length s.email_addresses + length s.uris + length s.ip_addresses

abbrev pub is_kind : Option KeyKind → Bool
is_kind none = false
is_kind (some kind) = true

-- The checks after that of the subject.
unfoldable pub valid_contents : CertSpec → Bool
unfolding validate_dns_alt_names none_empty validate_key_config
valid_contents s =
    check_key_subject s.subject
    && ltb 0 (length s.sans.dns_names + count_others s.sans)
    && validate_dns_alt_names s.sans.dns_names
    && none_empty s.sans.ip_addresses
    && none_empty s.sans.email_addresses
    && none_empty s.sans.uris
    && leb (count_others s.sans) max_dns_alt_names
    && ltb 0 s.renew_before
    && is_kind (validate_key_config s.key_config)

-- Validate of CertSpec.
unfoldable pub validate_spec : CertSpec → Result (Unit {0})
unfolding validate_subject valid_contents
validate_spec s =
    if not (validate_subject s.subject)
    then err invalid_subject
    else if valid_contents s
    then ok tt
    else err bad_spec

unfoldable pub key_config_for : Config → CertSpec → KeyConfig
unfolding leaf_key_config
key_config_for c s = if is_set s.key_config then s.key_config else leaf_key_config c

unfoldable pub supersede_after_for : Config → CertSpec → Seconds
supersede_after_for c s = elim s.supersede_after [ none ↦ c.supersede_after | some after ↦ after ]

-- ===== src/Managed/Decide.antt =====
-- Whether a managed certificate is to be issued: issueReason, renewWindowFor, issueDecision,
-- currentIsThisSubjects, storedKeyIsOurs, leafCarriesNames and leafCarriesUsages of
-- internal/ca/managedcert.go.
use openvox_ca.Prelude.{
  ℕ, ◌-◌, ◌/◌, Bool, true, false, not, ◌&&◌, ◌||◌, Option, none, some, List, [], ◌∷◌, map, String,
  str_eq, leb, ltb, ◌==◌, if◌then◌else◌,
}
use openvox_ca.World.Types.{
  Cert, CaCert, Pem, parsed, PublicKey, ExtKeyUsage, server_auth, client_auth, other_usage, Seconds,
}
use openvox_ca.Signing.Issue.{min, usage_or_default}
use openvox_ca.Managed.Spec.{CertSpec}

pub data IssueReason : Type 0 where
  current absent unparseable key_unusable key_mismatch not_ours : IssueReason
  names_missing usage_mismatch revoked renew_window : IssueReason

-- slices.Contains.
unfoldable pub contains : String → List String → Bool
contains name [] = false
contains name (n ∷ ns) = str_eq name n || contains name ns

-- Each of the first names is among the second; the renderings of two addresses are the same text
-- where net.IP.Equal holds.
unfoldable pub carries : List String → List String → Bool
unfolding contains
carries [] have = true
carries (n ∷ ns) have = contains n have && carries ns have

unfoldable pub leaf_carries_names : Cert → CertSpec → Bool
unfolding carries
leaf_carries_names leaf want =
    str_eq leaf.common_name want.subject
    && carries want.sans.dns_names leaf.sans.dns_names
    && carries want.sans.ip_addresses leaf.sans.ip_addresses
    && carries want.sans.email_addresses leaf.sans.email_addresses
    && carries want.sans.uris leaf.sans.uris

-- The numbers of x509.ExtKeyUsage.
abbrev pub usage_code : ExtKeyUsage → ℕ
usage_code server_auth = 1
usage_code client_auth = 2
usage_code (other_usage n) = n

abbrev pub place_code : ℕ → List ℕ → List ℕ
place_code n [] = n ∷ []
place_code n (m ∷ ms) = let rest = place_code n ms in if leb n m then n ∷ m ∷ ms else m ∷ rest

-- slices.Sorted.
unfoldable pub sorted_codes : List ℕ → List ℕ
sorted_codes [] = []
sorted_codes (n ∷ ns) = place_code n (sorted_codes ns)

abbrev pub before_repeat : ℕ → List ℕ → List ℕ
before_repeat n [] = n ∷ []
before_repeat n (m ∷ ms) = if n == m then m ∷ ms else n ∷ m ∷ ms

-- slices.Compact.
unfoldable pub compact : List ℕ → List ℕ
compact [] = []
compact (n ∷ ns) = before_repeat n (compact ns)

-- slices.Equal.
unfoldable pub equal_codes : List ℕ → List ℕ → Bool
equal_codes [] [] = true
equal_codes (n ∷ ns) (m ∷ ms) = n == m && equal_codes ns ms
equal_codes _ _ = false

unfoldable pub leaf_carries_usages : Cert → CertSpec → Bool
unfolding sorted_codes compact equal_codes
leaf_carries_usages leaf want =
    equal_codes (compact (sorted_codes (map usage_code leaf.ext_key_usage)))
      (compact (sorted_codes (map usage_code (usage_or_default want.ext_key_usage))))

abbrev pub public_keys_equal : PublicKey → PublicKey → Bool
public_keys_equal a b = a.identity == b.identity

-- The part of the lifetime that lies after the signing.
abbrev pub forward_life : Cert → Seconds → Seconds
forward_life leaf backdate = leaf.not_after - leaf.not_before - backdate

unfoldable pub renew_window_for : Cert → CertSpec → Seconds → Seconds
renew_window_for leaf want backdate = min want.renew_before (forward_life leaf backdate / 2)

-- currentIsThisSubjectsUnderSubjectLock.
abbrev pub current_is_this_subjects : Option CaCert → Option Cert → String → Bool
current_is_this_subjects (some ca) (some leaf) subject =
    not (str_eq subject "") && leaf.signer == ca.key && str_eq leaf.common_name subject
current_is_this_subjects _ _ subject = false

-- storedKeyIsOursUnderSubjectLock, of a key that parsed.
abbrev pub stored_key_is_ours : Option CaCert → Option Cert → PublicKey → String → Bool
stored_key_is_ours issuer none key subject = false
stored_key_is_ours issuer (some leaf) key subject =
    current_is_this_subjects issuer (some leaf) subject && public_keys_equal key leaf.public_key

-- What a store hands back of a certificate or a key: `none` for no bytes at all.
abbrev pub Stored {ℓ} : Type ℓ → Type ℓ
Stored A = Option (Pem A)

-- The checks after those of the key.
unfoldable pub contents_reason : Cert → CertSpec → Seconds → Seconds → Bool → IssueReason
unfolding leaf_carries_names leaf_carries_usages renew_window_for
contents_reason leaf want backdate now is_revoked =
    if not (leaf_carries_names leaf want)
    then names_missing
    else if not (leaf_carries_usages leaf want)
    then usage_mismatch
    else if is_revoked
    then revoked
    else if ltb now (leaf.not_after - renew_window_for leaf want backdate)
    then current
    else renew_window

unfoldable pub key_reason :
    Cert → Stored PublicKey → CertSpec → Seconds → Seconds → Bool → IssueReason
unfolding contents_reason
key_reason leaf (some (parsed key)) want backdate now is_revoked =
    if public_keys_equal key leaf.public_key
    then contents_reason leaf want backdate now is_revoked
    else key_mismatch
key_reason leaf _ want backdate now is_revoked = key_unusable

abbrev pub is_issued_by : Option CaCert → Cert → Bool
is_issued_by none leaf = false
is_issued_by (some ca) leaf = leaf.signer == ca.key

-- issueDecision: the reason, and the certificate where one parsed. It says to issue unless the reason
-- is `current`.
unfoldable pub issue_decision :
    Stored Cert
    → Stored PublicKey
    → CertSpec
    → Option CaCert
    → Seconds
    → Seconds
    → Bool
    → IssueReason × Option Cert
unfolding key_reason
issue_decision none key want issuer backdate now is_revoked = (absent, none)
issue_decision (some (parsed leaf)) key want issuer backdate now is_revoked =
    if is_issued_by issuer leaf
    then (key_reason leaf key want backdate now is_revoked, some leaf)
    else (not_ours, some leaf)
issue_decision (some _) key want issuer backdate now is_revoked = (unparseable, none)

abbrev pub is_due : IssueReason → Bool
is_due current = false
is_due _ = true

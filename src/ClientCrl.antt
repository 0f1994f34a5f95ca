-- ===== src/ClientCrl.antt =====
-- The revocation check of a chain of another domain: checkChainRevocation, forRevocationLookup,
-- forIssuer, notYetIssued, currentAt and NewClientCRLSet of internal/api/clientcrl.go.
use openvox_ca.Prelude.{
  ℕ, ◌+◌, Bool, true, false, not, ◌&&◌, ◌||◌, Option, none, some, List, [], ◌∷◌, ◌++◌, String, ℤ,
  str_eq, ◌==◌, ltb, if◌then◌else◌,
}
use openvox_ca.World.Types.{Cert, Seconds, RevocationEntry}
use openvox_ca.Crl.Lists.{listed}

-- `x509.RevocationList` of another CA; `next_update` is `none` for the zero time, and `partial` says
-- whether coversPartially finds one of its two extensions.
pub record ClientCrl : Type 0 where
  pub signer : ℕ
  pub this_update : Seconds
  pub next_update : Option Seconds
  pub entries : List RevocationEntry
  pub partial : Bool

-- ClientCRLSet, by the lists that an anchor signed; a key of its maps is the identity of a public key.
pub record ClientCrlSet : Type 0 where
  pub by_signer_key : List (ℕ × ClientCrl)
  pub partial_by_signer_key : List (ℕ × ClientCrl)

abbrev pub add_client_crl : ClientCrl → ClientCrlSet → ClientCrlSet
add_client_crl crl set =
    if crl.partial
    then record set { partial_by_signer_key = (crl.signer, crl) ∷ set.partial_by_signer_key }
    else record set { by_signer_key = (crl.signer, crl) ∷ set.by_signer_key }

unfoldable pub is_anchor : ℕ → List Cert → Bool
is_anchor signer [] = false
is_anchor signer (a ∷ anchors) =
    if a.public_key.identity == signer then true else is_anchor signer anchors

-- NewClientCRLSet: a list that no anchor signed is discarded.
unfoldable pub new_client_crl_set : List ClientCrl → List Cert → ClientCrlSet
unfolding is_anchor
new_client_crl_set [] anchors = record { by_signer_key = []; partial_by_signer_key = [] }
new_client_crl_set (crl ∷ crls) anchors =
    let rest = new_client_crl_set crls anchors in
    if is_anchor crl.signer anchors then add_client_crl crl rest else rest

unfoldable pub at_signer : ℕ → List (ℕ × ClientCrl) → List ClientCrl
at_signer k [] = []
at_signer k ((signer, crl) ∷ crls) =
    let rest = at_signer k crls in if signer == k then crl ∷ rest else rest

-- clockSkewTolerance.
abbrev pub clock_skew_tolerance : Seconds
clock_skew_tolerance = 300

abbrev pub not_yet_issued : ClientCrl → Seconds → Bool
not_yet_issued crl now = ltb (now + clock_skew_tolerance) crl.this_update

abbrev pub ends_after : Option Seconds → Seconds → Bool
ends_after none now = false
ends_after (some end) now = ltb now end

abbrev pub is_current_at : ClientCrl → Seconds → Bool
is_current_at crl now = ends_after crl.next_update now

unfoldable pub any_current : List ClientCrl → Seconds → Bool
any_current [] now = false
any_current (crl ∷ crls) now =
    (not (not_yet_issued crl now) && is_current_at crl now) || any_current crls now

-- forIssuer: the lists, and whether one of them is valid now.
unfoldable pub for_issuer : Option ClientCrlSet → Cert → Seconds → List ClientCrl × Bool
unfolding at_signer any_current
for_issuer none cert now = ([], false)
for_issuer (some set) cert now =
    let crls = at_signer cert.public_key.identity set.by_signer_key in (crls, any_current crls now)

-- forRevocationLookup: the partial lists are looked at too, but make nothing valid.
unfoldable pub for_revocation_lookup : Option ClientCrlSet → Cert → Seconds → List ClientCrl × Bool
unfolding for_issuer
for_revocation_lookup none cert now = for_issuer none cert now
for_revocation_lookup (some set) cert now = (
  (for_issuer (some set) cert now).0
      ++ at_signer cert.public_key.identity set.partial_by_signer_key,
  (for_issuer (some set) cert now).1,
)

unfoldable pub revoked_by : ℤ → List ClientCrl → Bool
unfolding listed
revoked_by n [] = false
revoked_by n (crl ∷ crls) = listed n crl.entries || revoked_by n crls

pub data RevocationPolicy : Type 0 where
  skip_revocation check_revocation require_revocation : RevocationPolicy

-- revocationPolicy and what checkChainRevocation takes an unknown one for.
abbrev pub policy_of : String → RevocationPolicy
policy_of name =
    if str_eq name "skip"
    then skip_revocation
    else if str_eq name "check"
    then check_revocation
    else require_revocation

-- One certificate of the chain against the lists of the next.
abbrev pub link_passes : Bool → ℤ → List ClientCrl × Bool → Bool
link_passes required n (crls, any_valid) = (not required || any_valid) && not (revoked_by n crls)

unfoldable pub links_pass : Bool → Option ClientCrlSet → Seconds → List Cert → Bool
unfolding for_revocation_lookup revoked_by
links_pass required set now [] = true
links_pass required set now (subject ∷ []) = true
links_pass required set now (subject ∷ issuer ∷ chain) =
    let rest = links_pass required set now (issuer ∷ chain) in
    link_passes required subject.serial (for_revocation_lookup set issuer now) && rest

abbrev pub has_issuer : List Cert → Bool
has_issuer [] = false
has_issuer (cert ∷ []) = false
has_issuer (cert ∷ issuer ∷ chain) = true

-- checkChainRevocation: `true` where it returns nil.
unfoldable pub check_chain_revocation :
    List Cert → Option ClientCrlSet → RevocationPolicy → Seconds → Bool
unfolding links_pass
check_chain_revocation chain set skip_revocation now = true
check_chain_revocation chain set check_revocation now = links_pass false set now chain
check_chain_revocation chain set require_revocation now =
    has_issuer chain && links_pass true set now chain

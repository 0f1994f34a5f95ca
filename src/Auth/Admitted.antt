-- ===== src/Auth/Admitted.antt =====
-- Whom the middleware of internal/api/auth.go lets through.
use openvox_ca.Prelude.{
  ℕ, ℤ, ◌≡◌, refl, sym, Bool, true, false, not, ◌||◌, ◌⊎◌, inl, inr, Option, none, some, List, [],
  ◌∷◌, Memᴰ, arith, Bool-cases, and_true, codes, codes_eq_iff,
}
use openvox_ca.World.Types.{Cert, Crl, Seconds}
use openvox_ca.Crl.Lists.{serial_in_crl, listed}
use openvox_ca.Crl.Store.{revoked_in}
use openvox_ca.ClientCrl.{
  ClientCrl, ClientCrlSet, RevocationPolicy, skip_revocation, check_revocation, require_revocation,
  for_revocation_lookup, revoked_by, links_pass, has_issuer, check_chain_revocation,
}
use openvox_ca.Auth.{
  Moment, moment, AuthTier, tier_public, tier_own_client, tier_self_or_admin, tier_admin_only,
  TrustDomain, AuthConfig, StringDecoder, HttpRequest, served, lookup_tier, extract_path_subject,
  is_admin, attribute, is_unrevoked, passes_revocation, is_empty, is_self, meets_tier, serve_if,
  judge, judge_peers, judge_tier, authorise,
}

-- Each certificate of the chain is on no list of the next one's key, and where that is required, the
-- next one has a list that is valid.
abbrev pub ChainClear : Bool → Option ClientCrlSet → Seconds → List Cert → Type 0
ChainClear required set now [] = Unit {0}
ChainClear required set now (subject ∷ []) = Unit {0}
ChainClear required set now (subject ∷ issuer ∷ chain) =
    (required ≡ true → (for_revocation_lookup set issuer now).1 ≡ true)
    × ((crl : ClientCrl)
        → Memᴰ crl (for_revocation_lookup set issuer now).0
        → listed subject.serial crl.entries ≡ false)
    × ChainClear required set now (issuer ∷ chain)

-- What the policy asks of a chain.
abbrev pub PolicyMet : RevocationPolicy → Option ClientCrlSet → Seconds → List Cert → Type 0
PolicyMet skip_revocation set now chain = Unit {0}
PolicyMet check_revocation set now chain = ChainClear false set now chain
PolicyMet require_revocation set now chain =
    (has_issuer chain ≡ true) × ChainClear true set now chain

-- A certificate of ours is not on the list in memory, which there is; the chain of another meets the
-- policy.
abbrev pub Unrevoked : Moment → TrustDomain → Cert → List Cert → Type 0
Unrevoked t domain cert chain =
    ((domain.own ≡ true)
      × ((list : Crl) × (t.crl ≡ some list) × (serial_in_crl list cert.serial ≡ false)))
    ⊎ ((domain.own ≡ false) × PolicyMet t.policy domain.crls t.now chain)

-- The subject of the path is the name of a certificate of ours.
abbrev pub IsSelf : TrustDomain → Cert → List ℕ → Type 0
IsSelf domain cert subject =
    (domain.own ≡ true) × (is_empty subject ≡ false) × (codes cert.common_name ≡ subject)

abbrev pub TierMet : StringDecoder → TrustDomain → Cert → List ℕ → AuthTier → Type 0
TierMet k domain cert path tier_public = Unit {0}
TierMet k domain cert path tier_own_client = domain.own ≡ true
TierMet k domain cert path tier_self_or_admin =
    (is_admin k domain cert ≡ true) ⊎ IsSelf domain cert (extract_path_subject path)
TierMet k domain cert path tier_admin_only = is_admin k domain cert ≡ true

pub record Admitted (k : StringDecoder) (t : Moment) (domains : List TrustDomain) (r : HttpRequest)
    (tier : AuthTier) : Type 0 where
  pub cert : Cert
  pub others : List Cert
  pub presented : r.peers ≡ cert ∷ others
  pub domain : TrustDomain
  pub configured : Memᴰ domain domains
  pub chain : List Cert
  pub verified : domain.verify cert others ≡ some chain
  pub unrevoked : Unrevoked t domain cert chain
  pub met : TierMet k domain cert r.path tier

attribute-mem :
    (domains : List TrustDomain) (cert : Cert) (others : List Cert) {d : TrustDomain}
    {chain : List Cert}
    → attribute domains cert others ≡ some (d, chain)
    → Memᴰ d domains × (d.verify cert others ≡ some chain)
unfolding attribute
attribute-mem [] cert others h = cc
attribute-mem (x ∷ domains) cert others {d = d} {chain = chain} h =
    go (x.verify cert others) refl (λ k. attribute-mem domains cert others k) h
  where
    go :
        (o : Option (List Cert))
        → x.verify cert others ≡ o
        → (attribute domains cert others ≡ some (d, chain)
            → Memᴰ d domains × (d.verify cert others ≡ some chain))
        → (elim o [ none ↦ attribute domains cert others | some c ↦ some (x, c) ]) ≡ some (d, chain)
        → Memᴰ d (x ∷ domains) × (d.verify cert others ≡ some chain)
    go none is later k = let (there, verified) = later k in (Memᴰ.tail there, verified)
    go (some c) is later k =
        let first : x ≡ d = ground (arith, k) in
        let second : c ≡ chain = ground (arith, k) in
        (Memᴰ.head (sym first), rw (← first, ← second) is)

not-false : (b : Bool) → not b ≡ true → b ≡ false
not-false true h = cc
not-false false h = refl

listed_false :
    (crl : Option Crl) (cert : Cert)
    → is_unrevoked (revoked_in crl cert.serial) ≡ true
    → (list : Crl) × (crl ≡ some list) × (serial_in_crl list cert.serial ≡ false)
listed_false none cert h = cc
listed_false (some list) cert h = (list, refl, not-false (serial_in_crl list cert.serial) h)

both-false : (a b : Bool) → (a || b) ≡ false → (a ≡ false) × (b ≡ false)
both-false true b h = cc
both-false false b h = (refl, h)

revoked_by-false :
    (n : ℤ) (crls : List ClientCrl) (crl : ClientCrl)
    → revoked_by n crls ≡ false
    → Memᴰ crl crls
    → listed n crl.entries ≡ false
unfolding revoked_by
revoked_by-false n [] crl h m = elim m [ ]
revoked_by-false n (x ∷ crls) crl h m =
    let (first, rest) = both-false (listed n x.entries) (revoked_by n crls) h in
    elim m [ Memᴰ.head p ↦ rw (p) first | Memᴰ.tail there ↦ revoked_by-false n crls crl rest there ]

required-valid :
    (required valid : Bool) → (not required || valid) ≡ true → required ≡ true → valid ≡ true
required-valid true valid h k = h
required-valid false valid h k = cc

links_pass-ChainClear :
    (required : Bool) (set : Option ClientCrlSet) (now : Seconds) (chain : List Cert)
    → links_pass required set now chain ≡ true
    → ChainClear required set now chain
unfolding links_pass
links_pass-ChainClear required set now [] h = tt
links_pass-ChainClear required set now (subject ∷ []) h = tt
links_pass-ChainClear required set now (subject ∷ issuer ∷ chain) h =
    let (crls, valid) = for_revocation_lookup set issuer now in
    let (here, later) = and_true _ _ h in
    let (enough, clear) = and_true _ _ here in
    (
      required-valid required valid enough,
      (λ crl there.
          revoked_by-false subject.serial crls crl
            (not-false (revoked_by subject.serial crls) clear) there),
      links_pass-ChainClear required set now (issuer ∷ chain) later,
    )

check_chain_revocation-PolicyMet :
    (chain : List Cert) (set : Option ClientCrlSet) (policy : RevocationPolicy) (now : Seconds)
    → check_chain_revocation chain set policy now ≡ true
    → PolicyMet policy set now chain
unfolding check_chain_revocation
check_chain_revocation-PolicyMet chain set skip_revocation now h = tt
check_chain_revocation-PolicyMet chain set check_revocation now h =
    links_pass-ChainClear false set now chain h
check_chain_revocation-PolicyMet chain set require_revocation now h =
    let (long, links) = and_true _ _ h in (long, links_pass-ChainClear true set now chain links)

passes_revocation-Unrevoked :
    (t : Moment) (domain : TrustDomain) (cert : Cert) (chain : List Cert)
    → passes_revocation t domain cert chain ≡ true
    → Unrevoked t domain cert chain
passes_revocation-Unrevoked t domain cert chain = elim (Bool-cases domain.own) [
  | inr other ↦
      rw other
        (λ h. inr (refl, check_chain_revocation-PolicyMet chain domain.crls t.policy t.now h))
  | inl own ↦ rw own (λ h. inl (refl, listed_false t.crl cert h))
]

or-cases : (a b : Bool) → (a || b) ≡ true → (a ≡ true) ⊎ (b ≡ true)
or-cases true b h = inl refl
or-cases false b h = inr h

is_self-IsSelf :
    (domain : TrustDomain) (cert : Cert) (subject : List ℕ)
    → is_self domain cert subject ≡ true
    → IsSelf domain cert subject
is_self-IsSelf domain cert subject h =
    let (front, same) = and_true _ _ h in
    let (own, nonempty) = and_true _ _ front in
    (
      own,
      not-false (is_empty subject) nonempty,
      (codes_eq_iff (codes cert.common_name) subject).0 same,
    )

meets_tier-TierMet :
    (k : StringDecoder) (domain : TrustDomain) (cert : Cert) (path : List ℕ) (tier : AuthTier)
    → meets_tier k domain cert path tier ≡ true
    → TierMet k domain cert path tier
unfolding meets_tier
meets_tier-TierMet k domain cert path tier_public h = tt
meets_tier-TierMet k domain cert path tier_own_client h = h
meets_tier-TierMet k domain cert path tier_admin_only h = h
meets_tier-TierMet k domain cert path tier_self_or_admin h =
    elim (or-cases (is_admin k domain cert) (is_self domain cert (extract_path_subject path)) h) [
      | inl admin ↦ inl admin
      | inr self ↦ inr (is_self-IsSelf domain cert (extract_path_subject path) self)
    ]

serve_if-true : (b : Bool) → serve_if b ≡ served → b ≡ true
serve_if-true true h = refl
serve_if-true false h = cc

peers-Admitted :
    (k : StringDecoder) (t : Moment) (domains : List TrustDomain) (r : HttpRequest)
    (tier : AuthTier) (peers : List Cert)
    → r.peers ≡ peers
    → judge_peers k t domains r.path tier peers ≡ served
    → Admitted k t domains r tier
peers-Admitted k t domains r tier [] is h = cc
peers-Admitted k t domains r tier (cert ∷ others) is h = go (attribute domains cert others) refl h
  where
    go :
        (o : Option (TrustDomain × List Cert))
        → attribute domains cert others ≡ o
        → judge k t cert r.path tier o ≡ served
        → Admitted k t domains r tier
    go none found j = cc
    go (some (domain, chain)) found j =
        let passed = serve_if-true _ j in
        let (clear, meets) = and_true _ _ passed in
        let (there, verified) = attribute-mem domains cert others found in
        record {
          cert = cert;
          others = others;
          presented = is;
          domain = domain;
          configured = there;
          chain = chain;
          verified = verified;
          unrevoked = passes_revocation-Unrevoked t domain cert chain clear;
          met = meets_tier-TierMet k domain cert r.path tier meets;
        }

tier-Admitted :
    (k : StringDecoder) (t : Moment) (domains : List TrustDomain) (r : HttpRequest)
    (tier : AuthTier)
    → judge_tier k t domains r tier ≡ served
    → (tier ≡ tier_public) ⊎ Admitted k t domains r tier
tier-Admitted k t domains r tier_public h = inl refl
tier-Admitted k t domains r tier_own_client h =
    inr (peers-Admitted k t domains r tier_own_client r.peers refl h)
tier-Admitted k t domains r tier_self_or_admin h =
    inr (peers-Admitted k t domains r tier_self_or_admin r.peers refl h)
tier-Admitted k t domains r tier_admin_only h =
    inr (peers-Admitted k t domains r tier_admin_only r.peers refl h)

-- With a configuration, a request is served only where its route is public, or where the certificate
-- that it presents was verified by the roots of a configured domain and is not revoked: one of ours
-- by the list in memory, which there must be; another as the policy asks, by the lists of the domain
-- for each link of its chain, which must be valid where that is required. Then the bearer is an
-- administrator of that domain where the route is for administrators, or may be, and else holds a
-- certificate of ours, which has the name in the path where the route is for that name.
pub authorise-Admitted :
    (k : StringDecoder) (crl : Option Crl) (now : Seconds) (cfg : AuthConfig) (r : HttpRequest)
    → authorise k crl now (some cfg) r ≡ served
    → (lookup_tier r.method r.path cfg ≡ tier_public)
      ⊎ Admitted k (moment crl now cfg) cfg.domains r (lookup_tier r.method r.path cfg)
unfolding authorise
authorise-Admitted k crl now cfg r h =
    tier-Admitted k (moment crl now cfg) cfg.domains r (lookup_tier r.method r.path cfg) h

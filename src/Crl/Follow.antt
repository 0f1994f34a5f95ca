-- ===== src/Crl/Follow.antt =====
-- The lists that are written behind ours, and where they come from (crlChainLocked of
-- internal/ca/crlchain.go).
use openvox_ca.Prelude.{
  ℕ, ◌≡◌, ◌≢◌, refl, ap, true, some, List, [], ◌∷◌, map, arith, ==_iff, Bool-cases, inl, inr, ◌↔◌,
}
use openvox_ca.World.Types.{
  Crl, CrlBlob, Config, Upstream, stated, unstated, not_configured, upstream_fault, CaCert,
  crl_block, bad_crl, other_block, Error,
}
use openvox_ca.World.Exec.{Result, ok, err}
use openvox_ca.Crl.Lists.{crl_signed_by, decode_crl_chain, encode_crl_chain, foreign_crls, prepend}
use openvox_ca.Crl.Sign.{crl_chain_locked, chain_of, carry_over, state_over}
use openvox_ca.Crl.Chain.{IsReady}

pub state_over-ok :
    (crl : Crl) (crls : List Crl) (r : Result (List Crl)) {blob : CrlBlob}
    → state_over crl crls r ≡ ok blob
    → blob ≡ encode_crl_chain (crl ∷ crls)
state_over-ok crl crls (ok _) h = cc
state_over-ok crl crls (err e) h = cc

-- The lists of a chain that a key did not sign, in their order, without the blocks of other types.
pub data Carried (key : ℕ) : CrlBlob → List Crl → Type 0 where
  nothing : Carried key [] []
  ours :
      {crl : Crl} {b : CrlBlob} {crls : List Crl}
      → crl.signer ≡ key
      → Carried key b crls
      → Carried key (crl_block crl ∷ b) crls
  theirs :
      {crl : Crl} {b : CrlBlob} {crls : List Crl}
      → crl.signer ≢ key
      → Carried key b crls
      → Carried key (crl_block crl ∷ b) (crl ∷ crls)
  skipped :
      {b : CrlBlob} {crls : List Crl} → Carried key b crls → Carried key (other_block ∷ b) crls

-- The lists behind ours, where what the file states could be made out, are those that the chain file states, where it makes a statement, and else
-- those of the chain `from` that the CA's key did not sign.
pub data Follow (c : Config) (from : CrlBlob) (crls : List Crl) : Type 0 where
  as_stated : c.upstream ≡ stated crls → Follow c from crls
  as_carried :
      (ca : CaCert)
      → ((us : List Crl) → c.upstream ≢ stated us)
      → c.ca_cert ≡ some ca
      → Carried ca.key from crls
      → Follow c from crls

signed_iff :
    (ca : CaCert) (crl : Crl) → (crl_signed_by (some ca) crl ≡ true) ↔ (crl.signer ≡ ca.key)
unfolding crl_signed_by
signed_iff ca crl = (
  λ h. ground (arith, h, ==_iff ca.key crl.signer),
  λ e. ground (arith, e, ==_iff ca.key crl.signer),
)

Carried-cons :
    (ca : CaCert) (crl : Crl) (b : CrlBlob) (crls : List Crl)
    → Carried ca.key b (foreign_crls (some ca) crls)
    → Carried ca.key (crl_block crl ∷ b) (foreign_crls (some ca) (crl ∷ crls))
unfolding foreign_crls
Carried-cons ca crl b crls rest = elim (Bool-cases (crl_signed_by (some ca) crl)) [
  | inl mine ↦ rw mine (ours ((signed_iff ca crl).0 mine) rest)
  | inr other ↦ rw other (theirs (λ e. cc (other, (signed_iff ca crl).1 e)) rest)
]

foreign-Carried :
    (ca : CaCert) (b : CrlBlob) {crls : List Crl}
    → decode_crl_chain b ≡ ok crls
    → Carried ca.key b (foreign_crls (some ca) crls)
unfolding decode_crl_chain foreign_crls
foreign-Carried ca [] {crls} h = let same : [] ≡ crls = ground (arith, h) in rw (← same) nothing
foreign-Carried ca (bad_crl ∷ b) h = cc
foreign-Carried ca (other_block ∷ b) h = skipped (foreign-Carried ca b h)
foreign-Carried ca (crl_block crl ∷ b) {crls} h =
    go (decode_crl_chain b) (λ rest q. foreign-Carried ca b q) h
  where
    go :
        (r : Result (List Crl))
        → ((rest : List Crl) → r ≡ ok rest → Carried ca.key b (foreign_crls (some ca) rest))
        → prepend crl r ≡ ok crls
        → Carried ca.key (crl_block crl ∷ b) (foreign_crls (some ca) crls)
    go (err e) carried k = cc
    go (ok rest) carried k =
        let same : crl ∷ rest ≡ crls = ground (arith, k) in
        rw (← same) (Carried-cons ca crl b rest (carried rest refl))

carry-Follow :
    (c : Config) (crl : Crl) (b : CrlBlob) (ca : CaCert) {blob : CrlBlob}
    → c.ca_cert ≡ some ca
    → ((us : List Crl) → c.upstream ≢ stated us)
    → carry_over c crl (decode_crl_chain b) ≡ ok blob
    → (crls : List Crl) × (blob ≡ encode_crl_chain (crl ∷ crls)) × Follow c b crls
carry-Follow c crl b ca {blob} has_cert silent = go (decode_crl_chain b) refl
  where
    go :
        (r : Result (List Crl))
        → decode_crl_chain b ≡ r
        → carry_over c crl r ≡ ok blob
        → (crls : List Crl) × (blob ≡ encode_crl_chain (crl ∷ crls)) × Follow c b crls
    go (err e) q h = cc
    go (ok chain) q h = (
      foreign_crls c.ca_cert chain,
      ground (arith, h),
      as_carried ca silent has_cert (rw has_cert (foreign-Carried ca b q)),
    )

pub list-Follow :
    (c : Config) (crl : Crl) (b : CrlBlob) {blob : CrlBlob}
    → IsReady c
    → crl_chain_locked c crl b ≡ ok blob
    → (crls : List Crl) × (blob ≡ encode_crl_chain (crl ∷ crls)) × Follow c b crls
unfolding crl_chain_locked
list-Follow c crl b {blob} ready = go c.upstream refl
  where
    go :
        (u : Upstream)
        → c.upstream ≡ u
        → chain_of c u crl b ≡ ok blob
        → (crls : List Crl) × (blob ≡ encode_crl_chain (crl ∷ crls)) × Follow c b crls
    go (upstream_fault e) q h = cc
    go (stated crls) q h = (crls, state_over-ok crl crls (decode_crl_chain b) h, as_stated q)
    go unstated q h = carry-Follow c crl b ready.cert ready.has_cert (λ us e. cc (q, e)) h
    go not_configured q h = carry-Follow c crl b ready.cert ready.has_cert (λ us e. cc (q, e)) h

pub fault-stops :
    (c : Config) (crl : Crl) (b : CrlBlob) (e : Error) {blob : CrlBlob}
    → c.upstream ≡ upstream_fault e
    → crl_chain_locked c crl b ≡ ok blob
    → ⊥
unfolding crl_chain_locked
fault-stops c crl b e bad made = cc (rw bad at made)

pub encode_crl_chain-map : (crls : List Crl) → encode_crl_chain crls ≡ map crl_block crls
unfolding encode_crl_chain
encode_crl_chain-map [] = refl
encode_crl_chain-map (crl ∷ crls) = ap (λ b. crl_block crl ∷ b) (encode_crl_chain-map crls)

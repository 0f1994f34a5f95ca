-- ===== src/ChainFile.antt =====
-- The operator's file of upstream lists: upstreamCRLs, dedupeCRLs and monotonicUpstream of
-- internal/ca/crlchainfile.go, decodeCRLChainStrict of crlchain.go. Counters that only reach the
-- metrics are left out.
pub mod Order
pub mod Newest
pub mod Deduped
pub mod Monotone
pub mod Stated
pub mod Refresh
pub mod Refreshed
use openvox_ca.Prelude.{
  ℕ, zero, suc, ◌+◌, Bool, true, false, not, ◌&&◌, Option, none, some, List, [], ◌∷◌, ◌++◌, ◌==◌,
  ltb, length, if◌then◌else◌,
}
use openvox_ca.World.Types.{
  Crl, CrlBlob, crl_block, bad_crl, other_block, CaCert, chain_file_error, bad_crl_chain,
  chain_not_read,
}
use openvox_ca.World.Exec.{Result, ok, err}
use openvox_ca.Crl.Lists.{crl_signed_by, newer_crl, decode_crl_chain, foreign_crls}

-- A certificate of the stored CA bundle: its encoding, as a number, and the identity of its key.
pub record BundleCert : Type 0 where
  pub raw : ℕ
  pub key : ℕ

-- The contents of the file, by what pem.Decode makes of them: the blocks, whether anything but white
-- space follows the last one, and whether the whole is white space.
pub record ChainText : Type 0 where
  pub blocks : CrlBlob
  pub trailing : Bool
  pub blank : Bool

-- What reading the file gives.
pub data FileRead : Type 0 where
  not_set : FileRead
  absent : FileRead
  unreadable : FileRead
  contents : ChainText → FileRead

-- maxCRLChainFileEntries.
abbrev pub max_entries : ℕ
max_entries = 64

abbrev pub chain_fault : Result (List Crl)
chain_fault = err chain_file_error

abbrev pub add_decoded : Crl → Result (List Crl × Bool) → Result (List Crl × Bool)
add_decoded crl (ok (rest, stopped)) = ok (crl ∷ rest, stopped)
add_decoded crl (err e) = err e

-- decodeCRLChainRest with a limit: the lists, and whether the limit stopped it.
unfoldable pub decode_rest : ℕ → CrlBlob → Result (List Crl × Bool)
decode_rest zero blocks = ok ([], true)
decode_rest (suc limit) [] = ok ([], false)
decode_rest (suc limit) (crl_block crl ∷ rest) = add_decoded crl (decode_rest limit rest)
decode_rest (suc limit) (bad_crl ∷ rest) = err bad_crl_chain
decode_rest (suc limit) (other_block ∷ rest) = decode_rest (suc limit) rest

-- The checks of decodeCRLChainStrict on what was decoded.
abbrev pub strict : ChainText → Result (List Crl × Bool) → Result (List Crl)
strict text (err e) = chain_fault
strict text (ok (crls, stopped)) =
    if ltb max_entries (length crls)
    then chain_fault
    else if text.trailing
    then chain_fault
    else if length crls == 0 && not text.blank
    then chain_fault
    else ok crls

unfoldable pub decode_crl_chain_strict : ChainText → Result (List Crl)
unfolding decode_rest
decode_crl_chain_strict text = strict text (decode_rest (max_entries + 1) text.blocks)

-- signerOf.
unfoldable pub signer_of : List BundleCert → Crl → Option BundleCert
signer_of [] crl = none
signer_of (cert ∷ certs) crl = if cert.key == crl.signer then some cert else signer_of certs crl

-- A list of the output, with the encoding of its signer where it has one: the key of the map `at`.
abbrev pub Kept : Type 0
Kept = Option ℕ × Crl

abbrev pub is_tag : ℕ → Option ℕ → Bool
is_tag k none = false
is_tag k (some raw) = raw == k

unfoldable pub seen : ℕ → List Kept → Bool
seen k [] = false
seen k ((tag, crl) ∷ out) = if is_tag k tag then true else seen k out

-- The list at the index that the map holds for the signer gives way to a newer one.
unfoldable pub replace_older : ℕ → Crl → List Kept → List Kept
unfolding newer_crl
replace_older k crl [] = []
replace_older k crl ((tag, kept) ∷ out) =
    if is_tag k tag
    then (tag, if newer_crl crl kept then crl else kept) ∷ out
    else (tag, kept) ∷ replace_older k crl out

abbrev pub place : Option BundleCert → Crl → List Kept → List Kept
place none crl out = out ++ (none, crl) ∷ []
place (some cert) crl out =
    if seen cert.raw out then replace_older cert.raw crl out else out ++ (some cert.raw, crl) ∷ []

unfoldable pub dedupe_from : List BundleCert → List Kept → List Crl → List Kept
unfolding signer_of seen replace_older
dedupe_from issuers out [] = out
dedupe_from issuers out (crl ∷ crls) =
    dedupe_from issuers (place (signer_of issuers crl) crl out) crls

unfoldable pub crls_of : List Kept → List Crl
crls_of [] = []
crls_of ((tag, crl) ∷ out) = crl ∷ crls_of out

-- dedupeCRLs.
unfoldable pub dedupe_crls : List BundleCert → List Crl → List Crl
unfolding dedupe_from crls_of
dedupe_crls issuers crls = crls_of (dedupe_from issuers [] crls)

-- The map `current` of monotonicUpstream, from signers to lists.
abbrev pub Current : Type 0
Current = List (ℕ × Crl)

unfoldable pub current_at : ℕ → Current → Option Crl
current_at k [] = none
current_at k ((raw, crl) ∷ current) = if raw == k then some crl else current_at k current

abbrev pub is_newer : Crl → Option Crl → Bool
is_newer crl none = true
is_newer crl (some prev) = newer_crl crl prev

abbrev pub note : Option BundleCert → Crl → Current → Current
note none crl current = current
note (some cert) crl current =
    if is_newer crl (current_at cert.raw current) then (cert.raw, crl) ∷ current else current

unfoldable pub current_from : List BundleCert → Current → List Crl → Current
unfolding signer_of current_at newer_crl
current_from issuers current [] = current
current_from issuers current (crl ∷ published) =
    current_from issuers (note (signer_of issuers crl) crl current) published

-- The list that goes out for an incoming one: an older one than is published gives way to that.
abbrev pub not_older : Crl → Option Crl → Crl
not_older crl none = crl
not_older crl (some prev) = if newer_crl prev crl then prev else crl

abbrev pub advance : Option BundleCert → Crl → Current → List Crl → List Crl
advance none crl current out = out
advance (some cert) crl current out = not_older crl (current_at cert.raw current) ∷ out

unfoldable pub advance_each : List BundleCert → Current → List Crl → List Crl
unfolding signer_of current_at newer_crl
advance_each issuers current [] = []
advance_each issuers current (crl ∷ incoming) =
    advance (signer_of issuers crl) crl current (advance_each issuers current incoming)

-- publishedUpstream: a chain that was not read is refused.
abbrev pub foreign_in : Option CaCert → Result (List Crl) → Result (List Crl)
foreign_in cert (ok chain) = ok (foreign_crls cert chain)
foreign_in cert (err e) = err e

unfoldable pub published_upstream : Option CaCert → Option CrlBlob → Result (List Crl)
unfolding decode_crl_chain foreign_crls
published_upstream cert none = err chain_not_read
published_upstream cert (some blob) = foreign_in cert (decode_crl_chain blob)

abbrev pub advance_over : List BundleCert → List Crl → List Crl → List Crl
advance_over issuers [] incoming = incoming
advance_over issuers (p ∷ published) incoming =
    advance_each issuers (current_from issuers [] (p ∷ published)) incoming

abbrev pub over_published :
    List BundleCert → List Crl → Result (List Crl) → Result (Option (List Crl))
over_published issuers incoming (err e) = err e
over_published issuers incoming (ok published) = ok (some (advance_over issuers published incoming))

-- monotonicUpstream.
unfoldable pub monotonic_upstream :
    Option CaCert → Option CrlBlob → List BundleCert → List Crl → Result (Option (List Crl))
unfolding published_upstream current_from advance_each
monotonic_upstream cert stored issuers incoming =
    over_published issuers incoming (published_upstream cert stored)

abbrev pub is_signed : Option BundleCert → Bool
is_signed none = false
is_signed (some cert) = true

-- The loop of upstreamCRLs: our own lists and those that the bundle does not vouch for are dropped.
unfoldable pub verified : Option CaCert → List BundleCert → List Crl → List Crl
unfolding crl_signed_by signer_of
verified cert issuers [] = []
verified cert issuers (crl ∷ crls) =
    let rest = verified cert issuers crls in
    if crl_signed_by cert crl
    then rest
    else if is_signed (signer_of issuers crl)
    then crl ∷ rest
    else rest

abbrev pub upstream_from :
    Option CaCert
    → Option CrlBlob
    → Result (List BundleCert)
    → Result (List Crl)
    → Result (Option (List Crl))
upstream_from cert stored bundle (err e) = err e
upstream_from cert stored (err e) (ok parsed) = err e
upstream_from cert stored (ok issuers) (ok parsed) =
    monotonic_upstream cert stored issuers (dedupe_crls issuers (verified cert issuers parsed))

-- upstreamCRLs: `none` where the file makes no statement. `bundle` is what bundleCertificates gives.
unfoldable pub upstream_crls :
    Option CaCert
    → Result (List BundleCert)
    → FileRead
    → Option CrlBlob
    → Result (Option (List Crl))
unfolding decode_crl_chain_strict monotonic_upstream dedupe_crls verified
upstream_crls cert bundle not_set stored = ok none
upstream_crls cert bundle absent stored = ok none
upstream_crls cert bundle unreadable stored = err chain_file_error
upstream_crls cert bundle (contents text) stored =
    upstream_from cert stored bundle (decode_crl_chain_strict text)

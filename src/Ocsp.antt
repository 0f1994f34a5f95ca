-- ===== src/Ocsp.antt =====
-- The OCSP responder: AnswerOCSP, decideOCSPStatus and checkOCSPIssuer of internal/ca/ocsp.go. What
-- Go's decoders make of a request and the hash functions are arguments.
pub mod Entries
pub mod Current
pub mod Write
pub mod Steps
pub mod Signed
pub mod Answer
use openvox_ca.Prelude.{
  ℕ, ◌+◌, ◌-◌, ◌*◌, Bool, true, false, not, ◌&&◌, Option, none, some, List, [], ◌∷◌, String, ℤ,
  ◌==ℤ◌, ◌==◌, ltb, codes_eq, length, if◌then◌else◌,
}
use openvox_ca.World.Types.{
  Oid, Extension, Crl, RevocationEntry, CaCert, Config, Mem, Seconds, HashId, OcspStatus, good,
  revoked_at, unknown, OcspResponse, CachedResponse, Error, bad_ocsp_request, not_authoritative,
  internal_error, signing_busy, nil_dereference,
}
use openvox_ca.World.Exec.{World, Exec, Result, ok, err, pure, raise, attempt, ◌>>=◌, ◌>>◌}
use openvox_ca.World.Locks.{granted}
use openvox_ca.Crl.Store.{ocsp_cache_hashes, has_key, delete_response}

-- The functions of Go's crypto packages: which are linked in, and the hash of a byte string.
pub record Hashes : Type 0 where
  pub available : HashId → Bool
  pub sum : HashId → List ℕ → List ℕ

-- `ocsp.Request`.
pub record OcspRequest : Type 0 where
  pub serial : ℤ
  pub hash : HashId
  pub issuer_name_hash : List ℕ
  pub issuer_key_hash : List ℕ

-- A request's bytes, by what decoding them gives: the extensions, and the request.
pub record OcspMessage : Type 0 where
  pub extensions : Option (List Extension)
  pub request : Option OcspRequest

pub record OcspAnswer : Type 0 where
  pub der : OcspResponse
  pub max_age : Seconds

-- OCSPValidity: four hours.
abbrev pub ocsp_validity : Seconds
ocsp_validity = 4 * 3600

abbrev pub max_nonce_len : ℕ
max_nonce_len = 34

abbrev pub oid_nonce : Oid
oid_nonce = 1 ∷ 3 ∷ 6 ∷ 1 ∷ 5 ∷ 5 ∷ 7 ∷ 48 ∷ 1 ∷ 2 ∷ []

unfoldable pub contains_hash : HashId → List HashId → Bool
contains_hash h [] = false
contains_hash h (k ∷ ks) = if k == h then true else contains_hash h ks

-- ocspCacheableHash.
unfoldable pub ocsp_cacheable_hash : HashId → Bool
unfolding contains_hash
ocsp_cacheable_hash h = contains_hash h ocsp_cache_hashes

unfoldable pub find_nonce : List Extension → Option Extension
find_nonce [] = none
find_nonce (e ∷ es) = if codes_eq e.id oid_nonce then some e else find_nonce es

-- extractNonce.
unfoldable pub extract_nonce : Option (List Extension) → Option Extension
unfolding find_nonce
extract_nonce none = none
extract_nonce (some es) = find_nonce es

-- A nonce that is too long is ignored.
abbrev pub within_length : Option Extension → Option Extension
within_length none = none
within_length (some e) = if ltb max_nonce_len (length e.value) then none else some e

abbrev pub check_name : Hashes → OcspRequest → CaCert → List ℕ → Result (Unit {0})
check_name hs r ca bits =
    if not (codes_eq (hs.sum r.hash ca.raw_subject) r.issuer_name_hash)
    then err not_authoritative
    else if not (codes_eq (hs.sum r.hash bits) r.issuer_key_hash)
    then err not_authoritative
    else ok tt

abbrev pub check_key : Hashes → OcspRequest → CaCert → Option (List ℕ) → Result (Unit {0})
check_key hs r ca none = err internal_error
check_key hs r ca (some bits) = check_name hs r ca bits

abbrev pub check_issuer : Hashes → OcspRequest → Option CaCert → Result (Unit {0})
check_issuer hs r none = err nil_dereference
check_issuer hs r (some ca) = check_key hs r ca ca.public_key_bits

-- checkOCSPIssuer.
unfoldable pub check_ocsp_issuer : Hashes → OcspRequest → Option CaCert → Result (Unit {0})
check_ocsp_issuer hs r issuer =
    if not (hs.available r.hash) then err bad_ocsp_request else check_issuer hs r issuer

-- The loop of decideOCSPStatus.
unfoldable pub status_in : ℤ → List RevocationEntry → OcspStatus
status_in n [] = good
status_in n (e ∷ es) = if e.serial ==ℤ n then revoked_at e.revocation_time else status_in n es

abbrev pub status_on : Option Crl → ℤ → Result OcspStatus
status_on none n = err internal_error
status_on (some crl) n = ok (status_in n crl.entries)

unfoldable pub decide_ocsp_status : Option Crl → ℤ → Bool → Result OcspStatus
unfolding status_in
decide_ocsp_status crl n false = ok unknown
decide_ocsp_status crl n true = status_on crl n

-- Whether the index holds the serial.
unfoldable pub is_indexed : ℤ → List (ℤ × String) → Bool
is_indexed n [] = false
is_indexed n ((m, s) ∷ index) = if m ==ℤ n then true else is_indexed n index

unfoldable pub find_response : ℤ → HashId → List CachedResponse → Option CachedResponse
find_response n h [] = none
find_response n h (r ∷ rs) = if has_key n h r then some r else find_response n h rs

abbrev pub unexpired : Seconds → Option CachedResponse → Option CachedResponse
unexpired now none = none
unexpired now (some r) = if ltb now r.expires_at then some r else none

-- The entry that serves the request, if any: none serves one with a nonce.
abbrev pub cached_for : Option Extension → OcspRequest → World → Option CachedResponse
cached_for (some e) r w = none
cached_for none r w = unexpired w.now (find_response r.serial r.hash w.mem.ocsp_cache)

-- The window of a definite answer.
abbrev pub next_update_for : OcspStatus → Seconds → Option Seconds
next_update_for unknown now = none
next_update_for status now = some (now + ocsp_validity)

abbrev pub ocsp_template : ℕ → Option Extension → OcspRequest → OcspStatus → Seconds → OcspResponse
ocsp_template key asked r status now = record {
  serial = r.serial;
  issuer_hash = r.hash;
  status = status;
  this_update = now;
  next_update = next_update_for status now;
  nonce = asked;
  signer = key;
}

-- The context is looked at, a slot of the key is taken or the request is shed, and the key signs.
unfoldable pub sign_response :
    Option ℕ → Option Extension → OcspRequest → OcspStatus → Seconds → Exec OcspResponse
unfolding attempt
sign_response key asked r status now = do
  attempt internal_error
  attempt signing_busy
  attempt internal_error
  (elim key [
    | none ↦ raise nil_dereference
    | some k ↦ attempt internal_error >> pure (ocsp_template k asked r status now)
  ])

abbrev pub same_status : OcspStatus → OcspStatus → Bool
same_status good good = true
same_status (revoked_at a) (revoked_at b) = a == b
same_status unknown unknown = true
same_status _ _ = false

abbrev pub still_decided : Result OcspStatus → OcspStatus → Bool
still_decided (err e) status = false
still_decided (ok now) status = same_status now status

abbrev pub is_definite : OcspStatus → Bool
is_definite unknown = false
is_definite _ = true

abbrev pub has_no_nonce : Option Extension → Bool
has_no_nonce none = true
has_no_nonce (some _) = false

abbrev pub put_response : CachedResponse → Mem → Mem
put_response entry m = record m {
  ocsp_cache = entry ∷ delete_response entry.serial entry.hash m.ocsp_cache;
}

-- The guarded write of the cache, and whether it was made: the status is decided again.
unfoldable pub cache_response :
    Option Extension → OcspRequest → OcspResponse → Seconds → World → Bool × World
unfolding ocsp_cacheable_hash decide_ocsp_status is_indexed delete_response
cache_response asked r response now w =
    if has_no_nonce asked && is_definite response.status && ocsp_cacheable_hash r.hash
    then if still_decided
        (decide_ocsp_status w.mem.cached_crl r.serial (is_indexed r.serial w.mem.serial_index))
        response.status
      then (
        true,
        record w {
          mem =
              put_response
                (record {
                  serial = r.serial;
                  hash = r.hash;
                  der = response;
                  expires_at = now + ocsp_validity;
                })
                w.mem;
        },
      )
      else (false, w)
    else (false, w)

abbrev pub reusable : Bool → Seconds
reusable true = ocsp_validity
reusable false = 0

-- The world once the key has signed: others acted meanwhile, and the clock moved on, by a time that is
-- drawn from the world.
abbrev pub after_signing : World → World
after_signing w = record (granted w) { now = w.now + w.random w.tick }

-- The answer that was signed for `now`, the time at which the request was read.
abbrev pub answer_signed : Option Extension → OcspRequest → Seconds → OcspResponse → Exec OcspAnswer
answer_signed asked r now response w =
    let (cached, v) = cache_response asked r response now (after_signing w) in
    (ok (record { der = response; max_age = reusable cached }), v)

unfoldable pub answer_uncached : Config → Option Extension → OcspRequest → Exec OcspAnswer
unfolding decide_ocsp_status is_indexed sign_response cache_response
answer_uncached c asked r w =
    (do
      status ← λ v.
          (decide_ocsp_status w.mem.cached_crl r.serial (is_indexed r.serial w.mem.serial_index), v)
      response ← sign_response c.ca_key asked r status w.now
      answer_signed asked r w.now response)
      w

abbrev pub answer_from :
    Config → Option Extension → OcspRequest → Option CachedResponse → Exec OcspAnswer
answer_from c asked r none w = answer_uncached c asked r w
answer_from c asked r (some entry) w =
    (ok (record { der = entry.der; max_age = entry.expires_at - w.now }), w)

abbrev pub answer_request : Hashes → Config → Option Extension → OcspRequest → Exec OcspAnswer
answer_request hs c asked r = (λ v. (check_ocsp_issuer hs r c.ca_cert, v)) >>= λ _ w.
    answer_from c asked r (cached_for asked r w) w

abbrev pub answer_parsed : Hashes → Config → Option Extension → Option OcspRequest → Exec OcspAnswer
answer_parsed hs c asked none = raise bad_ocsp_request
answer_parsed hs c asked (some r) = answer_request hs c asked r

-- AnswerOCSP.
unfoldable pub answer_ocsp : Hashes → Config → OcspMessage → Exec OcspAnswer
unfolding extract_nonce check_ocsp_issuer find_response answer_uncached
answer_ocsp hs c msg = answer_parsed hs c (within_length (extract_nonce msg.extensions)) msg.request

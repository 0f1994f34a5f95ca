-- ===== src/Ocsp/Write.antt =====
-- The guarded write of an answer into the cache.
use openvox_ca.Prelude.{
  ℕ, ◌+◌, ◌≡◌, refl, Bool, true, false, ◌&&◌, Option, none, some, List, [], ◌∷◌, Memᴰ, Bool-cases,
  and_true, ℤ, ◌==ℤ◌, inl, inr,
}
use openvox_ca.World.Types.{
  Crl, Seconds, Extension, CachedResponse, OcspStatus, good, revoked_at, unknown, RevocationEntry,
}
use openvox_ca.World.Exec.{World}
use openvox_ca.Crl.Lists.{listed, serial_in_crl}
use openvox_ca.Crl.Store.{was_listed}
use openvox_ca.Ocsp.{
  OcspRequest, ocsp_cacheable_hash, decide_ocsp_status, status_in, is_indexed, ocsp_validity,
  cache_response, still_decided, same_status, has_no_nonce, is_definite, next_update_for,
  ocsp_template,
}
use openvox_ca.Ocsp.Entries.{mem-delete_response}
use openvox_ca.Ocsp.Current.{OcspSafe, IsCurrent}

status_in-good :
    (n : ℤ) (es : List RevocationEntry)
    → same_status (status_in n es) good ≡ true
    → listed n es ≡ false
unfolding status_in listed
status_in-good n [] h = refl
status_in-good n (e ∷ es) h = elim (Bool-cases (e.serial ==ℤ n)) [
  | inl same ↦ cc (rw same at h)
  | inr other ↦ rw other (status_in-good n es (rw other at h))
]

-- A definite status that is decided again is that of a serial in the index, and vouches for none that
-- the list holds.
decided :
    (crl : Option Crl) (n : ℤ) (known : Bool) (status : OcspStatus)
    → is_definite status ≡ true
    → still_decided (decide_ocsp_status crl n known) status ≡ true
    → (known ≡ true) × (status ≡ good → was_listed crl n ≡ false)
unfolding decide_ocsp_status serial_in_crl
decided crl n false good d h = cc
decided crl n false (revoked_at t) d h = cc
decided crl n false unknown d h = cc
decided none n true status d h = cc
decided (some crl) n true good d h = (refl, λ g. status_in-good n crl.entries h)
decided (some crl) n true (revoked_at t) d h = (refl, λ g. cc)
decided (some crl) n true unknown d h = cc

pub next_update_definite :
    (status : OcspStatus) (now : Seconds)
    → is_definite status ≡ true
    → next_update_for status now ≡ some (now + ocsp_validity)
next_update_definite good now h = refl
next_update_definite (revoked_at t) now h = refl
next_update_definite unknown now h = cc

asked_none : (asked : Option Extension) → has_no_nonce asked ≡ true → asked ≡ none
asked_none none h = refl
asked_none (some e) h = cc

abbrev entry_of : ℕ → Option Extension → OcspRequest → OcspStatus → Seconds → CachedResponse
entry_of key asked r status now = record {
  serial = r.serial;
  hash = r.hash;
  der = ocsp_template key asked r status now;
  expires_at = now + ocsp_validity;
}

-- What the guarded write of the cache did.
pub record Cached (asked : Option Extension) (status : OcspStatus) (r : OcspRequest) (w' : World)
    : Type 0 where
  pub unasked : asked ≡ none
  pub definite : is_definite status ≡ true
  pub unrevoked : status ≡ good → was_listed w'.mem.cached_crl r.serial ≡ false

pub cache_response-OcspSafe :
    (key : ℕ) (asked : Option Extension) (r : OcspRequest) (status : OcspStatus) (now : Seconds)
    (w : World)
    → let wrote = cache_response asked r (ocsp_template key asked r status now) now w in
      OcspSafe w.mem → OcspSafe wrote.1.mem × (wrote.0 ≡ true → Cached asked status r wrote.1)
unfolding cache_response
cache_response-OcspSafe key asked r status now w safe =
    let allowed = has_no_nonce asked && is_definite status && ocsp_cacheable_hash r.hash in
    let known = is_indexed r.serial w.mem.serial_index in
    let crl = w.mem.cached_crl in
    let same = still_decided (decide_ocsp_status crl r.serial known) status in
    elim (Bool-cases allowed) [
      | inr refused ↦ rw refused (safe, λ h. cc)
      | inl admitted ↦ rw admitted (elim (Bool-cases same) [
        | inr moved ↦ rw moved (safe, λ h. cc)
        | inl again ↦
            let (first, cacheable) =
              and_true (has_no_nonce asked && is_definite status) (ocsp_cacheable_hash r.hash)
                admitted in
            let (unasked, definite) = and_true (has_no_nonce asked) (is_definite status) first in
            let (indexed, unrevoked) = decided crl r.serial known status definite again in
            let none_asked = asked_none asked unasked in
            let current : IsCurrent crl w.mem.serial_index (entry_of key asked r status now) =
              record {
                cacheable = cacheable;
                own = refl;
                window = next_update_definite status now definite;
                unasked = none_asked;
                definite = definite;
                indexed = indexed;
                unrevoked = unrevoked;
              } in
            rw again (
              λ x there. elim there [
                | Memᴰ.head p ↦ rw p current
                | Memᴰ.tail t ↦ safe x (mem-delete_response r.serial r.hash w.mem.ocsp_cache t).0
              ],
              λ h. record { unasked = none_asked; definite = definite; unrevoked = unrevoked },
            )
      ])
    ]

-- ===== src/Crl/Store.antt =====
-- Reading the stored chain and replacing the cached list: parseStoredCRL and readStoredCRL of crl.go,
-- installCachedCRLLocked with the invalidation of OCSP responses, and SyncCRLCache of crlsync.go.
use openvox_ca.Prelude.{
  ◌+◌, Bool, true, false, not, ◌&&◌, Option, none, some, List, [], ◌∷◌, ℤ, ◌==ℤ◌, if◌then◌else◌,
  String, ◌==◌,
}
use openvox_ca.World.Types.{
  Crl, RevocationEntry, CaCert, CrlBlob, crl_block, bad_crl, other_block, Mem, Config, Error,
  foreign_stored_crl, HashId, CachedResponse, bad_crl_pem, no_own_crl, crl_not_loaded, Pem, parsed,
  Cert,
}
use openvox_ca.World.Exec.{World, Exec, Result, ok, err, modify_mem, ◌>>=◌}
use openvox_ca.World.Locks.{count_crl_failure}
use openvox_ca.World.Storage.{get_crl, get_cert}
use openvox_ca.Crl.Lists.{serial_in_crl, crl_signed_by, newer_crl, select_own_crl}

-- A failure moves the counter crlUpdateFailures.
abbrev pub count_failure {ℓ} : {A : Type ℓ} → Result A × World → Result A × World
count_failure (ok a, w) = (ok a, w)
count_failure (err e, w) = (err e, record w { mem = count_crl_failure w.mem })

unfoldable pub counted {ℓ} : {A : Type ℓ} → Exec A → Exec A
counted m w = count_failure (m w)

-- storedCRL: the list to re-sign from, and the blob that it was read from.
pub record StoredCrl : Type 0 where
  pub own : Crl
  pub blob : CrlBlob

-- The first block of the blob, whatever its type.
abbrev pub leading_crl : CrlBlob → Result Crl
leading_crl [] = err bad_crl_pem
leading_crl (crl_block crl ∷ rest) = ok crl
leading_crl (bad_crl ∷ rest) = err bad_crl_pem
leading_crl (other_block ∷ rest) = err bad_crl_pem

-- The newest list of ours in the chain, where it decodes, holds one, and that is newer.
abbrev pub newest_from : Crl → Result (Option Crl) → Crl
newest_from crl (ok (some newest)) = if newer_crl newest crl then newest else crl
newest_from crl _ = crl

abbrev pub check_leading : Option CaCert → CrlBlob → Result Crl → Result StoredCrl
check_leading cert blob (err e) = err e
check_leading cert blob (ok crl) =
    if crl_signed_by cert crl
    then ok (record { own = newest_from crl (select_own_crl cert blob); blob = blob })
    else err foreign_stored_crl

unfoldable pub parse_stored_crl : Config → Exec StoredCrl
unfolding select_own_crl get_crl
parse_stored_crl c = do blob ← get_crl; λ w. (check_leading c.ca_cert blob (leading_crl blob), w)

unfoldable pub read_stored_crl : Config → Exec StoredCrl
unfolding parse_stored_crl counted
read_stored_crl c = counted (parse_stored_crl c)

-- ocspCacheHashes: SHA-1, SHA-256, SHA-384 and SHA-512.
abbrev pub ocsp_cache_hashes : List HashId
ocsp_cache_hashes = 3 ∷ 5 ∷ 6 ∷ 7 ∷ []

-- ocspCacheKey; a serial stands for its printed form.
abbrev pub has_key : ℤ → HashId → CachedResponse → Bool
has_key n h r = r.serial ==ℤ n && r.hash == h

unfoldable pub delete_response : ℤ → HashId → List CachedResponse → List CachedResponse
delete_response n h [] = []
delete_response n h (r ∷ rs) =
    let rest = delete_response n h rs in if has_key n h r then rest else r ∷ rest

unfoldable pub evict_hashes : ℤ → List HashId → List CachedResponse → List CachedResponse
unfolding delete_response
evict_hashes n [] cache = cache
evict_hashes n (h ∷ hs) cache = evict_hashes n hs (delete_response n h cache)

-- evictOCSPLocked.
unfoldable pub evict_ocsp : ℤ → List CachedResponse → List CachedResponse
unfolding evict_hashes
evict_ocsp n = evict_hashes n ocsp_cache_hashes

abbrev pub was_listed : Option Crl → ℤ → Bool
was_listed none n = false
was_listed (some previous) n = serial_in_crl previous n

-- invalidateOCSPForNewlyRevokedLocked.
unfoldable pub invalidate_newly_revoked :
    Option Crl → List RevocationEntry → List CachedResponse → List CachedResponse
unfolding evict_ocsp serial_in_crl
invalidate_newly_revoked previous [] cache = cache
invalidate_newly_revoked previous (e ∷ es) cache =
    invalidate_newly_revoked previous es
      (if was_listed previous e.serial then cache else evict_ocsp e.serial cache)

unfoldable pub install_cached_crl_locked : Crl → Exec (Unit {0})
unfolding invalidate_newly_revoked
install_cached_crl_locked next = modify_mem λ m. record m {
  cached_crl = some next;
  ocsp_cache = invalidate_newly_revoked m.cached_crl next.entries m.ocsp_cache;
}

abbrev pub count_sync_failure : Mem → Mem
count_sync_failure m = record m { crl_sync_failures = m.crl_sync_failures + 1 }

abbrev pub sync_failed : Error → Exec Bool
sync_failed e w = (err e, record w { mem = count_sync_failure w.mem })

-- `bytes.Equal` of the two encodings.
abbrev pub same_raw : Option Crl → Crl → Bool
same_raw none ours = false
same_raw (some cached) ours = ours.raw == cached.raw

-- Whether the cached list is ours and what is stored is not newer.
abbrev pub keeps_cached : Option CaCert → Option Crl → Crl → Bool
keeps_cached cert none ours = false
keeps_cached cert (some cached) ours = crl_signed_by cert cached && not (newer_crl ours cached)

abbrev pub sync_own : Config → Result (Option Crl) → Exec Bool
sync_own c (err e) w = sync_failed e w
sync_own c (ok none) w = sync_failed no_own_crl w
sync_own c (ok (some ours)) w =
    if same_raw w.mem.cached_crl ours
    then (ok false, w)
    else if keeps_cached c.ca_cert w.mem.cached_crl ours
    then (ok false, w)
    else (ok true, (install_cached_crl_locked ours w).1)

abbrev pub sync_blob : Config → Result CrlBlob × World → Result Bool × World
sync_blob c (err e, w) = sync_failed e w
sync_blob c (ok blob, w) = sync_own c (select_own_crl c.ca_cert blob) w

-- SyncCRLCache: `true` where the cached list was replaced.
unfoldable pub sync_crl_cache : Config → Exec Bool
unfolding get_crl
sync_crl_cache c w = sync_blob c (get_crl w)

-- IsRevokedSerial.
abbrev pub revoked_in : Option Crl → ℤ → Result Bool
revoked_in none n = err crl_not_loaded
revoked_in (some crl) n = ok (serial_in_crl crl n)

unfoldable pub is_revoked_serial : ℤ → Exec Bool
is_revoked_serial n w = (revoked_in w.mem.cached_crl n, w)

abbrev pub stored_and_cached : Option Crl → Result (Pem Cert) × World → Bool × World
stored_and_cached (some crl) (ok (parsed cert), w) = (serial_in_crl crl cert.serial, w)
stored_and_cached _ (_, w) = (false, w)

-- IsRevoked, for display: `false` where the certificate or the list cannot be read.
unfoldable pub is_revoked : String → World → Bool × World
unfolding get_cert
is_revoked subject w = stored_and_cached (get_cert subject w).1.mem.cached_crl (get_cert subject w)

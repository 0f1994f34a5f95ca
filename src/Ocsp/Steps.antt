-- ===== src/Ocsp/Steps.antt =====
-- The operations that touch the cache of responses, the list or the index, in any interleaving.
use openvox_ca.Prelude.{ℕ, ◌≡◌, Option, String, ℤ}
use openvox_ca.World.Types.{Mem, Crl, Seconds, Extension, OcspStatus}
use openvox_ca.World.Exec.{World}
use openvox_ca.Crl.Store.{evict_ocsp, install_cached_crl_locked}
use openvox_ca.Signing.Issue.{index_serial_locked}
use openvox_ca.Cleanup.{unindex_serial_locked}
use openvox_ca.Ocsp.{OcspRequest, cache_response, ocsp_template}
use openvox_ca.Ocsp.Entries.{mem-evict_ocsp}
use openvox_ca.SerialSync.{SerialIndex, reconcile_serial_index_locked}
use openvox_ca.Ocsp.Current.{
  OcspSafe, install-OcspSafe, index-OcspSafe, drop-OcspSafe, reconcile-OcspSafe,
}
use openvox_ca.Ocsp.Write.{cache_response-OcspSafe}

abbrev pub evicted : ℤ → Mem → Mem
evicted n m = record m { ocsp_cache = evict_ocsp n m.ocsp_cache }

-- The operations that touch the cache of responses, the list or the index, in any interleaving: the
-- write of an answer is a step of its own, so a revocation may come between its signing and its
-- write. `elsewhere` is all else, which leaves the three alone.
pub data Step : World → World → Type 0 where
  install : (next : Crl) (w : World) → Step w (install_cached_crl_locked next w).1
  index : (n : ℤ) (s : String) (w : World) → Step w (index_serial_locked n s w).1
  unindex : (n : ℤ) (w : World) → Step w (unindex_serial_locked n w)
  reconcile :
      (stored : SerialIndex) (e r : ℕ) (w : World)
      → Step w (record w { mem = (reconcile_serial_index_locked stored e r w.mem).1 })
  evict : (n : ℤ) (w : World) → Step w (record w { mem = evicted n w.mem })
  cache :
      (key : ℕ) (asked : Option Extension) (r : OcspRequest) (status : OcspStatus) (now : Seconds)
      (w : World)
      → Step w (cache_response asked r (ocsp_template key asked r status now) now w).1
  elsewhere :
      (w v : World)
      → v.mem.ocsp_cache ≡ w.mem.ocsp_cache
      → v.mem.cached_crl ≡ w.mem.cached_crl
      → v.mem.serial_index ≡ w.mem.serial_index
      → Step w v

pub data Reach (w : World) : World → Type 0 where
  here : Reach w w
  next : {u v : World} → Reach w u → Step u v → Reach w v

Step-OcspSafe : {w v : World} → Step w v → OcspSafe w.mem → OcspSafe v.mem
unfolding unindex_serial_locked
Step-OcspSafe (install crl w) safe = install-OcspSafe crl w safe
Step-OcspSafe (index n s w) safe = index-OcspSafe n s w safe
Step-OcspSafe (unindex n w) safe = drop-OcspSafe n w.mem safe
Step-OcspSafe (reconcile stored e r w) safe = reconcile-OcspSafe stored e r w.mem safe
Step-OcspSafe (evict n w) safe = λ r left. safe r (mem-evict_ocsp n w.mem.ocsp_cache left).0
Step-OcspSafe (cache key asked r status now w) safe =
    (cache_response-OcspSafe key asked r status now w safe).0
Step-OcspSafe (elsewhere w v p q t) safe = λ r there. rw (q, t) (safe r (rw p at there))

-- From a world whose cache is safe, and so from one that has just started with an empty cache, no
-- interleaving of installed lists, issued and pruned serials, syncs of the index, evictions and
-- writes of answers reaches one whose cache vouches for a serial that the list in memory holds,
-- answers for a serial that the index lacks, or holds an answer that asked for a nonce, is not
-- definite, or does not last as long as its entry.
pub Reach-OcspSafe : {w v : World} → OcspSafe w.mem → Reach w v → OcspSafe v.mem
Reach-OcspSafe safe here = safe
Reach-OcspSafe safe (next path step) = Step-OcspSafe step (Reach-OcspSafe safe path)

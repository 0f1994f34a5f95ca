-- ===== src/Cleanup.antt =====
-- Cleanup of expired certificates: internal/ca/cleanup.go, and unindexSerialLocked and
-- dropSerialLocked of ocsp.go.
pub mod Entries
pub mod Drop
pub mod Certs
pub mod Safety
use openvox_ca.Prelude.{
  ℕ, suc, ◌-◌, Bool, true, false, not, Option, none, some, List, [], ◌∷◌, ◌++◌, ℤ, ◌==ℤ◌, String,
  ltb, length, codes_eq, if◌then◌else◌,
}
use openvox_ca.Serial.{SerialText, set_string, serial_hex_str}
use openvox_ca.World.Types.{
  InventoryEntry, RevocationEntry, Cert, Pem, parsed, Mem, Config, Seconds, Error, lock_fault,
}
use openvox_ca.World.Exec.{World, Exec, Result, ok, err, pure, fails, ticked, ◌>>=◌}
use openvox_ca.World.Locks.{granted, count_crl_failure}
use openvox_ca.World.Storage.{prune_inventory, Pruned, get_cert, delete_cert}
use openvox_ca.Crl.Store.{StoredCrl, read_stored_crl, evict_ocsp}
use openvox_ca.Crl.Sign.{sign_crl_locked}
use openvox_ca.Signing.Issue.{drop_serial}

-- An entry whose time does not parse is kept.
unfoldable pub is_kept : Seconds → InventoryEntry → Bool
is_kept cutoff e = elim e.not_after [ none ↦ true | some t ↦ not (ltb t cutoff) ]

-- dropSerialLocked.
abbrev pub drop_serial_locked : ℤ → Mem → Mem
drop_serial_locked n m = record m {
  serial_index = drop_serial n m.serial_index;
  ocsp_cache = evict_ocsp n m.ocsp_cache;
  serial_index_removal_epoch = suc m.serial_index_removal_epoch;
}

abbrev pub forget : ℤ → Mem → Mem
forget n m = record (drop_serial_locked n m) { serial_index_epoch = suc m.serial_index_epoch }

-- unindexSerialLocked.
unfoldable pub unindex_serial_locked : ℤ → World → World
unindex_serial_locked n w = record w { mem = forget n w.mem }

-- The numbers of the entries removed, those that have one; each leaves the index and the cache.
abbrev pub collected : Option ℤ → List ℤ → List ℤ
collected none ns = ns
collected (some n) ns = n ∷ ns

unfoldable pub removed_serials : List InventoryEntry → List ℤ
removed_serials [] = []
removed_serials (e ∷ es) = collected (set_string e.serial) (removed_serials es)

unfoldable pub unindex_each : List ℤ → World → World
unindex_each [] w = w
unindex_each (n ∷ ns) w = unindex_each ns (unindex_serial_locked n w)

unfoldable pub is_removed : ℤ → List ℤ → Bool
is_removed n [] = false
is_removed n (m ∷ ms) = if m ==ℤ n then true else is_removed n ms

-- The loop over the entries of the list, and whether it left any out.
unfoldable pub kept_revocations : List ℤ → List RevocationEntry → List RevocationEntry
unfolding is_removed
kept_revocations removed [] = []
kept_revocations removed (e ∷ es) =
    let rest = kept_revocations removed es in if is_removed e.serial removed then rest else e ∷ rest

unfoldable pub drops_any : List ℤ → List RevocationEntry → Bool
unfolding is_removed
drops_any removed [] = false
drops_any removed (e ∷ es) = if is_removed e.serial removed then true else drops_any removed es

-- dropCRLEntriesLocked.
unfoldable pub drop_crl_entries_locked : Config → List ℤ → Exec (Unit {0})
drop_crl_entries_locked c removed = do
  stored ← read_stored_crl c
  (if drops_any removed stored.own.entries
      then sign_crl_locked c (some stored) (kept_revocations removed stored.own.entries)
      else pure tt)

abbrev pub same_number : ℤ → Option ℤ → Bool
same_number n none = false
same_number n (some m) = codes_eq (serial_hex_str n) (serial_hex_str m)

abbrev pub delete_if_match : String → SerialText → Result (Pem Cert) × World → World
delete_if_match subject expected (ok (parsed cert), w) =
    if same_number cert.serial (set_string expected) then (delete_cert subject w).1 else w
delete_if_match subject expected (_, w) = w

-- deleteStoredCertIfSerialMatches: a failure is only logged.
unfoldable pub delete_stored_cert_if_serial_matches : String → SerialText → World → World
delete_stored_cert_if_serial_matches subject expected w =
    delete_if_match subject expected (get_cert subject w)

unfoldable pub delete_each : List InventoryEntry → World → World
delete_each [] w = w
delete_each (e ∷ es) w = delete_each es (delete_stored_cert_if_serial_matches e.subject e.serial w)

abbrev pub error_of : Result (Unit {0}) → List Error
error_of (ok _) = []
error_of (err e) = e ∷ []

abbrev pub prune_error : Option Error → List Error
prune_error none = []
prune_error (some e) = e ∷ []

-- The number removed, and the errors joined.
abbrev pub CleanedUp : Type 0
CleanedUp = ℕ × List Error

abbrev pub clean_dropped : Config → Pruned × World → CleanedUp × World
clean_dropped c (([], e), w) = ((0, prune_error e), w)
clean_dropped c ((d ∷ ds, e), w) =
    let r =
      drop_crl_entries_locked c (removed_serials (d ∷ ds))
        (unindex_each (removed_serials (d ∷ ds)) w) in
    ((length (d ∷ ds), prune_error e ++ error_of r.0), delete_each (d ∷ ds) r.1)

-- What runs under the lock; `retain` below zero counts as zero.
unfoldable pub cleanup_locked : Config → Seconds → World → CleanedUp × World
cleanup_locked c retain w = clean_dropped c (prune_inventory (is_kept (w.now - retain)) w)

-- CleanupExpiredCerts.
unfoldable pub cleanup_expired_certs : Config → Seconds → World → CleanedUp × World
cleanup_expired_certs c retain w =
    if fails w
    then ((0, lock_fault ∷ []), record (ticked w) { mem = count_crl_failure w.mem })
    else cleanup_locked c retain (granted w)

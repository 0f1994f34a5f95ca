-- ===== src/World/Locks.antt =====
-- StorageService.WithLock of internal/storage/storage.go, as its callers see it, and the counted form
-- of internal/ca/crl.go. An acquisition may fail; while it waits, others may change the store and
-- the memory in any way.
use openvox_ca.Prelude.{if◌then◌else◌, ◌+◌}
use openvox_ca.World.Types.{Mem, lock_fault}
use openvox_ca.World.Exec.{World, Exec, err, fails, ticked}

-- What the others do while the lock is waited for.
abbrev pub interfere : World → World
interfere w = record w {
  store = (w.others w.tick w.store w.mem).0;
  mem = (w.others w.tick w.store w.mem).1;
}

-- The world in which the body of a lock that was granted starts.
abbrev pub granted : World → World
granted w = ticked (interfere w)

unfoldable pub with_lock {ℓ} : {A : Type ℓ} → Exec A → Exec A
with_lock body w = if fails w then (err lock_fault, ticked w) else body (granted w)

abbrev pub count_crl_failure : Mem → Mem
count_crl_failure m = record m { crl_update_failures = m.crl_update_failures + 1 }

-- withCRLLockCounted: the failure is counted exactly where the body did not run.
unfoldable pub with_crl_lock_counted {ℓ} : {A : Type ℓ} → Exec A → Exec A
with_crl_lock_counted body w =
    if fails w
    then (err lock_fault, record (ticked w) { mem = count_crl_failure w.mem })
    else body (granted w)

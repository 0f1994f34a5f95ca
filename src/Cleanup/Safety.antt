-- ===== src/Cleanup/Safety.antt =====
-- What a cleanup may remove (CleanupExpiredCerts).
use openvox_ca.Prelude.{
  ◌-◌, ◌≡◌, refl, ap, sym, ◌∙◌, true, none, some, List, [], ◌∷◌, inl, inr, ◌⊎◌, Memᴰ, ℤ, String,
  lookup,
}
use openvox_ca.Serial.{set_string}
use openvox_ca.World.Types.{InventoryEntry, Cert, parsed, Config, Store, Seconds}
use openvox_ca.World.Exec.{World}
use openvox_ca.World.Storage.{prune_inventory, Pruned}
use openvox_ca.Crl.Chain.{IsReady, on_stored_crl}
use openvox_ca.Revoke.Outcome.{on_stored_crl-eq}
use openvox_ca.Cleanup.{
  is_kept, removed_serials, unindex_each, unindex_serial_locked, drop_crl_entries_locked,
  delete_each, clean_dropped, cleanup_locked,
}
use openvox_ca.Cleanup.Entries.{
  HasEnded, IsExpired, Thinned, PrunedStore, is_removed-entry, is_kept-expired, prune-dropped,
  prune-store,
}
use openvox_ca.Cleanup.Drop.{Dropped, drop-Dropped}
use openvox_ca.Cleanup.Certs.{IsOf, Deleted, delete_each-Deleted}

-- The certificate stored for the subject is one of an entry that expired.
abbrev pub IsExpiredCert : Seconds → String → World → Type 0
IsExpiredCert retain subject w =
    (cert : Cert) × (lookup subject w.store.certs ≡ some (parsed cert))
    × ((e : InventoryEntry) × IsExpired retain w e
        × (e.subject ≡ subject)
        × (set_string e.serial ≡ some cert.serial))

-- What a cleanup may change.
pub record CleanupSafe (c : Config) (retain : Seconds) (w : World) (s' : Store) : Type 0 where
  pub revocations :
      (m : ℤ)
      → on_stored_crl c m w.store ≡ true
      → (on_stored_crl c m s' ≡ true)
        ⊎ ((e : InventoryEntry) × IsExpired retain w e × (set_string e.serial ≡ some m))
  pub none_new : (m : ℤ) → on_stored_crl c m s' ≡ true → on_stored_crl c m w.store ≡ true
  pub certs :
      (subject : String)
      → (lookup subject s'.certs ≡ lookup subject w.store.certs)
        ⊎ ((lookup subject s'.certs ≡ none) × IsExpiredCert retain subject w)
  pub inventory : Thinned (HasEnded retain w.now) w.store.inventory s'.inventory
  pub csrs : s'.csrs ≡ w.store.csrs
  pub superseded : s'.superseded ≡ w.store.superseded

unindex-store : (ns : List ℤ) (w : World) → (unindex_each ns w).store ≡ w.store
unfolding unindex_each unindex_serial_locked
unindex-store [] w = refl
unindex-store (n ∷ ns) w = unindex-store ns (unindex_serial_locked n w)

pruned-same :
    (P : InventoryEntry → Type 0) (s s' : Store)
    → PrunedStore P s s'
    → (s'.certs ≡ s.certs)
      × (s'.csrs ≡ s.csrs)
      × (s'.crl ≡ s.crl)
      × (s'.superseded ≡ s.superseded)
      × Thinned P s.inventory s'.inventory
pruned-same P s s' p = (
  ap (λ (t : Store). t.certs) p.others,
  ap (λ (t : Store). t.csrs) p.others,
  ap (λ (t : Store). t.crl) p.others,
  ap (λ (t : Store). t.superseded) p.others,
  p.inventory,
)

IsExpiredCert-of :
    (retain : Seconds) (ds : List InventoryEntry) (subject : String) (w : World) (t : Store)
    → ((e : InventoryEntry) → Memᴰ e ds → IsExpired retain w e)
    → t.certs ≡ w.store.certs
    → IsOf ds subject t
    → IsExpiredCert retain subject w
IsExpiredCert-of retain ds subject w t expired same (cert, held, (e, m, named, number)) =
    (cert, ap (lookup subject) (sym same) ∙ held, (e, expired e m, named, number))

certs_from :
    (retain : Seconds) (ds : List InventoryEntry) (subject : String) (w : World) (t u : Store)
    → ((e : InventoryEntry) → Memᴰ e ds → IsExpired retain w e)
    → t.certs ≡ w.store.certs
    → (lookup subject u.certs ≡ lookup subject t.certs)
      ⊎ ((lookup subject u.certs ≡ none) × IsOf ds subject t)
    → (lookup subject u.certs ≡ lookup subject w.store.certs)
      ⊎ ((lookup subject u.certs ≡ none) × IsExpiredCert retain subject w)
certs_from retain ds subject w t u expired same (inl left) = inl (left ∙ ap (lookup subject) same)
certs_from retain ds subject w t u expired same (inr (gone, was)) =
    inr (gone, IsExpiredCert-of retain ds subject w t expired same was)

Dropped-CleanupSafe :
    (c : Config) (retain : Seconds) (ds : List InventoryEntry) (w : World) (s t u : Store)
    → PrunedStore (HasEnded retain w.now) w.store s
    → ((e : InventoryEntry) → Memᴰ e ds → IsExpired retain w e)
    → Dropped c (removed_serials ds) s t
    → Deleted ds t u
    → CleanupSafe c retain w u
Dropped-CleanupSafe c retain ds w s t u pruned expired dropped deleted =
    let (certs, csrs, crl, superseded, inventory) =
      pruned-same (HasEnded retain w.now) w.store s pruned in
    let before = λ (m : ℤ). on_stored_crl-eq c m w.store s crl in
    let after = λ (m : ℤ). on_stored_crl-eq c m t u deleted.crl in
    record {
      revocations = λ m h. elim (dropped.kept m (before m ∙ h)) [
        | inl on ↦ inl (after m ∙ on)
        | inr gone ↦ let (e, k, number) = is_removed-entry m ds gone in inr (e, expired e k, number)
      ];
      none_new = λ m h. sym (before m) ∙ dropped.none_new m (sym (after m) ∙ h);
      certs = λ subject.
          certs_from retain ds subject w t u expired (dropped.rest.certs ∙ certs)
            (deleted.certs subject);
      inventory = rw (deleted.inventory ∙ dropped.rest.inventory) inventory;
      csrs = deleted.csrs ∙ dropped.rest.csrs ∙ csrs;
      superseded = deleted.superseded ∙ dropped.rest.superseded ∙ superseded;
    }

unchanged-CleanupSafe :
    (c : Config) (retain : Seconds) (w : World) (s : Store)
    → PrunedStore (HasEnded retain w.now) w.store s
    → CleanupSafe c retain w s
unchanged-CleanupSafe c retain w s pruned =
    let (certs, csrs, crl, superseded, inventory) =
      pruned-same (HasEnded retain w.now) w.store s pruned in
    record {
      revocations = λ m h. inl (on_stored_crl-eq c m w.store s crl ∙ h);
      none_new = λ m h. sym (on_stored_crl-eq c m w.store s crl) ∙ h;
      certs = λ subject. inl (ap (lookup subject) certs);
      inventory = inventory;
      csrs = csrs;
      superseded = superseded;
    }

clean_dropped-CleanupSafe :
    (c : Config) (retain : Seconds) (p : Pruned) (w v : World)
    → IsReady c
    → PrunedStore (HasEnded retain w.now) w.store v.store
    → ((e : InventoryEntry) → Memᴰ e p.0 → IsExpired retain w e)
    → CleanupSafe c retain w (clean_dropped c (p, v)).1.store
clean_dropped-CleanupSafe c retain ([], e) w v ready pruned expired =
    unchanged-CleanupSafe c retain w v.store pruned
clean_dropped-CleanupSafe c retain (d ∷ ds, e) w v ready pruned expired =
    let ns = removed_serials (d ∷ ds) in
    let r = drop_crl_entries_locked c ns (unindex_each ns v) in
    Dropped-CleanupSafe c retain (d ∷ ds) w (unindex_each ns v).store r.1.store
      (delete_each (d ∷ ds) r.1).store (rw (unindex-store ns v) pruned) expired
      (drop-Dropped c ns (unindex_each ns v) ready) (delete_each-Deleted (d ∷ ds) r.1)

-- Whatever fails on the way, a cleanup under the lock, by a CA that has its certificate and key, takes
-- a serial off the stored list only where it is that of an inventory entry that ended more than the
-- retention time ago, and puts none on it; it deletes the certificate stored for a subject only where
-- an entry of that subject that ended so long ago has its serial; the inventory
-- loses at most such entries, all of them or some, and keeps the others in their order; and requests
-- and the pending list are as they were.
pub cleanup_locked-CleanupSafe :
    (c : Config) (retain : Seconds) (w : World)
    → IsReady c
    → CleanupSafe c retain w (cleanup_locked c retain w).1.store
unfolding cleanup_locked
cleanup_locked-CleanupSafe c retain w ready =
    let keep = is_kept (w.now - retain) in
    let p = prune_inventory keep w in
    clean_dropped-CleanupSafe c retain p.0 w p.1 ready
      (prune-store (HasEnded retain w.now) keep w (is_kept-expired retain w.now))
      (λ e m.
        let (k, drops) = prune-dropped keep w e m in (k, is_kept-expired retain w.now e drops))

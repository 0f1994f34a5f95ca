-- ===== src/Crl/Sync.antt =====
-- What a refresh of the cached list leaves in memory (SyncCRLCache of internal/ca/crlsync.go).
use openvox_ca.Prelude.{
  ◌≡◌, refl, Bool, true, false, Option, none, some, arith, Bool-cases, inl, inr, ◌⊎◌,
}
use openvox_ca.World.Types.{Crl, CrlBlob, CaCert, Config}
use openvox_ca.World.Exec.{World, Result, ok, err}
use openvox_ca.World.Storage.{get_crl}
use openvox_ca.Crl.Lists.{crl_signed_by, newer_crl, select_own_crl}
use openvox_ca.Crl.Store.{
  sync_crl_cache, sync_blob, sync_own, keeps_cached, same_raw, install_cached_crl_locked,
}

-- What a refresh that read the stored chain leaves in memory: the newest list of ours in the chain,
-- or one that is not older.
pub record Synced (c : Config) (w w' : World) : Type 0 where
  pub blob : CrlBlob
  pub stored : w.store.crl ≡ some blob
  pub own : Crl
  pub selected : select_own_crl c.ca_cert blob ≡ ok (some own)
  pub crl : Crl
  pub in_memory : w'.mem.cached_crl ≡ some crl
  pub fresh :
      (crl ≡ own)
      ⊎ (own.raw ≡ crl.raw)
      ⊎ ((crl_signed_by c.ca_cert crl ≡ true) × (newer_crl own crl ≡ false))

kept_own :
    (cert : Option CaCert) (m : Option Crl) (own : Crl)
    → keeps_cached cert m own ≡ true
    → (crl : Crl) × (m ≡ some crl) × (crl_signed_by cert crl ≡ true) × (newer_crl own crl ≡ false)
kept_own cert none own h = cc
kept_own cert (some crl) own h = (crl, refl, ground arith, ground arith)

same_own :
    (m : Option Crl) (own : Crl)
    → same_raw m own ≡ true
    → (crl : Crl) × (m ≡ some crl) × (own.raw ≡ crl.raw)
same_own none own h = cc
same_own (some crl) own h = (crl, refl, ground arith)

own-Synced :
    (c : Config) (w v : World) (blob : CrlBlob) (own : Crl)
    → w.store.crl ≡ some blob
    → select_own_crl c.ca_cert blob ≡ ok (some own)
    → Synced c w (sync_own c (ok (some own)) v).1
unfolding install_cached_crl_locked
own-Synced c w v blob own stored selected = elim (Bool-cases (same_raw v.mem.cached_crl own)) [
  | inl same ↦
      (let (crl, at, raw) = same_own v.mem.cached_crl own same in
        rw same (record {
          blob = blob;
          stored = stored;
          own = own;
          selected = selected;
          crl = crl;
          in_memory = at;
          fresh = inr (inl raw);
        }))
  | inr other ↦ rw other (elim (Bool-cases (keeps_cached c.ca_cert v.mem.cached_crl own)) [
    | inl keeps ↦
        (let (crl, at, mine, newer) = kept_own c.ca_cert v.mem.cached_crl own keeps in
          rw keeps (record {
            blob = blob;
            stored = stored;
            own = own;
            selected = selected;
            crl = crl;
            in_memory = at;
            fresh = inr (inr (mine, newer));
          }))
    | inr replaced ↦ rw replaced (record {
      blob = blob;
      stored = stored;
      own = own;
      selected = selected;
      crl = own;
      in_memory = refl;
      fresh = inl refl;
    })
  ])
]

selected-Synced :
    (c : Config) (w v : World) (blob : CrlBlob) (r : Result (Option Crl)) {b : Bool}
    → w.store.crl ≡ some blob
    → select_own_crl c.ca_cert blob ≡ r
    → (sync_own c r v).0 ≡ ok b
    → Synced c w (sync_own c r v).1
selected-Synced c w v blob (err e) stored q h = cc
selected-Synced c w v blob (ok none) stored q h = cc
selected-Synced c w v blob (ok (some own)) stored q h = own-Synced c w v blob own stored q

blob-Synced :
    (c : Config) (w v : World) (r : Result CrlBlob) {b : Bool}
    → ((blob : CrlBlob) → r ≡ ok blob → w.store.crl ≡ some blob)
    → (sync_blob c (r, v)).0 ≡ ok b
    → Synced c w (sync_blob c (r, v)).1
blob-Synced c w v (err e) read h = cc
blob-Synced c w v (ok blob) read h =
    selected-Synced c w v blob (select_own_crl c.ca_cert blob) (read blob refl) refl h

get_crl-ok : (w : World) {blob : CrlBlob} → (get_crl w).0 ≡ ok blob → w.store.crl ≡ some blob
unfolding get_crl
get_crl-ok w h = ground arith

-- A refresh that reports no error leaves the newest list of ours that is stored in memory, or one
-- with the same encoding, or one of ours that is not older.
pub sync-Synced :
    (c : Config) (w : World) {b : Bool}
    → (sync_crl_cache c w).0 ≡ ok b
    → Synced c w (sync_crl_cache c w).1
unfolding sync_crl_cache
sync-Synced c w h = blob-Synced c w (get_crl w).1 (get_crl w).0 (λ blob e. get_crl-ok w e) h

-- The list in memory is `old` still, or one that is newer.
abbrev pub KeptOrNewer : Crl → Option Crl → Type 0
KeptOrNewer old after =
    (crl : Crl) × (after ≡ some crl) × ((crl ≡ old) ⊎ (newer_crl crl old ≡ true))

own-forward :
    (c : Config) (v : World) (old own : Crl)
    → v.mem.cached_crl ≡ some old
    → crl_signed_by c.ca_cert old ≡ true
    → KeptOrNewer old (sync_own c (ok (some own)) v).1.mem.cached_crl
unfolding install_cached_crl_locked
own-forward c v old own at mine = elim (Bool-cases (same_raw v.mem.cached_crl own)) [
  | inl same ↦ rw same (old, at, inl refl)
  | inr other ↦ rw other (elim (Bool-cases (keeps_cached c.ca_cert v.mem.cached_crl own)) [
    | inl keeps ↦ rw keeps (old, at, inl refl)
    | inr replaced ↦ rw replaced (own, refl, inr (ground (arith, rw at at replaced)))
  ])
]

blob-forward :
    (c : Config) (v : World) (old : Crl) (r : Result CrlBlob)
    → v.mem.cached_crl ≡ some old
    → crl_signed_by c.ca_cert old ≡ true
    → KeptOrNewer old (sync_blob c (r, v)).1.mem.cached_crl
blob-forward c v old (err e) at mine = (old, at, inl refl)
blob-forward c v old (ok blob) at mine = go (select_own_crl c.ca_cert blob)
  where
    go : (r : Result (Option Crl)) → KeptOrNewer old (sync_own c r v).1.mem.cached_crl
    go (err e) = (old, at, inl refl)
    go (ok none) = (old, at, inl refl)
    go (ok (some own)) = own-forward c v old own at mine

get_crl-mem : (w : World) → (get_crl w).1.mem ≡ w.mem
unfolding get_crl
get_crl-mem w = ground arith

-- Whether it fails or not, a refresh never replaces a list of ours in memory by one that is not newer.
pub sync-forward :
    (c : Config) (w : World) (old : Crl)
    → w.mem.cached_crl ≡ some old
    → crl_signed_by c.ca_cert old ≡ true
    → KeptOrNewer old (sync_crl_cache c w).1.mem.cached_crl
unfolding sync_crl_cache
sync-forward c w old at mine =
    blob-forward c (get_crl w).1 old (get_crl w).0 (rw (get_crl-mem w) at) mine

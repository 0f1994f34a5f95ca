-- ===== src/Examples/Chains.antt =====
-- Runs of the chain file, of signings in a row and of the sync of the index.
use openvox_ca.Prelude.{◌≡◌, refl, true, false, not, none, some, [], ◌∷◌, ◌==◌, codes}
use openvox_ca.World.Types.{Crl, crl_block, Error}
use openvox_ca.World.Exec.{World, ok, err}
use openvox_ca.World.Locks.{granted}
use openvox_ca.World.Storage.{inventory_entries, get_crl}
use openvox_ca.Crl.Lists.{crl_signed_by, select_own_crl}
use openvox_ca.Crl.Store.{read_stored_crl, StoredCrl}
use openvox_ca.Crl.Chain.{stored_crl}
use openvox_ca.Crl.Sign.{reissue_crl_locked, sign_crl_locked, create_crl, publish_crl}
use openvox_ca.Crl.Growth.{Reach-HasGrown, HasGrown, Reach, Step}
use openvox_ca.Revoke.Serial.{revoke_serial_locked}
use openvox_ca.ChainFile.{BundleCert, FileRead, contents, dedupe_crls, upstream_crls}
use openvox_ca.ChainFile.Newest.{newest_from}
use openvox_ca.ChainFile.Deduped.{dedupe_crls-newest, by_signer, at_most_one}
use openvox_ca.ChainFile.Refresh.{Reading, refresh_chain_locked, same_crl_set}
use openvox_ca.ChainFile.Refreshed.{ChainRefreshed, refresh_chain_locked-ChainRefreshed}
use openvox_ca.ChainFile.Stated.{StatedOver, upstream_crls-StatedOver}
use openvox_ca.SerialSync.{sync_serial_index, SerialIndexDelta, index_entries, count_index_failure}
use openvox_ca.SerialSync.Synced.{IndexSynced, sync_serial_index-IndexSynced}
use openvox_ca.Examples.Data.{config, config-IsReady, world, ca, own_crl, other_crl, chain}

abbrev parent : BundleCert
parent = record { raw = 40; key = 8 }

abbrev older : Crl
older = record other_crl { number = some 4; raw = 5 }

abbrev newer : Crl
newer = record other_crl { number = some 10; raw = 6 }

dedupe_crls-newest_example :
    by_signer (parent ∷ []) 40 (dedupe_crls (parent ∷ []) (older ∷ newer ∷ []))
    ≡ at_most_one (newest_from (parent ∷ []) 40 none (older ∷ newer ∷ []))
dedupe_crls-newest_example = dedupe_crls-newest (parent ∷ []) (older ∷ newer ∷ []) 40

abbrev chain_text : FileRead
chain_text = contents (record {
  blocks = crl_block older ∷ crl_block own_crl ∷ crl_block newer ∷ [];
  trailing = false;
  blank = false;
})

chain_text-read :
    upstream_crls (some ca) (ok (parent ∷ [])) chain_text (some chain) ≡ ok (some (newer ∷ []))
unfolding upstream_crls
chain_text-read = refl

upstream_crls-StatedOver_example :
    StatedOver (some ca) (ok (parent ∷ [])) chain_text (some chain) (newer ∷ [])
upstream_crls-StatedOver_example =
    upstream_crls-StatedOver (some ca) (ok (parent ∷ [])) chain_text (some chain) chain_text-read

abbrev stored_own : StoredCrl
stored_own = record { own = own_crl; blob = chain }

chain-own : stored_crl config world.store ≡ some stored_own
unfolding stored_crl crl_signed_by select_own_crl
chain-own = refl

abbrev revoked_world : World
revoked_world = (revoke_serial_locked config (codes "1E") world).1

-- A revocation, and then a reissue.
Reach-HasGrown_example : HasGrown config 3 world (reissue_crl_locked config revoked_world).1
Reach-HasGrown_example =
    Reach-HasGrown config 3 config-IsReady (stored_own, chain-own, refl)
      (Reach.next (Reach.next Reach.here (Step.revoked (codes "1E") world))
        (Step.reissued revoked_world))

sync_serial_index-IndexSynced_example :
    let v = granted (inventory_entries world).1 in
    ((delta : SerialIndexDelta)
      → (sync_serial_index world).0 ≡ ok delta
      → IndexSynced
          (not (v.mem.serial_index_epoch == world.mem.serial_index_epoch))
          (not (v.mem.serial_index_removal_epoch == world.mem.serial_index_removal_epoch))
          (index_entries [] world.store.inventory)
          v.mem.serial_index
          (sync_serial_index world).1.mem.serial_index)
    × ((e : Error)
        → (sync_serial_index world).0 ≡ err e
        → (sync_serial_index world).1.mem ≡ count_index_failure world.mem)
sync_serial_index-IndexSynced_example = sync_serial_index-IndexSynced world

-- The first reading is of the file, and the second one finds it gone.
abbrev first_reading : Reading
first_reading = record { bundle = ok (parent ∷ []); file = chain_text }

abbrev second_reading : Reading
second_reading = record { bundle = ok (parent ∷ []); file = FileRead.absent }

chain_text-rewrites : (refresh_chain_locked config first_reading second_reading world).0 ≡ ok true
unfolding refresh_chain_locked get_crl upstream_crls same_crl_set reissue_crl_locked read_stored_crl
    sign_crl_locked create_crl publish_crl
chain_text-rewrites = refl

refresh_chain_locked-ChainRefreshed_example :
    ChainRefreshed config first_reading second_reading true world.store
      (refresh_chain_locked config first_reading second_reading world).1
refresh_chain_locked-ChainRefreshed_example =
    refresh_chain_locked-ChainRefreshed config first_reading second_reading world config-IsReady
      chain_text-rewrites

-- ===== src/SerialSync.antt =====
-- The sync of the serial index with the inventory: internal/ca/serialsync.go, and readSerialIndex of
-- ocsp.go.
pub mod Index
pub mod Synced
use openvox_ca.Prelude.{
  ℕ, suc, ◌+◌, Bool, true, false, not, Option, none, some, List, [], ◌∷◌, String, ℤ, ◌==ℤ◌, ◌==◌,
  ltb, length, str_eq, if◌then◌else◌,
}
use openvox_ca.Serial.{set_string}
use openvox_ca.World.Types.{InventoryEntry, Mem, Error}
use openvox_ca.World.Exec.{World, Exec, Result, ok, err, pure, ◌>>=◌}
use openvox_ca.World.Locks.{granted}
use openvox_ca.World.Storage.{inventory_entries}
use openvox_ca.Signing.Issue.{drop_serial}
use openvox_ca.Cleanup.{drop_serial_locked}
use openvox_ca.Ocsp.{is_indexed}

-- A map from serials to subjects; a serial stands for its printed form.
abbrev pub SerialIndex : Type 0
SerialIndex = List (ℤ × String)

unfoldable pub subject_at : ℤ → SerialIndex → Option String
subject_at n [] = none
subject_at n ((m, s) ∷ index) = if m ==ℤ n then some s else subject_at n index

abbrev pub set_serial : ℤ → String → SerialIndex → SerialIndex
set_serial n subject index = (n, subject) ∷ drop_serial n index

abbrev pub index_entry : Option ℤ → String → SerialIndex → SerialIndex
index_entry none subject index = index
index_entry (some n) subject index = set_serial n subject index

-- The loop of readSerialIndex: an entry whose serial does not parse is skipped.
unfoldable pub index_entries : SerialIndex → List InventoryEntry → SerialIndex
index_entries index [] = index
index_entries index (e ∷ es) = index_entries (index_entry (set_string e.serial) e.subject index) es

unfoldable pub read_serial_index : Exec SerialIndex
unfolding inventory_entries index_entries
read_serial_index = do entries ← inventory_entries; pure (index_entries [] entries)

pub record SerialIndexDelta : Type 0 where
  pub added : ℕ
  pub removed : ℕ
  pub total : ℕ

-- One entry read, beside what the index knows of the serial.
abbrev pub add_entry : ℤ → String → Option String → ℕ × SerialIndex → ℕ × SerialIndex
add_entry n subject none (added, index) = (suc added, set_serial n subject index)
add_entry n subject (some known) (added, index) =
    if str_eq known subject then (added, index) else (added, set_serial n subject index)

-- The loop over the entries read, with the count of those that were not known.
unfoldable pub add_stored : SerialIndex → ℕ × SerialIndex → ℕ × SerialIndex
unfolding subject_at
add_stored [] (added, index) = (added, index)
add_stored ((n, subject) ∷ stored) (added, index) =
    add_stored stored (add_entry n subject (subject_at n index) (added, index))

-- The loop over the index, with the count of the serials that were not read.
unfoldable pub drop_missing : SerialIndex → SerialIndex → ℕ × Mem → ℕ × Mem
unfolding is_indexed
drop_missing stored [] (removed, m) = (removed, m)
drop_missing stored ((n, subject) ∷ index) (removed, m) =
    drop_missing stored index
      (if is_indexed n stored then (removed, m) else (suc removed, drop_serial_locked n m))

abbrev pub added_to : Mem → ℕ × SerialIndex → ℕ × Mem
added_to m (added, index) = (
  added,
  record m {
    serial_index = index;
    serial_index_epoch = if ltb 0 added then suc m.serial_index_epoch else m.serial_index_epoch;
  },
)

abbrev pub add_half : Bool → SerialIndex → Mem → ℕ × Mem
add_half true stored m = (0, m)
add_half false stored m = added_to m (add_stored stored (0, m.serial_index))

abbrev pub drop_half : Bool → SerialIndex → ℕ × Mem → SerialIndexDelta × Mem
drop_half true stored (added, m) =
    (record { added = added; removed = 0; total = length m.serial_index }, m)
drop_half false stored (added, m) =
    let (removed, m') = drop_missing stored m.serial_index (0, m) in
    (record { added = added; removed = removed; total = length m'.serial_index }, m')

-- reconcileSerialIndexLocked: both counters are compared before the loops move them.
unfoldable pub reconcile_serial_index_locked : SerialIndex → ℕ → ℕ → Mem → SerialIndexDelta × Mem
unfolding add_stored drop_missing
reconcile_serial_index_locked stored read_epoch read_removal_epoch m =
    drop_half (not (m.serial_index_epoch == read_epoch)) stored
      (add_half (not (m.serial_index_removal_epoch == read_removal_epoch)) stored m)

abbrev pub count_index_failure : Mem → Mem
count_index_failure m = record m { serial_index_sync_failures = m.serial_index_sync_failures + 1 }

-- The read is applied; others act between the read and the lock.
abbrev pub apply_read : ℕ → ℕ → Result SerialIndex × World → Result SerialIndexDelta × World
apply_read epoch removal_epoch (err e, w) = (err e, record w { mem = count_index_failure w.mem })
apply_read epoch removal_epoch (ok stored, w) =
    let v = granted w in
    let (delta, m) = reconcile_serial_index_locked stored epoch removal_epoch v.mem in
    (ok delta, record v { mem = m })

-- SyncSerialIndex.
unfoldable pub sync_serial_index : Exec SerialIndexDelta
unfolding read_serial_index reconcile_serial_index_locked
sync_serial_index w =
    apply_read w.mem.serial_index_epoch w.mem.serial_index_removal_epoch (read_serial_index w)

-- ===== src/Examples/Sweeps.antt =====
-- Runs of the pending list and of the revocations.
use openvox_ca.Prelude.{
  ℕ, ◌≡◌, refl, false, some, List, [], ◌∷◌, ℤ, pos, codes, codes_eq, ◌==ℤ◌, ◌≢◌, ◌↔◌, lookup,
}
use openvox_ca.Serial.{normalise_serial, serial_hex_str, set_string}
use openvox_ca.Serial.Canonical.{StandsFor}
use openvox_ca.World.Types.{RevocationEntry, backend_fault}
use openvox_ca.World.Exec.{World, ok, err}
use openvox_ca.World.Locks.{granted, with_lock, with_crl_lock_counted}
use openvox_ca.World.Storage.{subject_for_serial}
use openvox_ca.Crl.Store.{read_stored_crl}
use openvox_ca.Crl.Sign.{sign_crl_locked, create_crl, publish_crl}
use openvox_ca.Crl.Outcome.{Untouched}
use openvox_ca.Revoke.Serial.{
  revoke_serial, revoke_serial_locked, revoke_serial_checked_locked, first_time, append_entry,
  mark_cert_revoked_index, live_guard, stored_cert_serial,
}
use openvox_ca.Revoke.Outcome.{SerialRevoked, revoke_serial_locked-ok, revoke_serial_locked-failed}
use openvox_ca.Revoke.Checked.{Checked, revoke_serial-Checked}
use openvox_ca.Supersede.Pending.{read_superseded, write_superseded}
use openvox_ca.Supersede.Drain.{
  drain_due_locked, append_crl_entries_locked, appends_any, append_new,
}
use openvox_ca.Supersede.Refuse.{refuse_if_superseded, refuse_if_revoked}
use openvox_ca.Supersede.Sweep.{sweep_locked, record_superseded, append_superseded}
use openvox_ca.Supersede.Gate.{Passes, refuse_if_revoked_iff, record-closes}
use openvox_ca.Supersede.Account.{Drained, drain-Drained}
use openvox_ca.Supersede.Safety.{SweepSafe, sweep_locked-SweepSafe}
use openvox_ca.Supersede.Sweep.{retire_superseded_for_subject_locked, retire_each, entries_of}
use openvox_ca.Supersede.Retire.{RetireSafe, retire_superseded_for_subject_locked-RetireSafe}
use openvox_ca.Revoke.Subject.{revoke_locked}
use openvox_ca.Revoke.BySubject.{SubjectRevoked, revoke_locked-SubjectRevoked}
use openvox_ca.World.Storage.{latest_serial_for_subject}
use openvox_ca.World.Storage.{prune_inventory}
use openvox_ca.Cleanup.{
  cleanup_locked, is_kept, drop_crl_entries_locked, unindex_each, removed_serials,
  unindex_serial_locked, drops_any,
}
use openvox_ca.Cleanup.Safety.{CleanupSafe, cleanup_locked-CleanupSafe}
use openvox_ca.Examples.Data.{
  config, config-IsReady, world, faulty_world, first_entry, later_entry, agent_cert,
}

sweep_locked-SweepSafe_example :
    SweepSafe config (first_entry ∷ later_entry ∷ []) world (sweep_locked config world).1
sweep_locked-SweepSafe_example = sweep_locked-SweepSafe config world config-IsReady

drain-Drained_example :
    Drained config
      (first_entry ∷ [])
      world
      (drain_due_locked config (first_entry ∷ []) world).0
      (drain_due_locked config (first_entry ∷ []) world).1
drain-Drained_example = drain-Drained config (first_entry ∷ []) world config-IsReady

abbrev after_append : List RevocationEntry
after_append =
    record { serial = pos 5; revocation_time = 20 }
    ∷ record { serial = pos 30; revocation_time = 100 }
    ∷ []

append_runs : (append_crl_entries_locked config (pos 30 ∷ []) world).0 ≡ ok after_append
unfolding append_crl_entries_locked read_stored_crl appends_any ◌==ℤ◌ append_new sign_crl_locked
    create_crl publish_crl
append_runs = refl

append_fails : (append_crl_entries_locked config (pos 30 ∷ []) faulty_world).0 ≡ err backend_fault
unfolding append_crl_entries_locked read_stored_crl
append_fails = refl

refuse_if_revoked_iff_example :
    ((refuse_if_revoked config agent_cert world).0 ≡ ok tt) ↔ Passes config agent_cert world
refuse_if_revoked_iff_example = refuse_if_revoked_iff config agent_cert world

abbrev recorded : World
recorded = (record_superseded "web01" (codes " 0x1f ") 60 world).1

record_runs : (record_superseded "web01" (codes " 0x1f ") 60 world).0 ≡ ok tt
unfolding record_superseded normalise_serial serial_hex_str with_lock append_superseded
    read_superseded write_superseded
record_runs = refl

record-closes_example :
    (n : ℕ) × StandsFor (codes " 0x1f ") (pos n)
    × ((refuse_if_superseded (pos n) recorded).0 ≢ ok tt)
record-closes_example = record-closes "web01" (codes " 0x1f ") 60 world recorded record_runs refl

revoke_locked_runs : (revoke_serial_locked config (codes "1E") world).0 ≡ ok tt
unfolding revoke_serial_locked read_stored_crl set_string first_time ◌==ℤ◌ append_entry
    mark_cert_revoked_index sign_crl_locked create_crl publish_crl
revoke_locked_runs = refl

revoke_serial_locked-ok_example :
    (n : ℤ) × (set_string (codes "1E") ≡ some n)
    × SerialRevoked config n world (revoke_serial_locked config (codes "1E") world).1
revoke_serial_locked-ok_example =
    revoke_serial_locked-ok config (codes "1E") world config-IsReady revoke_locked_runs

revoke_locked_fails : (revoke_serial_locked config (codes "1E") faulty_world).0 ≡ err backend_fault
unfolding revoke_serial_locked read_stored_crl set_string
revoke_locked_fails = refl

revoke_serial_locked-failed_example :
    Untouched backend_fault faulty_world (revoke_serial_locked config (codes "1E") faulty_world).1
revoke_serial_locked-failed_example =
    revoke_serial_locked-failed config (codes "1E") faulty_world revoke_locked_fails

revoke_runs : (revoke_serial config (codes "0x1e") false world).0 ≡ ok tt
unfolding revoke_serial normalise_serial with_crl_lock_counted revoke_serial_checked_locked
    subject_for_serial revoke_serial_locked read_stored_crl codes_eq live_guard stored_cert_serial
    lookup serial_hex_str first_time ◌==ℤ◌ append_entry mark_cert_revoked_index sign_crl_locked
    create_crl publish_crl
revoke_runs = refl

revoke_serial-Checked_example :
    Checked (codes "0x1e") false (granted world).store
    × ((n : ℤ) × StandsFor (codes "0x1e") n
        × SerialRevoked config n
            (granted world)
            (revoke_serial config (codes "0x1e") false world).1)
revoke_serial-Checked_example =
    revoke_serial-Checked config (codes "0x1e") false world config-IsReady revoke_runs

retire_superseded_for_subject_locked-RetireSafe_example :
    RetireSafe config "web01"
      (first_entry ∷ later_entry ∷ [])
      world.store
      (retire_superseded_for_subject_locked config "web01" world).store
retire_superseded_for_subject_locked-RetireSafe_example =
    retire_superseded_for_subject_locked-RetireSafe config "web01" world config-IsReady

revoke_subject_runs : (revoke_locked config "web01" world).0 ≡ ok tt
unfolding revoke_locked retire_superseded_for_subject_locked read_superseded write_superseded
    retire_each latest_serial_for_subject revoke_serial_locked read_stored_crl set_string first_time
    ◌==ℤ◌ append_entry mark_cert_revoked_index sign_crl_locked create_crl publish_crl entries_of
revoke_subject_runs = refl

revoke_locked-SubjectRevoked_example :
    SubjectRevoked config "web01" world.store (revoke_locked config "web01" world).1.store
revoke_locked-SubjectRevoked_example =
    revoke_locked-SubjectRevoked config "web01" world config-IsReady revoke_subject_runs

-- The first certificate has ended by now.
abbrev late_world : World
late_world = record world { now = 450 }

cleanup_locked-CleanupSafe_example :
    CleanupSafe config 10 late_world (cleanup_locked config 10 late_world).1.store
cleanup_locked-CleanupSafe_example = cleanup_locked-CleanupSafe config 10 late_world config-IsReady

-- The entry of the first certificate leaves the inventory.
cleanup_runs : (cleanup_locked config 10 late_world).0 ≡ (1, [])
unfolding cleanup_locked prune_inventory is_kept drop_crl_entries_locked read_stored_crl
    unindex_each removed_serials set_string unindex_serial_locked drops_any ◌==ℤ◌
cleanup_runs = refl

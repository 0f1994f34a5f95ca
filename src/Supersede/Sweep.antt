-- ===== src/Supersede/Sweep.antt =====
-- The operations that rewrite the pending list, all under the CRL lock: recordSuperseded,
-- supersedeReplacedAfter, ReconcileSuperseded and retireSupersededForSubjectLocked of
-- internal/ca/supersede.go.
use openvox_ca.Prelude.{
  ℕ, ◌+◌, Bool, true, false, not, ◌&&◌, ◌||◌, Option, none, some, List, [], ◌∷◌, ◌++◌, String,
  str_eq, ltb, leb, ◌==◌, if◌then◌else◌,
}
use openvox_ca.Serial.{SerialText, normalise_serial}
use openvox_ca.World.Types.{
  SupersededEntry, SupersededBlob, Config, Seconds, Error, malformed_serial, lock_fault,
}
use openvox_ca.World.Exec.{World, Exec, Result, ok, err, fails, ticked, ◌>>=◌}
use openvox_ca.World.Locks.{with_lock, granted}
use openvox_ca.Revoke.Serial.{revoke_serial_locked}
use openvox_ca.Supersede.Pending.{
  read_superseded, write_superseded, load_superseded, supersede_failed,
}
use openvox_ca.Supersede.Drain.{DrainOutcome, drain_due_locked}

-- An error of the call is counted once.
abbrev pub count_superseded {ℓ} : {A : Type ℓ} → Result A × World → Result A × World
count_superseded (ok a, w) = (ok a, w)
count_superseded (err e, w) = (err e, supersede_failed w)

unfoldable pub append_superseded : SupersededEntry → Exec (Unit {0})
unfolding read_superseded write_superseded
append_superseded e = do b ← read_superseded; write_superseded (b.recovered ++ e ∷ [])

abbrev pub record_canonical : String → Seconds → Option SerialText → Exec (Unit {0})
record_canonical subject after none w = (err malformed_serial, supersede_failed w)
record_canonical subject after (some serial) w = count_superseded (
    with_lock
      (append_superseded (record { serial = serial; subject = subject; revoke_at = w.now + after }))
      w)

-- recordSuperseded; the entry stores the canonical form of the serial.
unfoldable pub record_superseded : String → SerialText → Seconds → Exec (Unit {0})
unfolding with_lock
record_superseded subject serial after = record_canonical subject after (normalise_serial serial)

-- supersedeReplacedAfter.
unfoldable pub supersede_replaced_after : Config → String → SerialText → Seconds → Exec (Unit {0})
unfolding with_lock
supersede_replaced_after c subject old_serial after =
    if after == 0
    then with_lock (revoke_serial_locked c old_serial)
    else record_superseded subject old_serial after

unfoldable pub supersede_replaced : Config → String → SerialText → Exec (Unit {0})
unfolding supersede_replaced_after
supersede_replaced c subject old_serial =
    supersede_replaced_after c subject old_serial c.supersede_after

unfoldable pub due_entries : Seconds → List SupersededEntry → List SupersededEntry
due_entries now [] = []
due_entries now (e ∷ es) =
    let rest = due_entries now es in if ltb now e.revoke_at then rest else e ∷ rest

unfoldable pub pending_entries : Seconds → List SupersededEntry → List SupersededEntry
pending_entries now [] = []
pending_entries now (e ∷ es) =
    let rest = pending_entries now es in if ltb now e.revoke_at then e ∷ rest else rest

-- Oldest first; sort.Slice may place two entries of one time either way.
unfoldable pub insert_by_time : SupersededEntry → List SupersededEntry → List SupersededEntry
insert_by_time e [] = e ∷ []
insert_by_time e (f ∷ fs) =
    let rest = insert_by_time e fs in if leb e.revoke_at f.revoke_at then e ∷ f ∷ fs else f ∷ rest

unfoldable pub sort_by_time : List SupersededEntry → List SupersededEntry
unfolding insert_by_time
sort_by_time [] = []
sort_by_time (e ∷ es) = insert_by_time e (sort_by_time es)

-- The number revoked, and the error that a pass may report beside it.
abbrev pub Swept : Type 0
Swept = ℕ × Option Error

abbrev pub with_error : ℕ → Result (Unit {0}) × World → Swept × World
with_error n (ok _, w) = ((n, none), w)
with_error n (err e, w) = ((n, some e), w)

abbrev pub is_empty {ℓ} : {A : Type ℓ} → List A → Bool
is_empty [] = true
is_empty (_ ∷ _) = false

abbrev pub left_unrevoked : DrainOutcome → Bool
left_unrevoked o = not (is_empty o.failed) || not (is_empty o.deferred) || ltb 0 o.discarded

-- Counting what the pass left, and writing back all that is still owed a revocation.
abbrev pub write_back : List SupersededEntry → DrainOutcome × World → Swept × World
write_back pending (o, w) = with_error o.revoked (
    write_superseded (pending ++ (o.failed ++ o.deferred))
      (if left_unrevoked o then supersede_failed w else w))

unfoldable pub sweep_entries : Config → List SupersededEntry → Bool → World → Swept × World
sweep_entries c entries corrupt w =
    if is_empty entries
    then (if corrupt then with_error 0 (write_superseded [] w) else ((0, none), w))
    else if is_empty (due_entries w.now entries) && not corrupt
    then ((0, none), w)
    else write_back (pending_entries w.now entries)
        (drain_due_locked c (sort_by_time (due_entries w.now entries)) w)

abbrev pub sweep_read : Config → Result SupersededBlob × World → Swept × World
sweep_read c (err e, w) = ((0, some e), w)
sweep_read c (ok b, w) = sweep_entries c b.recovered b.corrupt w

-- What runs under the lock.
unfoldable pub sweep_locked : Config → World → Swept × World
sweep_locked c w = sweep_read c (read_superseded w)

abbrev pub count_swept : Swept × World → Swept × World
count_swept ((n, none), w) = ((n, none), w)
count_swept ((n, some e), w) = ((n, some e), supersede_failed w)

-- Only an empty list that parsed lets the pass end before it takes the lock.
abbrev pub nothing_pending : Result SupersededBlob → Bool
nothing_pending (err e) = false
nothing_pending (ok b) = is_empty b.recovered && not b.corrupt

abbrev pub sweep_with_lock : Config → World → Swept × World
sweep_with_lock c w =
    if fails w then ((0, some lock_fault), ticked w) else sweep_locked c (granted w)

unfoldable pub reconcile_superseded : Config → World → Swept × World
reconcile_superseded c w =
    if nothing_pending (load_superseded w).0
    then ((0, none), (load_superseded w).1)
    else count_swept (sweep_with_lock c (load_superseded w).1)

unfoldable pub entries_of : String → List SupersededEntry → List SupersededEntry
entries_of subject [] = []
entries_of subject (e ∷ es) =
    let rest = entries_of subject es in if str_eq e.subject subject then e ∷ rest else rest

unfoldable pub entries_not_of : String → List SupersededEntry → List SupersededEntry
entries_not_of subject [] = []
entries_not_of subject (e ∷ es) =
    let rest = entries_not_of subject es in if str_eq e.subject subject then rest else e ∷ rest

-- What the loop carries: the entries whose revocation failed, in order.
abbrev pub keep_failed :
    SupersededEntry → Result (Unit {0}) → List SupersededEntry → List SupersededEntry
keep_failed e (ok _) failed = failed
keep_failed e (err _) failed = failed ++ e ∷ []

unfoldable pub retire_each :
    Config → List SupersededEntry → List SupersededEntry → World → List SupersededEntry × World
retire_each c [] failed w = (failed, w)
retire_each c (e ∷ es) failed w =
    retire_each c es (keep_failed e (revoke_serial_locked c e.serial w).0 failed)
      (revoke_serial_locked c e.serial w).1

abbrev pub count_failed : List SupersededEntry → World → World
count_failed [] w = w
count_failed (_ ∷ _) w = supersede_failed w

abbrev pub retire_write : List SupersededEntry → List SupersededEntry × World → World
retire_write others (failed, w) =
    (count_superseded (write_superseded (others ++ failed) (count_failed failed w))).1

abbrev pub retire_read : Config → String → Result SupersededBlob × World → World
retire_read c subject (err e, w) = supersede_failed w
retire_read c subject (ok b, w) =
    if is_empty (entries_of subject b.recovered)
    then w
    else retire_write (entries_not_of subject b.recovered)
        (retire_each c (entries_of subject b.recovered) [] w)

-- Every failure is counted and swallowed; an entry leaves the list only once its serial is listed.
unfoldable pub retire_superseded_for_subject_locked : Config → String → World → World
retire_superseded_for_subject_locked c subject w = retire_read c subject (read_superseded w)

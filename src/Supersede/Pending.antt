-- ===== src/Supersede/Pending.antt =====
-- The pending-supersession list: loadSuperseded, parseSuperseded, readSuperseded, writeSuperseded and
-- PendingSupersessions of internal/ca/supersede.go.
use openvox_ca.Prelude.{ℕ, ◌+◌, false, List, [], if◌then◌else◌, length}
use openvox_ca.World.Types.{SupersededBlob, SupersededEntry, Mem, not_exist, backend_fault}
use openvox_ca.World.Exec.{World, Exec, Result, ok, err, ◌>>=◌}
use openvox_ca.World.Storage.{get_superseded, save_superseded}

abbrev pub empty_blob : SupersededBlob
empty_blob = record { recovered = []; corrupt = false }

-- An absent list is an empty one; any other failure is reported as one.
abbrev pub absent_empty : Result SupersededBlob → Result SupersededBlob
absent_empty (ok b) = ok b
absent_empty (err not_exist) = ok empty_blob
absent_empty (err e) = err backend_fault

unfoldable pub load_superseded : Exec SupersededBlob
unfolding get_superseded
load_superseded w = (absent_empty (get_superseded w).0, (get_superseded w).1)

abbrev pub count_supersede_failure : Mem → Mem
count_supersede_failure m = record m { supersede_failures = m.supersede_failures + 1 }

abbrev pub supersede_failed : World → World
supersede_failed w = record w { mem = count_supersede_failure w.mem }

abbrev pub count_corrupt : Result SupersededBlob × World → Result SupersededBlob × World
count_corrupt (err e, w) = (err e, w)
count_corrupt (ok b, w) = (ok b, if b.corrupt then supersede_failed w else w)

-- The entries recovered, and whether the bytes were unusable, which is counted.
unfoldable pub read_superseded : Exec SupersededBlob
unfolding load_superseded
read_superseded w = count_corrupt (load_superseded w)

unfoldable pub write_superseded : List SupersededEntry → Exec (Unit {0})
unfolding save_superseded
write_superseded entries = save_superseded (record { recovered = entries; corrupt = false })

unfoldable pub pending_supersessions : Exec ℕ
unfolding load_superseded
pending_supersessions = do b ← load_superseded; λ w. (ok (length b.recovered), w)

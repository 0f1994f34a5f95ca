-- ===== src/Supersede/Drain.antt =====
-- The batched revocation of due entries: appendCRLEntriesLocked and drainDueLocked of
-- internal/ca/supersede.go.
use openvox_ca.Prelude.{
  ℕ, suc, Bool, true, false, Option, none, some, List, [], ◌∷◌, ◌++◌, ℤ, ◌==ℤ◌, if◌then◌else◌,
  length,
}
use openvox_ca.Serial.{SerialText, set_string, normalise_serial}
use openvox_ca.World.Types.{SupersededEntry, RevocationEntry, Config, Seconds}
use openvox_ca.World.Exec.{World, Exec, Result, ok, err, pure, ◌>>=◌, ◌>>◌}
use openvox_ca.Crl.Lists.{listed}
use openvox_ca.Crl.Store.{read_stored_crl}
use openvox_ca.Crl.Sign.{sign_crl_locked}
use openvox_ca.Revoke.Serial.{mark_cert_revoked_index}

-- The loop over `add`: a serial that the list holds, or that the loop has appended, is passed over.
unfoldable pub append_new : Seconds → List RevocationEntry → List ℤ → List RevocationEntry
unfolding listed
append_new now entries [] = entries
append_new now entries (n ∷ ns) =
    append_new now
      (if listed n entries
        then entries
        else entries ++ record { serial = n; revocation_time = now } ∷ [])
      ns

-- Whether the loop appended anything.
unfoldable pub appends_any : List RevocationEntry → List ℤ → Bool
unfolding listed
appends_any entries [] = false
appends_any entries (n ∷ ns) = if listed n entries then appends_any entries ns else true

-- appendCRLEntriesLocked. What it returns holds each serial of `add` with the time recorded for it.
unfoldable pub append_crl_entries_locked : Config → List ℤ → Exec (List RevocationEntry)
append_crl_entries_locked c add = do
  stored ← read_stored_crl c
  λ w.
      let revoked = append_new w.now stored.own.entries add in
      if appends_any stored.own.entries add
      then (sign_crl_locked c (some stored) revoked >> pure revoked) w
      else (ok revoked, w)

-- The map built from the entries keeps the time of the last one with the serial.
unfoldable pub time_of : ℤ → Seconds → List RevocationEntry → Seconds
time_of n at [] = at
time_of n at (e ∷ es) = time_of n (if e.serial ==ℤ n then e.revocation_time else at) es

-- An entry that can be revoked, with its canonical serial and number.
pub record DueSerial : Type 0 where
  pub entry : SupersededEntry
  pub canon : SerialText
  pub number : ℤ

abbrev pub with_number : SupersededEntry → SerialText → Option ℤ → Option DueSerial
with_number e canon none = none
with_number e canon (some n) = some (record { entry = e; canon = canon; number = n })

abbrev pub with_canon : SupersededEntry → Option SerialText → Option DueSerial
with_canon e none = none
with_canon e (some canon) = with_number e canon (set_string canon)

-- `none` where the entry can never be revoked.
unfoldable pub due_serial : SupersededEntry → Option DueSerial
due_serial e = with_canon e (normalise_serial e.serial)

abbrev pub cons_some : Option DueSerial → List DueSerial → List DueSerial
cons_some none ds = ds
cons_some (some d) ds = d ∷ ds

unfoldable pub batch_of : List SupersededEntry → List DueSerial
unfolding due_serial
batch_of [] = []
batch_of (e ∷ es) = cons_some (due_serial e) (batch_of es)

abbrev pub add_none : Option DueSerial → ℕ → ℕ
add_none none n = suc n
add_none (some _) n = n

unfoldable pub discarded_of : List SupersededEntry → ℕ
unfolding due_serial
discarded_of [] = 0
discarded_of (e ∷ es) = add_none (due_serial e) (discarded_of es)

unfoldable pub numbers : List DueSerial → List ℤ
numbers [] = []
numbers (d ∷ ds) = d.number ∷ numbers ds

unfoldable pub batch_entries : List DueSerial → List SupersededEntry
batch_entries [] = []
batch_entries (d ∷ ds) = d.entry ∷ batch_entries ds

pub record DrainOutcome : Type 0 where
  pub revoked : ℕ
  pub failed : List SupersededEntry
  pub deferred : List SupersededEntry
  pub discarded : ℕ

-- The projection into the certificate index, one serial after the other.
unfoldable pub mark_batch : List RevocationEntry → List DueSerial → World → World
mark_batch times [] w = w
mark_batch times (d ∷ ds) w =
    mark_batch times ds (mark_cert_revoked_index d.canon (time_of d.number w.now times) w).1

abbrev pub batch_outcome :
    List DueSerial → ℕ → Result (List RevocationEntry) × World → DrainOutcome × World
batch_outcome batch discarded (err e, w) =
    (record { revoked = 0; failed = batch_entries batch; deferred = []; discarded = discarded }, w)
batch_outcome batch discarded (ok times, w) = (
  record { revoked = length batch; failed = []; deferred = []; discarded = discarded },
  mark_batch times batch w,
)

-- A batch of nothing reads and signs nothing.
abbrev pub drain_batch : Config → ℕ → List DueSerial → World → DrainOutcome × World
drain_batch c discarded [] w =
    (record { revoked = 0; failed = []; deferred = []; discarded = discarded }, w)
drain_batch c discarded (d ∷ ds) w =
    batch_outcome (d ∷ ds) discarded (append_crl_entries_locked c (numbers (d ∷ ds)) w)

unfoldable pub drain_due_locked : Config → List SupersededEntry → World → DrainOutcome × World
drain_due_locked c due w = drain_batch c (discarded_of due) (batch_of due) w

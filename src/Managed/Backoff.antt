-- ===== src/Managed/Backoff.antt =====
-- The wait after a store refused a write: managedSaveBackoff, skipForSaveBackoff and
-- recordSaveOutcome of internal/ca/managedcert.go. Durations are nanoseconds here, in the 64 bits of
-- time.Duration.
use openvox_ca.Prelude.{
  ℕ, suc, ◌-◌, ◌*◌, ◌%◌, ◌^◌, Bool, true, false, ◌||◌, Option, none, some, String, leb, ltb, ◌==◌,
  if◌then◌else◌, lookup, insert, delete,
}
use openvox_ca.World.Types.{Mem, SaveFailure, Seconds}
use openvox_ca.World.Exec.{Exec, modify_mem}

abbrev pub second : ℕ
second = 1000000000

-- managedSaveBackoffBase and managedSaveBackoffCap.
abbrev pub save_backoff_base : ℕ
save_backoff_base = 15 * 60 * second

abbrev pub save_backoff_cap : ℕ
save_backoff_cap = 24 * 3600 * second

-- `base << shift` in int64: the bits kept, as an unsigned number.
unfoldable pub shifted_base : ℕ → ℕ
shifted_base shift = save_backoff_base * 2 ^ shift % 2 ^ 64

-- `wait > cap || wait <= 0`, where the bits from 2^63 on are negative.
abbrev pub is_out_of_range : ℕ → Bool
is_out_of_range wait = (wait == 0 || leb (2 ^ 63) wait) || ltb save_backoff_cap wait

-- The wait that skipForSaveBackoff computes for a count of two or more.
unfoldable pub save_backoff_wait : ℕ → ℕ
unfolding shifted_base
save_backoff_wait count =
    if is_out_of_range (shifted_base (count - 2))
    then save_backoff_cap
    else shifted_base (count - 2)

-- What is left of the wait, or zero. The clock of a pass is not before the last failure it read.
abbrev pub remaining_wait : SaveFailure → Seconds → ℕ
remaining_wait f now = save_backoff_wait f.count - (now - f.last) * second

-- skipForSaveBackoff: `some` of the time left where the pass is withheld.
unfoldable pub skip_for_failure : Option SaveFailure → Seconds → Option ℕ
unfolding save_backoff_wait
skip_for_failure none now = none
skip_for_failure (some f) now =
    if leb f.count 1
    then none
    else if ltb 0 (remaining_wait f now)
    then some (remaining_wait f now)
    else none

unfoldable pub skip_for_save_backoff : Mem → String → Seconds → Option ℕ
unfolding skip_for_failure
skip_for_save_backoff m subject now = skip_for_failure (lookup subject m.save_failures) now

abbrev pub count_of : Option SaveFailure → ℕ
count_of none = 0
count_of (some f) = f.count

-- recordSaveOutcome.
unfoldable pub record_save_outcome : String → Seconds → Bool → Exec (Unit {0})
record_save_outcome subject now false =
    modify_mem λ m. record m { save_failures = delete subject m.save_failures }
record_save_outcome subject now true = modify_mem λ m. record m {
  save_failures =
      insert subject
        (record { count = suc (count_of (lookup subject m.save_failures)); last = now })
        m.save_failures;
}

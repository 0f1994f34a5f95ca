-- ===== src/Revoke/Entries.antt =====
-- Which serials a list holds after entries are appended to it.
use openvox_ca.Prelude.{
  ◌≡◌, refl, Bool, true, false, ◌||◌, none, some, List, [], ◌∷◌, ◌++◌, arith, Bool-cases, inl, inr,
  ℤ, ◌==ℤ◌, ==ℤ_iff,
}
use openvox_ca.World.Types.{RevocationEntry, Seconds}
use openvox_ca.Crl.Lists.{listed}
use openvox_ca.Revoke.Serial.{first_time}
use openvox_ca.Supersede.Drain.{append_new, appends_any}

-- Whether a serial is among those given.
abbrev pub among : ℤ → List ℤ → Bool
among n [] = false
among n (m ∷ ms) = (m ==ℤ n) || among n ms

pub listed-append :
    (n : ℤ) (es : List RevocationEntry) (e : RevocationEntry)
    → listed n (es ++ e ∷ []) ≡ (listed n es || (e.serial ==ℤ n))
unfolding listed
listed-append n [] e = ground arith
listed-append n (f ∷ es) e = ground (arith, listed-append n es e)

pub first_time-listed :
    (n : ℤ) (es : List RevocationEntry) (at : Seconds)
    → first_time n es ≡ some at
    → listed n es ≡ true
unfolding listed first_time
first_time-listed n [] at h = cc
first_time-listed n (e ∷ es) at h = ground (arith, first_time-listed n es at)

pub first_time-none :
    (n : ℤ) (es : List RevocationEntry) → first_time n es ≡ none → listed n es ≡ false
unfolding listed first_time
first_time-none n [] h = refl
first_time-none n (e ∷ es) h = ground (arith, first_time-none n es)

-- A list that holds a serial gains nothing by it.
pub listed-or :
    (n m : ℤ) (es : List RevocationEntry)
    → listed n es ≡ true
    → listed m es ≡ (listed m es || (n ==ℤ m))
listed-or n m es h = ground (arith, ==ℤ_iff n m)

-- append_new adds the serials given and no others.
pub listed-append_new :
    (m : ℤ) (now : Seconds) (es : List RevocationEntry) (ns : List ℤ)
    → listed m (append_new now es ns) ≡ (listed m es || among m ns)
unfolding append_new
listed-append_new m now es [] = ground arith
listed-append_new m now es (n ∷ ns) = elim (Bool-cases (listed n es)) [
  | inl old ↦ rw old (ground (arith, listed-append_new m now es ns, listed-or n m es old))
  | inr new ↦ rw new (
      ground (
        arith,
        listed-append_new m now (es ++ record { serial = n; revocation_time = now } ∷ []) ns,
        listed-append m es (record { serial = n; revocation_time = now }),
      ))
]

-- Where the loop appends nothing, every serial given is there.
pub appends_any-among :
    (m : ℤ) (es : List RevocationEntry) (ns : List ℤ)
    → appends_any es ns ≡ false
    → listed m es ≡ (listed m es || among m ns)
unfolding appends_any
appends_any-among m es [] h = ground arith
appends_any-among m es (n ∷ ns) h = ground (arith, appends_any-among m es ns, listed-or n m es)

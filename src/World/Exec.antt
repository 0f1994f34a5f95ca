-- ===== src/World/Exec.antt =====
-- The methods of the CA as functions on a world: state with errors, where what was written before an
-- error stays written. The world also holds what the code does not decide: which storage calls and
-- lock acquisitions fail, what other goroutines and replicas do while a lock is waited for, the
-- random source and the clock. All of these are arbitrary functions of the count of calls made.
use openvox_ca.Prelude.{ℕ, suc, Bool, if◌then◌else◌}
use openvox_ca.World.Types.{Store, Mem, Error, Seconds}

pub data Result {ℓ} (A : Type ℓ) : Type ℓ where
  ok : A → Result A
  err : Error → Result A

pub record World : Type 0 where
  pub store : Store
  pub mem : Mem
  pub now : Seconds
  -- how many calls have asked the oracles below
  pub tick : ℕ
  pub faults : ℕ → Bool
  pub others : ℕ → Store → Mem → Store × Mem
  pub random : ℕ → ℕ

abbrev pub Exec {ℓ} : Type ℓ → Type ℓ
Exec A = World → Result A × World

abbrev pub pure {ℓ} : {A : Type ℓ} → A → Exec A
pure a w = (ok a, w)

abbrev pub raise {ℓ} : {A : Type ℓ} → Error → Exec A
raise e w = (err e, w)

abbrev pub continue {ℓ κ} :
    {A : Type ℓ} {B : Type κ} → Result A → (A → World → Result B × World) → World → Result B × World
continue (ok a) f w = f a w
continue (err e) f w = (err e, w)

infixl 10 ◌>>=◌ ◌>>◌
abbrev pub ◌>>=◌ : {A B : Type 0} → Exec A → (A → Exec B) → Exec B
◌>>=◌ m f w = continue (m w).0 f (m w).1

abbrev pub ◌>>◌ : {A B : Type 0} → Exec A → Exec B → Exec B
m >> n = m >>= λ _. n

-- Counters and the memory.
abbrev pub modify_mem : (Mem → Mem) → Exec (Unit {0})
modify_mem f w = (ok tt, record w { mem = f w.mem })

-- `if err := m; err != nil { log }`: the error is dropped, the state kept.
abbrev pub best_effort : Exec (Unit {0}) → Exec (Unit {0})
best_effort m w = (ok tt, (m w).1)

-- Whether the call made now fails.
abbrev pub fails : World → Bool
fails w = w.faults w.tick

abbrev pub ticked : World → World
ticked w = record w { tick = suc w.tick }

-- A call that may fail before it does anything.
unfoldable pub attempt : Error → Exec (Unit {0})
attempt e w = if fails w then (err e, ticked w) else (ok tt, ticked w)

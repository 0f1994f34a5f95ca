-- ===== src/Crl/Read.antt =====
-- Reading the stored chain: what a read returns is what the store holds, and it changes nothing.
use openvox_ca.Prelude.{◌≡◌, some, arith}
use openvox_ca.World.Types.{Config, Error}
use openvox_ca.World.Exec.{World, ok, err}
use openvox_ca.World.Storage.{get_crl}
use openvox_ca.Crl.Store.{StoredCrl, read_stored_crl}
use openvox_ca.Crl.Chain.{stored_crl}
use openvox_ca.Crl.Outcome.{Untouched}

-- A world with the store, the memory and the clock of another.
pub record SameState (w w' : World) : Type 0 where
  pub store : w'.store ≡ w.store
  pub mem : w'.mem ≡ w.mem
  pub now : w'.now ≡ w.now

pub read-ok :
    (c : Config) (w : World) {st : StoredCrl}
    → (read_stored_crl c w).0 ≡ ok st
    → (stored_crl c w.store ≡ some st) × SameState w (read_stored_crl c w).1
unfolding read_stored_crl stored_crl get_crl
read-ok c w h = (ground arith, ground arith)

pub read-failed :
    (c : Config) (w : World) {e : Error}
    → (read_stored_crl c w).0 ≡ err e
    → Untouched e w (read_stored_crl c w).1
unfolding read_stored_crl get_crl
read-failed c w h = ground arith

-- ===== src/Crl/Growth.antt =====
-- The number of the stored list over any sequence of the operations that write it.
use openvox_ca.Prelude.{ℕ, ◌+◌, ◌≤◌, ◌≡◌, refl, ◌∙◌, ◌⊎◌, inl, inr, List, arith, ℤ}
use openvox_ca.Serial.{SerialText}
use openvox_ca.World.Types.{Config, Seconds}
use openvox_ca.World.Exec.{World}
use openvox_ca.Crl.Sign.{reissue_crl_locked, refresh_crl_locked}
use openvox_ca.Crl.Chain.{IsReady}
use openvox_ca.Revoke.Serial.{revoke_serial_locked}
use openvox_ca.Supersede.Drain.{append_crl_entries_locked}
use openvox_ca.Cleanup.{drop_crl_entries_locked}
use openvox_ca.Crl.Grown.{
  HasNumber, Grown, HasNumber-moved, reissue-Grown, refresh-Grown, drop-Grown, append-Grown,
  revoke-Grown,
}

-- One operation that writes the list, or anything that leaves the chain alone. Startup, which makes the
-- first list, and an import, which puts another chain in its place, are not steps.
pub data Step (c : Config) : World → World → Type 0 where
  revoked : (serial : SerialText) (w : World) → Step c w (revoke_serial_locked c serial w).1
  appended : (add : List ℤ) (w : World) → Step c w (append_crl_entries_locked c add w).1
  dropped : (removed : List ℤ) (w : World) → Step c w (drop_crl_entries_locked c removed w).1
  refreshed : (before : Seconds) (w : World) → Step c w (refresh_crl_locked c before w).1
  reissued : (w : World) → Step c w (reissue_crl_locked c w).1
  elsewhere : (w v : World) → v.store.crl ≡ w.store.crl → Step c w v

-- A sequence of steps.
pub data Reach (c : Config) (w : World) : World → Type 0 where
  here : Reach c w w
  next : {u v : World} → Reach c w u → Step c u v → Reach c w v

Step-Grown :
    (c : Config) (n : ℕ) {w v : World} → IsReady c → HasNumber c n w → Step c w v → Grown c n w v
Step-Grown c n ready has (revoked serial w) = revoke-Grown c n serial w ready has
Step-Grown c n ready has (appended add w) = append-Grown c n add w ready has
Step-Grown c n ready has (dropped removed w) = drop-Grown c n removed w ready has
Step-Grown c n ready has (refreshed before w) = refresh-Grown c n before w ready has
Step-Grown c n ready has (reissued w) = reissue-Grown c n w ready has
Step-Grown c n ready has (elsewhere w v same) = inl same

-- A later world has a list of ours with a number that is no smaller, and the number is greater wherever
-- the chain is another one.
pub record HasGrown (c : Config) (n : ℕ) (w v : World) : Type 0 where
  pub number : ℕ
  pub has : HasNumber c number v
  pub grows : n ≤ number
  pub moves : (v.store.crl ≡ w.store.crl) ⊎ (n + 1 ≤ number)

-- Between startup and an import, the number of the stored list never falls over any sequence of
-- revocations, drains, cleanups, refreshes and reissues, whether they fail or not, and of anything
-- that leaves the chain alone; and where the chain is not the one that it was, the number is greater.
pub Reach-HasGrown :
    (c : Config) (n : ℕ) {w v : World}
    → IsReady c
    → HasNumber c n w
    → Reach c w v
    → HasGrown c n w v
Reach-HasGrown c n ready has here = record {
  number = n;
  has = has;
  grows = omega arith;
  moves = inl refl;
}
Reach-HasGrown c n {w} ready has (next {u} {v} path step) =
    let before = Reach-HasGrown c n ready has path in
    elim (Step-Grown c before.number ready before.has step) [
      | inl same ↦ record {
        number = before.number;
        has = HasNumber-moved c before.number u v same before.has;
        grows = before.grows;
        moves = elim before.moves [ inl kept ↦ inl (same ∙ kept) | inr more ↦ inr more ];
      }
      | inr grown ↦ record {
        number = before.number + 1;
        has = grown;
        grows = omega (arith, before.grows);
        moves = inr (omega (arith, before.grows));
      }
    ]

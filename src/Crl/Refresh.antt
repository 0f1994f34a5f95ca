-- ===== src/Crl/Refresh.antt =====
-- When signing succeeds, and what a refresh decides (RefreshCRLIfDue of internal/ca/crl.go).
use openvox_ca.Prelude.{
  ℕ, suc, ◌+◌, ◌≤◌, ◌<◌, ◌≡◌, refl, ◌∙◌, Bool, true, false, some, List, arith, Bool-cases, inl, inr,
  ◌⊎◌, ◌≢◌, ltb, if◌then◌else◌,
}
use openvox_ca.World.Types.{
  Crl, CrlBlob, Config, Seconds, RevocationEntry, Error, Upstream, upstream_fault, not_configured,
  unstated, stated,
}
use openvox_ca.World.Exec.{World, Result, ok, err, fails, ticked, attempt, continue, pure, ◌>>◌}
use openvox_ca.World.Steps.{bind-ok}
use openvox_ca.World.Storage.{update_crl}
use openvox_ca.Crl.Lists.{decode_crl_chain}
use openvox_ca.Crl.Store.{StoredCrl, read_stored_crl, counted, install_cached_crl_locked}
use openvox_ca.Crl.Sign.{
  sign_crl_locked, create_crl, publish_crl, crl_chain_locked, chain_of, refresh_crl_locked, adopt,
}
use openvox_ca.Crl.Chain.{IsReady, stored_crl}
use openvox_ca.Crl.Outcome.{Signed, sign-ok}
use openvox_ca.Crl.Read.{SameState, read-ok}

chain-total :
    (c : Config) (u : Upstream) (crl : Crl) (blob : CrlBlob) {crls : List Crl}
    → ((e : Error) → u ≢ upstream_fault e)
    → decode_crl_chain blob ≡ ok crls
    → (b : CrlBlob) × (chain_of c u crl blob ≡ ok b)
chain-total c (upstream_fault e) crl blob h k = absurd (h e refl)
chain-total c not_configured crl blob h k = rw k (_, refl)
chain-total c unstated crl blob h k = rw k (_, refl)
chain-total c (stated crls) crl blob h k = rw k (_, refl)

publish-total :
    (c : Config) (prev : StoredCrl) (crl : Crl) (w : World) {b : CrlBlob}
    → fails w ≡ false
    → crl_chain_locked c crl prev.blob ≡ ok b
    → (publish_crl c prev crl w).0 ≡ ok tt
unfolding publish_crl counted update_crl install_cached_crl_locked
publish-total c prev crl w fine h = rw (h, fine) refl

create-total :
    (c : Config) (prev : StoredCrl) (revoked : List RevocationEntry) (w : World)
    → IsReady c
    → ((t : ℕ) → w.faults t ≡ false)
    → (crl : Crl) × ((create_crl c prev revoked w).0 ≡ ok crl)
      × (fails (create_crl c prev revoked w).1 ≡ false)
unfolding create_crl attempt
create-total c prev revoked w ready fine =
    rw (fine w.tick, ready.has_key, fine (suc (suc w.tick)))
      (_, refl, fine (suc (suc (suc w.tick))))

-- What follows the making of the list.
published-total :
    (c : Config) (prev : StoredCrl) (r : Result Crl) (w : World) {crl : Crl} {crls : List Crl}
    → r ≡ ok crl
    → fails w ≡ false
    → ((e : Error) → c.upstream ≢ upstream_fault e)
    → decode_crl_chain prev.blob ≡ ok crls
    → (continue (counted (λ v. (r, v)) w).0 (publish_crl c prev) (counted (λ v. (r, v)) w).1).0
      ≡ ok tt
unfolding counted crl_chain_locked
published-total c prev (ok crl) w h fine file decodes =
    let (b, made) = chain-total c c.upstream crl prev.blob file decodes in
    publish-total c prev crl w fine made
published-total c prev (err e) w h fine file decodes = cc

-- Nothing else than a failing call, the chain file, or a stored chain that does not decode keeps a CA
-- that has its certificate and key from signing: where no call fails, the chain file is not at fault
-- and the stored chain decodes, the list is signed.
pub sign-total :
    (c : Config) (prev : StoredCrl) (revoked : List RevocationEntry) (w : World) {crls : List Crl}
    → IsReady c
    → ((t : ℕ) → w.faults t ≡ false)
    → ((e : Error) → c.upstream ≢ upstream_fault e)
    → decode_crl_chain prev.blob ≡ ok crls
    → (sign_crl_locked c (some prev) revoked w).0 ≡ ok tt
unfolding sign_crl_locked counted attempt
sign-total c prev revoked w ready fine file decodes =
    let v = ticked w in
    let (crl, made, next) = create-total c prev revoked v ready fine in
    rw (fine w.tick) (
      published-total c prev (create_crl c prev revoked v).0 (create_crl c prev revoked v).1 made
        next file decodes)

-- What a refresh decided: it signed a list that was about to expire, or left one that was not.
pub record Refreshed (c : Config) (refresh_before : Seconds) (b : Bool) (w w' : World)
    : Type 0 where
  pub prev : StoredCrl
  pub read : stored_crl c w.store ≡ some prev
  pub outcome :
      ((b ≡ true)
        × (prev.own.next_update ≤ w.now + refresh_before)
        × ((v : World) × SameState w v × Signed c prev prev.own.entries v w'))
      ⊎ ((b ≡ false) × (w.now + refresh_before < prev.own.next_update) × (w'.store ≡ w.store))

adopt-keeps :
    (stored : StoredCrl) (w : World)
    → ((adopt stored w).0 ≡ ok false) × ((adopt stored w).1.store ≡ w.store)
unfolding install_cached_crl_locked
adopt-keeps stored w = (ground arith, ground arith)

-- What follows the read.
abbrev decide : Config → Seconds → StoredCrl → World → Result Bool × World
decide c refresh_before stored w =
    if ltb (w.now + refresh_before) stored.own.next_update
    then adopt stored w
    else (sign_crl_locked c (some stored) stored.own.entries >> pure true) w

signed-Refreshed :
    (c : Config) (before : Seconds) (st : StoredCrl) (w v : World) {b : Bool}
    → IsReady c
    → stored_crl c w.store ≡ some st
    → SameState w v
    → st.own.next_update ≤ w.now + before
    → ((sign_crl_locked c (some st) st.own.entries >> pure true) v).0 ≡ ok b
    → Refreshed c before b w ((sign_crl_locked c (some st) st.own.entries >> pure true) v).1
signed-Refreshed c before st w v ready read same due h =
    let r = sign_crl_locked c (some st) st.own.entries v in
    let (u, signed, to_end, last) = bind-ok r.0 (λ _. pure true) r.1 h in
    record {
      prev = st;
      read = read;
      outcome = inl (
        ground (arith, last),
        due,
        (v, same, rw to_end (sign-ok c st st.own.entries v ready signed)),
      );
    }

decide-Refreshed :
    (c : Config) (before : Seconds) (st : StoredCrl) (w v : World) {b : Bool}
    → IsReady c
    → stored_crl c w.store ≡ some st
    → SameState w v
    → (decide c before st v).0 ≡ ok b
    → Refreshed c before b w (decide c before st v).1
decide-Refreshed c before st w v ready read same =
    elim (Bool-cases (ltb (v.now + before) st.own.next_update)) [
      | inl early ↦ rw early (λ h. record {
        prev = st;
        read = read;
        outcome = inr (
          ground (arith, h, (adopt-keeps st v).0),
          ground (arith, early, same.now),
          (adopt-keeps st v).1 ∙ same.store,
        );
      })
      | inr due ↦
          rw due (signed-Refreshed c before st w v ready read same (ground (arith, due, same.now)))
    ]

-- A refresh under the lock that returns no error, by a CA that has its certificate and key, has read
-- the stored list; it reports that it signed exactly where that list was to expire within the time
-- given, and then the new list has the same entries; else it left the store as it was.
pub refresh_crl_locked-Refreshed :
    (c : Config) (refresh_before : Seconds) (w : World) {b : Bool}
    → IsReady c
    → (refresh_crl_locked c refresh_before w).0 ≡ ok b
    → Refreshed c refresh_before b w (refresh_crl_locked c refresh_before w).1
unfolding refresh_crl_locked
refresh_crl_locked-Refreshed c refresh_before w ready h =
    let r = read_stored_crl c w in
    let (st, found, to_rest, h1) = bind-ok r.0 (decide c refresh_before) r.1 h in
    let (read, same) = read-ok c w found in
    rw to_rest (decide-Refreshed c refresh_before st w r.1 ready read same h1)

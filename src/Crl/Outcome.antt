-- ===== src/Crl/Outcome.antt =====
-- What a signing leaves behind, on success and on failure.
use openvox_ca.Prelude.{
  ℕ, ◌+◌, ◌<◌, ◌≡◌, ◌≢◌, refl, ap, sym, ◌∙◌, true, false, none, some, List, ◌∷◌, map, arith,
  Bool-cases, inl, inr, ◌⊎◌,
}
use openvox_ca.World.Types.{
  Crl, CrlBlob, Config, Upstream, stated, unstated, not_configured, upstream_fault, Store,
  crl_block, RevocationEntry, Error, signing_slot_fault, chain_file_error,
}
use openvox_ca.World.Exec.{World, Result, ok, err, ◌>>=◌, fails, ticked}
use openvox_ca.World.Locks.{count_crl_failure}
use openvox_ca.Crl.Lists.{crl_signed_by, decode_crl_chain, encode_crl_chain, foreign_crls}
use openvox_ca.Crl.Store.{StoredCrl, counted}
use openvox_ca.Crl.Sign.{
  crl_chain_locked, chain_of, carry_over, create_crl, publish_crl, sign_crl_locked, crl_validity,
}
use openvox_ca.Crl.Follow.{Follow, state_over-ok, list-Follow, encode_crl_chain-map, fault-stops}
use openvox_ca.Crl.Chain.{IsReady, stored_crl, stored_of_written}

carry_shape :
    (c : Config) (crl : Crl) (r : Result (List Crl)) {blob : CrlBlob}
    → carry_over c crl r ≡ ok blob
    → (crls : List Crl) × (encode_crl_chain (crl ∷ foreign_crls c.ca_cert crls) ≡ blob)
carry_shape c crl (ok crls) h = (crls, cc)
carry_shape c crl (err e) h = cc

-- The chain that is written is our list in front of lists that others signed.
chain_shape :
    (c : Config) (u : Upstream) (crl : Crl) (b : CrlBlob) {blob : CrlBlob}
    → ((crls : List Crl) → u ≡ stated crls → foreign_crls c.ca_cert crls ≡ crls)
    → chain_of c u crl b ≡ ok blob
    → (crls : List Crl) × (encode_crl_chain (crl ∷ foreign_crls c.ca_cert crls) ≡ blob)
chain_shape c (upstream_fault e) crl b f h = cc
chain_shape c (stated crls) crl b f h =
    (crls, rw (f crls refl) (sym (state_over-ok crl crls (decode_crl_chain b) h)))
chain_shape c unstated crl b f h = carry_shape c crl (decode_crl_chain b) h
chain_shape c not_configured crl b f h = carry_shape c crl (decode_crl_chain b) h

crl_chain_shape :
    (c : Config) (crl : Crl) (b : CrlBlob) {blob : CrlBlob}
    → IsReady c
    → crl_chain_locked c crl b ≡ ok blob
    → (crls : List Crl) × (encode_crl_chain (crl ∷ foreign_crls c.ca_cert crls) ≡ blob)
unfolding crl_chain_locked
crl_chain_shape c crl b ready h = chain_shape c c.upstream crl b ready.upstream_foreign h

-- What a failed signing keeps; every failure is counted but a fault of the chain file.
pub record Untouched (e : Error) (w w' : World) : Type 0 where
  pub store : w'.store ≡ w.store
  pub cached : w'.mem.cached_crl ≡ w.mem.cached_crl
  pub now : w'.now ≡ w.now
  pub counted : (w.mem.crl_update_failures < w'.mem.crl_update_failures) ⊎ (e ≡ chain_file_error)

-- What a successful one leaves: the store with the new chain, from which the next read takes the
-- list that was signed, and that list in the memory.
pub record Published (c : Config) (from : CrlBlob) (crl : Crl) (w w' : World) : Type 0 where
  pub behind : List Crl
  pub no_fault : (e : Error) → c.upstream ≢ upstream_fault e
  pub follow : Follow c from behind
  pub store : w'.store ≡ record w.store { crl = some (map crl_block (crl ∷ behind)) }
  pub cached : w'.mem.cached_crl ≡ some crl
  pub next_read :
      stored_crl c w'.store ≡ some (record { own = crl; blob = map crl_block (crl ∷ behind) })

publish-failed :
    (c : Config) (prev : StoredCrl) (crl : Crl) (w : World) {e : Error}
    → (publish_crl c prev crl w).0 ≡ err e
    → Untouched e w (publish_crl c prev crl w).1
unfolding publish_crl
publish-failed c prev crl w h = ground arith

publish_needs_chain :
    (c : Config) (prev : StoredCrl) (crl : Crl) (w : World) {x : Error}
    → crl_chain_locked c crl prev.blob ≡ err x
    → (publish_crl c prev crl w).0 ≡ ok tt
    → ⊥
unfolding publish_crl
publish_needs_chain c prev crl w e h = ground arith

-- The chain that publish_crl wrote, where it succeeded.
publish_store :
    (c : Config) (prev : StoredCrl) (crl : Crl) (w : World)
    → (publish_crl c prev crl w).0 ≡ ok tt
    → (blob : CrlBlob) × (crl_chain_locked c crl prev.blob ≡ ok blob)
      × ((publish_crl c prev crl w).1.store ≡ record w.store { crl = some blob })
      × ((publish_crl c prev crl w).1.mem.cached_crl ≡ some crl)
publish_store c prev crl w h = go (crl_chain_locked c crl prev.blob) refl
  where
    go :
        (r : Result CrlBlob)
        → crl_chain_locked c crl prev.blob ≡ r
        → (blob : CrlBlob) × (crl_chain_locked c crl prev.blob ≡ ok blob)
          × ((publish_crl c prev crl w).1.store ≡ record w.store { crl = some blob })
          × ((publish_crl c prev crl w).1.mem.cached_crl ≡ some crl)
    go (ok blob) e =
        (blob, e, unfold publish_crl in ground arith, unfold publish_crl in ground arith)
    go (err x) e = absurd (publish_needs_chain c prev crl w e h)

publish-Published :
    (c : Config) (prev : StoredCrl) (crl : Crl) (w : World)
    → IsReady c
    → crl_signed_by c.ca_cert crl ≡ true
    → (publish_crl c prev crl w).0 ≡ ok tt
    → Published c prev.blob crl w (publish_crl c prev crl w).1
publish-Published c prev crl w ready mine h =
    let (blob, made, store, cached) = publish_store c prev crl w h in
    let (crls, shape) = crl_chain_shape c crl prev.blob ready made in
    let (behind, is, follow) = list-Follow c crl prev.blob ready made in
    let mapped : map crl_block (crl ∷ behind) ≡ blob =
      sym (is ∙ encode_crl_chain-map (crl ∷ behind)) in
    record {
      behind = behind;
      no_fault = λ e bad. fault-stops c crl prev.blob e bad made;
      follow = follow;
      store = rw mapped store;
      cached = cached;
      next_read =
          unfold stored_crl in
          rw (mapped, store) (rw (← shape) (stored_of_written c.ca_cert crl crls mine));
    }

-- The list that a successful create_crl made.
pub record MadeFrom (c : Config) (prev : StoredCrl) (revoked : List RevocationEntry) (now : ℕ)
    (crl : Crl) : Type 0 where
  pub entries : crl.entries ≡ revoked
  pub number : (n : ℕ) → prev.own.number ≡ some n → crl.number ≡ some (n + 1)
  pub first : prev.own.number ≡ none → crl.number ≡ some 1
  pub this_update : crl.this_update ≡ now
  pub next_update : crl.next_update ≡ now + crl_validity c
  pub key : c.ca_key ≡ some crl.signer

create-ok :
    (c : Config) (prev : StoredCrl) (revoked : List RevocationEntry) (w : World) {crl : Crl}
    → (create_crl c prev revoked w).0 ≡ ok crl
    → MadeFrom c prev revoked w.now crl
unfolding create_crl
create-ok c prev revoked w h = ground arith

create-keeps :
    (c : Config) (prev : StoredCrl) (revoked : List RevocationEntry) (w : World)
    → ((create_crl c prev revoked w).1.store ≡ w.store)
      × ((create_crl c prev revoked w).1.mem ≡ w.mem)
      × ((create_crl c prev revoked w).1.now ≡ w.now)
unfolding create_crl
create-keeps c prev revoked w = ground arith

-- What follows the creation of the list.
abbrev finish : Config → StoredCrl → Result Crl → World → Result (Unit {0}) × World
finish c prev r w = (counted (λ v. (r, v)) >>= publish_crl c prev) w

sign_step :
    (c : Config) (prev : StoredCrl) (revoked : List RevocationEntry) (w : World)
    → fails w ≡ false
    → sign_crl_locked c (some prev) revoked w
      ≡ finish c prev
          (create_crl c prev revoked (ticked w)).0
          (create_crl c prev revoked (ticked w)).1
unfolding sign_crl_locked
sign_step c prev revoked w h = rw h

sign_slot_fault :
    (c : Config) (prev : StoredCrl) (revoked : List RevocationEntry) (w : World)
    → fails w ≡ true
    → sign_crl_locked c (some prev) revoked w
      ≡ (err signing_slot_fault, record (ticked w) { mem = count_crl_failure w.mem })
unfolding sign_crl_locked
sign_slot_fault c prev revoked w h = rw h

finish-failed :
    (c : Config) (prev : StoredCrl) (r : Result Crl) (w : World) {e : Error}
    → (finish c prev r w).0 ≡ err e
    → Untouched e w (finish c prev r w).1
unfolding counted
finish-failed c prev (ok crl) w h = publish-failed c prev crl w h
finish-failed c prev (err x) w h = ground arith

finish-ok :
    (c : Config) (prev : StoredCrl) (r : Result Crl) (w : World)
    → (finish c prev r w).0 ≡ ok tt
    → (crl : Crl) × (r ≡ ok crl)
      × (finish c prev r w ≡ publish_crl c prev crl w)
      × ((publish_crl c prev crl w).0 ≡ ok tt)
unfolding counted
finish-ok c prev (ok crl) w h = (crl, refl, refl, h)
finish-ok c prev (err x) w h = cc

-- Where signing a list returns an error, the store and the list in the memory are as they were, and
-- the counter of failed updates has moved unless the chain file was at fault.
pub sign-failed :
    (c : Config) (prev : StoredCrl) (revoked : List RevocationEntry) (w : World) {e : Error}
    → (sign_crl_locked c (some prev) revoked w).0 ≡ err e
    → Untouched e w (sign_crl_locked c (some prev) revoked w).1
sign-failed c prev revoked w h = elim (Bool-cases (fails w)) [
  | inl bad ↦ rw (sign_slot_fault c prev revoked w bad) (ground arith)
  | inr fine ↦
      (let step = sign_step c prev revoked w fine in
        let u =
          finish-failed c prev (create_crl c prev revoked (ticked w)).0
            (create_crl c prev revoked (ticked w)).1 (rw step at h) in
        let k = create-keeps c prev revoked (ticked w) in rw step (ground (arith, u, k)))
]

-- A signing that succeeds.
pub record Signed (c : Config) (prev : StoredCrl) (revoked : List RevocationEntry) (w w' : World)
    : Type 0 where
  pub crl : Crl
  pub made : MadeFrom c prev revoked w.now crl
  pub published : Published c prev.blob crl w w'

signed_by_own_key :
    (c : Config) (prev : StoredCrl) (revoked : List RevocationEntry) (now : ℕ) (crl : Crl)
    → IsReady c
    → MadeFrom c prev revoked now crl
    → crl_signed_by c.ca_cert crl ≡ true
unfolding crl_signed_by
signed_by_own_key c prev revoked now crl ready made =
    rw ready.has_cert (ground (arith, ready.has_key, made.key))

Published-from :
    (c : Config) (from : CrlBlob) (crl : Crl) (w v w' : World)
    → v.store ≡ w.store
    → Published c from crl v w'
    → Published c from crl w w'
Published-from c from crl w v w' e p = record {
  behind = p.behind;
  no_fault = p.no_fault;
  follow = p.follow;
  store =
      p.store
      ∙ ap {A = Store} {B = Store} (λ s. record s { crl = some (map crl_block (crl ∷ p.behind)) })
          e;
  cached = p.cached;
  next_read = p.next_read;
}

finish-Signed :
    (c : Config) (prev : StoredCrl) (revoked : List RevocationEntry) (w v : World) (r : Result Crl)
    → IsReady c
    → v.store ≡ w.store
    → ((crl : Crl) → r ≡ ok crl → MadeFrom c prev revoked w.now crl)
    → (finish c prev r v).0 ≡ ok tt
    → Signed c prev revoked w (finish c prev r v).1
finish-Signed c prev revoked w v r ready e made h =
    let (crl, is_crl, same, done) = finish-ok c prev r v h in
    let m = made crl is_crl in
    rw same (record {
      crl = crl;
      made = m;
      published = Published-from c prev.blob crl w v (publish_crl c prev crl v).1 e (
          publish-Published c prev crl v ready (signed_by_own_key c prev revoked w.now crl ready m)
            done);
    })

-- Where a CA that has its certificate and key signs a list without an error, the list has the entries
-- given, the number after the last one or 1 where that had none, and the CA's validity, is the one in
-- the memory, and is the one that the next read of the stored chain takes. The stored chain is that
-- list followed by exactly the lists that the chain file states, or, where it makes no statement, by
-- exactly those of the chain it was made from that the CA's key did not sign, in their order; nothing
-- else of the store changed.
pub sign-ok :
    (c : Config) (prev : StoredCrl) (revoked : List RevocationEntry) (w : World)
    → IsReady c
    → (sign_crl_locked c (some prev) revoked w).0 ≡ ok tt
    → Signed c prev revoked w (sign_crl_locked c (some prev) revoked w).1
sign-ok c prev revoked w ready h = elim (Bool-cases (fails w)) [
  | inl bad ↦ absurd (cc (sign_slot_fault c prev revoked w bad))
  | inr fine ↦ rw (sign_step c prev revoked w fine) (
      finish-Signed c prev revoked w (create_crl c prev revoked (ticked w)).1
        (create_crl c prev revoked (ticked w)).0 ready (create-keeps c prev revoked (ticked w)).0
        (λ crl r. create-ok c prev revoked (ticked w) r)
        (rw (sign_step c prev revoked w fine) at h))
]

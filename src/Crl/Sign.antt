-- ===== src/Crl/Sign.antt =====
-- Signing: signCRLLocked, crlChainLocked, ReissueCRL, RefreshCRLIfDue and the snapshot of crl.go and
-- crlchain.go. What upstreamCRLs of crlchainfile.go answers is a field of the configuration.
use openvox_ca.Prelude.{
  ℕ, ◌+◌, ◌*◌, ◌/◌, Bool, true, false, Option, none, some, List, ◌∷◌, ltb, if◌then◌else◌, length,
}
use openvox_ca.World.Types.{
  Crl, RevocationEntry, CrlBlob, Config, Seconds, Upstream, not_configured, upstream_fault,
  unstated, stated, signing_fault, signing_slot_fault, no_prior_crl, chain_file_error, Mem,
}
use openvox_ca.World.Exec.{
  World, Exec, Result, ok, err, pure, raise, attempt, modify_mem, ◌>>=◌, ◌>>◌, ticked,
}
use openvox_ca.World.Locks.{with_crl_lock_counted, count_crl_failure}
use openvox_ca.World.Storage.{update_crl}
use openvox_ca.Crl.Lists.{decode_crl_chain, encode_crl_chain, foreign_crls}
use openvox_ca.Crl.Store.{StoredCrl, read_stored_crl, counted, install_cached_crl_locked}

-- CRLValidityDuration, with the default of 30 days.
unfoldable pub crl_validity : Config → Seconds
crl_validity c =
    if ltb 0 c.crl_validity_days then c.crl_validity_days * 24 * 3600 else 30 * 24 * 3600

-- DefaultCRLRefreshBefore.
unfoldable pub default_crl_refresh_before : Config → Seconds
unfolding crl_validity
default_crl_refresh_before c = crl_validity c / 3

abbrev pub carry_over : Config → Crl → Result (List Crl) → Result CrlBlob
carry_over c ours (err e) = err e
carry_over c ours (ok chain) = ok (encode_crl_chain (ours ∷ foreign_crls c.ca_cert chain))

-- The lists stated are compared with the published ones, so the stored chain must decode.
abbrev pub state_over : Crl → List Crl → Result (List Crl) → Result CrlBlob
state_over ours upstream (err e) = err e
state_over ours upstream (ok published) = ok (encode_crl_chain (ours ∷ upstream))

abbrev pub chain_of : Config → Upstream → Crl → CrlBlob → Result CrlBlob
chain_of c (upstream_fault e) ours blob = err e
chain_of c (stated upstream) ours blob = state_over ours upstream (decode_crl_chain blob)
chain_of c unstated ours blob = carry_over c ours (decode_crl_chain blob)
chain_of c not_configured ours blob = carry_over c ours (decode_crl_chain blob)

-- crlChainLocked: our list, then what a chain file states, or the stored blocks that are not ours.
unfoldable pub crl_chain_locked : Config → Crl → CrlBlob → Result CrlBlob
unfolding decode_crl_chain encode_crl_chain foreign_crls
crl_chain_locked c ours blob = chain_of c c.upstream ours blob

abbrev pub next_number : Option ℕ → ℕ
next_number none = 1
next_number (some n) = n + 1

-- The template, signed by the CA key.
abbrev pub new_crl : Config → Option ℕ → StoredCrl → List RevocationEntry → World → Result Crl
new_crl c none prev revoked w = err signing_fault
new_crl c (some key) prev revoked w = ok (record {
  entries = revoked;
  number = some (next_number prev.own.number);
  this_update = w.now;
  next_update = w.now + crl_validity c;
  signer = key;
  raw = w.random w.tick;
})

-- x509.CreateRevocationList, and reading back what it made.
unfoldable pub create_crl : Config → StoredCrl → List RevocationEntry → Exec Crl
unfolding attempt crl_validity
create_crl c prev revoked = do
  attempt signing_fault
  crl ← λ w. (new_crl c c.ca_key prev revoked w, ticked w)
  attempt signing_fault
  pure crl

-- A fault of the chain file has a counter of its own.
abbrev pub count_chain_failure {ℓ} : {A : Type ℓ} → Result A → World → Result A × World
count_chain_failure (ok a) w = (ok a, w)
count_chain_failure (err chain_file_error) w = (err chain_file_error, w)
count_chain_failure (err e) w = (err e, record w { mem = count_crl_failure w.mem })

abbrev pub notify : Mem → Mem
notify m = record m { crl_notify = true }

-- Writing the new list, and installing it in the memory.
unfoldable pub publish_crl : Config → StoredCrl → Crl → Exec (Unit {0})
unfolding crl_chain_locked counted update_crl install_cached_crl_locked
publish_crl c prev crl = do
  blob ← count_chain_failure (crl_chain_locked c crl prev.blob)
  counted (update_crl blob)
  install_cached_crl_locked crl
  modify_mem notify

unfoldable pub sign_crl_locked : Config → Option StoredCrl → List RevocationEntry → Exec (Unit {0})
unfolding counted attempt
sign_crl_locked c none revoked = counted (raise no_prior_crl)
sign_crl_locked c (some prev) revoked = do
  counted (attempt signing_slot_fault)
  crl ← counted (create_crl c prev revoked)
  publish_crl c prev crl

unfoldable pub reissue_crl_locked : Config → Exec (Unit {0})
reissue_crl_locked c = do
  stored ← read_stored_crl c
  sign_crl_locked c (some stored) stored.own.entries

unfoldable pub reissue_crl : Config → Exec (Unit {0})
unfolding with_crl_lock_counted
reissue_crl c = with_crl_lock_counted (reissue_crl_locked c)

abbrev pub number_above : Option ℕ → Option ℕ → Bool
number_above none b = false
number_above (some a) none = true
number_above (some a) (some b) = ltb b a

abbrev pub cached_number : Option Crl → Option ℕ
cached_number none = none
cached_number (some crl) = crl.number

-- A stored list that is ahead of the cached one is adopted where nothing is to be signed.
abbrev pub adopt : StoredCrl → Exec Bool
adopt stored w =
    if number_above stored.own.number (cached_number w.mem.cached_crl)
    then (ok false, (install_cached_crl_locked stored.own w).1)
    else (ok false, w)

unfoldable pub refresh_crl_locked : Config → Seconds → Exec Bool
unfolding install_cached_crl_locked
refresh_crl_locked c refresh_before = do
  stored ← read_stored_crl c
  λ w.
      if ltb (w.now + refresh_before) stored.own.next_update
      then adopt stored w
      else (sign_crl_locked c (some stored) stored.own.entries >> pure true) w

-- RefreshCRLIfDue.
unfoldable pub refresh_crl_if_due : Config → Seconds → Exec Bool
unfolding with_crl_lock_counted
refresh_crl_if_due c refresh_before = with_crl_lock_counted (refresh_crl_locked c refresh_before)

-- CRLSnapshot and CachedCRLNumber.
pub record CrlSnapshot : Type 0 where
  pub number : Option ℕ
  pub next_update : Seconds
  pub revoked : ℕ

unfoldable pub crl_snapshot : Mem → Option CrlSnapshot
crl_snapshot m = elim m.cached_crl [
  | none ↦ none
  | some crl ↦
      some (record {
        number = crl.number;
        next_update = crl.next_update;
        revoked = length crl.entries;
      })
]

unfoldable pub cached_crl_number : Mem → Option ℕ
cached_crl_number m = cached_number m.cached_crl

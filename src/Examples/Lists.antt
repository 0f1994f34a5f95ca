-- ===== src/Examples/Lists.antt =====
-- Runs of the revocation list, of serial numbers and of certnames.
use openvox_ca.Prelude.{ℕ, ◌≡◌, refl, true, some, [], ◌∷◌, pos, codes, ◌↔◌}
use openvox_ca.Serial.{normalise_serial, serial_hex_str, set_string}
use openvox_ca.Serial.Canonical.{StandsFor, normalise_serial-canonical}
use openvox_ca.Subject.{validate_subject}
use openvox_ca.Subject.Safety.{IsSafe, validate_subject_iff}
use openvox_ca.World.Types.{signing_slot_fault}
use openvox_ca.World.Exec.{ok, err, attempt}
use openvox_ca.Crl.Lists.{
  decode_crl_chain, crl_signed_by, encode_crl_chain, foreign_crls, select_own_crl,
}
use openvox_ca.Crl.Store.{StoredCrl, sync_crl_cache}
use openvox_ca.Crl.Sign.{sign_crl_locked, create_crl, publish_crl}
use openvox_ca.Crl.Chain.{stored_in, stored_of_written}
use openvox_ca.Crl.Outcome.{Untouched, Signed, sign-ok, sign-failed}
use openvox_ca.Crl.Sync.{Synced, sync-Synced, sync-forward, KeptOrNewer}
use openvox_ca.Crl.Sign.{refresh_crl_locked}
use openvox_ca.Crl.Store.{read_stored_crl}
use openvox_ca.Crl.Refresh.{Refreshed, refresh_crl_locked-Refreshed, sign-total}
use openvox_ca.Examples.Data.{
  ca, config, config-IsReady, world, faulty_world, own_crl, old_crl, other_crl, chain,
}

abbrev stored : StoredCrl
stored = record { own = own_crl; blob = chain }

sign_runs : (sign_crl_locked config (some stored) own_crl.entries world).0 ≡ ok tt
unfolding sign_crl_locked create_crl publish_crl
sign_runs = refl

sign-ok_example :
    Signed config stored own_crl.entries world
      (sign_crl_locked config (some stored) own_crl.entries world).1
sign-ok_example = sign-ok config stored own_crl.entries world config-IsReady sign_runs

sign_fails :
    (sign_crl_locked config (some stored) own_crl.entries faulty_world).0 ≡ err signing_slot_fault
unfolding sign_crl_locked attempt
sign_fails = refl

sign-failed_example :
    Untouched signing_slot_fault faulty_world
      (sign_crl_locked config (some stored) own_crl.entries faulty_world).1
sign-failed_example = sign-failed config stored own_crl.entries faulty_world sign_fails

ours : crl_signed_by (some ca) own_crl ≡ true
unfolding crl_signed_by
ours = refl

stored_of_written_example :
    stored_in
      (some ca)
      (some (encode_crl_chain (own_crl ∷ foreign_crls (some ca) (old_crl ∷ other_crl ∷ []))))
    ≡ some (record {
      own = own_crl;
      blob = encode_crl_chain (own_crl ∷ foreign_crls (some ca) (old_crl ∷ other_crl ∷ []));
    })
stored_of_written_example = stored_of_written (some ca) own_crl (old_crl ∷ other_crl ∷ []) ours

sync_runs : (sync_crl_cache config world).0 ≡ ok true
unfolding sync_crl_cache select_own_crl
sync_runs = refl

sync-Synced_example : Synced config world (sync_crl_cache config world).1
sync-Synced_example = sync-Synced config world sync_runs

old_ours : crl_signed_by config.ca_cert old_crl ≡ true
unfolding crl_signed_by
old_ours = refl

sync-forward_example : KeptOrNewer old_crl (sync_crl_cache config world).1.mem.cached_crl
sync-forward_example = sync-forward config world old_crl refl old_ours

normalise_runs : normalise_serial (codes " 0x1e ") ≡ some (codes "1E")
unfolding normalise_serial
normalise_runs = refl

normalise_serial-canonical_example :
    (n : ℕ) × StandsFor (codes " 0x1e ") (pos n)
    × (codes "1E" ≡ serial_hex_str (pos n))
    × (set_string (codes "1E") ≡ some (pos n))
    × (normalise_serial (codes "1E") ≡ some (codes "1E"))
normalise_serial-canonical_example = normalise_serial-canonical (codes " 0x1e ") normalise_runs

validate_subject_iff_example : (validate_subject "a..b" ≡ true) ↔ IsSafe (codes "a..b")
validate_subject_iff_example = validate_subject_iff "a..b"

decodes : decode_crl_chain chain ≡ ok (own_crl ∷ other_crl ∷ [])
unfolding decode_crl_chain
decodes = refl

sign-total_example : (sign_crl_locked config (some stored) own_crl.entries world).0 ≡ ok tt
sign-total_example =
    sign-total config stored own_crl.entries world config-IsReady (λ t. refl) (λ h. cc) decodes

refresh_runs : (refresh_crl_locked config 10 world).0 ≡ ok true
unfolding refresh_crl_locked read_stored_crl sign_crl_locked create_crl publish_crl
refresh_runs = refl

refresh_crl_locked-Refreshed_example :
    Refreshed config 10 true world (refresh_crl_locked config 10 world).1
refresh_crl_locked-Refreshed_example =
    refresh_crl_locked-Refreshed config 10 world config-IsReady refresh_runs

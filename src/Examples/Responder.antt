-- ===== src/Examples/Responder.antt =====
-- Runs of the responder, of the sync of the index, of the signings in a row and of a chain file.
use openvox_ca.Prelude.{◌≡◌, refl, true, none, some, [], ◌∷◌, Memᴰ, pos, codes, codes_eq, ◌==ℤ◌}
use openvox_ca.World.Exec.{ok}
use openvox_ca.Crl.Lists.{listed, serial_in_crl}
use openvox_ca.Crl.Store.{install_cached_crl_locked}
use openvox_ca.Ocsp.{
  Hashes, OcspMessage, OcspRequest, answer_ocsp, extract_nonce, within_length, ocsp_cacheable_hash,
  is_indexed,
}
use openvox_ca.Ocsp.Current.{OcspSafe}
use openvox_ca.Ocsp.Steps.{Reach-OcspSafe, Reach, Step}
use openvox_ca.Ocsp.Signed.{Respects}
use openvox_ca.Ocsp.Answer.{answer_ocsp-Answered, RunAnswered}
use openvox_ca.Examples.Data.{config, world, cached_answer, own_crl, mem}

world-OcspSafe : OcspSafe mem
unfolding ocsp_cacheable_hash is_indexed listed ◌==ℤ◌ serial_in_crl
world-OcspSafe r there = elim there [
  | Memᴰ.head p ↦ rw (p) (record {
    cacheable = refl;
    own = refl;
    window = refl;
    unasked = refl;
    definite = refl;
    indexed = refl;
    unrevoked = λ h. refl;
  })
  | Memᴰ.tail t ↦ elim t [ ]
]

Reach-OcspSafe_example : OcspSafe (install_cached_crl_locked own_crl world).1.mem
Reach-OcspSafe_example =
    Reach-OcspSafe world-OcspSafe (Reach.next Reach.here (Step.install own_crl world))

abbrev hashes : Hashes
hashes = record { available = λ h. true; sum = λ h bits. bits }

abbrev request : OcspRequest
request = record {
  serial = pos 31;
  hash = 3;
  issuer_name_hash = codes "CN=Puppet CA";
  issuer_key_hash = 4 ∷ 17 ∷ 99 ∷ [];
}

abbrev message : OcspMessage
message = record { extensions = none; request = some request }

world-Respects : Respects world
world-Respects n s m safe = safe

answer_ocsp-Answered_example :
    RunAnswered hashes config
      (within_length (extract_nonce none))
      (some request)
      world
      (answer_ocsp hashes config message world)
answer_ocsp-Answered_example =
    answer_ocsp-Answered hashes config message world world-OcspSafe world-Respects

-- The entry of the cache answers.
answer_ocsp_run :
    (answer_ocsp hashes config message world).0
    ≡ ok (record { der = cached_answer.der; max_age = 14350 })
unfolding answer_ocsp codes_eq ◌==ℤ◌
answer_ocsp_run = refl

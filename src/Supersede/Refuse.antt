-- ===== src/Supersede/Refuse.antt =====
-- refuseIfSuperseded of internal/ca/supersede.go and refuseIfRevoked of signing.go: the gate that
-- both renewal paths pass twice.
use openvox_ca.Prelude.{
  Bool, true, false, Option, none, some, List, [], ◌∷◌, if◌then◌else◌, codes_eq, ℤ,
}
use openvox_ca.Serial.{SerialText, serial_hex_str, normalise_serial}
use openvox_ca.World.Types.{
  SupersededBlob, SupersededEntry, Cert, Config, cert_superseded, cert_revoked, backend_fault,
}
use openvox_ca.World.Exec.{World, Exec, Result, ok, err, ◌>>=◌}
use openvox_ca.Crl.Store.{sync_crl_cache, is_revoked_serial}
use openvox_ca.Supersede.Pending.{load_superseded, supersede_failed}

abbrev pub same_serial : SerialText → Option SerialText → Bool
same_serial serial none = false
same_serial serial (some stored) = codes_eq stored serial

-- Whether an entry normalises to the serial.
unfoldable pub names_serial : SerialText → List SupersededEntry → Bool
names_serial serial [] = false
names_serial serial (e ∷ es) =
    if same_serial serial (normalise_serial e.serial) then true else names_serial serial es

abbrev pub judge_superseded : ℤ → Result SupersededBlob × World → Result (Unit {0}) × World
judge_superseded serial (err e, w) = (err backend_fault, supersede_failed w)
judge_superseded serial (ok b, w) =
    if b.corrupt
    then (err cert_superseded, w)
    else if names_serial (serial_hex_str serial) b.recovered
    then (err cert_superseded, w)
    else (ok tt, w)

unfoldable pub refuse_if_superseded : ℤ → Exec (Unit {0})
refuse_if_superseded serial w = judge_superseded serial (load_superseded w)

abbrev pub judge_revoked : Bool → Exec (Unit {0}) → Exec (Unit {0})
judge_revoked true m w = (err cert_revoked, w)
judge_revoked false m w = m w

-- The list is refreshed from storage first, and a refresh that fails refuses nothing by itself.
unfoldable pub refuse_if_revoked : Config → Cert → Exec (Unit {0})
unfolding is_revoked_serial
refuse_if_revoked c presented w =
    (do
      revoked ← is_revoked_serial presented.serial
      judge_revoked revoked (refuse_if_superseded presented.serial))
      (sync_crl_cache c w).1

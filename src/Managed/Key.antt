-- ===== src/Managed/Key.antt =====
-- Keys that the CA generates: KeyConfig, ValidateKeyConfig, leafKeyConfig and generateKey of
-- internal/ca/keys.go.
use openvox_ca.Prelude.{ℕ, Bool, not, ◌||◌, Option, none, some, str_eq, ◌==◌, if◌then◌else◌}
use openvox_ca.World.Types.{
  KeyConfig, KeyKind, rsa, ecdsa, PublicKey, Config, bad_key_config, random_fault,
}
use openvox_ca.World.Exec.{Exec, ok, err, fails, ticked}

-- The algorithm and the size, with the defaults; `none` where the configuration is refused.
abbrev pub rsa_kind : ℕ → Option KeyKind
rsa_kind size =
    if size == 0
    then some (rsa 4096)
    else if size == 2048 || size == 3072 || size == 4096
    then some (rsa size)
    else none

abbrev pub ecdsa_kind : ℕ → Option KeyKind
ecdsa_kind size =
    if size == 0
    then some (ecdsa 256)
    else if size == 256 || size == 384 || size == 521
    then some (ecdsa size)
    else none

-- ValidateKeyConfig, with the kind of key that generateKey then makes.
unfoldable pub validate_key_config : KeyConfig → Option KeyKind
validate_key_config cfg =
    if str_eq cfg.algo "" || str_eq cfg.algo "rsa"
    then rsa_kind cfg.size
    else if str_eq cfg.algo "ecdsa"
    then ecdsa_kind cfg.size
    else none

abbrev pub is_set : KeyConfig → Bool
is_set cfg = not (str_eq cfg.algo "") || not (cfg.size == 0)

abbrev pub default_leaf_key_config : KeyConfig
default_leaf_key_config = record { algo = "rsa"; size = 2048 }

unfoldable pub leaf_key_config : Config → KeyConfig
leaf_key_config c = if is_set c.leaf_key_config then c.leaf_key_config else default_leaf_key_config

abbrev pub fresh_key : Option KeyKind → Exec PublicKey
fresh_key none w = (err bad_key_config, w)
fresh_key (some kind) w =
    if fails w
    then (err random_fault, ticked w)
    else (ok (record { kind = kind; identity = w.random w.tick }), ticked w)

-- generateKey; a key is known by its public half.
unfoldable pub generate_key : KeyConfig → Exec PublicKey
unfolding validate_key_config
generate_key cfg = fresh_key (validate_key_config cfg)

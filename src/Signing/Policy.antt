-- ===== src/Signing/Policy.antt =====
-- What a request may ask for: validatePublicKey of internal/ca/keys.go, the object identifiers of
-- internal/ca/oids.go, and asciiLower, sanStrings and checkSubjectAltNames of signing.go.
use openvox_ca.Prelude.{
  ℕ, zero, suc, ◌+◌, ◌-◌, ◌*◌, ◌^◌, ◌≡◌, refl, Option, none, some, ltb, length, Bool, true, false,
  not, ◌&&◌, ◌||◌, List, [], ◌∷◌, ◌++◌, String, leb, ◌==◌, if◌then◌else◌, codes, codes_eq,
}
use openvox_ca.World.Types.{
  Oid, Extension, KeyKind, PublicKey, SubjectAltNames, Csr, Config, key_policy, disallowed_sans,
}
use openvox_ca.World.Exec.{Result, ok, err}

-- validatePublicKey; a curve is told by its size.
abbrev pub good_kind : KeyKind → Bool
good_kind (KeyKind.rsa bits) = leb 2048 bits
good_kind (KeyKind.ecdsa curve) = curve == 256 || curve == 384 || curve == 521
good_kind KeyKind.other_key = false

unfoldable pub validate_public_key : PublicKey → Result (Unit {0})
validate_public_key key = if good_kind key.kind then ok tt else err key_policy

unfoldable pub has_prefix : Oid → Oid → Bool
has_prefix oid [] = true
has_prefix [] (p ∷ ps) = false
has_prefix (o ∷ os) (p ∷ ps) = (o == p) && has_prefix os ps

abbrev pub puppet_oid_arc : Oid
puppet_oid_arc = 1 ∷ 3 ∷ 6 ∷ 1 ∷ 4 ∷ 1 ∷ 34380 ∷ 1 ∷ []

abbrev pub puppet_auth_oid_arc : Oid
puppet_auth_oid_arc = 1 ∷ 3 ∷ 6 ∷ 1 ∷ 4 ∷ 1 ∷ 34380 ∷ 1 ∷ 3 ∷ []

unfoldable pub is_puppet_oid : Oid → Bool
unfolding has_prefix
is_puppet_oid oid = has_prefix oid puppet_oid_arc

unfoldable pub is_auth_oid : Oid → Bool
unfolding has_prefix
is_auth_oid oid = has_prefix oid puppet_auth_oid_arc

-- The loop that copies a request's extensions.
unfoldable pub copied_extensions : List Extension → List Extension
unfolding is_puppet_oid is_auth_oid
copied_extensions [] = []
copied_extensions (e ∷ es) =
    let rest = copied_extensions es in
    if is_puppet_oid e.id && not (is_auth_oid e.id) then e ∷ rest else rest

abbrev pub oid_basic_constraints : Oid
oid_basic_constraints = 2 ∷ 5 ∷ 29 ∷ 19 ∷ []

-- The length of a DER element, of `n` bytes in the long form, as encoding/asn1 reads it.
unfoldable pub long_length : ℕ → ℕ → List ℕ → Option (ℕ × List ℕ)
long_length zero acc bytes = if ltb acc 128 then none else some (acc, bytes)
long_length (suc n) acc [] = none
long_length (suc n) acc (b ∷ bs) =
    let rest = long_length n (acc * 256 + b) bs in
    if leb (2 ^ 23) acc || acc * 256 + b == 0 then none else rest

unfoldable pub der_length : List ℕ → Option (ℕ × List ℕ)
unfolding long_length
der_length [] = none
der_length (b ∷ bs) =
    if ltb b 128 then some (b, bs) else if b == 128 then none else long_length (b - 128) 0 bs

unfoldable pub first_true : List ℕ → Bool
first_true (tag ∷ len ∷ value ∷ rest) = tag == 1 && len == 1 && value == 255
first_true _ = false

abbrev pub take : ℕ → List ℕ → List ℕ
take zero xs = []
take (suc n) [] = []
take (suc n) (x ∷ xs) = x ∷ take n xs

abbrev pub in_sequence : Option (ℕ × List ℕ) → Bool
in_sequence none = false
in_sequence (some (n, bytes)) = leb n (length bytes) && first_true (take n bytes)

-- `asn1.Unmarshal` into a sequence that starts with an optional BOOLEAN, and whether that is true.
unfoldable pub asks_ca : List ℕ → Bool
unfolding der_length first_true
asks_ca [] = false
asks_ca (tag ∷ bytes) = tag == 48 && in_sequence (der_length bytes)

-- The loop that looks for CA:TRUE.
unfoldable pub requests_ca : List Extension → Bool
unfolding asks_ca
requests_ca [] = false
requests_ca (e ∷ es) =
    if codes_eq e.id oid_basic_constraints && asks_ca e.value then true else requests_ca es

asks_ca-true : asks_ca (48 ∷ 6 ∷ 1 ∷ 1 ∷ 255 ∷ 2 ∷ 1 ∷ 0 ∷ []) ≡ true
unfolding asks_ca
asks_ca-true = refl

asks_ca-false : asks_ca (48 ∷ 0 ∷ []) ≡ false
unfolding asks_ca
asks_ca-false = refl

abbrev pub lower : ℕ → ℕ
lower c = if leb b'A' c && leb c b'Z' then c + 32 else c

-- asciiLower, by code points: no byte of one past 127 is a letter.
unfoldable pub ascii_lower : List ℕ → List ℕ
ascii_lower [] = []
ascii_lower (c ∷ cs) = lower c ∷ ascii_lower cs

unfoldable pub dns_name : String → List ℕ
unfolding ascii_lower
dns_name d = codes "DNS:" ++ ascii_lower (codes d)

abbrev pub each {ℓ κ} : {A : Type ℓ} {B : Type κ} → (A → B) → List A → List B
each f [] = []
each f (x ∷ xs) = f x ∷ each f xs

unfoldable pub san_strings : SubjectAltNames → List (List ℕ)
unfolding dns_name
san_strings s =
    each dns_name s.dns_names
    ++ (each (λ ip. codes "IP:" ++ codes ip) s.ip_addresses
        ++ (each (λ e. codes "email:" ++ codes e) s.email_addresses
            ++ each (λ u. codes "URI:" ++ codes u) s.uris))

unfoldable pub disallowed_names : List ℕ → List (List ℕ) → List (List ℕ)
disallowed_names own [] = []
disallowed_names own (n ∷ ns) =
    let rest = disallowed_names own ns in if codes_eq n own then rest else n ∷ rest

abbrev pub none_left : List (List ℕ) → Result (Unit {0})
none_left [] = ok tt
none_left (n ∷ ns) = err disallowed_sans

unfoldable pub check_subject_alt_names : Config → String → Csr → Result (Unit {0})
unfolding san_strings disallowed_names dns_name
check_subject_alt_names c subject csr =
    if c.allow_subject_alt_names
    then ok tt
    else none_left (disallowed_names (dns_name subject) (san_strings csr.sans))

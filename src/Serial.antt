-- ===== src/Serial.antt =====
-- Serial numbers as text: NormaliseSerial of internal/storage/storage.go and serialHexStr of
-- internal/ca/signing.go. A text is the list of its code points. What the code takes from Go's
-- library (`strings.TrimSpace`, `big.Int.SetString` and `big.Int.Text` in base 16) is written out.
pub mod Canonical
use openvox_ca.Prelude.{
  ℕ, zero, suc, ◌+◌, ◌-◌, ◌*◌, ◌/◌, ◌%◌, ◌^◌, ◌≡◌, refl, Bool, true, false, not, ◌&&◌, ◌||◌, Option,
  none, some, List, [], ◌∷◌, ◌++◌, leb, ltb, ◌==◌, if◌then◌else◌, ℤ, pos, negsuc, codes,
}

abbrev pub SerialText : Type 0
SerialText = List ℕ

-- `unicode.IsSpace`.
is_space : ℕ → Bool
is_space c =
    (leb 9 c && leb c 13)
    || c == 32
    || c == 0x85
    || c == 0xa0
    || c == 0x1680
    || (leb 0x2000 c && leb c 0x200a)
    || c == 0x2028
    || c == 0x2029
    || c == 0x202f
    || c == 0x205f
    || c == 0x3000

trim_left : List ℕ → List ℕ
trim_left [] = []
trim_left (c ∷ cs) = let rest = trim_left cs in if is_space c then rest else c ∷ cs

trim_right : List ℕ → List ℕ
trim_right [] = []
trim_right (c ∷ cs) = elim (trim_right cs) [
  | [] ↦ if is_space c then [] else c ∷ []
  | d ∷ ds ↦ c ∷ d ∷ ds
]

-- `strings.TrimSpace`.
pub trim_space : List ℕ → List ℕ
unfolding trim_left trim_right is_space
trim_space s = trim_right (trim_left s)

-- The value of one digit in base 16, either case.
digit_value : ℕ → Option ℕ
digit_value c =
    if leb b'0' c && leb c b'9'
    then some (c - 48)
    else if leb b'A' c && leb c b'F'
    then some (c - 55)
    else if leb b'a' c && leb c b'f'
    then some (c - 87)
    else none

abbrev push_digit : Option ℕ → ℕ → Option ℕ
push_digit none d = none
push_digit (some acc) d = some (acc * 16 + d)

abbrev pub add_digit : Option ℕ → Option ℕ → Option ℕ
add_digit acc none = none
add_digit acc (some d) = push_digit acc d

-- The digits from the left, with the value of those before them.
value_from : Option ℕ → List ℕ → Option ℕ
unfolding digit_value
value_from acc [] = acc
value_from acc (c ∷ cs) = value_from (add_digit acc (digit_value c)) cs

-- At least one digit.
magnitude : List ℕ → Option ℕ
unfolding value_from
magnitude [] = none
magnitude (c ∷ cs) = value_from (some 0) (c ∷ cs)

abbrev pub negate : Option ℕ → Option ℤ
negate none = none
negate (some zero) = some (pos 0)
negate (some (suc n)) = some (negsuc n)

abbrev pub as_pos : Option ℕ → Option ℤ
as_pos none = none
as_pos (some n) = some (pos n)

-- `new(big.Int).SetString(s, 16)`: an optional sign, and digits to the end. Base 16 written out
-- admits no prefix and no underscore.
unfoldable pub set_string : SerialText → Option ℤ
unfolding magnitude
set_string [] = none
set_string (c ∷ cs) =
    if c == b'-'
    then negate (magnitude cs)
    else if c == b'+'
    then as_pos (magnitude cs)
    else as_pos (magnitude (c ∷ cs))

-- One digit of `Text(16)` in upper case.
digit_char : ℕ → ℕ
digit_char d = if ltb d 10 then d + 48 else d + 55

-- The digits of n from the left; fuel above n suffices (`Serial.Canonical.value-hex_digits`).
hex_digits : ℕ → ℕ → List ℕ
unfolding digit_char
hex_digits zero n = []
hex_digits (suc fuel) n =
    let rest = hex_digits fuel (n / 16) in
    if ltb n 16 then digit_char n ∷ [] else rest ++ digit_char (n % 16) ∷ []

unfoldable pub hex_upper : ℕ → SerialText
unfolding hex_digits
hex_upper n = hex_digits (suc n) n

-- `fmt.Sprintf("%X", n)`.
unfoldable pub serial_hex_str : ℤ → SerialText
unfolding hex_upper
serial_hex_str (pos n) = hex_upper n
serial_hex_str (negsuc n) = b'-' ∷ hex_upper (suc n)

-- The two `strings.CutPrefix` calls: "0x", else "0X".
pub cut_prefix : List ℕ → List ℕ
cut_prefix (z ∷ x ∷ rest) =
    if (z == b'0') && ((x == b'x') || (x == b'X')) then rest else z ∷ x ∷ rest
cut_prefix s = s

-- An empty text is no number, and neither is one below 0.
canonical : Option ℤ → Option SerialText
canonical none = none
canonical (some (pos n)) = some (hex_upper n)
canonical (some (negsuc n)) = none

-- `none` is ErrMalformedSerial.
unfoldable pub normalise_serial : SerialText → Option SerialText
unfolding trim_space cut_prefix set_string canonical hex_upper
normalise_serial s = canonical (set_string (cut_prefix (trim_space s)))

normalise-padded : normalise_serial (codes " 0x000aBc ") ≡ some (codes "ABC")
unfolding normalise_serial
normalise-padded = refl

normalise-negative : normalise_serial (codes "-5") ≡ none
unfolding normalise_serial
normalise-negative = refl

normalise-empty : normalise_serial (codes "0x") ≡ none
unfolding normalise_serial
normalise-empty = refl

serial_hex_str-large : serial_hex_str (pos (0x1f * 16 ^ 20)) ≡ codes "1F00000000000000000000"
unfolding serial_hex_str
serial_hex_str-large = refl

-- ===== src/Serial/Canonical.antt =====
-- The canonical form of a serial number: printing and reading it are inverse, and normalising a text
-- decides which number it stands for.
use openvox_ca.Prelude.{
  ℕ, zero, suc, ◌/◌, ◌%◌, ◌≤◌, ◌<◌, ◌≡◌, refl, ◌∙◌, ap, Option, none, some, List, [], ◌∷◌, ◌++◌,
  arith, ltb, Bool-cases, inl, inr, ℤ, pos, negsuc, All,
}
use openvox_ca.Serial.{
  SerialText, digit_value, digit_char, add_digit, value_from, magnitude, set_string, hex_digits,
  hex_upper, serial_hex_str, cut_prefix, trim_space, trim_left, trim_right, is_space, canonical,
  normalise_serial,
}

digit_value-digit_char : (d : ℕ) → d < 16 → digit_value (digit_char d) ≡ some d
unfolding digit_value digit_char
digit_value-digit_char d h = ground arith

value_from-append :
    (acc : Option ℕ) (xs ys : List ℕ)
    → value_from acc (xs ++ ys) ≡ value_from (value_from acc xs) ys
unfolding value_from
value_from-append acc [] ys = refl
value_from-append acc (x ∷ xs) ys = value_from-append (add_digit acc (digit_value x)) xs ys

-- Enough fuel gives all the digits.
value-hex_digits : (fuel n : ℕ) → n < fuel → value_from (some 0) (hex_digits fuel n) ≡ some n
unfolding hex_digits
value-hex_digits zero n h = elim h [ ]
value-hex_digits (suc fuel) n h = elim (Bool-cases (ltb n 16)) [
  | inl small ↦ rw small (single n (ground arith))
  | inr large ↦ rw large (
      value_from-append (some 0) (hex_digits fuel (n / 16)) (digit_char (n % 16) ∷ [])
      ∙ (rw (value-hex_digits fuel (n / 16) (ground arith)) (last_digit n)))
]
  where
    single : (d : ℕ) → d < 16 → value_from (some 0) (digit_char d ∷ []) ≡ some d
    single d small = unfold value_from in rw (digit_value-digit_char d small) (ground arith)

    last_digit : (k : ℕ) → value_from (some (k / 16)) (digit_char (k % 16) ∷ []) ≡ some k
    last_digit k =
        unfold value_from in rw (digit_value-digit_char (k % 16) (omega arith)) (ground arith)

-- A digit of the canonical form is neither a space, nor a sign, nor part of a prefix.
abbrev IsDigit : ℕ → Type 0
IsDigit c = (48 ≤ c) × (c ≤ 70)

digit_char-IsDigit : (d : ℕ) → d < 16 → IsDigit (digit_char d)
unfolding digit_char
digit_char-IsDigit d h = ground arith

All-snoc : (xs : List ℕ) (c : ℕ) → All IsDigit xs → IsDigit c → All IsDigit (xs ++ c ∷ [])
All-snoc [] c h d = (d, tt)
All-snoc (x ∷ xs) c h d = (h.0, All-snoc xs c h.1 d)

hex_digits-IsDigit : (fuel n : ℕ) → All IsDigit (hex_digits fuel n)
unfolding hex_digits
hex_digits-IsDigit zero n = tt
hex_digits-IsDigit (suc fuel) n = elim (Bool-cases (ltb n 16)) [
  | inl small ↦ rw small (digit_char-IsDigit n (ground arith), tt)
  | inr large ↦ rw large (
      All-snoc (hex_digits fuel (n / 16)) (digit_char (n % 16)) (hex_digits-IsDigit fuel (n / 16))
        (digit_char-IsDigit (n % 16) (omega arith)))
]

trim_left-IsDigit : (xs : List ℕ) → All IsDigit xs → trim_left xs ≡ xs
unfolding trim_left is_space
trim_left-IsDigit [] h = refl
trim_left-IsDigit (x ∷ xs) h = ground arith

trim_right-IsDigit : (xs : List ℕ) → All IsDigit xs → trim_right xs ≡ xs
unfolding trim_right is_space
trim_right-IsDigit [] h = refl
trim_right-IsDigit (x ∷ []) h = ground arith
trim_right-IsDigit (x ∷ y ∷ ys) h = rw (trim_right-IsDigit (y ∷ ys) h.1)

cut_prefix-IsDigit : (xs : List ℕ) → All IsDigit xs → cut_prefix xs ≡ xs
unfolding cut_prefix
cut_prefix-IsDigit [] h = refl
cut_prefix-IsDigit (x ∷ []) h = refl
cut_prefix-IsDigit (x ∷ y ∷ ys) h = ground arith

abbrev HasHead : List ℕ → Type 0
HasHead xs = (c : ℕ) × (cs : List ℕ) × (xs ≡ c ∷ cs)

snoc-HasHead : (xs : List ℕ) (c : ℕ) → HasHead (xs ++ c ∷ [])
snoc-HasHead [] c = (c, [], refl)
snoc-HasHead (x ∷ xs) c = (x, xs ++ c ∷ [], refl)

hex_digits-HasHead : (fuel n : ℕ) → HasHead (hex_digits (suc fuel) n)
unfolding hex_digits
hex_digits-HasHead fuel n = elim (Bool-cases (ltb n 16)) [
  | inl small ↦ (digit_char n, [], rw small)
  | inr large ↦ rw large (snoc-HasHead (hex_digits fuel (n / 16)) (digit_char (n % 16)))
]

-- A text of digits with a first one has its value, and no sign.
set_string-IsDigit :
    (xs : List ℕ) {n : ℕ}
    → All IsDigit xs
    → HasHead xs
    → value_from (some 0) xs ≡ some n
    → (magnitude xs ≡ some n) × (set_string xs ≡ some (pos n))
unfolding set_string magnitude
set_string-IsDigit [] h (c, cs, e) v = cc
set_string-IsDigit (x ∷ xs) h e v = (v, ground arith)

set_string-hex_upper :
    (n : ℕ) → (magnitude (hex_upper n) ≡ some n) × (set_string (hex_upper n) ≡ some (pos n))
unfolding hex_upper
set_string-hex_upper n =
    set_string-IsDigit (hex_digits (suc n) n) (hex_digits-IsDigit (suc n) n)
      (hex_digits-HasHead n n) (value-hex_digits (suc n) n (omega arith))

-- Reading back what was printed gives the number, whatever its sign.
set_string-serial_hex_str : (a : ℤ) → set_string (serial_hex_str a) ≡ some a
unfolding serial_hex_str set_string
set_string-serial_hex_str (pos n) = (set_string-hex_upper n).1
set_string-serial_hex_str (negsuc n) = rw (set_string-hex_upper (suc n)).0

-- The printed form decides the number, so the maps that the CA keys by it have one key to a serial.
pub serial_hex_str-injective : (a b : ℤ) → serial_hex_str a ≡ serial_hex_str b → a ≡ b
serial_hex_str-injective a b e =
    cc (set_string-serial_hex_str a, set_string-serial_hex_str b, ap set_string e)

normalise-hex_upper : (n : ℕ) → normalise_serial (hex_upper n) ≡ some (hex_upper n)
unfolding normalise_serial hex_upper
normalise-hex_upper n = rw (
  trim_left-IsDigit (hex_digits (suc n) n) (hex_digits-IsDigit (suc n) n),
  trim_right-IsDigit (hex_digits (suc n) n) (hex_digits-IsDigit (suc n) n),
  cut_prefix-IsDigit (hex_digits (suc n) n) (hex_digits-IsDigit (suc n) n),
  (set_string-hex_upper n).1,
)

canonical_inv :
    (o : Option ℤ) {t : SerialText}
    → canonical o ≡ some t
    → (n : ℕ) × (t ≡ hex_upper n) × (o ≡ some (pos n))
unfolding canonical
canonical_inv none h = cc
canonical_inv (some (pos n)) h = (n, cc, refl)
canonical_inv (some (negsuc n)) h = cc

-- The number that a text stands for: what is left of it without the spaces around it and without a
-- prefix `0x` reads as the number in base 16.
abbrev pub StandsFor : SerialText → ℤ → Type 0
StandsFor s n = set_string (cut_prefix (trim_space s)) ≡ some n

-- A text that normalise_serial admits stands for a number of at least 0, without the spaces around
-- it and a prefix `0x`, and becomes the printed form of that number; the printed form reads back as
-- the number and normalises to itself.
pub normalise_serial-canonical :
    (s : SerialText) {t : SerialText}
    → normalise_serial s ≡ some t
    → (n : ℕ) × StandsFor s (pos n)
      × (t ≡ serial_hex_str (pos n))
      × (set_string t ≡ some (pos n))
      × (normalise_serial t ≡ some t)
unfolding normalise_serial serial_hex_str
normalise_serial-canonical s h =
    let (n, e, value) = canonical_inv (set_string (cut_prefix (trim_space s))) h in
    (n, value, e, rw e (set_string-hex_upper n).1, rw e (normalise-hex_upper n))

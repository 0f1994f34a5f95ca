-- ===== src/Subject.antt =====
-- Certnames: ValidateSubject and its pattern, of internal/ca/signing.go. A subject is matched by its
-- code points.
pub mod Safety
use openvox_ca.Prelude.{
  ℕ, ◌≡◌, refl, Bool, true, false, ◌&&◌, ◌||◌, List, [], ◌∷◌, String, leb, ◌==◌, if◌then◌else◌,
  codes,
}

-- The class [a-z0-9_.]
is_first : ℕ → Bool
is_first c = (leb b'a' c && leb c b'z') || (leb b'0' c && leb c b'9') || c == b'_' || c == b'.'

-- The class [a-z0-9._-]
is_rest : ℕ → Bool
unfolding is_first
is_rest c = is_first c || c == b'-'

all_rest : List ℕ → Bool
unfolding is_rest
all_rest [] = true
all_rest (c ∷ cs) = is_rest c && all_rest cs

-- ^[a-z0-9_.][a-z0-9._-]*$
subject_regex : List ℕ → Bool
unfolding is_first all_rest
subject_regex [] = false
subject_regex (c ∷ cs) = is_first c && all_rest cs

-- `strings.Contains(s, "..")`.
contains_dots : List ℕ → Bool
contains_dots [] = false
contains_dots (c ∷ []) = false
contains_dots (c ∷ d ∷ cs) = (c == b'.' && d == b'.') || contains_dots (d ∷ cs)

is_dot : List ℕ → Bool
is_dot (c ∷ []) = c == b'.'
is_dot _ = false

-- `true` where ValidateSubject returns nil.
unfoldable pub validate_codes : List ℕ → Bool
unfolding subject_regex contains_dots is_dot
validate_codes s = if is_dot s then false else elim (subject_regex s) [
  | true ↦ elim (contains_dots s) [ true ↦ false | false ↦ true ]
  | false ↦ false
]

unfoldable pub validate_subject : String → Bool
unfolding validate_codes
validate_subject s = validate_codes (codes s)

validate-node : validate_subject "web_01.example-net.com" ≡ true
unfolding validate_subject
validate-node = refl

validate-traversal : validate_subject "a..b" ≡ false
unfolding validate_subject
validate-traversal = refl

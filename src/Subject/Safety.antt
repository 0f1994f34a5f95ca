-- ===== src/Subject/Safety.antt =====
-- What an admitted certname cannot contain: a path segment, a separator, a leading dash.
use openvox_ca.Prelude.{
  String, codes, ℕ, ◌≤◌, ◌≡◌, ◌≢◌, ◌↔◌, ◌⊎◌, inl, inr, true, List, [], ◌∷◌, ◌++◌, All, arith,
  Bool-cases, refl, ap, ◌==◌, ◌&&◌,
}
use openvox_ca.Subject.{
  validate_subject, validate_codes, subject_regex, contains_dots, is_dot, is_first, is_rest,
  all_rest,
}

-- A lower-case letter, a digit, an underscore or a dot.
abbrev pub IsPlain : ℕ → Type 0
IsPlain c = ((97 ≤ c) × (c ≤ 122)) ⊎ ((48 ≤ c) × (c ≤ 57)) ⊎ (c ≡ 95) ⊎ (c ≡ 46)

abbrev pub IsNameChar : ℕ → Type 0
IsNameChar c = IsPlain c ⊎ (c ≡ 45)

-- The names that are safe as a path segment and as a command line argument.
pub record IsSafe (s : List ℕ) : Type 0 where
  pub head : ℕ
  pub rest : List ℕ
  pub split : s ≡ head ∷ rest
  pub plain : IsPlain head
  pub chars : All IsNameChar rest
  pub no_dots : (before after : List ℕ) → s ≢ before ++ (46 ∷ 46 ∷ after)
  pub not_dot : s ≢ 46 ∷ []

is_first_iff : (c : ℕ) → (is_first c ≡ true) ↔ IsPlain c
unfolding is_first
is_first_iff c = ground arith

is_rest_iff : (c : ℕ) → (is_rest c ≡ true) ↔ IsNameChar c
unfolding is_rest
is_rest_iff c = ground arith

all_rest_iff : (cs : List ℕ) → (all_rest cs ≡ true) ↔ All IsNameChar cs
unfolding all_rest
all_rest_iff [] = (λ _. tt, λ _. refl)
all_rest_iff (c ∷ cs) = ground (arith, is_rest_iff c, all_rest_iff cs)

contains_dots_split :
    (s : List ℕ)
    → contains_dots s ≡ true
    → (before : List ℕ) × (after : List ℕ) × (s ≡ before ++ (46 ∷ 46 ∷ after))
unfolding contains_dots
contains_dots_split [] h = cc
contains_dots_split (c ∷ []) h = cc
contains_dots_split (c ∷ d ∷ cs) h = elim (Bool-cases (c == b'.' && d == b'.')) [
  | inl both ↦ ([], cs, ground arith)
  | inr other ↦
      (let (before, after, e) = contains_dots_split (d ∷ cs) (rw other at h) in
        (c ∷ before, after, rw e))
]

contains_dots-append : (before after : List ℕ) → contains_dots (before ++ (46 ∷ 46 ∷ after)) ≡ true
unfolding contains_dots
contains_dots-append [] after = refl
contains_dots-append (c ∷ []) after = ground arith
contains_dots-append (c ∷ d ∷ before) after =
    rw (contains_dots-append (d ∷ before) after) (ground arith)

validate_codes→IsSafe : (s : List ℕ) → validate_codes s ≡ true → IsSafe s
unfolding validate_codes
validate_codes→IsSafe [] h = cc
validate_codes→IsSafe (c ∷ cs) h = record {
  head = c;
  rest = cs;
  split = refl;
  plain = ground (arith, is_first_iff c);
  chars = ground (arith, all_rest_iff cs);
  no_dots = λ before after e. ground (arith, contains_dots-append before after, ap contains_dots e);
  not_dot = λ e. ground (arith, ap is_dot e);
}

is_dot_inv : (s : List ℕ) → is_dot s ≡ true → s ≡ 46 ∷ []
unfolding is_dot
is_dot_inv [] h = cc
is_dot_inv (c ∷ []) h = ground arith
is_dot_inv (c ∷ d ∷ cs) h = cc

subject_regex-IsSafe : (c : ℕ) (cs : List ℕ) → IsSafe (c ∷ cs) → subject_regex (c ∷ cs) ≡ true
unfolding subject_regex
subject_regex-IsSafe c cs h =
    let first : is_first c ≡ true = cc ((is_first_iff h.head).1 h.plain, h.split) in
    let others : all_rest cs ≡ true = cc ((all_rest_iff h.rest).1 h.chars, h.split) in
    rw (first, others)

IsSafe→validate_codes : (s : List ℕ) → IsSafe s → validate_codes s ≡ true
unfolding validate_codes subject_regex
IsSafe→validate_codes [] h = absurd (cc (h.split))
IsSafe→validate_codes (c ∷ cs) h = elim (Bool-cases (contains_dots (c ∷ cs))) [
  | inl bad ↦
      (let (before, after, e) = contains_dots_split (c ∷ cs) bad in
        absurd (h.no_dots before after e))
  | inr fine ↦ elim (Bool-cases (is_dot (c ∷ cs))) [
    | inl dot ↦ absurd (h.not_dot (is_dot_inv (c ∷ cs) dot))
    | inr named ↦ rw (named, subject_regex-IsSafe c cs h, fine)
  ]
]

-- ValidateSubject admits a certname exactly when it is safe: it begins with a lower-case letter, a
-- digit, an underscore or a dot, all after that are those or dashes, it is not a lone dot, and no
-- two dots stand one after the other in it.
pub validate_subject_iff : (s : String) → (validate_subject s ≡ true) ↔ IsSafe (codes s)
unfolding validate_subject
validate_subject_iff s = (validate_codes→IsSafe (codes s), IsSafe→validate_codes (codes s))

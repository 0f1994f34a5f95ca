-- ===== src/Managed/Waits.antt =====
-- What the schedule of managedSaveBackoff in internal/ca/managedcert.go comes to.
use openvox_ca.Prelude.{
  ℕ, zero, suc, ◌+◌, ◌-◌, ◌*◌, ◌%◌, ◌^◌, ◌≤◌, ◌<◌, ◌≡◌, refl, sym, ap, ◌∙◌, Bool, true, ◌&&◌, ◌==◌,
  ==_iff, and_true, arith, ◌⊎◌, inl, inr,
}
use native.Mathlib.Nat.{pow-suc}
use openvox_ca.Signing.Issue.{min}
use openvox_ca.Managed.Backoff.{
  save_backoff_base, save_backoff_cap, shifted_base, save_backoff_wait,
}

-- The schedule without machine words.
abbrev pub stated_wait : ℕ → ℕ
stated_wait shift = min (save_backoff_base * 2 ^ shift) save_backoff_cap

unfoldable agrees_below : ℕ → Bool
unfolding save_backoff_wait
agrees_below zero = true
agrees_below (suc n) = (save_backoff_wait (n + 2) == stated_wait n) && agrees_below n

agrees-64 : agrees_below 64 ≡ true
unfolding agrees_below
agrees-64 = refl

agrees_below-each :
    (n s : ℕ) → agrees_below n ≡ true → s < n → save_backoff_wait (s + 2) ≡ stated_wait s
unfolding agrees_below
agrees_below-each zero s h below = omega arith
agrees_below-each (suc n) s h below =
    let (here, rest) = and_true (save_backoff_wait (n + 2) == stated_wait n) (agrees_below n) h in
    let split : (s < n) ⊎ (s ≡ n) = ground arith in
    elim split [
      | inl lt ↦ agrees_below-each n s rest lt
      | inr same ↦ rw (same) ((==_iff (save_backoff_wait (n + 2)) (stated_wait n)).0 here)
    ]

swap : (a b : ℕ) → a * b * 2 ≡ a * 2 * b
swap a b = grind arith

pow_above : (k s : ℕ) → 2 ^ (k + s) ≡ 2 ^ k * 2 ^ s
pow_above zero s = ground arith
pow_above (suc k) s =
    let next : suc k + s ≡ suc (k + s) = omega arith in
    rw (next, pow-suc 2 (k + s), pow_above k s, pow-suc 2 k) (swap (2 ^ k) (2 ^ s))

multiple_of_word : (t : ℕ) → save_backoff_base * (2 ^ 64 * t) % 2 ^ 64 ≡ 0
multiple_of_word t = omega arith

-- From the shift of 64 on no bit is left, and the cap is in force.
shifted_base-zero : (s : ℕ) → shifted_base (64 + s) ≡ 0
unfolding shifted_base
shifted_base-zero s = rw (pow_above 64 s) (multiple_of_word (2 ^ s))

pow-positive : (s : ℕ) → 0 < 2 ^ s
pow-positive zero = ground arith
pow-positive (suc s) = grind (arith, pow-suc, pow-positive s)

over_cap :
    (t : ℕ) → 0 < t → min (save_backoff_base * (2 ^ 64 * t)) save_backoff_cap ≡ save_backoff_cap
over_cap t h = ground arith

beyond_64 : (s : ℕ) → save_backoff_wait (64 + s + 2) ≡ stated_wait (64 + s)
unfolding save_backoff_wait
beyond_64 s =
    let shift : 64 + s + 2 - 2 ≡ 64 + s = omega arith in
    rw (shift, shifted_base-zero s, pow_above 64 s) (sym (over_cap (2 ^ s) (pow-positive s)))

by_shift : (s : ℕ) → save_backoff_wait (s + 2) ≡ stated_wait s
by_shift s =
    let split : (s < 64) ⊎ (s ≡ 64 + (s - 64)) = ground arith in
    elim split [
      | inl lt ↦ agrees_below-each 64 s agrees-64 lt
      | inr same ↦
          ap (λ x. save_backoff_wait (x + 2)) same ∙ beyond_64 (s - 64) ∙ sym (ap stated_wait same)
    ]

-- The wait after `count` failures in a row, of two or more, is the base doubled for each failure
-- after the second, or the cap where that is less, although the code shifts a 64-bit number.
pub save_backoff_wait-doubles :
    (count : ℕ)
    → 2 ≤ count
    → save_backoff_wait count ≡ min (save_backoff_base * 2 ^ (count - 2)) save_backoff_cap
save_backoff_wait-doubles count two =
    let back : count ≡ (count - 2) + 2 = omega arith in
    ap save_backoff_wait back ∙ by_shift (count - 2)

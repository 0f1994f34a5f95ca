-- ===== src/Prelude/Texts.antt =====
-- Text: the native `String` where whole texts are compared, a list of code points where the program
-- walks it, and association lists keyed by `String`.
use Prim.Native.Nat.{ℕ}
use Prim.Native.Char.{code}
use Prim.Native.String.{String}
use text.Mathlib.Text.{◌==◌ as string_eq}
use text.Mathlib.TextEquality.{eq_iff}
use mathlib.Core.Path.{◌≡◌, refl}
use mathlib.Core.Logic.{◌↔◌}
use mathlib.Core.Bool.{Bool, true, false, ◌&&◌}
use mathlib.Core.Option.{Option, none, some}
use mathlib.Core.List.{List, [], ◌∷◌}
use native.Mathlib.Omega.{arith}
use openvox_ca.Prelude.Tests.{◌==◌, if◌then◌else◌}

abbrev pub str_eq : String → String → Bool
str_eq = string_eq

pub str_eq_iff : (s t : String) → (str_eq s t ≡ true) ↔ (s ≡ t)
str_eq_iff s t = eq_iff s t

pub str_eq_refl : (s : String) → str_eq s s ≡ true
str_eq_refl s = (str_eq_iff s s).1 refl

abbrev pub codes : String → List ℕ
codes String.[] = []
codes (String.◌∷◌ c s) = code c ∷ codes s

-- Equality of two lists of numbers (code points, or the arcs of an object identifier).
unfoldable pub codes_eq : List ℕ → List ℕ → Bool
codes_eq [] [] = true
codes_eq (x ∷ xs) (y ∷ ys) = (x == y) && codes_eq xs ys
codes_eq _ _ = false

pub codes_eq_iff : (xs ys : List ℕ) → (codes_eq xs ys ≡ true) ↔ (xs ≡ ys)
unfolding codes_eq
codes_eq_iff [] [] = ground arith
codes_eq_iff [] (y ∷ ys) = ground arith
codes_eq_iff (x ∷ xs) [] = ground arith
codes_eq_iff (x ∷ xs) (y ∷ ys) = ground (arith, codes_eq_iff xs ys)

pub codes_eq_refl : (xs : List ℕ) → codes_eq xs xs ≡ true
codes_eq_refl xs = (codes_eq_iff xs xs).1 refl

-- The backend's keyed blobs, one map for each kind of key.
abbrev pub Map {ℓ} : Type ℓ → Type ℓ
Map V = List (String × V)

module _ {ℓ} {V : Type ℓ} where
  unfoldable pub lookup : String → Map V → Option V
  lookup key [] = none
  lookup key ((name, value) ∷ rest) = if str_eq name key then some value else lookup key rest

  unfoldable pub insert : String → V → Map V → Map V
  insert key new [] = (key, new) ∷ []
  insert key new ((name, value) ∷ rest) =
      if str_eq name key then (key, new) ∷ rest else (name, value) ∷ insert key new rest

  unfoldable pub delete : String → Map V → Map V
  delete key [] = []
  delete key ((name, value) ∷ rest) =
      let others = delete key rest in if str_eq name key then others else (name, value) ∷ others

  pub lookup-insert :
      (key asked : String) (new : V) (m : Map V)
      → lookup asked (insert key new m) ≡ (if str_eq key asked then some new else lookup asked m)
  unfolding insert lookup
  lookup-insert key asked new [] = refl
  lookup-insert key asked new ((name, value) ∷ rest) = ground (
    arith,
    lookup-insert key asked new rest,
    eq_iff name key,
    eq_iff key asked,
    eq_iff name asked,
  )

  pub lookup-delete :
      (key asked : String) (m : Map V)
      → lookup asked (delete key m) ≡ (if str_eq key asked then none else lookup asked m)
  unfolding delete lookup
  lookup-delete key asked [] = ground arith
  lookup-delete key asked ((name, value) ∷ rest) =
      ground
        (arith, lookup-delete key asked rest, eq_iff name key, eq_iff key asked, eq_iff name asked)

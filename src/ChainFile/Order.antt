-- ===== src/ChainFile/Order.antt =====
-- newerCRL as an order.
use openvox_ca.Prelude.{ℕ, ◌≡◌, refl, true, false, Option, none, some, ltb, arith}
use openvox_ca.World.Types.{Crl}
use openvox_ca.Crl.Lists.{newer_crl, newer}

newer-asym : (a b : Option ℕ) (s t : ℕ) → newer a b (ltb s t) ≡ true → newer b a (ltb t s) ≡ false
newer-asym none none s t h = ground arith
newer-asym none (some y) s t h = cc
newer-asym (some x) none s t h = refl
newer-asym (some x) (some y) s t h = ground arith

newer_trans :
    (a b c : Option ℕ) (s t u : ℕ)
    → newer a b (ltb t s) ≡ false
    → newer b c (ltb u t) ≡ false
    → newer a c (ltb u s) ≡ false
newer_trans none none none s t u h k = ground arith
newer_trans none none (some z) s t u h k = refl
newer_trans none (some y) none s t u h k = cc
newer_trans none (some y) (some z) s t u h k = refl
newer_trans (some x) none c s t u h k = cc
newer_trans (some x) (some y) none s t u h k = cc
newer_trans (some x) (some y) (some z) s t u h k = ground arith

newer_irrefl : (a : Option ℕ) (s : ℕ) → newer a a (ltb s s) ≡ false
newer_irrefl none s = ground arith
newer_irrefl (some x) s = ground arith

pub newer_crl-asym : (a b : Crl) → newer_crl a b ≡ true → newer_crl b a ≡ false
unfolding newer_crl
newer_crl-asym a b h = newer-asym a.number b.number b.this_update a.this_update h

-- A list that is not newer than one that is not newer than a third is not newer than that.
pub newer_crl_trans :
    (a b c : Crl) → newer_crl a b ≡ false → newer_crl b c ≡ false → newer_crl a c ≡ false
unfolding newer_crl
newer_crl_trans a b c h k =
    newer_trans a.number b.number c.number a.this_update b.this_update c.this_update h k

pub newer_crl_irrefl : (a : Crl) → newer_crl a a ≡ false
unfolding newer_crl
newer_crl_irrefl a = newer_irrefl a.number a.this_update

-- ===== src/Ocsp/Current.antt =====
-- What the operations on the list and the index keep of the cache of responses.
use openvox_ca.Prelude.{
  ℕ, suc, ◌≡◌, refl, sym, Bool, true, false, not, Option, none, some, [], ◌∷◌, Memᴰ, arith,
  Bool-cases, String, ℤ, ◌==ℤ◌, ==ℤ_iff, inl, inr, ◌==◌, str_eq,
}
use openvox_ca.World.Types.{Mem, Crl, CachedResponse, good}
use openvox_ca.World.Exec.{World}
use openvox_ca.Crl.Lists.{listed, serial_in_crl}
use openvox_ca.Crl.Store.{was_listed, install_cached_crl_locked}
use openvox_ca.Signing.Issue.{drop_serial, index_serial_locked}
use openvox_ca.Cleanup.{drop_serial_locked}
use openvox_ca.Ocsp.{ocsp_cacheable_hash, is_indexed, is_definite}
use openvox_ca.Ocsp.Entries.{mem-evict_ocsp, mem-invalidate_newly_revoked}
use openvox_ca.SerialSync.{
  SerialIndex, reconcile_serial_index_locked, add_stored, add_entry, add_half, drop_half,
  drop_missing, subject_at, set_serial,
}

-- A response that may stand in the cache beside a list and an index. It does not vouch for a serial
-- that the list holds, answers for no serial that the index lacks, and lasts as long as it says.
pub record IsCurrent (crl : Option Crl) (index : SerialIndex) (r : CachedResponse) : Type 0 where
  pub cacheable : ocsp_cacheable_hash r.hash ≡ true
  pub own : r.der.serial ≡ r.serial
  pub window : r.der.next_update ≡ some r.expires_at
  pub unasked : r.der.nonce ≡ none
  pub definite : is_definite r.der.status ≡ true
  pub indexed : is_indexed r.serial index ≡ true
  pub unrevoked : r.der.status ≡ good → was_listed crl r.serial ≡ false

abbrev pub OcspSafe : Mem → Type 0
OcspSafe m = (r : CachedResponse) → Memᴰ r m.ocsp_cache → IsCurrent m.cached_crl m.serial_index r

-- The list and the index may change under a response that stays indexed and unrevoked.
IsCurrent-moved :
    {crl crl' : Option Crl} {index index' : SerialIndex} {r : CachedResponse}
    → IsCurrent crl index r
    → is_indexed r.serial index' ≡ true
    → (r.der.status ≡ good → was_listed crl' r.serial ≡ false)
    → IsCurrent crl' index' r
IsCurrent-moved c indexed unrevoked = record {
  cacheable = c.cacheable;
  own = c.own;
  window = c.window;
  unasked = c.unasked;
  definite = c.definite;
  indexed = indexed;
  unrevoked = unrevoked;
}

pub install-OcspSafe :
    (next : Crl) (w : World) → OcspSafe w.mem → OcspSafe (install_cached_crl_locked next w).1.mem
unfolding install_cached_crl_locked serial_in_crl
install-OcspSafe next w safe r left =
    let previous = w.mem.cached_crl in
    let (there, before) =
      mem-invalidate_newly_revoked previous next.entries w.mem.ocsp_cache left in
    let current = safe r there in
    IsCurrent-moved current current.indexed (λ vouches.
      elim (Bool-cases (listed r.serial next.entries)) [
        | inr free ↦ free
        | inl now ↦ absurd (cc (before current.cacheable now, current.unrevoked vouches))
      ])

==ℤ_false : (a b : ℤ) → (a ==ℤ b) ≡ false → (b ==ℤ a) ≡ false
==ℤ_false a b h = elim (Bool-cases (b ==ℤ a)) [
  | inr other ↦ other
  | inl same ↦ absurd (cc (h, (==ℤ_iff a b).1 (sym ((==ℤ_iff b a).0 same))))
]

is_indexed-drop_other :
    (k n : ℤ) (index : SerialIndex)
    → (k ==ℤ n) ≡ false
    → is_indexed k index ≡ true
    → is_indexed k (drop_serial n index) ≡ true
unfolding is_indexed
is_indexed-drop_other k n [] h t = cc
is_indexed-drop_other k n ((x, s) ∷ index) h t =
    ground (arith, is_indexed-drop_other k n index, ==ℤ_iff x n, ==ℤ_iff x k, ==ℤ_iff k n)

is_indexed-set_serial :
    (k n : ℤ) (s : String) (index : SerialIndex)
    → is_indexed k index ≡ true
    → is_indexed k (set_serial n s index) ≡ true
unfolding is_indexed
is_indexed-set_serial k n s index h = elim (Bool-cases (n ==ℤ k)) [
  | inl mine ↦ rw mine refl
  | inr other ↦ rw other (is_indexed-drop_other k n index (==ℤ_false n k other) h)
]

pub index-OcspSafe :
    (n : ℤ) (s : String) (w : World) → OcspSafe w.mem → OcspSafe (index_serial_locked n s w).1.mem
unfolding index_serial_locked
index-OcspSafe n s w safe r there =
    let current = safe r there in
    IsCurrent-moved current (is_indexed-set_serial r.serial n s w.mem.serial_index current.indexed)
      current.unrevoked

pub drop-OcspSafe : (n : ℤ) (m : Mem) → OcspSafe m → OcspSafe (drop_serial_locked n m)
drop-OcspSafe n m safe r left =
    let (there, other) = mem-evict_ocsp n m.ocsp_cache left in
    let current = safe r there in
    IsCurrent-moved current
      (is_indexed-drop_other r.serial n m.serial_index (other current.cacheable) current.indexed)
      current.unrevoked

add_entry-indexed :
    (k n : ℤ) (s : String) (known : Option String) (a : ℕ) (index : SerialIndex)
    → is_indexed k index ≡ true
    → is_indexed k (add_entry n s known (a, index)).1 ≡ true
add_entry-indexed k n s none a index h = is_indexed-set_serial k n s index h
add_entry-indexed k n s (some t) a index h = elim (Bool-cases (str_eq t s)) [
  | inl same ↦ rw same h
  | inr new ↦ rw new (is_indexed-set_serial k n s index h)
]

add_stored-indexed :
    (k : ℤ) (stored : SerialIndex) (p : ℕ × SerialIndex)
    → is_indexed k p.1 ≡ true
    → is_indexed k (add_stored stored p).1 ≡ true
unfolding add_stored
add_stored-indexed k [] p h = h
add_stored-indexed k ((n, s) ∷ stored) (a, index) h =
    add_stored-indexed k stored (add_entry n s (subject_at n index) (a, index))
      (add_entry-indexed k n s (subject_at n index) a index h)

add_half-OcspSafe :
    (pruned : Bool) (stored : SerialIndex) (m : Mem)
    → OcspSafe m
    → OcspSafe (add_half pruned stored m).1
add_half-OcspSafe true stored m safe = safe
add_half-OcspSafe false stored m safe = λ r there.
    let current = safe r there in
    IsCurrent-moved current (add_stored-indexed r.serial stored (0, m.serial_index) current.indexed)
      current.unrevoked

drop_missing-OcspSafe :
    (stored from : SerialIndex) (n : ℕ) (m : Mem)
    → OcspSafe m
    → OcspSafe (drop_missing stored from (n, m)).1
unfolding drop_missing
drop_missing-OcspSafe stored [] n m safe = safe
drop_missing-OcspSafe stored ((k, s) ∷ from) n m safe = elim (Bool-cases (is_indexed k stored)) [
  | inl there ↦ rw (there, drop_missing) (drop_missing-OcspSafe stored from n m safe)
  | inr gone ↦
      rw (gone, drop_missing)
        (drop_missing-OcspSafe stored from (suc n) (drop_serial_locked k m)
          (drop-OcspSafe k m safe))
]

drop_half-OcspSafe :
    (raced : Bool) (stored : SerialIndex) (p : ℕ × Mem)
    → OcspSafe p.1
    → OcspSafe (drop_half raced stored p).1
drop_half-OcspSafe true stored (a, m) safe = safe
drop_half-OcspSafe false stored (a, m) safe = drop_missing-OcspSafe stored m.serial_index 0 m safe

pub reconcile-OcspSafe :
    (stored : SerialIndex) (e r : ℕ) (m : Mem)
    → OcspSafe m
    → OcspSafe (reconcile_serial_index_locked stored e r m).1
unfolding reconcile_serial_index_locked
reconcile-OcspSafe stored e r m safe =
    let pruned = not (m.serial_index_removal_epoch == r) in
    drop_half-OcspSafe (not (m.serial_index_epoch == e)) stored (add_half pruned stored m)
      (add_half-OcspSafe pruned stored m safe)

-- ===== src/Ocsp/Entries.antt =====
-- The cache of responses: what deletion, eviction and invalidation leave in it.
use openvox_ca.Prelude.{
  ◌≡◌, refl, sym, true, false, Option, List, [], ◌∷◌, Memᴰ, arith, Bool-cases, ℤ, ◌==ℤ◌, ==ℤ_iff,
  inl, inr,
}
use openvox_ca.World.Types.{CachedResponse, HashId, RevocationEntry, Crl}
use openvox_ca.Crl.Lists.{listed}
use openvox_ca.Crl.Store.{
  has_key, ocsp_cache_hashes, delete_response, evict_hashes, evict_ocsp, was_listed,
  invalidate_newly_revoked,
}
use openvox_ca.Ocsp.{contains_hash, ocsp_cacheable_hash}

pub mem-delete_response :
    (n : ℤ) (h : HashId) (rs : List CachedResponse) {r : CachedResponse}
    → Memᴰ r (delete_response n h rs)
    → Memᴰ r rs × (has_key n h r ≡ false)
unfolding delete_response
mem-delete_response n h [] = λ m. elim m [ ]
mem-delete_response n h (x ∷ rs) {r = r} = elim (Bool-cases (has_key n h x)) [
  | inl gone ↦
      rw gone (λ m. let (there, other) = mem-delete_response n h rs m in (Memᴰ.tail there, other))
  | inr kept ↦ rw kept (λ m. elim m [
    | Memᴰ.head p ↦ (Memᴰ.head p, rw p kept)
    | Memᴰ.tail t ↦ let (there, other) = mem-delete_response n h rs t in (Memᴰ.tail there, other)
  ])
]

-- No key of the serial and one of the hashes is left.
mem-evict_hashes :
    (n : ℤ) (hs : List HashId) (rs : List CachedResponse) {r : CachedResponse}
    → Memᴰ r (evict_hashes n hs rs)
    → Memᴰ r rs × ((r.serial ==ℤ n) ≡ true → contains_hash r.hash hs ≡ false)
unfolding evict_hashes contains_hash
mem-evict_hashes n [] rs m = (m, λ h. refl)
mem-evict_hashes n (h ∷ hs) rs m =
    let (left, spared) = mem-evict_hashes n hs (delete_response n h rs) m in
    let (there, other) = mem-delete_response n h rs left in
    (there, λ same. ground (arith, spared same, other, same))

-- An eviction leaves nothing of the serial that may be cached.
pub mem-evict_ocsp :
    (n : ℤ) (rs : List CachedResponse) {r : CachedResponse}
    → Memᴰ r (evict_ocsp n rs)
    → Memᴰ r rs × (ocsp_cacheable_hash r.hash ≡ true → (r.serial ==ℤ n) ≡ false)
unfolding evict_ocsp ocsp_cacheable_hash
mem-evict_ocsp n rs {r = r} m =
    let (there, spared) = mem-evict_hashes n ocsp_cache_hashes rs m in
    (
      there,
      λ cacheable. elim (Bool-cases (r.serial ==ℤ n)) [
        | inl same ↦ cc (spared same, cacheable)
        | inr other ↦ other
      ],
    )

abbrev pub ListedBefore : Option Crl → List RevocationEntry → CachedResponse → Type 0
ListedBefore previous es r =
    ocsp_cacheable_hash r.hash ≡ true
    → listed r.serial es ≡ true
    → was_listed previous r.serial ≡ true

-- What an install leaves was listed before, or is not listed now.
pub mem-invalidate_newly_revoked :
    (previous : Option Crl) (es : List RevocationEntry) (rs : List CachedResponse)
    {r : CachedResponse}
    → Memᴰ r (invalidate_newly_revoked previous es rs)
    → Memᴰ r rs × ListedBefore previous es r
unfolding invalidate_newly_revoked listed
mem-invalidate_newly_revoked previous [] rs = λ m. (m, λ c h. cc)
mem-invalidate_newly_revoked previous (e ∷ es) rs {r = r} =
    elim (Bool-cases (was_listed previous e.serial)) [
      | inl old ↦ rw old (λ m.
          let (there, before) = mem-invalidate_newly_revoked previous es rs m in
          (
            there,
            λ cacheable h. elim (Bool-cases (e.serial ==ℤ r.serial)) [
              | inl same ↦ rw (← (==ℤ_iff e.serial r.serial).0 same) old
              | inr diff ↦ before cacheable (ground (arith, h, diff))
            ],
          ))
      | inr new ↦ rw new (λ m.
          let (left, before) =
            mem-invalidate_newly_revoked previous es (evict_ocsp e.serial rs) m in
          let (there, other) = mem-evict_ocsp e.serial rs left in
          (
            there,
            λ cacheable h. elim (Bool-cases (e.serial ==ℤ r.serial)) [
              | inl same ↦ absurd (
                  cc (
                    other cacheable,
                    (==ℤ_iff r.serial e.serial).1 (sym ((==ℤ_iff e.serial r.serial).0 same)),
                  ))
              | inr diff ↦ before cacheable (ground (arith, h, diff))
            ],
          ))
    ]

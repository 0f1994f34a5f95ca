-- ===== src/ChainFile/Deduped.antt =====
-- dedupeCRLs against its reference: for each ancestor, one pass for the newest.
use openvox_ca.Prelude.{
  ℕ, ◌≡◌, refl, ap, ◌∙◌, true, false, Option, none, some, List, [], ◌∷◌, ◌++◌, All, arith,
  Bool-cases, inl, inr, if◌then◌else◌, ◌==◌, ==_iff,
}
use mathlib.Core.List.{append-nil}
use openvox_ca.World.Types.{Crl}
use openvox_ca.Crl.Lists.{newer_crl}
use openvox_ca.ChainFile.{
  BundleCert, Kept, is_tag, seen, replace_older, place, dedupe_from, dedupe_crls, crls_of,
  signer_of,
}
use openvox_ca.ChainFile.Newest.{raw_of, is_by, pick, newest_from}

-- The lists of an ancestor, in order.
unfoldable pub by_signer : List BundleCert → ℕ → List Crl → List Crl
by_signer issuers k [] = []
by_signer issuers k (crl ∷ crls) =
    let rest = by_signer issuers k crls in if is_by issuers k crl then crl ∷ rest else rest

abbrev pub at_most_one : Option Crl → List Crl
at_most_one none = []
at_most_one (some crl) = crl ∷ []

-- The same by the keys of the map.
tagged : ℕ → List Kept → List Crl
tagged k [] = []
tagged k ((tag, crl) ∷ out) = let rest = tagged k out in if is_tag k tag then crl ∷ rest else rest

tagged-append :
    (k : ℕ) (out : List Kept) (tag : Option ℕ) (crl : Crl)
    → tagged k (out ++ (tag, crl) ∷ []) ≡ tagged k out ++ (if is_tag k tag then crl ∷ [] else [])
unfolding tagged
tagged-append k [] tag crl = ground arith
tagged-append k ((t, x) ∷ out) tag crl = elim (Bool-cases (is_tag k t)) [
  | inl mine ↦ rw mine (ap (λ (l : List Crl). x ∷ l) (tagged-append k out tag crl))
  | inr other ↦ rw other (tagged-append k out tag crl)
]

newer_head : Crl → List Crl → List Crl
newer_head crl [] = []
newer_head crl (x ∷ xs) = (if newer_crl crl x then crl else x) ∷ xs

tagged-replace_self :
    (k : ℕ) (crl : Crl) (out : List Kept)
    → tagged k (replace_older k crl out) ≡ newer_head crl (tagged k out)
unfolding tagged replace_older newer_head
tagged-replace_self k crl [] = refl
tagged-replace_self k crl ((t, x) ∷ out) = elim (Bool-cases (is_tag k t)) [
  | inl mine ↦ rw mine (rw mine refl)
  | inr other ↦ rw other (rw other (tagged-replace_self k crl out))
]

tagged-replace_other :
    (k j : ℕ) (crl : Crl) (out : List Kept)
    → (j == k) ≡ false
    → tagged k (replace_older j crl out) ≡ tagged k out
unfolding tagged replace_older
tagged-replace_other k j crl [] h = refl
tagged-replace_other k j crl ((none, x) ∷ out) h = tagged-replace_other k j crl out h
tagged-replace_other k j crl ((some t, x) ∷ out) h = elim (Bool-cases (t == j)) [
  | inl same ↦ let other : (t == k) ≡ false = ground (arith, h, same) in rw (same, other) refl
  | inr diff ↦
      rw diff
        (ap (λ (l : List Crl). if t == k then x ∷ l else l) (tagged-replace_other k j crl out h))
]

seen-tagged : (k : ℕ) (out : List Kept) → seen k out ≡ false → tagged k out ≡ []
unfolding seen tagged
seen-tagged k [] h = refl
seen-tagged k ((t, x) ∷ out) h = ground (arith, seen-tagged k out)

tagged-seen : (k : ℕ) (out : List Kept) → seen k out ≡ true → ¬ (tagged k out ≡ [])
unfolding seen tagged
tagged-seen k [] h e = cc
tagged-seen k ((t, x) ∷ out) h e = ground (arith, tagged-seen k out)

place_mine :
    (k : ℕ) (crl : Crl) (out : List Kept) (best : Option Crl)
    → tagged k out ≡ at_most_one best
    → tagged k (if seen k out then replace_older k crl out else out ++ (some k, crl) ∷ [])
      ≡ at_most_one (pick true crl best)
unfolding newer_head
place_mine k crl out none h = elim (Bool-cases (seen k out)) [
  | inl old ↦ absurd (tagged-seen k out old h)
  | inr new ↦ rw new (tagged-append k out (some k) crl ∙ rw (h, (==_iff k k).1 refl) refl)
]
place_mine k crl out (some x) h = elim (Bool-cases (seen k out)) [
  | inr new ↦ cc (seen-tagged k out new, h)
  | inl old ↦ rw old (tagged-replace_self k crl out ∙ rw h (ground arith))
]

-- Placing a list does to those of an ancestor what the reference does.
tagged-place :
    (k : ℕ) (signer : Option BundleCert) (crl : Crl) (out : List Kept) (best : Option Crl)
    → tagged k out ≡ at_most_one best
    → tagged k (place signer crl out) ≡ at_most_one (pick (is_tag k (raw_of signer)) crl best)
tagged-place k none crl out best h = tagged-append k out none crl ∙ append-nil (tagged k out) ∙ h
tagged-place k (some cert) crl out best h = elim (Bool-cases (cert.raw == k)) [
  | inl mine ↦
      rw (mine, ← (==_iff cert.raw k).0 mine)
        (place_mine cert.raw crl out best (rw (← (==_iff cert.raw k).0 mine) at h))
  | inr other ↦ rw other (elim (Bool-cases (seen cert.raw out)) [
    | inl old ↦ rw old (tagged-replace_other k cert.raw crl out other ∙ h)
    | inr new ↦
        rw new (tagged-append k out (some cert.raw) crl ∙ rw other (append-nil (tagged k out)) ∙ h)
  ])
]

-- Each entry has the key of its signer.
abbrev Keyed : List BundleCert → List Kept → Type 0
Keyed issuers = All (λ entry. entry.0 ≡ raw_of (signer_of issuers entry.1))

append-Keyed :
    (issuers : List BundleCert) (out : List Kept) (tag : Option ℕ) (crl : Crl)
    → Keyed issuers out
    → tag ≡ raw_of (signer_of issuers crl)
    → Keyed issuers (out ++ (tag, crl) ∷ [])
append-Keyed issuers [] tag crl all h = (h, tt)
append-Keyed issuers (x ∷ out) tag crl all h = (all.0, append-Keyed issuers out tag crl all.1 h)

replace-Keyed :
    (issuers : List BundleCert) (k : ℕ) (crl : Crl) (out : List Kept)
    → some k ≡ raw_of (signer_of issuers crl)
    → Keyed issuers out
    → Keyed issuers (replace_older k crl out)
unfolding replace_older
replace-Keyed issuers k crl [] h all = tt
replace-Keyed issuers k crl ((none, x) ∷ out) h all =
    (all.0, replace-Keyed issuers k crl out h all.1)
replace-Keyed issuers k crl ((some t, x) ∷ out) h all = elim (Bool-cases (t == k)) [
  | inr other ↦ rw other (all.0, replace-Keyed issuers k crl out h all.1)
  | inl same ↦ rw same (elim (Bool-cases (newer_crl crl x)) [
    | inl newer ↦ rw newer (ap some ((==_iff t k).0 same) ∙ h, all.1)
    | inr older ↦ rw older (all.0, all.1)
  ])
]

place-Keyed :
    (issuers : List BundleCert) (signer : Option BundleCert) (crl : Crl) (out : List Kept)
    → signer_of issuers crl ≡ signer
    → Keyed issuers out
    → Keyed issuers (place signer crl out)
place-Keyed issuers none crl out h all = append-Keyed issuers out none crl all (rw h refl)
place-Keyed issuers (some cert) crl out h all = elim (Bool-cases (seen cert.raw out)) [
  | inl old ↦ rw old (replace-Keyed issuers cert.raw crl out (rw h refl) all)
  | inr new ↦ rw new (append-Keyed issuers out (some cert.raw) crl all (rw h refl))
]

by_signer-crls_of :
    (issuers : List BundleCert) (k : ℕ) (out : List Kept)
    → Keyed issuers out
    → by_signer issuers k (crls_of out) ≡ tagged k out
unfolding by_signer crls_of tagged
by_signer-crls_of issuers k [] all = refl
by_signer-crls_of issuers k ((t, x) ∷ out) all = rw (all.0) (
    ap (λ (l : List Crl). if is_by issuers k x then x ∷ l else l)
      (by_signer-crls_of issuers k out all.1))

dedupe_from-newest :
    (issuers : List BundleCert) (k : ℕ) (out : List Kept) (best : Option Crl) (crls : List Crl)
    → Keyed issuers out
    → tagged k out ≡ at_most_one best
    → by_signer issuers k (crls_of (dedupe_from issuers out crls))
      ≡ at_most_one (newest_from issuers k best crls)
unfolding dedupe_from newest_from
dedupe_from-newest issuers k out best [] all h = by_signer-crls_of issuers k out all ∙ h
dedupe_from-newest issuers k out best (crl ∷ crls) all h =
    dedupe_from-newest issuers k (place (signer_of issuers crl) crl out)
      (pick (is_by issuers k crl) crl best) crls
      (place-Keyed issuers (signer_of issuers crl) crl out refl all)
      (tagged-place k (signer_of issuers crl) crl out best h)

-- For each ancestor, told by the certificate of the bundle that vouches for its lists, the
-- deduplicated lists hold the newest one of those given, the first of equals, and no other.
pub dedupe_crls-newest :
    (issuers : List BundleCert) (crls : List Crl) (k : ℕ)
    → by_signer issuers k (dedupe_crls issuers crls) ≡ at_most_one (newest_from issuers k none crls)
unfolding dedupe_crls tagged
dedupe_crls-newest issuers crls k = dedupe_from-newest issuers k [] none crls tt refl

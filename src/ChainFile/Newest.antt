-- ===== src/ChainFile/Newest.antt =====
-- The newest list of an ancestor, chosen by one pass over the lists: what the code's maps amount to.
use openvox_ca.Prelude.{
  ℕ, ◌≡◌, refl, sym, Bool, true, false, ◌&&◌, Option, none, some, List, [], ◌∷◌, Memᴰ, arith,
  Bool-cases, and_true, inl, inr, ◌⊎◌, if◌then◌else◌,
}
use openvox_ca.World.Types.{Crl}
use openvox_ca.Crl.Lists.{newer_crl}
use openvox_ca.ChainFile.{BundleCert, signer_of, is_tag, is_newer}
use openvox_ca.ChainFile.Order.{newer_crl-asym, newer_crl_trans, newer_crl_irrefl}

abbrev pub raw_of : Option BundleCert → Option ℕ
raw_of none = none
raw_of (some cert) = some cert.raw

-- Whether the certificate with the encoding `k` is the one that vouches for the list.
abbrev pub is_by : List BundleCert → ℕ → Crl → Bool
is_by issuers k crl = is_tag k (raw_of (signer_of issuers crl))

abbrev pub pick : Bool → Crl → Option Crl → Option Crl
pick by crl best = if by && is_newer crl best then some crl else best

unfoldable pub newest_from : List BundleCert → ℕ → Option Crl → List Crl → Option Crl
newest_from issuers k best [] = best
newest_from issuers k best (crl ∷ crls) =
    newest_from issuers k (pick (is_by issuers k crl) crl best) crls

-- Not older than anything that was passed.
abbrev NotOlder : Crl → Option Crl → Type 0
NotOlder crl best = (m : Crl) × (best ≡ some m) × (newer_crl crl m ≡ false)

pick-NotOlder :
    (by : Bool) (crl : Crl) (best : Option Crl) → by ≡ true → NotOlder crl (pick by crl best)
pick-NotOlder by crl none h = rw h (crl, refl, newer_crl_irrefl crl)
pick-NotOlder by crl (some m) h = elim (Bool-cases (newer_crl crl m)) [
  | inl newer ↦ rw (h, newer) (crl, refl, newer_crl_irrefl crl)
  | inr not ↦ rw (h, not) (m, refl, not)
]

pick-keeps :
    (by : Bool) (crl old : Crl) (best : Option Crl)
    → NotOlder old best
    → NotOlder old (pick by crl best)
pick-keeps by crl old best (m, is, h) = rw is (elim (Bool-cases (by && newer_crl crl m)) [
  | inr stays ↦ rw stays (m, refl, h)
  | inl gives_way ↦
      let (_, newer) = and_true by (newer_crl crl m) gives_way in
      rw gives_way (crl, refl, newer_crl_trans old m crl h (newer_crl-asym crl m newer))
])

newest_from-keeps :
    (issuers : List BundleCert) (k : ℕ) (best : Option Crl) (crls : List Crl) (old : Crl)
    → NotOlder old best
    → NotOlder old (newest_from issuers k best crls)
unfolding newest_from
newest_from-keeps issuers k best [] old h = h
newest_from-keeps issuers k best (crl ∷ crls) old h =
    newest_from-keeps issuers k (pick (is_by issuers k crl) crl best) crls old
      (pick-keeps (is_by issuers k crl) crl old best h)

-- No list of the ancestor is newer than the one that is chosen.
pub newest_from-NotOlder :
    (issuers : List BundleCert) (k : ℕ) (best : Option Crl) (crls : List Crl) (crl : Crl)
    → Memᴰ crl crls
    → is_by issuers k crl ≡ true
    → NotOlder crl (newest_from issuers k best crls)
unfolding newest_from
newest_from-NotOlder issuers k best [] crl there = elim there [ ]
newest_from-NotOlder issuers k best (x ∷ crls) crl (Memᴰ.head p) = λ by. rw p (
    newest_from-keeps issuers k (pick (is_by issuers k x) x best) crls x
      (pick-NotOlder (is_by issuers k x) x best (rw p at by)))
newest_from-NotOlder issuers k best (x ∷ crls) crl (Memᴰ.tail t) =
    λ by. newest_from-NotOlder issuers k (pick (is_by issuers k x) x best) crls crl t by

-- The one that is chosen is the first best, or is among the lists and is of the ancestor.
pub newest_from-mem :
    (issuers : List BundleCert) (k : ℕ) (best : Option Crl) (crls : List Crl) (m : Crl)
    → newest_from issuers k best crls ≡ some m
    → (best ≡ some m) ⊎ (Memᴰ m crls × (is_by issuers k m ≡ true))
unfolding newest_from
newest_from-mem issuers k best [] m h = inl h
newest_from-mem issuers k best (x ∷ crls) m h =
    elim (newest_from-mem issuers k (pick (is_by issuers k x) x best) crls m h) [
      | inr (there, by) ↦ inr (Memᴰ.tail there, by)
      | inl was ↦ elim (Bool-cases (is_by issuers k x && is_newer x best)) [
        | inr other ↦ inl (rw other at was)
        | inl chosen ↦
            let same : some x ≡ some m = rw chosen at was in
            let is : x ≡ m = ground (arith, same) in
            inr (
              Memᴰ.head (sym is),
              rw (← is) (and_true (is_by issuers k x) (is_newer x best) chosen).0,
            )
      ]
    ]

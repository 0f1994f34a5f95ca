-- ===== src/ChainFile/Stated.antt =====
-- What upstreamCRLs states: lists of other issuers only, none older than is published.
use openvox_ca.Prelude.{
  ℕ, ◌≡◌, refl, ap, false, Option, none, some, List, [], ◌∷◌, ◌++◌, Memᴰ, arith, Bool-cases, inl,
  inr, ◌⊎◌, mem-append_split,
}
use openvox_ca.World.Types.{Crl, CrlBlob, CaCert}
use openvox_ca.World.Exec.{Result, ok, err}
use openvox_ca.Crl.Lists.{newer_crl, crl_signed_by, foreign_crls, decode_crl_chain}
use openvox_ca.ChainFile.{
  BundleCert, ChainText, FileRead, not_set, absent, unreadable, contents, Kept, seen, replace_older,
  place, dedupe_from, dedupe_crls, crls_of, is_tag, signer_of, is_signed, verified, advance_over,
  published_upstream, over_published, foreign_in, monotonic_upstream, upstream_from,
  decode_crl_chain_strict, upstream_crls,
}
use openvox_ca.ChainFile.Monotone.{Advanced, advance_over-Advanced}

-- No list is ours.
abbrev pub AreForeign : Option CaCert → List Crl → Type 0
AreForeign cert crls = (crl : Crl) → Memᴰ crl crls → crl_signed_by cert crl ≡ false

foreign_crls_self :
    (cert : Option CaCert) (crls : List Crl) → AreForeign cert crls → foreign_crls cert crls ≡ crls
unfolding foreign_crls
foreign_crls_self cert [] h = refl
foreign_crls_self cert (x ∷ crls) h =
    rw (h x (Memᴰ.head refl))
      (ap (λ (l : List Crl). x ∷ l) (foreign_crls_self cert crls (λ c m. h c (Memᴰ.tail m))))

foreign_crls-AreForeign :
    (cert : Option CaCert) (crls : List Crl) → AreForeign cert (foreign_crls cert crls)
unfolding foreign_crls
foreign_crls-AreForeign cert [] crl = λ m. elim m [ ]
foreign_crls-AreForeign cert (x ∷ crls) crl = elim (Bool-cases (crl_signed_by cert x)) [
  | inl own ↦ rw own (foreign_crls-AreForeign cert crls crl)
  | inr other ↦ rw other (λ m. elim m [
    | Memᴰ.head p ↦ rw p other
    | Memᴰ.tail t ↦ foreign_crls-AreForeign cert crls crl t
  ])
]

verified-AreForeign :
    (cert : Option CaCert) (issuers : List BundleCert) (crls : List Crl)
    → AreForeign cert (verified cert issuers crls)
unfolding verified
verified-AreForeign cert issuers [] crl = λ m. elim m [ ]
verified-AreForeign cert issuers (x ∷ crls) crl = elim (Bool-cases (crl_signed_by cert x)) [
  | inl own ↦ rw own (verified-AreForeign cert issuers crls crl)
  | inr other ↦ rw other (elim (Bool-cases (is_signed (signer_of issuers x))) [
    | inr unsigned ↦ rw unsigned (verified-AreForeign cert issuers crls crl)
    | inl signed ↦ rw signed (λ m. elim m [
      | Memᴰ.head p ↦ rw p other
      | Memᴰ.tail t ↦ verified-AreForeign cert issuers crls crl t
    ])
  ])
]

-- Deduplication makes no list up.
mem-replace_older :
    (k : ℕ) (crl : Crl) (out : List Kept) {c : Crl}
    → Memᴰ c (crls_of (replace_older k crl out))
    → Memᴰ c (crls_of out) ⊎ (c ≡ crl)
unfolding replace_older crls_of
mem-replace_older k crl [] = λ m. inl m
mem-replace_older k crl ((tag, x) ∷ out) = elim (Bool-cases (is_tag k tag)) [
  | inl mine ↦ rw mine (elim (Bool-cases (newer_crl crl x)) [
    | inr older ↦ rw older (λ m. inl m)
    | inl newer ↦ rw newer (λ m. elim m [ Memᴰ.head p ↦ inr p | Memᴰ.tail t ↦ inl (Memᴰ.tail t) ])
  ])
  | inr other ↦ rw other (λ m. elim m [
    | Memᴰ.head p ↦ inl (Memᴰ.head p)
    | Memᴰ.tail t ↦ elim (mem-replace_older k crl out t) [
      | inl old ↦ inl (Memᴰ.tail old)
      | inr is ↦ inr is
    ]
  ])
]

crls_of-append :
    (out : List Kept) (tag : Option ℕ) (crl : Crl)
    → crls_of (out ++ (tag, crl) ∷ []) ≡ crls_of out ++ crl ∷ []
unfolding crls_of
crls_of-append [] tag crl = refl
crls_of-append ((t, x) ∷ out) tag crl = ap (λ (l : List Crl). x ∷ l) (crls_of-append out tag crl)

mem-placed :
    (out : List Kept) (tag : Option ℕ) (crl : Crl) {c : Crl}
    → Memᴰ c (crls_of (out ++ (tag, crl) ∷ []))
    → Memᴰ c (crls_of out) ⊎ (c ≡ crl)
mem-placed out tag crl m =
    elim (mem-append_split (crls_of out) (crl ∷ []) (rw (crls_of-append out tag crl) at m)) [
      | inl old ↦ inl old
      | inr (Memᴰ.head p) ↦ inr p
      | inr (Memᴰ.tail t) ↦ elim t [ ]
    ]

mem-place :
    (signer : Option BundleCert) (crl : Crl) (out : List Kept) {c : Crl}
    → Memᴰ c (crls_of (place signer crl out))
    → Memᴰ c (crls_of out) ⊎ (c ≡ crl)
mem-place none crl out = mem-placed out none crl
mem-place (some cert) crl out = elim (Bool-cases (seen cert.raw out)) [
  | inl old ↦ rw old (mem-replace_older cert.raw crl out)
  | inr new ↦ rw new (mem-placed out (some cert.raw) crl)
]

mem-dedupe_from :
    (issuers : List BundleCert) (out : List Kept) (crls : List Crl) {c : Crl}
    → Memᴰ c (crls_of (dedupe_from issuers out crls))
    → Memᴰ c (crls_of out) ⊎ Memᴰ c crls
unfolding dedupe_from
mem-dedupe_from issuers out [] m = inl m
mem-dedupe_from issuers out (x ∷ crls) m =
    elim (mem-dedupe_from issuers (place (signer_of issuers x) x out) crls m) [
      | inr later ↦ inr (Memᴰ.tail later)
      | inl placed ↦ elim (mem-place (signer_of issuers x) x out placed) [
        | inl old ↦ inl old
        | inr is ↦ inr (Memᴰ.head is)
      ]
    ]

dedupe_crls-AreForeign :
    (cert : Option CaCert) (issuers : List BundleCert) (crls : List Crl)
    → AreForeign cert crls
    → AreForeign cert (dedupe_crls issuers crls)
unfolding dedupe_crls crls_of
dedupe_crls-AreForeign cert issuers crls h c m = elim (mem-dedupe_from issuers [] crls m) [
  | inl none_kept ↦ elim none_kept [ ]
  | inr there ↦ h c there
]

-- What goes out, beside the chain that is published.
pub record OverPublished (cert : Option CaCert) (issuers : List BundleCert)
    (stored : Option CrlBlob) (incoming out : List Crl) : Type 0 where
  pub published : List Crl
  pub is_published : published_upstream cert stored ≡ ok published
  pub advanced : Advanced issuers published incoming out
  pub foreign : foreign_crls cert out ≡ out

-- A statement of the file.
pub record StatedOver (cert : Option CaCert) (bundle : Result (List BundleCert)) (file : FileRead)
    (stored : Option CrlBlob) (out : List Crl) : Type 0 where
  pub issuers : List BundleCert
  pub bundle_read : bundle ≡ ok issuers
  pub text : ChainText
  pub file_read : file ≡ contents text
  pub parsed : List Crl
  pub decoded : decode_crl_chain_strict text ≡ ok parsed
  pub over :
      OverPublished cert issuers stored (dedupe_crls issuers (verified cert issuers parsed)) out

published-AreForeign :
    (cert : Option CaCert) (stored : Option CrlBlob) (published : List Crl)
    → published_upstream cert stored ≡ ok published
    → AreForeign cert published
unfolding published_upstream
published-AreForeign cert none published h = cc
published-AreForeign cert (some blob) published h = go (decode_crl_chain blob) h
  where
    go : (r : Result (List Crl)) → foreign_in cert r ≡ ok published → AreForeign cert published
    go (err e) k = cc
    go (ok chain) k =
        let same : foreign_crls cert chain ≡ published = ground (arith, k) in
        rw (← same) (foreign_crls-AreForeign cert chain)

monotonic-OverPublished :
    (cert : Option CaCert) (stored : Option CrlBlob) (issuers : List BundleCert)
    (incoming out : List Crl)
    → AreForeign cert incoming
    → monotonic_upstream cert stored issuers incoming ≡ ok (some out)
    → OverPublished cert issuers stored incoming out
unfolding monotonic_upstream
monotonic-OverPublished cert stored issuers incoming out foreign h =
    go (published_upstream cert stored) refl h
  where
    go :
        (r : Result (List Crl))
        → published_upstream cert stored ≡ r
        → over_published issuers incoming r ≡ ok (some out)
        → OverPublished cert issuers stored incoming out
    go (err e) is k = cc
    go (ok published) is k =
        let same : advance_over issuers published incoming ≡ out = ground (arith, k) in
        let advanced : Advanced issuers published incoming out =
          rw (← same) (advance_over-Advanced issuers published incoming) in
        let old = published-AreForeign cert stored published is in
        record {
          published = published;
          is_published = is;
          advanced = advanced;
          foreign = foreign_crls_self cert out (λ c there. elim (advanced.from c there) [
            | inl new ↦ foreign c new
            | inr kept ↦ old c kept
          ]);
        }

-- What the file states is given only where the file decodes whole, the bundle was read, and the chain
-- that is published was read and decodes. It holds lists of the same ancestors, in the same order, as
-- those of the file that are not ours and that the bundle vouches for, without duplicates; each of
-- its lists is one of those or is published, none is ours, and none is older than a published list of
-- the same ancestor.
pub upstream_crls-StatedOver :
    (cert : Option CaCert) (bundle : Result (List BundleCert)) (file : FileRead)
    (stored : Option CrlBlob) {out : List Crl}
    → upstream_crls cert bundle file stored ≡ ok (some out)
    → StatedOver cert bundle file stored out
unfolding upstream_crls
upstream_crls-StatedOver cert bundle not_set stored h = cc
upstream_crls-StatedOver cert bundle absent stored h = cc
upstream_crls-StatedOver cert bundle unreadable stored h = cc
upstream_crls-StatedOver cert bundle (contents text) stored {out = out} h =
    go bundle (decode_crl_chain_strict text) refl h
  where
    go :
        (b : Result (List BundleCert)) (r : Result (List Crl))
        → decode_crl_chain_strict text ≡ r
        → upstream_from cert stored b r ≡ ok (some out)
        → StatedOver cert b (contents text) stored out
    go b (err e) is k = cc
    go (err e) (ok parsed) is k = cc
    go (ok issuers) (ok parsed) is k = record {
      issuers = issuers;
      bundle_read = refl;
      text = text;
      file_read = refl;
      parsed = parsed;
      decoded = is;
      over =
          monotonic-OverPublished cert stored issuers
            (dedupe_crls issuers (verified cert issuers parsed)) out
            (dedupe_crls-AreForeign cert issuers (verified cert issuers parsed)
              (verified-AreForeign cert issuers parsed))
            k;
    }

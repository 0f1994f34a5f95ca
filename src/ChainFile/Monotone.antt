-- ===== src/ChainFile/Monotone.antt =====
-- monotonicUpstream: no ancestor's list goes back.
use openvox_ca.Prelude.{
  ℕ, ◌≡◌, ◌↔◌, refl, ap, sym, ◌∙◌, true, false, Option, none, some, List, [], ◌∷◌, Memᴰ, arith,
  Bool-cases, inl, inr, ◌⊎◌, ◌==◌, ==_iff,
}
use openvox_ca.World.Types.{Crl}
use openvox_ca.Crl.Lists.{newer_crl}
use openvox_ca.ChainFile.{
  BundleCert, Current, current_at, is_newer, note, current_from, not_older, advance, advance_each,
  advance_over, signer_of, is_tag,
}
use openvox_ca.ChainFile.Order.{newer_crl_trans}
use openvox_ca.ChainFile.Newest.{raw_of, pick, newest_from, newest_from-NotOlder, newest_from-mem}

-- The certificate with the encoding `k` vouches for the list.
abbrev pub SignedBy : List BundleCert → ℕ → Crl → Type 0
SignedBy issuers k crl = raw_of (signer_of issuers crl) ≡ some k

is_tag_iff : (k : ℕ) (tag : Option ℕ) → (is_tag k tag ≡ true) ↔ (tag ≡ some k)
is_tag_iff k none = (λ h. cc, λ h. cc)
is_tag_iff k (some raw) = (λ h. ground (arith, h), λ h. ground (arith, h))

current_at-note :
    (k : ℕ) (signer : Option BundleCert) (crl : Crl) (current : Current)
    → current_at k (note signer crl current)
      ≡ pick (is_tag k (raw_of signer)) crl (current_at k current)
unfolding current_at
current_at-note k none crl current = refl
current_at-note k (some cert) crl current = elim (Bool-cases (cert.raw == k)) [
  | inl mine ↦
      rw (mine, ← (==_iff cert.raw k).0 mine)
        (elim (Bool-cases (is_newer crl (current_at cert.raw current))) [
          | inl newer ↦ rw (newer, (==_iff cert.raw cert.raw).1 refl) refl
          | inr older ↦ rw older refl
        ])
  | inr other ↦ rw other (elim (Bool-cases (is_newer crl (current_at cert.raw current))) [
    | inl newer ↦ rw (newer, other) refl
    | inr older ↦ rw older refl
  ])
]

current_from-newest :
    (issuers : List BundleCert) (k : ℕ) (current : Current) (published : List Crl)
    → current_at k (current_from issuers current published)
      ≡ newest_from issuers k (current_at k current) published
unfolding current_from newest_from
current_from-newest issuers k current [] = refl
current_from-newest issuers k current (crl ∷ published) =
    current_from-newest issuers k (note (signer_of issuers crl) crl current) published
    ∙ ap (λ (o : Option Crl). newest_from issuers k o published)
        (current_at-note k (signer_of issuers crl) crl current)

abbrev pub add_signer : Option BundleCert → List ℕ → List ℕ
add_signer none rest = rest
add_signer (some cert) rest = cert.raw ∷ rest

-- The encodings of the certificates that vouch for the lists, in order.
unfoldable pub signers : List BundleCert → List Crl → List ℕ
signers issuers [] = []
signers issuers (crl ∷ crls) = add_signer (signer_of issuers crl) (signers issuers crls)

add_signer-some :
    (o : Option BundleCert) (k : ℕ) (rest : List ℕ)
    → raw_of o ≡ some k
    → add_signer o rest ≡ k ∷ rest
add_signer-some none k rest h = cc
add_signer-some (some cert) k rest h = let same : cert.raw ≡ k = ground (arith, h) in rw same refl

add_signer-none :
    (o : Option BundleCert) (rest : List ℕ) → raw_of o ≡ none → add_signer o rest ≡ rest
add_signer-none none rest h = refl
add_signer-none (some cert) rest h = cc

-- What goes out for what comes in, beside what is published.
pub record Advanced (issuers : List BundleCert) (published incoming out : List Crl) : Type 0 where
  pub never_back :
      (crl p : Crl) (k : ℕ)
      → Memᴰ crl out
      → Memᴰ p published
      → SignedBy issuers k crl
      → SignedBy issuers k p
      → newer_crl p crl ≡ false
  pub same_ancestors : signers issuers out ≡ signers issuers incoming
  pub from : (crl : Crl) → Memᴰ crl out → Memᴰ crl incoming ⊎ Memᴰ crl published

-- What goes out for one list of the ancestor `k`.
record AdvancedOne (issuers : List BundleCert) (k : ℕ) (published : List Crl) (x crl : Crl)
    : Type 0 where
  signed : SignedBy issuers k crl
  never_back : (p : Crl) → Memᴰ p published → SignedBy issuers k p → newer_crl p crl ≡ false
  from : (crl ≡ x) ⊎ Memᴰ crl published

published-not_newer :
    (issuers : List BundleCert) (k : ℕ) (published : List Crl) (prev p : Crl)
    → some prev ≡ newest_from issuers k none published
    → Memᴰ p published
    → SignedBy issuers k p
    → newer_crl p prev ≡ false
published-not_newer issuers k published prev p h there by =
    let (m, is, older) =
      newest_from-NotOlder issuers k none published p there
        ((is_tag_iff k (raw_of (signer_of issuers p))).1 by) in
    let chosen : some prev ≡ some m = h ∙ is in
    let same : prev ≡ m = ground (arith, chosen) in rw same older

not_older-AdvancedOne :
    (issuers : List BundleCert) (k : ℕ) (published : List Crl) (x : Crl) (o : Option Crl)
    → o ≡ newest_from issuers k none published
    → SignedBy issuers k x
    → AdvancedOne issuers k published x (not_older x o)
not_older-AdvancedOne issuers k published x none h signed = record {
  signed = signed;
  never_back = λ p there by.
      let (m, is, _) =
        newest_from-NotOlder issuers k none published p there
          ((is_tag_iff k (raw_of (signer_of issuers p))).1 by) in
      absurd (cc (h, is));
  from = inl refl;
}
not_older-AdvancedOne issuers k published x (some prev) h signed =
    elim (newest_from-mem issuers k none published prev (sym h)) [
      | inl none_best ↦ cc
      | inr (there, by) ↦ elim (Bool-cases (newer_crl prev x)) [
        | inl newer ↦ rw newer (record {
          signed = (is_tag_iff k (raw_of (signer_of issuers prev))).0 by;
          never_back = λ p. published-not_newer issuers k published prev p h;
          from = inr there;
        })
        | inr older ↦ rw older (record {
          signed = signed;
          never_back = λ p there' by'.
              newer_crl_trans p prev x (published-not_newer issuers k published prev p h there' by')
                older;
          from = inl refl;
        })
      ]
    ]

SignedBy-same :
    (issuers : List BundleCert) (j k : ℕ) (crl : Crl)
    → SignedBy issuers j crl
    → SignedBy issuers k crl
    → j ≡ k
SignedBy-same issuers j k crl h l = let same : some j ≡ some k = sym h ∙ l in ground (arith, same)

-- What goes out for the first list, and the rest.
cons-Advanced :
    (issuers : List BundleCert) (k : ℕ) (published : List Crl) (x crl : Crl)
    (incoming out : List Crl)
    → SignedBy issuers k x
    → AdvancedOne issuers k published x crl
    → Advanced issuers published incoming out
    → Advanced issuers published (x ∷ incoming) (crl ∷ out)
unfolding signers
cons-Advanced issuers k published x crl incoming out signed one rest = record {
  never_back = λ c p j there there' by by'. elim there [
    | Memᴰ.tail t ↦ rest.never_back c p j t there' by by'
    | Memᴰ.head e ↦
        let same = SignedBy-same issuers k j c (rw e one.signed) by in
        rw e (one.never_back p there' (rw same by'))
  ];
  same_ancestors =
      add_signer-some (signer_of issuers crl) k (signers issuers out) one.signed
      ∙ ap (λ (l : List ℕ). k ∷ l) rest.same_ancestors
      ∙ sym (add_signer-some (signer_of issuers x) k (signers issuers incoming) signed);
  from = λ c there. elim there [
    | Memᴰ.tail t ↦ elim (rest.from c t) [ inl i ↦ inl (Memᴰ.tail i) | inr p ↦ inr p ]
    | Memᴰ.head e ↦ elim one.from [ inl same ↦ inl (Memᴰ.head (e ∙ same)) | inr p ↦ inr (rw e p) ]
  ];
}

skip-Advanced :
    (issuers : List BundleCert) (published : List Crl) (x : Crl) (incoming out : List Crl)
    → raw_of (signer_of issuers x) ≡ none
    → Advanced issuers published incoming out
    → Advanced issuers published (x ∷ incoming) out
unfolding signers
skip-Advanced issuers published x incoming out unsigned rest = record {
  never_back = rest.never_back;
  same_ancestors =
      rest.same_ancestors
      ∙ sym (add_signer-none (signer_of issuers x) (signers issuers incoming) unsigned);
  from = λ c there. elim (rest.from c there) [ inl i ↦ inl (Memᴰ.tail i) | inr p ↦ inr p ];
}

advance-Advanced :
    (issuers : List BundleCert) (published incoming out : List Crl) (x : Crl)
    (signer : Option BundleCert)
    → signer_of issuers x ≡ signer
    → Advanced issuers published incoming out
    → Advanced issuers published
        (x ∷ incoming)
        (advance signer x (current_from issuers [] published) out)
unfolding current_at
advance-Advanced issuers published incoming out x none h rest =
    skip-Advanced issuers published x incoming out (rw h refl) rest
advance-Advanced issuers published incoming out x (some cert) h rest =
    let found = current_at cert.raw (current_from issuers [] published) in
    let signed : SignedBy issuers cert.raw x = rw h refl in
    cons-Advanced issuers cert.raw published x (not_older x found) incoming out signed
      (not_older-AdvancedOne issuers cert.raw published x found
        (current_from-newest issuers cert.raw [] published) signed)
      rest

advance_each-Advanced :
    (issuers : List BundleCert) (published incoming : List Crl)
    → Advanced issuers published incoming
        (advance_each issuers (current_from issuers [] published) incoming)
unfolding advance_each
advance_each-Advanced issuers published [] = record {
  never_back = λ c p k there. elim there [ ];
  same_ancestors = refl;
  from = λ c there. elim there [ ];
}
advance_each-Advanced issuers published (x ∷ incoming) =
    advance-Advanced issuers published incoming
      (advance_each issuers (current_from issuers [] published) incoming) x (signer_of issuers x)
      refl (advance_each-Advanced issuers published incoming)

pub advance_over-Advanced :
    (issuers : List BundleCert) (published incoming : List Crl)
    → Advanced issuers published incoming (advance_over issuers published incoming)
advance_over-Advanced issuers [] incoming = record {
  never_back = λ c p k there none_there. elim none_there [ ];
  same_ancestors = refl;
  from = λ c there. inl there;
}
advance_over-Advanced issuers (p ∷ published) incoming =
    advance_each-Advanced issuers (p ∷ published) incoming

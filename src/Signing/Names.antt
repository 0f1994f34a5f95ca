-- ===== src/Signing/Names.antt =====
-- What a certificate signed from a request can name and carry: checkSubjectAltNames and the copied
-- extensions of internal/ca/signing.go.
use openvox_ca.Prelude.{
  ℕ, ◌≡◌, refl, ap, Bool, true, false, not, ◌&&◌, List, [], ◌∷◌, ◌++◌, arith, Bool-cases, inl, inr,
  ◌⊎◌, ◌≢◌, ◌↔◌, String, codes, codes_eq, codes_eq_iff, All, ◌==◌, ==_iff, Memᴰ,
}
use openvox_ca.World.Types.{Oid, Extension, Config, Csr, SubjectAltNames}
use openvox_ca.World.Exec.{ok}
use openvox_ca.Signing.Policy.{
  has_prefix, is_puppet_oid, is_auth_oid, puppet_oid_arc, puppet_auth_oid_arc, copied_extensions,
  ascii_lower, dns_name, each, san_strings, disallowed_names, none_left, check_subject_alt_names,
}

-- An identifier is in an arc exactly where it extends it.
pub has_prefix_iff :
    (oid prefix : Oid) → (has_prefix oid prefix ≡ true) ↔ ((rest : Oid) × (oid ≡ prefix ++ rest))
unfolding has_prefix
has_prefix_iff oid [] = (λ h. (oid, refl), λ h. refl)
has_prefix_iff [] (p ∷ ps) = (λ h. cc, λ (rest, h). cc)
has_prefix_iff (o ∷ os) (p ∷ ps) = (
  λ h.
      (let (rest, tail) = (has_prefix_iff os ps).0 (ground arith) in
        (rest, ground (arith, ==_iff o p, tail))),
  λ (rest, h). ground (arith, ==_iff o p, (has_prefix_iff os ps).1 (rest, ground (arith, h)), h),
)

-- The test of the loop.
abbrev is_copied : Extension → Bool
is_copied e = has_prefix e.id puppet_oid_arc && not (has_prefix e.id puppet_auth_oid_arc)

test_auth : (e : Extension) → is_copied e ≡ true → has_prefix e.id puppet_auth_oid_arc ≡ false
test_auth e h = ground arith

copied_test :
    (e : Extension)
    → has_prefix e.id puppet_oid_arc ≡ true
    → has_prefix e.id puppet_auth_oid_arc ≢ true
    → is_copied e ≡ true
copied_test e puppet not_auth = ground arith

copied_head :
    {e f : Extension} {es rest : List Extension}
    → (Memᴰ e rest ↔ (Memᴰ e es × (is_copied e ≡ true)))
    → is_copied f ≡ true
    → Memᴰ e (f ∷ rest) ↔ (Memᴰ e (f ∷ es) × (is_copied e ≡ true))
copied_head {e} {f} {es} {rest} ih test = (λ m. left m, λ (m, t). right m t)
  where
    left : Memᴰ e (f ∷ rest) → Memᴰ e (f ∷ es) × (is_copied e ≡ true)
    left (Memᴰ.head p) = (Memᴰ.head p, rw p test)
    left (Memᴰ.tail m) = let (k, t) = ih.0 m in (Memᴰ.tail k, t)

    right : Memᴰ e (f ∷ es) → is_copied e ≡ true → Memᴰ e (f ∷ rest)
    right (Memᴰ.head p) t = Memᴰ.head p
    right (Memᴰ.tail m) t = Memᴰ.tail (ih.1 (m, t))

copied_past :
    {e f : Extension} {es rest : List Extension}
    → (Memᴰ e rest ↔ (Memᴰ e es × (is_copied e ≡ true)))
    → is_copied f ≡ false
    → Memᴰ e rest ↔ (Memᴰ e (f ∷ es) × (is_copied e ≡ true))
copied_past {e} {f} {es} {rest} ih test =
    (λ m. (Memᴰ.tail (ih.0 m).0, (ih.0 m).1), λ (m, t). right m t)
  where
    right : Memᴰ e (f ∷ es) → is_copied e ≡ true → Memᴰ e rest
    right (Memᴰ.head p) t = absurd (cc (t, ap is_copied p, test))
    right (Memᴰ.tail m) t = ih.1 (m, t)

mem-copied :
    (e : Extension) (es : List Extension)
    → Memᴰ e (copied_extensions es) ↔ (Memᴰ e es × (is_copied e ≡ true))
unfolding copied_extensions is_puppet_oid is_auth_oid
mem-copied e [] = (λ m. elim m [ ], λ (m, t). elim m [ ])
mem-copied e (f ∷ es) = elim (Bool-cases (is_copied f)) [
  | inl copies ↦ rw copies (copied_head (mem-copied e es) copies)
  | inr skips ↦ rw skips (copied_past (mem-copied e es) skips)
]

-- The extensions copied from a request are those of the Puppet arc that are not of its
-- authorisation arc, so that none which grants an authority is among them.
pub mem-copied_extensions :
    (e : Extension) (es : List Extension)
    → Memᴰ e (copied_extensions es) ↔ (
        Memᴰ e es
        × ((rest : Oid) × (e.id ≡ puppet_oid_arc ++ rest))
        × ((rest : Oid) → e.id ≢ puppet_auth_oid_arc ++ rest))
unfolding copied_extensions is_puppet_oid is_auth_oid
mem-copied_extensions e es = (
  λ m.
      (let (there, test) = (mem-copied e es).0 m in
        (
          there,
          (has_prefix_iff e.id puppet_oid_arc).0 (ground (arith, test)),
          λ rest h.
              absurd (cc (test_auth e test, (has_prefix_iff e.id puppet_auth_oid_arc).1 (rest, h))),
        )),
  λ (there, puppet, not_auth). (mem-copied e es).1 (
    there,
    copied_test e ((has_prefix_iff e.id puppet_oid_arc).1 puppet) (λ h.
        not_auth ((has_prefix_iff e.id puppet_auth_oid_arc).0 h).0
          ((has_prefix_iff e.id puppet_auth_oid_arc).0 h).1),
  ),
)

none_left-disallowed_names :
    (own : List ℕ) (ns : List (List ℕ))
    → (none_left (disallowed_names own ns) ≡ ok tt) ↔ All (λ n. n ≡ own) ns
unfolding disallowed_names
none_left-disallowed_names own [] = (λ h. tt, λ h. refl)
none_left-disallowed_names own (n ∷ ns) = elim (Bool-cases (codes_eq n own)) [
  | inl same ↦ rw same (
    λ h. ((codes_eq_iff n own).0 same, (none_left-disallowed_names own ns).0 h),
    λ (p, rest). (none_left-disallowed_names own ns).1 rest,
  )
  | inr other ↦ rw other (λ h. cc, λ (p, rest). absurd (cc (other, (codes_eq_iff n own).1 p)))
]

All-append {ℓ κ} :
    {A : Type ℓ} (P : A → Type κ) (xs ys : List A) → All P (xs ++ ys) ↔ (All P xs × All P ys)
All-append P [] ys = (λ h. (tt, h), λ (u, h). h)
All-append P (x ∷ xs) ys = (
  λ (p, h). let (l, r) = (All-append P xs ys).0 h in ((p, l), r),
  λ ((p, l), r). (p, (All-append P xs ys).1 (l, r)),
)

dns_name_iff :
    (d subject : String)
    → (dns_name d ≡ dns_name subject) ↔ (ascii_lower (codes d) ≡ ascii_lower (codes subject))
unfolding dns_name
dns_name_iff d subject = (λ h. cc, λ h. cc)

All-dns_names :
    (subject : String) (ds : List String)
    → All (λ n. n ≡ dns_name subject) (each dns_name ds)
      ↔ All (λ d. ascii_lower (codes d) ≡ ascii_lower (codes subject)) ds
All-dns_names subject [] = (λ h. tt, λ h. tt)
All-dns_names subject (d ∷ ds) = (
  λ (p, h). ((dns_name_iff d subject).0 p, (All-dns_names subject ds).0 h),
  λ (p, h). ((dns_name_iff d subject).1 p, (All-dns_names subject ds).1 h),
)

other_kind : {x y : ℕ} {xs ys : List ℕ} → (x == y) ≡ false → x ∷ xs ≢ y ∷ ys
other_kind h p = ground (arith, h, p)

-- Names of another kind are never the subject's.
All-others :
    (subject : String) (f : String → List ℕ) (xs : List String)
    → ((x : String) → f x ≢ dns_name subject)
    → All (λ n. n ≡ dns_name subject) (each f xs) ↔ (xs ≡ [])
All-others subject f [] other = (λ h. refl, λ h. tt)
All-others subject f (x ∷ xs) other = (λ (p, h). absurd (other x p), λ h. cc)

-- The names are the subject's own, up to the case of its ASCII letters.
abbrev pub OwnNames : String → SubjectAltNames → Type 0
OwnNames subject s =
    All (λ d. ascii_lower (codes d) ≡ ascii_lower (codes subject)) s.dns_names
    × (s.ip_addresses ≡ [])
    × (s.email_addresses ≡ [])
    × (s.uris ≡ [])

All-san_strings :
    (subject : String) (s : SubjectAltNames)
    → All (λ n. n ≡ dns_name subject) (san_strings s) ↔ OwnNames subject s
unfolding san_strings dns_name
All-san_strings subject s =
    let ips = each (λ ip. codes "IP:" ++ codes ip) s.ip_addresses in
    let emails = each (λ e. codes "email:" ++ codes e) s.email_addresses in
    let uris = each (λ u. codes "URI:" ++ codes u) s.uris in
    let dns = each dns_name s.dns_names in
    let P = λ (n : List ℕ). n ≡ dns_name subject in
    let ip_none =
      All-others subject (λ ip. codes "IP:" ++ codes ip) s.ip_addresses
        (λ x h. other_kind refl h) in
    let email_none =
      All-others subject (λ e. codes "email:" ++ codes e) s.email_addresses
        (λ x h. other_kind refl h) in
    let uri_none =
      All-others subject (λ u. codes "URI:" ++ codes u) s.uris (λ x h. other_kind refl h) in
    (
      λ h.
          (let (d, h1) = (All-append P dns (ips ++ (emails ++ uris))).0 h in
            let (i, h2) = (All-append P ips (emails ++ uris)).0 h1 in
            let (e, u) = (All-append P emails uris).0 h2 in
            ((All-dns_names subject s.dns_names).0 d, ip_none.0 i, email_none.0 e, uri_none.0 u)),
      λ (d, i, e, u). (All-append P dns (ips ++ (emails ++ uris))).1 (
        (All-dns_names subject s.dns_names).1 d,
        (All-append P ips (emails ++ uris)).1
            (ip_none.1 i, (All-append P emails uris).1 (email_none.1 e, uri_none.1 u)),
      ),
    )

second : {A : Type 0} → (false ≡ true) ⊎ A → A
second (inl h) = cc
second (inr a) = a

-- A request passes the gate on its names exactly where the setting admits any, or where it names
-- nothing but DNS names equal to the subject up to the case of ASCII letters.
pub check_subject_alt_names_iff :
    (c : Config) (subject : String) (csr : Csr)
    → (check_subject_alt_names c subject csr ≡ ok tt)
      ↔ ((c.allow_subject_alt_names ≡ true) ⊎ OwnNames subject csr.sans)
unfolding check_subject_alt_names
check_subject_alt_names_iff c subject csr = elim (Bool-cases c.allow_subject_alt_names) [
  | inl allowed ↦ rw allowed (λ h. inl refl, λ h. refl)
  | inr refused ↦
      let names = none_left-disallowed_names (dns_name subject) (san_strings csr.sans) in
      let own = All-san_strings subject csr.sans in
      rw refused (λ h. inr (own.0 (names.0 h)), λ h. names.1 (own.1 (second h)))
]

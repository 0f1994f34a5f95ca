-- ===== src/Cleanup/Certs.antt =====
-- What deleting the certificates of removed entries leaves (deleteStoredCertIfSerialMatches).
use openvox_ca.World.Steps.{delete_cert-store}
use openvox_ca.Prelude.{
  ◌≡◌, refl, ap, sym, ◌∙◌, true, Option, none, some, List, [], ◌∷◌, arith, Bool-cases, inl, inr,
  ◌⊎◌, Memᴰ, ℤ, String, str_eq, str_eq_iff, lookup, lookup-delete, codes_eq_iff,
}
use openvox_ca.Serial.{set_string, serial_hex_str}
use openvox_ca.Serial.Canonical.{serial_hex_str-injective}
use openvox_ca.World.Types.{InventoryEntry, Cert, Pem, parsed, no_block, malformed, Store}
use openvox_ca.World.Exec.{World, Result, ok, err, fails}
use openvox_ca.World.Storage.{get_cert, delete_cert, found}
use openvox_ca.Cleanup.{
  delete_each, delete_stored_cert_if_serial_matches, delete_if_match, same_number,
}

-- The certificate of the subject is the one of one of the entries.
abbrev pub IsOf : List InventoryEntry → String → Store → Type 0
IsOf es subject s =
    (cert : Cert) × (lookup subject s.certs ≡ some (parsed cert))
    × ((e : InventoryEntry) × Memᴰ e es
        × (e.subject ≡ subject)
        × (set_string e.serial ≡ some cert.serial))

-- What deleting certificates of entries may change.
pub record Deleted (es : List InventoryEntry) (s s' : Store) : Type 0 where
  pub certs :
      (subject : String)
      → (lookup subject s'.certs ≡ lookup subject s.certs)
        ⊎ ((lookup subject s'.certs ≡ none) × IsOf es subject s)
  pub csrs : s'.csrs ≡ s.csrs
  pub inventory : s'.inventory ≡ s.inventory
  pub crl : s'.crl ≡ s.crl
  pub superseded : s'.superseded ≡ s.superseded

unchanged-Deleted : (es : List InventoryEntry) (s s' : Store) → s' ≡ s → Deleted es s s'
unchanged-Deleted es s s' same = rw same (record {
  certs = λ subject. inl refl;
  csrs = refl;
  inventory = refl;
  crl = refl;
  superseded = refl;
})

same_number-eq : (n : ℤ) (o : Option ℤ) → same_number n o ≡ true → o ≡ some n
same_number-eq n none h = cc
same_number-eq n (some m) h =
    ap some (
      sym (serial_hex_str-injective n m ((codes_eq_iff (serial_hex_str n) (serial_hex_str m)).0 h)))

found-some : (o : Option (Pem Cert)) {p : Pem Cert} → found o ≡ ok p → o ≡ some p
found-some none h = cc
found-some (some q) h = ground (arith, h)

got-cert :
    (subject : String) (w : World)
    → ((get_cert subject w).1.store ≡ w.store)
      × ((p : Pem Cert) → (get_cert subject w).0 ≡ ok p → lookup subject w.store.certs ≡ some p)
unfolding get_cert
got-cert subject w = (
  ground arith,
  elim (Bool-cases (fails w)) [
    | inl bad ↦ rw bad (λ p h. cc)
    | inr fine ↦ rw fine (λ p h. found-some (lookup subject w.store.certs) h)
  ],
)

held_by :
    (e : InventoryEntry) (subject : String) (cert : Cert) (s : Store)
    → e.subject ≡ subject
    → lookup e.subject s.certs ≡ some (parsed cert)
    → set_string e.serial ≡ some cert.serial
    → IsOf (e ∷ []) subject s
held_by e subject cert s same held number =
    (cert, ap (λ x. lookup x s.certs) (sym same) ∙ held, (e, Memᴰ.head refl, same, number))

delete_cert-Deleted :
    (e : InventoryEntry) (cert : Cert) (w v : World)
    → v.store ≡ w.store
    → lookup e.subject w.store.certs ≡ some (parsed cert)
    → set_string e.serial ≡ some cert.serial
    → Deleted (e ∷ []) w.store (delete_cert e.subject v).1.store
delete_cert-Deleted e cert w v same held number = elim (delete_cert-store e.subject v) [
  | inl left ↦ unchanged-Deleted (e ∷ []) w.store _ (left ∙ same)
  | inr done ↦
      rw (done, same)
        (record {
          certs = λ subject. elim (Bool-cases (str_eq e.subject subject)) [
            | inr other ↦
                inl (lookup-delete e.subject subject w.store.certs ∙ ground (arith, other))
            | inl mine ↦ inr (
              lookup-delete e.subject subject w.store.certs ∙ ground (arith, mine),
              held_by e subject cert w.store ((str_eq_iff e.subject subject).0 mine) held number,
            )
          ];
          csrs = refl;
          inventory = refl;
          crl = refl;
          superseded = refl;
        })
]

one-Deleted :
    (e : InventoryEntry) (w : World)
    → Deleted (e ∷ []) w.store (delete_stored_cert_if_serial_matches e.subject e.serial w).store
unfolding delete_stored_cert_if_serial_matches
one-Deleted e w =
    let (same, held) = got-cert e.subject w in
    go (get_cert e.subject w).0 (get_cert e.subject w).1 same held
  where
    go :
        (r : Result (Pem Cert)) (v : World)
        → v.store ≡ w.store
        → ((p : Pem Cert) → r ≡ ok p → lookup e.subject w.store.certs ≡ some p)
        → Deleted (e ∷ []) w.store (delete_if_match e.subject e.serial (r, v)).store
    go (err x) v same held = unchanged-Deleted (e ∷ []) w.store v.store same
    go (ok no_block) v same held = unchanged-Deleted (e ∷ []) w.store v.store same
    go (ok malformed) v same held = unchanged-Deleted (e ∷ []) w.store v.store same
    go (ok (parsed cert)) v same held =
        elim (Bool-cases (same_number cert.serial (set_string e.serial))) [
          | inr differs ↦ rw differs (unchanged-Deleted (e ∷ []) w.store v.store same)
          | inl matches ↦ rw matches (
              delete_cert-Deleted e cert w v same (held (parsed cert) refl)
                (same_number-eq cert.serial (set_string e.serial) matches))
        ]

IsOf-later :
    (es : List InventoryEntry) (e : InventoryEntry) (subject : String) (s t : Store)
    → lookup subject t.certs ≡ lookup subject s.certs
    → IsOf es subject t
    → IsOf (e ∷ es) subject s
IsOf-later es e subject s t same (cert, held, (f, m, named, number)) =
    (cert, sym same ∙ held, (f, Memᴰ.tail m, named, number))

IsOf-one :
    (es : List InventoryEntry) (e : InventoryEntry) (subject : String) (s : Store)
    → IsOf (e ∷ []) subject s
    → IsOf (e ∷ es) subject s
IsOf-one es e subject s (cert, held, (f, Memᴰ.head p, named, number)) =
    (cert, held, (f, Memᴰ.head p, named, number))
IsOf-one es e subject s (cert, held, (f, Memᴰ.tail m, named, number)) = elim m [ ]

IsOf-gone :
    (es : List InventoryEntry) (subject : String) (t : Store)
    → lookup subject t.certs ≡ none
    → ¬ IsOf es subject t
IsOf-gone es subject t gone (cert, held, rest) = cc

chained-Deleted :
    (e : InventoryEntry) (es : List InventoryEntry) (s t u : Store)
    → Deleted (e ∷ []) s t
    → Deleted es t u
    → Deleted (e ∷ es) s u
chained-Deleted e es s t u one more = record {
  certs = λ subject. elim (one.certs subject) [
    | inl same ↦ elim (more.certs subject) [
      | inl again ↦ inl (again ∙ same)
      | inr (gone, was) ↦ inr (gone, IsOf-later es e subject s t same was)
    ]
    | inr (gone, was) ↦ elim (more.certs subject) [
      | inl again ↦ inr (again ∙ gone, IsOf-one es e subject s was)
      | inr (gone', was') ↦ absurd (IsOf-gone es subject t gone was')
    ]
  ];
  csrs = more.csrs ∙ one.csrs;
  inventory = more.inventory ∙ one.inventory;
  crl = more.crl ∙ one.crl;
  superseded = more.superseded ∙ one.superseded;
}

pub delete_each-Deleted :
    (es : List InventoryEntry) (w : World) → Deleted es w.store (delete_each es w).store
unfolding delete_each
delete_each-Deleted [] w = unchanged-Deleted [] w.store w.store refl
delete_each-Deleted (e ∷ es) w =
    let v = delete_stored_cert_if_serial_matches e.subject e.serial w in
    chained-Deleted e es w.store v.store (delete_each es v).store (one-Deleted e w)
      (delete_each-Deleted es v)

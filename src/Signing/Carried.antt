-- ===== src/Signing/Carried.antt =====
-- The extensions that a renewal carries: the loop of reissueLeafLocked of internal/ca/signing.go.
use openvox_ca.Prelude.{
  ◌≡◌, true, List, [], ◌∷◌, arith, Bool-cases, inl, inr, ◌⊎◌, ◌↔◌, codes_eq_iff, Memᴰ,
}
use openvox_ca.World.Types.{Oid, Extension}
use openvox_ca.Signing.Policy.{oid_basic_constraints}
use openvox_ca.Signing.Renew.{is_refreshed, renewal_refreshed_extensions, carried_extensions}

-- The identifiers of the authority and subject key, of the distribution points, of the authority's
-- access and of the basic constraints.
abbrev pub IsRefreshed : Oid → Type 0
IsRefreshed id =
    (id ≡ 2 ∷ 5 ∷ 29 ∷ 35 ∷ [])
    ⊎ (id ≡ 2 ∷ 5 ∷ 29 ∷ 14 ∷ [])
    ⊎ (id ≡ 2 ∷ 5 ∷ 29 ∷ 31 ∷ [])
    ⊎ (id ≡ 1 ∷ 3 ∷ 6 ∷ 1 ∷ 5 ∷ 5 ∷ 7 ∷ 1 ∷ 1 ∷ [])
    ⊎ (id ≡ 2 ∷ 5 ∷ 29 ∷ 19 ∷ [])

is_refreshed_one :
    (id o : Oid) (os : List Oid)
    → (is_refreshed id (o ∷ os) ≡ true) ↔ ((id ≡ o) ⊎ (is_refreshed id os ≡ true))
unfolding is_refreshed
is_refreshed_one id o os =
    (λ h. ground (arith, h, codes_eq_iff id o), λ h. ground (arith, h, codes_eq_iff id o))

is_refreshed_none : (id : Oid) → is_refreshed id [] ≡ true → ⊥
unfolding is_refreshed
is_refreshed_none id h = cc

is_refreshed_iff :
    (id : Oid) → (is_refreshed id renewal_refreshed_extensions ≡ true) ↔ IsRefreshed id
is_refreshed_iff id = (to, from)
  where
    last : is_refreshed id (oid_basic_constraints ∷ []) ≡ true → id ≡ oid_basic_constraints
    last h = elim ((is_refreshed_one id _ _).0 h) [
      | inl e ↦ e
      | inr k ↦ absurd (is_refreshed_none id k)
    ]

    to : is_refreshed id renewal_refreshed_extensions ≡ true → IsRefreshed id
    to h = elim ((is_refreshed_one id _ _).0 h) [
      | inl e ↦ inl e
      | inr h1 ↦ inr (elim ((is_refreshed_one id _ _).0 h1) [
        | inl e ↦ inl e
        | inr h2 ↦ inr (elim ((is_refreshed_one id _ _).0 h2) [
          | inl e ↦ inl e
          | inr h3 ↦
              inr (elim ((is_refreshed_one id _ _).0 h3) [ inl e ↦ inl e | inr h4 ↦ inr (last h4) ])
        ])
      ])
    ]

    from : IsRefreshed id → is_refreshed id renewal_refreshed_extensions ≡ true
    from (inl e) = (is_refreshed_one id _ _).1 (inl e)
    from (inr (inl e)) = (is_refreshed_one id _ _).1 (inr ((is_refreshed_one id _ _).1 (inl e)))
    from (inr (inr (inl e))) =
        (is_refreshed_one id _ _).1
          (inr ((is_refreshed_one id _ _).1 (inr ((is_refreshed_one id _ _).1 (inl e)))))
    from (inr (inr (inr (inl e)))) = (is_refreshed_one id _ _).1 (
        inr (
          (is_refreshed_one id _ _).1
            (inr ((is_refreshed_one id _ _).1 (inr ((is_refreshed_one id _ _).1 (inl e)))))))
    from (inr (inr (inr (inr e)))) = (is_refreshed_one id _ _).1 (
        inr (
          (is_refreshed_one id _ _).1 (
            inr (
              (is_refreshed_one id _ _).1
                (inr ((is_refreshed_one id _ _).1 (inr ((is_refreshed_one id _ _).1 (inl e)))))))))

abbrev IsCarried : Extension → List Extension → Type 0
IsCarried e es = Memᴰ e es × ¬ IsRefreshed e.id

kept_head :
    {e f : Extension} {es rest : List Extension}
    → (Memᴰ e rest ↔ IsCarried e es)
    → ¬ IsRefreshed f.id
    → Memᴰ e (f ∷ rest) ↔ IsCarried e (f ∷ es)
kept_head {e} {f} {es} {rest} ih test = (left, λ p. right p.0 p.1)
  where
    left : Memᴰ e (f ∷ rest) → IsCarried e (f ∷ es)
    left (Memᴰ.head p) = (Memᴰ.head p, rw p test)
    left (Memᴰ.tail m) = let (k, t) = ih.0 m in (Memᴰ.tail k, t)

    right : Memᴰ e (f ∷ es) → ¬ IsRefreshed e.id → Memᴰ e (f ∷ rest)
    right (Memᴰ.head p) t = Memᴰ.head p
    right (Memᴰ.tail m) t = Memᴰ.tail (ih.1 (m, t))

kept_past :
    {e f : Extension} {es rest : List Extension}
    → (Memᴰ e rest ↔ IsCarried e es)
    → IsRefreshed f.id
    → Memᴰ e rest ↔ IsCarried e (f ∷ es)
kept_past {e} {f} {es} {rest} ih test = (left, λ p. right p.0 p.1)
  where
    left : Memᴰ e rest → IsCarried e (f ∷ es)
    left m = let (k, t) = ih.0 m in (Memᴰ.tail k, t)

    right : Memᴰ e (f ∷ es) → ¬ IsRefreshed e.id → Memᴰ e rest
    right (Memᴰ.head p) t = absurd (t (rw p test))
    right (Memᴰ.tail m) t = ih.1 (m, t)

-- The extensions carried are exactly those of the certificate that are not refreshed.
pub mem-carried_extensions :
    (e : Extension) (es : List Extension)
    → Memᴰ e (carried_extensions es) ↔ (Memᴰ e es × ¬ IsRefreshed e.id)
unfolding carried_extensions
mem-carried_extensions e [] = (λ m. elim m [ ], λ p. elim p.0 [ ])
mem-carried_extensions e (f ∷ es) =
    elim (Bool-cases (is_refreshed f.id renewal_refreshed_extensions)) [
      | inl out ↦ rw out (kept_past (mem-carried_extensions e es) ((is_refreshed_iff f.id).0 out))
      | inr stays ↦
          rw stays
            (kept_head (mem-carried_extensions e es) (λ r. cc (stays, (is_refreshed_iff f.id).1 r)))
    ]

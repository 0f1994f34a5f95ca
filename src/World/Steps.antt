-- ===== src/World/Steps.antt =====
-- Taking a chain of the monad apart, and what a deletion does to the store.
use openvox_ca.Prelude.{◌≡◌, refl, Bool-cases, inl, inr, ◌⊎◌, String, lookup, delete}
use openvox_ca.World.Exec.{World, Result, ok, err, continue, fails}
use openvox_ca.World.Storage.{delete_cert, is_there}

-- To split a chain whose result is known: the first part gave a value, and the rest the result.
pub bind-ok :
    {A B : Type 0} (r : Result A) (f : A → World → Result B × World) (w : World) {b : B}
    → (continue r f w).0 ≡ ok b
    → (a : A) × (r ≡ ok a) × (continue r f w ≡ f a w) × ((f a w).0 ≡ ok b)
bind-ok (ok a) f w h = (a, refl, refl, h)
bind-ok (err e) f w h = cc

pub delete_cert-store :
    (subject : String) (w : World)
    → ((delete_cert subject w).1.store ≡ w.store)
      ⊎ ((delete_cert subject w).1.store ≡ record w.store { certs = delete subject w.store.certs })
unfolding delete_cert
delete_cert-store subject w = elim (Bool-cases (fails w)) [
  | inl bad ↦ rw bad (inl refl)
  | inr fine ↦ rw fine (elim (Bool-cases (is_there (lookup subject w.store.certs))) [
    | inl there ↦ rw there (inr refl)
    | inr gone ↦ rw gone (inl refl)
  ])
]

-- ===== src/Supersede/Retire.antt =====
-- What a retirement of a subject's predecessors leaves (retireSupersededForSubjectLocked).
use openvox_ca.Prelude.{
  ◌≡◌, refl, ap, ◌∙◌, true, false, some, List, [], ◌∷◌, ◌++◌, arith, Bool-cases, inl, inr, ◌⊎◌,
  Memᴰ, mem-append_left, mem-append_right, ℤ, ==ℤ_refl, String, str_eq,
}
use openvox_ca.Serial.{set_string}
use openvox_ca.World.Types.{SupersededEntry, SupersededBlob, Config, Store, Error}
use openvox_ca.World.Exec.{World, Result, ok, err}
use openvox_ca.Crl.Chain.{IsReady, on_stored_crl}
use openvox_ca.Revoke.Serial.{revoke_serial_locked}
use openvox_ca.Revoke.Outcome.{
  SerialRevoked, KeepsRest, KeepsRest-trans, KeepsRest-of_eq, on_stored_crl-eq,
  revoke_serial_locked-ok, revoke_serial_locked-failed,
}
use openvox_ca.Supersede.Pending.{read_superseded}
use openvox_ca.Supersede.Sweep.{
  retire_each, keep_failed, retire_superseded_for_subject_locked, retire_read, retire_write,
  count_failed, count_superseded, entries_of, entries_not_of, is_empty,
}
use openvox_ca.Supersede.Write.{IsPending, pending_blob, read-SameStore, read-blob, write_either}

-- The serial of the entry, as revokeSerialLocked reads it, is on the stored list.
abbrev pub IsListed : Config → Store → SupersededEntry → Type 0
IsListed c s e = (n : ℤ) × (set_string e.serial ≡ some n) × (on_stored_crl c n s ≡ true)

-- What revoking some entries leaves, with those that failed.
pub record Retired (c : Config) (es failed failed' : List SupersededEntry) (s s' : Store)
    : Type 0 where
  pub still_failed : (e : SupersededEntry) → Memᴰ e failed → Memᴰ e failed'
  pub settled : (e : SupersededEntry) → Memᴰ e es → Memᴰ e failed' ⊎ IsListed c s' e
  pub kept : (m : ℤ) → on_stored_crl c m s ≡ true → on_stored_crl c m s' ≡ true
  pub rest : KeepsRest s s'

-- One revocation.
pub record OneRetired (c : Config) (e : SupersededEntry) (failed failed' : List SupersededEntry)
    (s s' : Store) : Type 0 where
  pub still_failed : (f : SupersededEntry) → Memᴰ f failed → Memᴰ f failed'
  pub settled : Memᴰ e failed' ⊎ IsListed c s' e
  pub kept : (m : ℤ) → on_stored_crl c m s ≡ true → on_stored_crl c m s' ≡ true
  pub rest : KeepsRest s s'

one-OneRetired :
    (c : Config) (e : SupersededEntry) (failed : List SupersededEntry) (r : Result (Unit {0}))
    (w v : World)
    → (r ≡ ok tt → (n : ℤ) × (set_string e.serial ≡ some n) × SerialRevoked c n w v)
    → ((x : Error) → r ≡ err x → v.store ≡ w.store)
    → OneRetired c e failed (keep_failed e r failed) w.store v.store
one-OneRetired c e failed (ok _) w v good bad =
    let (n, reads, revoked) = good refl in
    record {
      still_failed = λ f m. m;
      settled = inr (n, reads, revoked.on_list n ∙ ground (arith, ==ℤ_refl n));
      kept = λ m h. revoked.on_list m ∙ ground arith;
      rest = revoked.rest;
    }
one-OneRetired c e failed (err x) w v good bad =
    let same = bad x refl in
    record {
      still_failed = λ f m. mem-append_left failed (e ∷ []) m;
      settled = inl (mem-append_right failed (e ∷ []) (Memᴰ.head refl));
      kept = λ m h. on_stored_crl-eq c m w.store v.store (ap (λ (t : Store). t.crl) same) ∙ h;
      rest = KeepsRest-of_eq same;
    }

IsListed-kept :
    (c : Config) (e : SupersededEntry) (s s' : Store)
    → ((m : ℤ) → on_stored_crl c m s ≡ true → on_stored_crl c m s' ≡ true)
    → IsListed c s e
    → IsListed c s' e
IsListed-kept c e s s' kept (n, reads, on) = (n, reads, kept n on)

consed-Retired :
    (c : Config) (e : SupersededEntry) (es failed mid last : List SupersededEntry) (s t u : Store)
    → OneRetired c e failed mid s t
    → Retired c es mid last t u
    → Retired c (e ∷ es) failed last s u
consed-Retired c e es failed mid last s t u one more = record {
  still_failed = λ f m. more.still_failed f (one.still_failed f m);
  settled = settle;
  kept = λ m h. more.kept m (one.kept m h);
  rest = KeepsRest-trans one.rest more.rest;
}
  where
    first : Memᴰ e mid ⊎ IsListed c t e → Memᴰ e last ⊎ IsListed c u e
    first (inl m) = inl (more.still_failed e m)
    first (inr on) = inr (IsListed-kept c e t u more.kept on)

    settle : (f : SupersededEntry) → Memᴰ f (e ∷ es) → Memᴰ f last ⊎ IsListed c u f
    settle f (Memᴰ.head p) = rw p (first one.settled)
    settle f (Memᴰ.tail m) = more.settled f m

retire_each-Retired :
    (c : Config) (es failed : List SupersededEntry) (w : World)
    → IsReady c
    → Retired c es failed (retire_each c es failed w).0 w.store (retire_each c es failed w).1.store
unfolding retire_each
retire_each-Retired c [] failed w ready = record {
  still_failed = λ e m. m;
  settled = λ e m. elim m [ ];
  kept = λ m h. h;
  rest = KeepsRest-of_eq refl;
}
retire_each-Retired c (e ∷ es) failed w ready =
    let r = revoke_serial_locked c e.serial w in
    consed-Retired c e es failed (keep_failed e r.0 failed) _ w.store r.1.store _
      (one-OneRetired c e failed r.0 w r.1 (λ h. revoke_serial_locked-ok c e.serial w ready h)
        (λ x h. (revoke_serial_locked-failed c e.serial w h).store))
      (retire_each-Retired c es (keep_failed e r.0 failed) r.1 ready)

-- An entry of the list is of the subject or of another.
split-entries :
    (subject : String) (e : SupersededEntry) (es : List SupersededEntry)
    → Memᴰ e es
    → ((str_eq e.subject subject ≡ true) × Memᴰ e (entries_of subject es))
      ⊎ Memᴰ e (entries_not_of subject es)
unfolding entries_of entries_not_of
split-entries subject e [] m = elim m [ ]
split-entries subject e (f ∷ es) (Memᴰ.head p) = elim (Bool-cases (str_eq f.subject subject)) [
  | inl mine ↦
      rw mine (inl (ap (λ (g : SupersededEntry). str_eq g.subject subject) p ∙ mine, Memᴰ.head p))
  | inr other ↦ rw other (inr (Memᴰ.head p))
]
split-entries subject e (f ∷ es) (Memᴰ.tail m) = elim (Bool-cases (str_eq f.subject subject)) [
  | inl mine ↦ rw mine (left_grown (split-entries subject e es m))
  | inr other ↦ rw other (right_grown (split-entries subject e es m))
]
  where
    left_grown :
        {xs ys : List SupersededEntry}
        → ((str_eq e.subject subject ≡ true) × Memᴰ e xs) ⊎ Memᴰ e ys
        → ((str_eq e.subject subject ≡ true) × Memᴰ e (f ∷ xs)) ⊎ Memᴰ e ys
    left_grown (inl (q, l)) = inl (q, Memᴰ.tail l)
    left_grown (inr r) = inr r

    right_grown :
        {xs ys : List SupersededEntry}
        → ((str_eq e.subject subject ≡ true) × Memᴰ e xs) ⊎ Memᴰ e ys
        → ((str_eq e.subject subject ≡ true) × Memᴰ e xs) ⊎ Memᴰ e (f ∷ ys)
    right_grown (inl l) = inl l
    right_grown (inr r) = inr (Memᴰ.tail r)

-- What holds of a retirement over the entries of the list.
pub record RetireSafe (c : Config) (subject : String) (es : List SupersededEntry) (s s' : Store)
    : Type 0 where
  pub accounted :
      (e : SupersededEntry)
      → Memᴰ e es
      → IsPending s' e ⊎ ((str_eq e.subject subject ≡ true) × IsListed c s' e)
  pub kept : (m : ℤ) → on_stored_crl c m s ≡ true → on_stored_crl c m s' ≡ true
  pub certs : s'.certs ≡ s.certs
  pub csrs : s'.csrs ≡ s.csrs
  pub inventory : s'.inventory ≡ s.inventory

unchanged-RetireSafe :
    (c : Config) (subject : String) (es : List SupersededEntry) (s s' : Store)
    → ((e : SupersededEntry) → Memᴰ e es → IsPending s e)
    → s' ≡ s
    → RetireSafe c subject es s s'
unchanged-RetireSafe c subject es s s' pend same = rw same (record {
  accounted = λ e m. inl (pend e m);
  kept = λ m h. h;
  certs = refl;
  csrs = refl;
  inventory = refl;
})

-- The store after the write-back: with the list given, or as before it.
written-RetireSafe :
    (c : Config) (subject : String) (es failed : List SupersededEntry) (s t u : Store)
    → ((e : SupersededEntry) → Memᴰ e es → IsPending s e)
    → Retired c (entries_of subject es) [] failed s t
    → (u ≡ t)
      ⊎ (u ≡ record t {
        superseded =
            some (record { recovered = entries_not_of subject es ++ failed; corrupt = false });
      })
    → RetireSafe c subject es s u
written-RetireSafe c subject es failed s t u pend r (inl same) = rw same (record {
  accounted = λ e m. inl (rw r.rest.superseded (pend e m));
  kept = r.kept;
  certs = r.rest.certs;
  csrs = r.rest.csrs;
  inventory = r.rest.inventory;
})
written-RetireSafe c subject es failed s t u pend r (inr done) = rw done (record {
  accounted = λ e m. elim (split-entries subject e es m) [
    | inr other ↦ inl (mem-append_left (entries_not_of subject es) failed other)
    | inl (mine, there) ↦ elim (r.settled e there) [
      | inl again ↦ inl (mem-append_right (entries_not_of subject es) failed again)
      | inr (n, reads, on) ↦ inr (mine, (n, reads, on_stored_crl-eq c n t _ refl ∙ on))
    ]
  ];
  kept = λ m h. on_stored_crl-eq c m t _ refl ∙ r.kept m h;
  certs = r.rest.certs;
  csrs = r.rest.csrs;
  inventory = r.rest.inventory;
})

count_failed-store :
    (failed : List SupersededEntry) (w : World) → (count_failed failed w).store ≡ w.store
count_failed-store [] w = refl
count_failed-store (e ∷ es) w = refl

counted-store : (p : Result (Unit {0}) × World) → (count_superseded p).1.store ≡ p.1.store
counted-store (ok _, w) = refl
counted-store (err e, w) = refl

retire_write-store :
    (others failed : List SupersededEntry) (v : World)
    → ((retire_write others (failed, v)).store ≡ v.store)
      ⊎ ((retire_write others (failed, v)).store ≡ record v.store {
        superseded = some (record { recovered = others ++ failed; corrupt = false });
      })
retire_write-store others failed v =
    let u = count_failed failed v in
    let same = count_failed-store failed v in
    rw counted-store (elim (write_either (others ++ failed) u) [
      | inl failed_write ↦ inl (failed_write ∙ same)
      | inr done ↦ inr (
          done
          ∙ ap {A = Store} {B = Store}
              (λ t. record t {
                superseded = some (record { recovered = others ++ failed; corrupt = false });
              })
              same)
    ])

entries-RetireSafe :
    (c : Config) (subject : String) (b : SupersededBlob) (w : World)
    → IsReady c
    → ((e : SupersededEntry) → Memᴰ e b.recovered → IsPending w.store e)
    → RetireSafe c subject b.recovered w.store (retire_read c subject (ok b, w)).store
entries-RetireSafe c subject b w ready pend =
    elim (Bool-cases (is_empty (entries_of subject b.recovered))) [
      | inl nothing ↦
          rw nothing (unchanged-RetireSafe c subject b.recovered w.store w.store pend refl)
      | inr some_there ↦
          let p = retire_each c (entries_of subject b.recovered) [] w in
          rw some_there (
            written-RetireSafe c subject b.recovered p.0 w.store p.1.store _ pend
              (retire_each-Retired c (entries_of subject b.recovered) [] w ready)
              (retire_write-store (entries_not_of subject b.recovered) p.0 p.1))
    ]

read-RetireSafe :
    (c : Config) (subject : String) (r : Result SupersededBlob) (w v : World)
    → IsReady c
    → v.store ≡ w.store
    → ((b : SupersededBlob) → r ≡ ok b → b ≡ pending_blob w.store.superseded)
    → RetireSafe c subject
        (pending_blob w.store.superseded).recovered
        w.store
        (retire_read c subject (r, v)).store
read-RetireSafe c subject (err e) w v ready same blob =
    unchanged-RetireSafe c subject _ w.store v.store (λ e m. m) same
read-RetireSafe c subject (ok b) w v ready same blob =
    rw (← blob b refl, ← same)
      (entries-RetireSafe c subject b v ready (λ e m. rw (same, ← blob b refl) m))

-- Whatever fails on the way, retiring the predecessors of a subject, by a CA that has its certificate
-- and key, loses no entry of the pending list: each that could be read is on it still, or it is one of
-- the subject and its serial is on the stored list; no serial leaves the stored list, and the
-- certificates, requests and inventory are as they were.
pub retire_superseded_for_subject_locked-RetireSafe :
    (c : Config) (subject : String) (w : World)
    → IsReady c
    → RetireSafe c subject
        (pending_blob w.store.superseded).recovered
        w.store
        (retire_superseded_for_subject_locked c subject w).store
unfolding retire_superseded_for_subject_locked
retire_superseded_for_subject_locked-RetireSafe c subject w ready =
    read-RetireSafe c subject (read_superseded w).0 w (read_superseded w).1 ready
      (read-SameStore w).store (λ b e. read-blob w e)

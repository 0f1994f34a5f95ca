-- ===== src/Supersede/Account.antt =====
-- What becomes of each due entry in one drain pass (drainDueLocked).
use openvox_ca.Prelude.{
  ℕ, suc, ◌+◌, ◌≡◌, refl, ap, sym, ◌∙◌, true, Option, none, some, List, [], ◌∷◌, arith,
  Option-cases, inl, inr, ◌⊎◌, ℤ, ◌==ℤ◌, ==ℤ_refl, ==ℤ_iff, Bool-cases, Memᴰ, length,
}
use openvox_ca.Serial.{SerialText, set_string, normalise_serial}
use openvox_ca.World.Types.{RevocationEntry, SupersededEntry, Config, Store, Error}
use openvox_ca.World.Exec.{World, Result, ok, err}
use openvox_ca.Crl.Chain.{IsReady, on_stored_crl}
use openvox_ca.Revoke.Entries.{among}
use openvox_ca.Revoke.Outcome.{
  KeepsRest, KeepsRest-trans, KeepsRest-of_eq, on_stored_crl-eq, mark-keeps,
}
use openvox_ca.Crl.Outcome.{Untouched}
use openvox_ca.Supersede.Batch.{BatchRevoked, append-ok, append-failed}
use openvox_ca.Supersede.Drain.{
  append_crl_entries_locked, DueSerial, due_serial, batch_of, discarded_of, numbers, batch_entries,
  DrainOutcome, mark_batch, drain_due_locked, drain_batch, batch_outcome, time_of, cons_some,
}
use openvox_ca.Revoke.Serial.{mark_cert_revoked_index}
use openvox_ca.Serial.Canonical.{normalise_serial-canonical}

-- The number that the serial of an entry stands for, where it stands for one.
abbrev pub value_of : Option SerialText → Option ℤ
value_of none = none
value_of (some t) = set_string t

unfoldable pub entry_number : SupersededEntry → Option ℤ
entry_number e = value_of (normalise_serial e.serial)

-- A pass takes each entry with its number, and leaves out those that have none.
due_serial-number :
    (e : SupersededEntry)
    → ((due_serial e ≡ none) × (entry_number e ≡ none))
      ⊎ ((d : DueSerial) × (due_serial e ≡ some d)
          × (d.entry ≡ e)
          × (entry_number e ≡ some d.number))
unfolding due_serial entry_number
due_serial-number e = elim (Option-cases (normalise_serial e.serial)) [
  | inl bad ↦ rw bad (inl (refl, refl))
  | inr (t, good) ↦ rw good (elim (Option-cases (set_string t)) [
    | inl none_there ↦ rw none_there (inl (refl, refl))
    | inr (n, is) ↦ rw is (inr (record { entry = e; canon = t; number = n }, refl, refl, refl))
  ])
]

-- The certificate of the entry is on the stored list.
abbrev pub IsRevokedEntry : Config → Store → SupersededEntry → Type 0
IsRevokedEntry c s e = (n : ℤ) × (entry_number e ≡ some n) × (on_stored_crl c n s ≡ true)

-- An entry with no number has a serial that does not normalise.
entry_number-none : (e : SupersededEntry) → entry_number e ≡ none → normalise_serial e.serial ≡ none
unfolding entry_number
entry_number-none e h = elim (Option-cases (normalise_serial e.serial)) [
  | inl bad ↦ bad
  | inr (t, good) ↦
      (let (n, _, _, reads, _) = normalise_serial-canonical e.serial good in
        absurd (cc (good, reads, h)))
]

length-batch_of : (es : List SupersededEntry) → length (batch_of es) + discarded_of es ≡ length es
unfolding batch_of discarded_of
length-batch_of [] = omega arith
length-batch_of (e ∷ es) = ground (arith, length-batch_of es)

length-batch_entries : (ds : List DueSerial) → length (batch_entries ds) ≡ length ds
unfolding batch_entries
length-batch_entries [] = refl
length-batch_entries (d ∷ ds) = ap suc (length-batch_entries ds)

batch_outcome-accounts :
    (batch : List DueSerial) (discarded : ℕ) (r : Result (List RevocationEntry)) (w : World)
    → let o = (batch_outcome batch discarded (r, w)).0 in
      o.revoked + length o.failed + length o.deferred + o.discarded ≡ length batch + discarded
batch_outcome-accounts batch discarded (ok times) w = omega arith
batch_outcome-accounts batch discarded (err e) w = omega (arith, length-batch_entries batch)

drain_batch-accounts :
    (c : Config) (discarded : ℕ) (batch : List DueSerial) (w : World)
    → let o = (drain_batch c discarded batch w).0 in
      o.revoked + length o.failed + length o.deferred + o.discarded ≡ length batch + discarded
drain_batch-accounts c discarded [] w = omega arith
drain_batch-accounts c discarded (d ∷ ds) w =
    let r = append_crl_entries_locked c (numbers (d ∷ ds)) w in
    batch_outcome-accounts (d ∷ ds) discarded r.0 r.1

-- Every due entry is revoked, failed, deferred or discarded, and none is counted twice.
drain_accounts :
    (c : Config) (due : List SupersededEntry) (w : World)
    → let o = (drain_due_locked c due w).0 in
      o.revoked + length o.failed + length o.deferred + o.discarded ≡ length due
unfolding drain_due_locked
drain_accounts c due w =
    drain_batch-accounts c (discarded_of due) (batch_of due) w ∙ length-batch_of due

-- The entry and the number of what the pass takes.
due_serial-of :
    (e : SupersededEntry) (o : Option DueSerial)
    → due_serial e ≡ o
    → ((o ≡ none) × (entry_number e ≡ none))
      ⊎ ((d : DueSerial) × (o ≡ some d) × (d.entry ≡ e) × (entry_number e ≡ some d.number))
due_serial-of e o q = rw (← q) (due_serial-number e)

abbrev InBatch : SupersededEntry → ℤ → List DueSerial → Type 0
InBatch e n ds = Memᴰ e (batch_entries ds) × (among n (numbers ds) ≡ true)

InBatch-head :
    (e : SupersededEntry) (n : ℤ) (o : Option DueSerial) (ds : List DueSerial)
    → due_serial e ≡ o
    → entry_number e ≡ some n
    → InBatch e n (cons_some o ds)
unfolding batch_entries numbers
InBatch-head e n none ds q h = elim (due_serial-of e none q) [
  | inl (_, no_number) ↦ absurd (cc (no_number, h))
  | inr (d, bad, _, _) ↦ absurd (cc bad)
]
InBatch-head e n (some d) ds q h = elim (due_serial-of e (some d) q) [
  | inl (bad, _) ↦ absurd (cc bad)
  | inr (d', is, entry, number) ↦
      (let same : d ≡ d' = ground (arith, is) in
        let value : d'.number ≡ n = ground (arith, number, h) in
        (
          Memᴰ.head (sym (ap (λ (x : DueSerial). x.entry) same ∙ entry)),
          rw (same, value) (ground (arith, ==ℤ_refl n)),
        ))
]

InBatch-tail :
    (e : SupersededEntry) (n : ℤ) (o : Option DueSerial) (ds : List DueSerial)
    → InBatch e n ds
    → InBatch e n (cons_some o ds)
unfolding batch_entries numbers
InBatch-tail e n none ds h = h
InBatch-tail e n (some d) ds h = (Memᴰ.tail h.0, ground (arith, h.1))

-- The batch holds each entry that has a number, with it.
mem-batch_of :
    (es : List SupersededEntry) (e : SupersededEntry) {n : ℤ}
    → Memᴰ e es
    → entry_number e ≡ some n
    → InBatch e n (batch_of es)
unfolding batch_of
mem-batch_of [] e m h = elim m [ ]
mem-batch_of (f ∷ es) e {n = n} (Memᴰ.head p) h =
    rw (← p) (InBatch-head e n (due_serial e) (batch_of es) refl h)
mem-batch_of (f ∷ es) e {n = n} (Memᴰ.tail m) h =
    InBatch-tail e n (due_serial f) (batch_of es) (mem-batch_of es e m h)

-- Where a number of the batch comes from.
abbrev pub FromEntry : ℤ → List SupersededEntry → Type 0
FromEntry m es = (e : SupersededEntry) × Memᴰ e es × (entry_number e ≡ some m)

FromEntry-later :
    {m : ℤ} {f : SupersededEntry} {es : List SupersededEntry}
    → FromEntry m es
    → FromEntry m (f ∷ es)
FromEntry-later (e, k, number) = (e, Memᴰ.tail k, number)

among-cons_some :
    (m : ℤ) (e : SupersededEntry) (es : List SupersededEntry) (o : Option DueSerial)
    (ds : List DueSerial)
    → (among m (numbers ds) ≡ true → FromEntry m es)
    → due_serial e ≡ o
    → among m (numbers (cons_some o ds)) ≡ true
    → FromEntry m (e ∷ es)
unfolding numbers
among-cons_some m e es none ds ih q h = FromEntry-later (ih h)
among-cons_some m e es (some d) ds ih q h = elim (Bool-cases (d.number ==ℤ m)) [
  | inl same ↦ elim (due_serial-of e (some d) q) [
    | inl (bad, _) ↦ absurd (cc bad)
    | inr (d', is, _, number) ↦
        (let value : d'.number ≡ m = ground (arith, is, (==ℤ_iff d.number m).0 same) in
          (e, Memᴰ.head refl, number ∙ ap some value))
  ]
  | inr other ↦ FromEntry-later (ih (rw other at h))
]

among-batch_of :
    (m : ℤ) (es : List SupersededEntry) → among m (numbers (batch_of es)) ≡ true → FromEntry m es
unfolding batch_of numbers
among-batch_of m [] h = cc
among-batch_of m (e ∷ es) h =
    among-cons_some m e es (due_serial e) (batch_of es) (among-batch_of m es) refl h

mark_batch-keeps :
    (times : List RevocationEntry) (ds : List DueSerial) (w : World)
    → let w' = mark_batch times ds w in (w'.store.crl ≡ w.store.crl) × KeepsRest w.store w'.store
unfolding mark_batch
mark_batch-keeps times [] w = ground arith
mark_batch-keeps times (d ∷ ds) w =
    let at = time_of d.number w.now times in
    let v = (mark_cert_revoked_index d.canon at w).1 in
    let (crl, rest, _, _) = mark-keeps d.canon at w in
    let (crl', rest') = mark_batch-keeps times ds v in (crl' ∙ crl, KeepsRest-trans rest rest')

-- The stored list after a pass over `due`: unchanged, or grown by the serials of due entries.
pub record Drained (c : Config) (due : List SupersededEntry) (w : World) (o : DrainOutcome)
    (w' : World) : Type 0 where
  pub kept : (m : ℤ) → on_stored_crl c m w.store ≡ true → on_stored_crl c m w'.store ≡ true
  pub only :
      (m : ℤ)
      → on_stored_crl c m w'.store ≡ true
      → (on_stored_crl c m w.store ≡ true) ⊎ FromEntry m due
  pub settled :
      (e : SupersededEntry)
      → Memᴰ e due
      → Memᴰ e o.failed ⊎ IsRevokedEntry c w'.store e ⊎ (normalise_serial e.serial ≡ none)
  pub rest : KeepsRest w.store w'.store

abbrev AllInBatch : List SupersededEntry → List DueSerial → Type 0
AllInBatch due batch =
    (e : SupersededEntry) (n : ℤ) → Memᴰ e due → entry_number e ≡ some n → InBatch e n batch

-- A pass that leaves the store alone, with the whole batch failed.
nothing-Drained :
    (c : Config) (due : List SupersededEntry) (batch : List DueSerial) (w w' : World)
    (o : DrainOutcome)
    → AllInBatch due batch
    → o.failed ≡ batch_entries batch
    → w'.store ≡ w.store
    → Drained c due w o w'
nothing-Drained c due batch w w' o inb failed same = record {
  kept = λ m h. on_stored_crl-eq c m w.store w'.store (ap (λ (t : Store). t.crl) same) ∙ h;
  only =
      λ m h. inl (sym (on_stored_crl-eq c m w.store w'.store (ap (λ (t : Store). t.crl) same)) ∙ h);
  settled = λ e m. elim (Option-cases (entry_number e)) [
    | inl bad ↦ inr (inr (entry_number-none e bad))
    | inr (n, good) ↦ inl (rw failed (inb e n m good).0)
  ];
  rest = KeepsRest-of_eq same;
}

batch-Drained :
    (c : Config) (due : List SupersededEntry) (batch : List DueSerial) (discarded : ℕ)
    (r : Result (List RevocationEntry)) (w v : World)
    → AllInBatch due batch
    → ((m : ℤ) → among m (numbers batch) ≡ true → FromEntry m due)
    → ((times : List RevocationEntry) → r ≡ ok times → BatchRevoked c (numbers batch) w v)
    → ((e : Error) → r ≡ err e → Untouched e w v)
    → let p = batch_outcome batch discarded (r, v) in Drained c due w p.0 p.1
batch-Drained c due batch discarded (err e) w v inb from good bad =
    nothing-Drained c due batch w v _ inb refl (bad e refl).store
batch-Drained c due batch discarded (ok times) w v inb from good bad =
    let b = good times refl in
    let (crl, rest) = mark_batch-keeps times batch v in
    let on =
      λ (m : ℤ). on_stored_crl-eq c m v.store (mark_batch times batch v).store crl ∙ b.on_list m in
    record {
      kept = λ m h. on m ∙ ground arith;
      only = λ m h. elim (Bool-cases (on_stored_crl c m w.store)) [
        | inl before ↦ inl before
        | inr new ↦ inr (from m (ground (arith, on m, new, h)))
      ];
      settled = λ e m. elim (Option-cases (entry_number e)) [
        | inl none_there ↦ inr (inr (entry_number-none e none_there))
        | inr (n, number) ↦ inr (inl (n, number, on n ∙ ground (arith, (inb e n m number).1)))
      ];
      rest = KeepsRest-trans b.rest rest;
    }

drain_batch-Drained :
    (c : Config) (due : List SupersededEntry) (batch : List DueSerial) (discarded : ℕ) (w : World)
    → IsReady c
    → AllInBatch due batch
    → ((m : ℤ) → among m (numbers batch) ≡ true → FromEntry m due)
    → Drained c due w (drain_batch c discarded batch w).0 (drain_batch c discarded batch w).1
unfolding batch_entries
drain_batch-Drained c due [] discarded w ready inb from =
    nothing-Drained c due [] w w _ inb refl refl
drain_batch-Drained c due (d ∷ ds) discarded w ready inb from =
    let r = append_crl_entries_locked c (numbers (d ∷ ds)) w in
    batch-Drained c due (d ∷ ds) discarded r.0 w r.1 inb from
      (λ times e. append-ok c (numbers (d ∷ ds)) w ready e)
      (λ x e. append-failed c (numbers (d ∷ ds)) w e)

-- A pass over due entries, by a CA that has its certificate and key, keeps what the stored list held,
-- adds to it only numbers that the normalised serial of one of the entries reads as, and settles each
-- entry: it is among the failed ones that are to be kept, or the number that its normalised serial
-- reads as is on the stored list, or its serial does not normalise.
pub drain-Drained :
    (c : Config) (due : List SupersededEntry) (w : World)
    → IsReady c
    → Drained c due w (drain_due_locked c due w).0 (drain_due_locked c due w).1
unfolding drain_due_locked
drain-Drained c due w ready =
    drain_batch-Drained c due (batch_of due) (discarded_of due) w ready
      (λ e n m h. mem-batch_of due e m h) (λ m h. among-batch_of m due h)

-- ===== src/Supersede/Safety.antt =====
-- A sweep loses no entry and revokes nothing before its time (ReconcileSuperseded).
use openvox_ca.Prelude.{
  ℕ, ◌≤◌, ◌≡◌, refl, ap, sym, ◌∙◌, Bool, true, false, not, ◌&&◌, none, some, List, [], ◌∷◌, ◌++◌,
  Bool-cases, inl, inr, ◌⊎◌, Memᴰ, mem-append_left, mem-append_right, ℤ,
}
use openvox_ca.Serial.{normalise_serial}
use openvox_ca.World.Types.{SupersededEntry, SupersededBlob, Config, Store}
use openvox_ca.World.Exec.{World, Result, ok, err}
use openvox_ca.Crl.Chain.{IsReady, on_stored_crl}
use openvox_ca.Revoke.Outcome.{on_stored_crl-eq}
use openvox_ca.Supersede.Pending.{read_superseded, write_superseded, supersede_failed}
use openvox_ca.Supersede.Drain.{DrainOutcome, drain_due_locked}
use openvox_ca.Supersede.Account.{IsRevokedEntry, Drained, drain-Drained, entry_number}
use openvox_ca.Supersede.Sweep.{
  sweep_entries, sweep_locked, sweep_read, write_back, with_error, due_entries, pending_entries,
  sort_by_time, is_empty, left_unrevoked,
}
use openvox_ca.Supersede.Write.{
  IsPending, SameStore, pending_blob, read-SameStore, read-blob, write_either, mem-sort_by_time,
  mem-due_or_pending, mem-due_entries,
}

-- The entry is listed still, or on the stored CRL, or it can never be revoked.
abbrev pub IsAccounted : Config → Store → SupersededEntry → Type 0
IsAccounted c s e = IsPending s e ⊎ IsRevokedEntry c s e ⊎ (normalise_serial e.serial ≡ none)

-- What holds of a step over the entries of the list.
pub record SweepSafe (c : Config) (es : List SupersededEntry) (w w' : World) : Type 0 where
  pub accounted : (e : SupersededEntry) → Memᴰ e es → IsAccounted c w'.store e
  pub kept : (m : ℤ) → on_stored_crl c m w.store ≡ true → on_stored_crl c m w'.store ≡ true
  pub due_only :
      (m : ℤ)
      → on_stored_crl c m w'.store ≡ true
      → (on_stored_crl c m w.store ≡ true)
        ⊎ ((e : SupersededEntry) × Memᴰ e es × (e.revoke_at ≤ w.now) × (entry_number e ≡ some m))

with_error-world : (n : ℕ) (r : Result (Unit {0}) × World) → (with_error n r).1 ≡ r.1
with_error-world n (ok _, w) = refl
with_error-world n (err e, w) = refl

unchanged-SweepSafe :
    (c : Config) (es : List SupersededEntry) (w w' : World)
    → ((e : SupersededEntry) → Memᴰ e es → IsPending w.store e)
    → w'.store ≡ w.store
    → SweepSafe c es w w'
unchanged-SweepSafe c es w w' pend same = record {
  accounted = λ e m. inl (rw same (pend e m));
  kept = λ m h. rw same h;
  due_only = λ m h. inl (rw same at h);
}

crl-write :
    (keep : List SupersededEntry) (w : World) → (write_superseded keep w).1.store.crl ≡ w.store.crl
crl-write keep w = elim (write_either keep w) [
  | inl failed ↦ ap (λ (t : Store). t.crl) failed
  | inr done ↦ ap (λ (t : Store). t.crl) done
]

-- What was to be kept is listed after the write, and where the write failed, so is all that was.
written-IsAccounted :
    (c : Config) (keep : List SupersededEntry) (w : World) (e : SupersededEntry)
    → IsPending w.store e
    → Memᴰ e keep ⊎ IsRevokedEntry c w.store e ⊎ (normalise_serial e.serial ≡ none)
    → IsAccounted c (write_superseded keep w).1.store e
written-IsAccounted c keep w e old (inr (inr bad)) = inr (inr bad)
written-IsAccounted c keep w e old (inr (inl (n, number, on))) =
    inr (inl (n, number, on_stored_crl-eq c n w.store _ (crl-write keep w) ∙ on))
written-IsAccounted c keep w e old (inl m) = elim (write_either keep w) [
  | inl failed ↦ inl (rw failed old)
  | inr done ↦ inl (rw done m)
]

IsPending-in :
    (u w : World) (e : SupersededEntry)
    → u.store.superseded ≡ w.store.superseded
    → IsPending w.store e
    → IsPending u.store e
IsPending-in u w e same m = rw same m

-- Where each entry is once what was due has been drained.
placed :
    (c : Config) (es : List SupersededEntry) (w v : World) (o : DrainOutcome) (e : SupersededEntry)
    → Drained c (sort_by_time (due_entries w.now es)) w o v
    → Memᴰ e es
    → Memᴰ e (pending_entries w.now es ++ (o.failed ++ o.deferred))
      ⊎ IsRevokedEntry c v.store e
      ⊎ (normalise_serial e.serial ≡ none)
placed c es w v o e d m = elim (mem-due_or_pending w.now e es m) [
  | inr later ↦ inl (mem-append_left _ _ later)
  | inl due ↦ elim (d.settled e ((mem-sort_by_time e (due_entries w.now es)).0 due)) [
    | inl failed ↦ inl (mem-append_right (pending_entries w.now es) _ (mem-append_left _ _ failed))
    | inr settled ↦ inr settled
  ]
]

-- What is due was drained, and the rest is written back.
wrote-SweepSafe :
    (c : Config) (es : List SupersededEntry) (w v u : World) (o : DrainOutcome)
    → ((e : SupersededEntry) → Memᴰ e es → IsPending w.store e)
    → Drained c (sort_by_time (due_entries w.now es)) w o v
    → u.store ≡ v.store
    → SweepSafe c es w (write_superseded (pending_entries w.now es ++ (o.failed ++ o.deferred)) u).1
wrote-SweepSafe c es w v u o pend d same =
    let keep = pending_entries w.now es ++ (o.failed ++ o.deferred) in
    let list = ap (λ (t : Store). t.superseded) same ∙ d.rest.superseded in
    let crl = crl-write keep u ∙ ap (λ (t : Store). t.crl) same in
    record {
      accounted = λ e m.
          written-IsAccounted c keep u e (IsPending-in u w e list (pend e m))
            (rw same (placed c es w v o e d m));
      kept = λ m h. on_stored_crl-eq c m v.store _ crl ∙ d.kept m h;
      due_only = λ m h. elim (d.only m (sym (on_stored_crl-eq c m v.store _ crl) ∙ h)) [
        | inl old ↦ inl old
        | inr new ↦
            (let (e, k, number) = new in
              let (k', le) = mem-due_entries w.now e es ((mem-sort_by_time e _).1 k) in
              inr (e, k', le, number))
      ];
    }

write_back-SweepSafe :
    (c : Config) (es : List SupersededEntry) (w v : World) (o : DrainOutcome)
    → ((e : SupersededEntry) → Memᴰ e es → IsPending w.store e)
    → Drained c (sort_by_time (due_entries w.now es)) w o v
    → SweepSafe c es w (write_back (pending_entries w.now es) (o, v)).1
write_back-SweepSafe c es w v o pend d = rw with_error-world (elim (Bool-cases (left_unrevoked o)) [
  | inl left ↦ rw left (wrote-SweepSafe c es w v (supersede_failed v) o pend d refl)
  | inr none_left ↦ rw none_left (wrote-SweepSafe c es w v v o pend d refl)
])

-- An unusable list of which nothing was recovered is written back empty.
emptied-SweepSafe :
    (c : Config) (w : World) → SweepSafe c [] w (with_error 0 (write_superseded [] w)).1
emptied-SweepSafe c w = rw with_error-world (record {
  accounted = λ e m. elim m [ ];
  kept = λ m h. on_stored_crl-eq c m w.store _ (crl-write [] w) ∙ h;
  due_only = λ m h. inl (sym (on_stored_crl-eq c m w.store _ (crl-write [] w)) ∙ h);
})

pub entries-SweepSafe :
    (c : Config) (es : List SupersededEntry) (corrupt : Bool) (w : World)
    → IsReady c
    → ((e : SupersededEntry) → Memᴰ e es → IsPending w.store e)
    → SweepSafe c es w (sweep_entries c es corrupt w).1
unfolding sweep_entries
entries-SweepSafe c [] true w ready pend = emptied-SweepSafe c w
entries-SweepSafe c [] false w ready pend = unchanged-SweepSafe c [] w w pend refl
entries-SweepSafe c (e ∷ es) corrupt w ready pend =
    elim (Bool-cases (is_empty (due_entries w.now (e ∷ es)) && not corrupt)) [
      | inl nothing ↦ rw nothing (unchanged-SweepSafe c (e ∷ es) w w pend refl)
      | inr some_due ↦ rw some_due (
          let d = drain_due_locked c (sort_by_time (due_entries w.now (e ∷ es))) w in
          write_back-SweepSafe c (e ∷ es) w d.1 d.0 pend
            (drain-Drained c (sort_by_time (due_entries w.now (e ∷ es))) w ready))
    ]

-- The entries that a pass works on, those that could be recovered from the stored list.
abbrev pub pending : World → List SupersededEntry
pending w = (pending_blob w.store.superseded).recovered

SweepSafe-from :
    (c : Config) (es : List SupersededEntry) (w v u : World)
    → SameStore w v
    → SweepSafe c es v u
    → SweepSafe c es w u
SweepSafe-from c es w v u same safe = record {
  accounted = safe.accounted;
  kept = λ m h. safe.kept m (rw same.store h);
  due_only = λ m h. elim (safe.due_only m h) [
    | inl old ↦ inl (rw same.store at old)
    | inr (e, k, le, number) ↦ inr (e, k, rw same.now at le, number)
  ];
}

read-SweepSafe :
    (c : Config) (w v : World) (r : Result SupersededBlob)
    → IsReady c
    → SameStore w v
    → ((b : SupersededBlob) → r ≡ ok b → b ≡ pending_blob w.store.superseded)
    → SweepSafe c (pending w) w (sweep_read c (r, v)).1
read-SweepSafe c w v (err e) ready same blob =
    unchanged-SweepSafe c (pending w) w v (λ e m. m) same.store
read-SweepSafe c w v (ok b) ready same blob =
    rw (pending, ← blob b refl)
      (SweepSafe-from c b.recovered w v _ same (
        entries-SweepSafe c b.recovered b.corrupt v ready
          (λ e m. rw (same.store, ← blob b refl) m)))

-- Whatever fails on the way, a sweep under the lock, of a CA that has its certificate and key, loses
-- no entry and revokes none early: each entry it read is on the pending list after it, or its serial
-- is on the stored list, or the serial does not normalise, so that it never can be; no serial leaves
-- the stored list; and one that joins it is that of an entry whose time has come.
pub sweep_locked-SweepSafe :
    (c : Config) (w : World) → IsReady c → SweepSafe c (pending w) w (sweep_locked c w).1
unfolding sweep_locked
sweep_locked-SweepSafe c w ready =
    read-SweepSafe c w (read_superseded w).1 (read_superseded w).0 ready (read-SameStore w)
      (λ b e. read-blob w e)

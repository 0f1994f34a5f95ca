-- ===== src/SerialSync/Synced.antt =====
-- What a pass of the sync leaves in the index.
use openvox_ca.Prelude.{
  ℕ, suc, ◌≡◌, refl, ap, ◌∙◌, Bool, true, false, not, Option, none, some, [], ◌∷◌, arith,
  Bool-cases, Option-cases, String, ℤ, ◌==ℤ◌, ==ℤ_iff, inl, inr, ◌⊎◌, if◌then◌else◌, str_eq,
  str_eq_iff, ◌==◌,
}
use openvox_ca.World.Types.{Mem, Error}
use openvox_ca.World.Exec.{World, ok, err, fails, ticked}
use openvox_ca.World.Locks.{granted}
use openvox_ca.World.Storage.{inventory_entries}
use openvox_ca.Ocsp.{is_indexed}
use openvox_ca.Cleanup.{drop_serial_locked}
use openvox_ca.SerialSync.{
  SerialIndex, SerialIndexDelta, subject_at, add_entry, add_stored, drop_missing, add_half,
  drop_half, reconcile_serial_index_locked, index_entries, sync_serial_index, count_index_failure,
}
use openvox_ca.SerialSync.Index.{
  subject_at-drop_serial, subject_at-set_serial, is_indexed-none, is_indexed-some, subject_at-none,
  IsMap, index_entries-IsMap,
}

abbrev or_else : Option String → Option String → Option String
or_else none b = b
or_else (some a) b = some a

subject_at-add_entry :
    (k n : ℤ) (s : String) (known : Option String) (a : ℕ) (index : SerialIndex)
    → subject_at n index ≡ known
    → subject_at k (add_entry n s known (a, index)).1
      ≡ (if n ==ℤ k then some s else subject_at k index)
subject_at-add_entry k n s none a index h = subject_at-set_serial k n s index
subject_at-add_entry k n s (some t) a index h = elim (Bool-cases (str_eq t s)) [
  | inr new ↦ rw new (subject_at-set_serial k n s index)
  | inl same ↦ rw same (elim (Bool-cases (n ==ℤ k)) [
    | inl mine ↦ rw mine (rw (← (==ℤ_iff n k).0 mine) (h ∙ ap some ((str_eq_iff t s).0 same)))
    | inr other ↦ rw other refl
  ])
]

subject_at-add_stored :
    (k : ℤ) (stored : SerialIndex) (p : ℕ × SerialIndex)
    → IsMap stored
    → subject_at k (add_stored stored p).1 ≡ or_else (subject_at k stored) (subject_at k p.1)
unfolding add_stored subject_at
subject_at-add_stored k [] p h = refl
subject_at-add_stored k ((n, s) ∷ stored) (a, index) (fresh, h) =
    subject_at-add_stored k stored (add_entry n s (subject_at n index) (a, index)) h
    ∙ rw (subject_at-add_entry k n s (subject_at n index) a index refl)
        (elim (Bool-cases (n ==ℤ k)) [
          | inr other ↦ rw other refl
          | inl mine ↦
              let absent : subject_at k stored ≡ none =
                rw (← (==ℤ_iff n k).0 mine) (subject_at-none n stored fresh) in
              rw (mine, absent) refl
        ])

subject_at-drop_missing :
    (k : ℤ) (stored from : SerialIndex) (r : ℕ) (m : Mem)
    → subject_at k (drop_missing stored from (r, m)).1.serial_index ≡ (
        if is_indexed k from
        then (if is_indexed k stored then subject_at k m.serial_index else none)
        else subject_at k m.serial_index)
unfolding drop_missing is_indexed
subject_at-drop_missing k stored [] r m = refl
subject_at-drop_missing k stored ((n, s) ∷ from) r m = elim (Bool-cases (is_indexed n stored)) [
  | inl there ↦
      rw (there, drop_missing)
        (subject_at-drop_missing k stored from r m ∙ elim (Bool-cases (n ==ℤ k)) [
          | inr other ↦ rw other refl
          | inl mine ↦ rw (mine, ← (==ℤ_iff n k).0 mine, there) (ground arith)
        ])
  | inr gone ↦
      rw (gone, drop_missing)
        (subject_at-drop_missing k stored from (suc r) (drop_serial_locked n m)
          ∙ rw (subject_at-drop_serial k n m.serial_index) (elim (Bool-cases (n ==ℤ k)) [
            | inr other ↦ rw other refl
            | inl mine ↦ rw (mine, ← (==ℤ_iff n k).0 mine, gone) (ground arith)
          ]))
]

subject_at-drop_all :
    (k : ℤ) (stored : SerialIndex) (m : Mem)
    → subject_at k (drop_missing stored m.serial_index (0, m)).1.serial_index
      ≡ (if is_indexed k stored then subject_at k m.serial_index else none)
subject_at-drop_all k stored m =
    subject_at-drop_missing k stored m.serial_index 0 m
    ∙ elim (Bool-cases (is_indexed k m.serial_index)) [
      | inl there ↦ rw there refl
      | inr absent ↦ rw (absent, subject_at-none k m.serial_index absent) (ground arith)
    ]

-- The subject of a serial after a pass, by what was read and what the index held.
abbrev after_at : Bool → Bool → Option String → Option String → Option String
after_at true true st b = b
after_at true false st b = or_else st b
after_at false true none b = none
after_at false true (some s) b = b
after_at false false st b = st

dropped_at :
    (k : ℤ) (stored : SerialIndex) (b : Option String)
    → (if is_indexed k stored then b else none)
      ≡ (elim (subject_at k stored) [ none ↦ none | some s ↦ b ])
dropped_at k stored b = go (subject_at k stored) refl
  where
    go :
        (o : Option String)
        → subject_at k stored ≡ o
        → (if is_indexed k stored then b else none) ≡ (elim o [ none ↦ none | some s ↦ b ])
    go none h = rw (is_indexed-none k stored h) refl
    go (some s) h = rw (is_indexed-some k stored h) refl

subject_at-reconcile :
    (k : ℤ) (raced pruned : Bool) (stored : SerialIndex) (m : Mem)
    → IsMap stored
    → subject_at k (drop_half raced stored (add_half pruned stored m)).1.serial_index
      ≡ after_at raced pruned (subject_at k stored) (subject_at k m.serial_index)
subject_at-reconcile k true true stored m h = refl
subject_at-reconcile k true false stored m h = subject_at-add_stored k stored (0, m.serial_index) h
subject_at-reconcile k false true stored m h =
    subject_at-drop_all k stored m
    ∙ dropped_at k stored (subject_at k m.serial_index)
    ∙ ground arith
subject_at-reconcile k false false stored m h =
    subject_at-drop_all k stored (add_half false stored m).1
    ∙ rw (subject_at-add_stored k stored (0, m.serial_index) h) (
        dropped_at k stored (or_else (subject_at k stored) (subject_at k m.serial_index))
        ∙ ground arith)

after_at_cases :
    (raced pruned : Bool) (st b : Option String)
    → (after_at raced pruned st b ≡ none)
      ⊎ (after_at raced pruned st b ≡ b)
      ⊎ (after_at raced pruned st b ≡ st)
after_at_cases true true st b = inr (inl refl)
after_at_cases true false none b = inr (inl refl)
after_at_cases true false (some s) b = inr (inr refl)
after_at_cases false true none b = inl refl
after_at_cases false true (some s) b = inr (inl refl)
after_at_cases false false st b = inr (inr refl)

-- What a pass leaves, where `raced` says that this process issued or pruned since the counters were
-- read, and `pruned` that a serial left the index.
pub record IndexSynced (raced pruned : Bool) (stored before after : SerialIndex) : Type 0 where
  pub exact : raced ≡ false → pruned ≡ false → (k : ℤ) → subject_at k after ≡ subject_at k stored
  pub keeps :
      raced ≡ true → (k : ℤ) (s : String) → subject_at k before ≡ some s → is_indexed k after ≡ true
  pub restores_none :
      pruned ≡ true → (k : ℤ) → subject_at k before ≡ none → subject_at k after ≡ none
  pub within :
      (k : ℤ)
      → (subject_at k after ≡ none)
        ⊎ (subject_at k after ≡ subject_at k before)
        ⊎ (subject_at k after ≡ subject_at k stored)

reconciled-IndexSynced :
    (raced pruned : Bool) (stored : SerialIndex) (m : Mem)
    → IsMap stored
    → IndexSynced raced pruned stored m.serial_index
        (drop_half raced stored (add_half pruned stored m)).1.serial_index
reconciled-IndexSynced raced pruned stored m h =
    let after = (drop_half raced stored (add_half pruned stored m)).1.serial_index in
    let at = λ (k : ℤ). subject_at-reconcile k raced pruned stored m h in
    record {
      exact = λ p q k. at k ∙ ground arith;
      keeps = λ p k s b. elim (Option-cases (subject_at k after)) [
        | inl gone ↦ absurd (ground (arith, at k))
        | inr (t, found) ↦ is_indexed-some k after found
      ];
      restores_none = λ p k b. at k ∙ ground arith;
      within = λ k.
          rw (at k)
            (after_at_cases raced pruned (subject_at k stored) (subject_at k m.serial_index));
    }

-- A pass that reads the inventory leaves exactly what it read, where this process neither issued nor
-- pruned meanwhile and no serial left the index. Where it did issue or prune, no serial of the index
-- is lost; where one left the index, none that the index lacked is put back; and each serial is
-- gone or has the subject that it had or that was read. A pass that cannot read changes nothing but
-- its counter.
pub sync_serial_index-IndexSynced :
    (w : World)
    → let v = granted (inventory_entries w).1 in
      ((delta : SerialIndexDelta)
        → (sync_serial_index w).0 ≡ ok delta
        → IndexSynced
            (not (v.mem.serial_index_epoch == w.mem.serial_index_epoch))
            (not (v.mem.serial_index_removal_epoch == w.mem.serial_index_removal_epoch))
            (index_entries [] w.store.inventory)
            v.mem.serial_index
            (sync_serial_index w).1.mem.serial_index)
      × ((e : Error)
          → (sync_serial_index w).0 ≡ err e
          → (sync_serial_index w).1.mem ≡ count_index_failure w.mem)
unfolding sync_serial_index reconcile_serial_index_locked inventory_entries
sync_serial_index-IndexSynced w = elim (Bool-cases (fails w)) [
  | inl bad ↦ rw bad (λ delta h. cc, λ e h. refl)
  | inr fine ↦ rw fine (
    λ delta h.
        let v = granted (ticked w) in
        reconciled-IndexSynced (not (v.mem.serial_index_epoch == w.mem.serial_index_epoch))
          (not (v.mem.serial_index_removal_epoch == w.mem.serial_index_removal_epoch))
          (index_entries [] w.store.inventory) v.mem (index_entries-IsMap [] w.store.inventory tt),
    λ e h. cc,
  )
]

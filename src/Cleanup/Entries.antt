-- ===== src/Cleanup/Entries.antt =====
-- The entries that a cleanup removes from the inventory and from the revocation list.
use openvox_ca.Prelude.{
  ℕ, zero, suc, ◌+◌, ◌-◌, ◌<◌, ◌≡◌, refl, ap, ◌∙◌, Bool, true, false, not, Option, none, some, List,
  [], ◌∷◌, arith, Bool-cases, inl, inr, ◌⊎◌, Memᴰ, ℤ, ◌==ℤ◌, ==ℤ_iff, ltb,
}
use openvox_ca.Serial.{set_string}
use openvox_ca.World.Types.{InventoryEntry, RevocationEntry, Store, Seconds}
use openvox_ca.World.Exec.{World, fails, ticked}
use openvox_ca.World.Storage.{prune_inventory, prune_found, kept_entries, dropped_entries}
use openvox_ca.Crl.Lists.{listed}
use openvox_ca.Cleanup.{is_kept, removed_serials, collected, is_removed, kept_revocations}

-- The end of the entry lies more than `retain` before `now`.
abbrev pub HasEnded : Seconds → Seconds → InventoryEntry → Type 0
HasEnded retain now e = (t : Seconds) × (e.not_after ≡ some t) × (t + retain < now)

-- The entry is of the inventory, and its end lies more than `retain` in the past.
abbrev pub IsExpired : Seconds → World → InventoryEntry → Type 0
IsExpired retain w e = Memᴰ e w.store.inventory × HasEnded retain w.now e

pub listed-kept_revocations :
    (n : ℤ) (removed : List ℤ) (es : List RevocationEntry)
    → listed n es ≡ true
    → (listed n (kept_revocations removed es) ≡ true) ⊎ (is_removed n removed ≡ true)
unfolding listed kept_revocations
listed-kept_revocations n removed [] h = cc
listed-kept_revocations n removed (e ∷ es) h =
    ground (arith, h, ==ℤ_iff e.serial n, listed-kept_revocations n removed es)

pub kept_revocations-listed :
    (n : ℤ) (removed : List ℤ) (es : List RevocationEntry)
    → listed n (kept_revocations removed es) ≡ true
    → listed n es ≡ true
unfolding listed kept_revocations
kept_revocations-listed n removed [] h = cc
kept_revocations-listed n removed (e ∷ es) h =
    ground (arith, h, kept_revocations-listed n removed es)

abbrev pub FromDropped : ℤ → List InventoryEntry → Type 0
FromDropped n es = (e : InventoryEntry) × Memᴰ e es × (set_string e.serial ≡ some n)

-- A number that was removed comes from one of the entries.
pub is_removed-entry :
    (n : ℤ) (es : List InventoryEntry) → is_removed n (removed_serials es) ≡ true → FromDropped n es
unfolding removed_serials is_removed
is_removed-entry n [] = λ h. cc
is_removed-entry n (e ∷ es) = go (set_string e.serial) refl (is_removed-entry n es)
  where
    later : FromDropped n es → FromDropped n (e ∷ es)
    later (f, m, q) = (f, Memᴰ.tail m, q)

    go :
        (o : Option ℤ)
        → set_string e.serial ≡ o
        → (is_removed n (removed_serials es) ≡ true → FromDropped n es)
        → is_removed n (collected o (removed_serials es)) ≡ true
        → FromDropped n (e ∷ es)
    go none q ih = λ h. later (ih h)
    go (some m) q ih = elim (Bool-cases (m ==ℤ n)) [
      | inl same ↦ λ h. (e, Memᴰ.head refl, q ∙ ap some ((==ℤ_iff m n).0 same))
      | inr other ↦ rw other (λ h. later (ih h))
    ]

dropped_head :
    (keep : InventoryEntry → Bool) (e f : InventoryEntry) (es ds : List InventoryEntry)
    → keep f ≡ false
    → (Memᴰ e ds → Memᴰ e es × (keep e ≡ false))
    → Memᴰ e (f ∷ ds)
    → Memᴰ e (f ∷ es) × (keep e ≡ false)
dropped_head keep e f es ds drops ih (Memᴰ.head p) = (Memᴰ.head p, ap keep p ∙ drops)
dropped_head keep e f es ds drops ih (Memᴰ.tail m) = let (k, q) = ih m in (Memᴰ.tail k, q)

mem-dropped_entries :
    (cap : ℕ) (keep : InventoryEntry → Bool) (e : InventoryEntry) (es : List InventoryEntry)
    → Memᴰ e (dropped_entries cap keep es)
    → Memᴰ e es × (keep e ≡ false)
unfolding dropped_entries
mem-dropped_entries zero keep e es m = elim m [ ]
mem-dropped_entries (suc cap) keep e [] m = elim m [ ]
mem-dropped_entries (suc cap) keep e (f ∷ es) m = elim (Bool-cases (keep f)) [
  | inl keeps ↦
      let (k, q) = mem-dropped_entries (suc cap) keep e es (rw keeps at m) in (Memᴰ.tail k, q)
  | inr drops ↦
      dropped_head keep e f es (dropped_entries cap keep es) drops
        (mem-dropped_entries cap keep e es) (rw drops at m)
]

-- The second list is the first one without some of its entries that the predicate holds of, and the
-- others in their order.
pub data Thinned (P : InventoryEntry → Type 0)
    : List InventoryEntry → List InventoryEntry → Type 0 where
  same : {es : List InventoryEntry} → Thinned P es es
  stays :
      (e : InventoryEntry) {es ls : List InventoryEntry}
      → Thinned P es ls
      → Thinned P (e ∷ es) (e ∷ ls)
  goes :
      (e : InventoryEntry) {es ls : List InventoryEntry}
      → P e
      → Thinned P es ls
      → Thinned P (e ∷ es) ls

kept_entries-Thinned :
    (P : InventoryEntry → Type 0) (cap : ℕ) (keep : InventoryEntry → Bool)
    (es : List InventoryEntry)
    → ((e : InventoryEntry) → keep e ≡ false → P e)
    → Thinned P es (kept_entries cap keep es)
unfolding kept_entries
kept_entries-Thinned P zero keep es drops = same
kept_entries-Thinned P (suc cap) keep [] drops = same
kept_entries-Thinned P (suc cap) keep (e ∷ es) drops = elim (Bool-cases (keep e)) [
  | inl keeps ↦ rw keeps (stays e (kept_entries-Thinned P (suc cap) keep es drops))
  | inr out ↦ rw out (goes e (drops e out) (kept_entries-Thinned P cap keep es drops))
]

pub is_kept-expired :
    (retain now : Seconds) (e : InventoryEntry)
    → is_kept (now - retain) e ≡ false
    → (t : Seconds) × (e.not_after ≡ some t) × (t + retain < now)
unfolding is_kept
is_kept-expired retain now e = go e.not_after
  where
    go :
        (o : Option Seconds)
        → elim o [ none ↦ true | some t ↦ not (ltb t (now - retain)) ] ≡ false
        → (t : Seconds) × (o ≡ some t) × (t + retain < now)
    go none h = cc
    go (some t) h = (t, refl, ground (arith, h))

found-dropped :
    (cap : ℕ) (ds : List InventoryEntry) (keep : InventoryEntry → Bool) (w : World)
    (e : InventoryEntry)
    → Memᴰ e (prune_found cap ds keep w).0.0
    → Memᴰ e ds
found-dropped cap [] keep w e = λ m. m
found-dropped cap (d ∷ ds) keep w e = elim (Bool-cases (fails (ticked w))) [
  | inl bad ↦ rw bad (λ m. m)
  | inr fine ↦ rw fine (λ m. m)
]

-- A store that differs at most in its inventory, which lost only entries that the predicate holds of.
pub record PrunedStore (P : InventoryEntry → Type 0) (s s' : Store) : Type 0 where
  pub inventory : Thinned P s.inventory s'.inventory
  pub others : s' ≡ record s { inventory = s'.inventory }

found-store :
    (P : InventoryEntry → Type 0) (cap : ℕ) (ds : List InventoryEntry)
    (keep : InventoryEntry → Bool) (w : World)
    → ((e : InventoryEntry) → keep e ≡ false → P e)
    → PrunedStore P w.store (prune_found cap ds keep w).1.store
found-store P cap [] keep w drops = record { inventory = same; others = refl }
found-store P cap (d ∷ ds) keep w drops = elim (Bool-cases (fails (ticked w))) [
  | inl bad ↦ rw bad (record {
    inventory = kept_entries-Thinned P cap keep w.store.inventory drops;
    others = refl;
  })
  | inr fine ↦ rw fine (record {
    inventory = kept_entries-Thinned P cap keep w.store.inventory drops;
    others = refl;
  })
]

-- What a prune returns was in the inventory and was not to be kept.
pub prune-dropped :
    (keep : InventoryEntry → Bool) (w : World) (e : InventoryEntry)
    → Memᴰ e (prune_inventory keep w).0.0
    → Memᴰ e w.store.inventory × (keep e ≡ false)
unfolding prune_inventory
prune-dropped keep w e = elim (Bool-cases (fails w)) [
  | inl bad ↦ rw bad (λ m. elim m [ ])
  | inr fine ↦ rw fine (λ m. mem-dropped_entries (suc (w.random w.tick)) keep e w.store.inventory (
      found-dropped (suc (w.random w.tick))
        (dropped_entries (suc (w.random w.tick)) keep w.store.inventory) keep w e m))
]

-- A prune takes out of the store at most entries of the inventory that were not to be kept.
pub prune-store :
    (P : InventoryEntry → Type 0) (keep : InventoryEntry → Bool) (w : World)
    → ((e : InventoryEntry) → keep e ≡ false → P e)
    → PrunedStore P w.store (prune_inventory keep w).1.store
unfolding prune_inventory
prune-store P keep w drops = elim (Bool-cases (fails w)) [
  | inl bad ↦ rw bad (record { inventory = same; others = refl })
  | inr fine ↦ rw fine (
      found-store P (suc (w.random w.tick))
        (dropped_entries (suc (w.random w.tick)) keep w.store.inventory) keep w drops)
]

-- ===== src/Supersede/Write.antt =====
-- The reads and writes of the pending list, and the entries that a sweep splits it into.
use openvox_ca.Prelude.{
  ◌≤◌, ◌≡◌, refl, false, Option, none, some, List, [], ◌∷◌, arith, Bool-cases, inl, inr, ◌⊎◌, Memᴰ,
  ltb, leb,
}
use openvox_ca.World.Types.{SupersededEntry, SupersededBlob, Seconds, Store, Error}
use openvox_ca.World.Exec.{World, Result, ok, err}
use openvox_ca.Supersede.Pending.{write_superseded, read_superseded, empty_blob}
use openvox_ca.Supersede.Sweep.{due_entries, pending_entries, sort_by_time, insert_by_time}

-- What a read of the list that does not fail gives.
abbrev pub pending_blob : Option SupersededBlob → SupersededBlob
pending_blob none = empty_blob
pending_blob (some b) = b

-- The entry is on the stored list.
abbrev pub IsPending : Store → SupersededEntry → Type 0
IsPending s e = Memᴰ e (pending_blob s.superseded).recovered

-- A world that differs from another in its memory and its count of calls at most.
pub record SameStore (w w' : World) : Type 0 where
  pub store : w'.store ≡ w.store
  pub now : w'.now ≡ w.now

pub read-SameStore : (w : World) → SameStore w (read_superseded w).1
unfolding read_superseded
read-SameStore w = ground arith

pub read-blob :
    (w : World) {b : SupersededBlob}
    → (read_superseded w).0 ≡ ok b
    → b ≡ pending_blob w.store.superseded
unfolding read_superseded
read-blob w h = ground arith

pub write-ok :
    (es : List SupersededEntry) (w : World)
    → (write_superseded es w).0 ≡ ok tt
    → (write_superseded es w).1.store
      ≡ record w.store { superseded = some (record { recovered = es; corrupt = false }) }
unfolding write_superseded
write-ok es w h = ground arith

pub write-failed :
    (es : List SupersededEntry) (w : World) {e : Error}
    → (write_superseded es w).0 ≡ err e
    → (write_superseded es w).1.store ≡ w.store
unfolding write_superseded
write-failed es w h = ground arith

-- A write of the list stores all of it or changes nothing.
pub write_either :
    (keep : List SupersededEntry) (w : World)
    → ((write_superseded keep w).1.store ≡ w.store)
      ⊎ ((write_superseded keep w).1.store
          ≡ record w.store { superseded = some (record { recovered = keep; corrupt = false }) })
write_either keep w = go (write_superseded keep w).0 refl
  where
    go :
        (r : Result (Unit {0}))
        → (write_superseded keep w).0 ≡ r
        → ((write_superseded keep w).1.store ≡ w.store)
          ⊎ ((write_superseded keep w).1.store
              ≡ record w.store { superseded = some (record { recovered = keep; corrupt = false }) })
    go (ok _) h = inr (write-ok keep w h)
    go (err e) h = inl (write-failed keep w h)

swapped :
    {e f g : SupersededEntry} {es fs : List SupersededEntry}
    → (Memᴰ e (f ∷ es) → Memᴰ e fs)
    → Memᴰ e (f ∷ g ∷ es)
    → Memᴰ e (g ∷ fs)
swapped ih (Memᴰ.head p) = Memᴰ.tail (ih (Memᴰ.head p))
swapped ih (Memᴰ.tail (Memᴰ.head p)) = Memᴰ.head p
swapped ih (Memᴰ.tail (Memᴰ.tail k)) = Memᴰ.tail (ih (Memᴰ.tail k))

swapped_back :
    {e f g : SupersededEntry} {es fs : List SupersededEntry}
    → (Memᴰ e fs → Memᴰ e (f ∷ es))
    → Memᴰ e (g ∷ fs)
    → Memᴰ e (f ∷ g ∷ es)
swapped_back ih (Memᴰ.head p) = Memᴰ.tail (Memᴰ.head p)
swapped_back {e} {f} {g} {es} {fs} ih (Memᴰ.tail k) = go (ih k)
  where
    go : Memᴰ e (f ∷ es) → Memᴰ e (f ∷ g ∷ es)
    go (Memᴰ.head p) = Memᴰ.head p
    go (Memᴰ.tail m) = Memᴰ.tail (Memᴰ.tail m)

mem-insert_by_time :
    (e f : SupersededEntry) (es : List SupersededEntry)
    → (Memᴰ e (f ∷ es) → Memᴰ e (insert_by_time f es))
      × (Memᴰ e (insert_by_time f es) → Memᴰ e (f ∷ es))
unfolding insert_by_time
mem-insert_by_time e f [] = (λ m. m, λ m. m)
mem-insert_by_time e f (g ∷ es) = elim (Bool-cases (leb f.revoke_at g.revoke_at)) [
  | inl first ↦ rw first (λ m. m, λ m. m)
  | inr later ↦
      rw later (swapped (mem-insert_by_time e f es).0, swapped_back (mem-insert_by_time e f es).1)
]

under_head :
    {e f : SupersededEntry} {es fs : List SupersededEntry}
    → (Memᴰ e es → Memᴰ e fs)
    → Memᴰ e (f ∷ es)
    → Memᴰ e (f ∷ fs)
under_head ih (Memᴰ.head p) = Memᴰ.head p
under_head ih (Memᴰ.tail m) = Memᴰ.tail (ih m)

-- Sorting keeps the entries.
pub mem-sort_by_time :
    (e : SupersededEntry) (es : List SupersededEntry)
    → (Memᴰ e es → Memᴰ e (sort_by_time es)) × (Memᴰ e (sort_by_time es) → Memᴰ e es)
unfolding sort_by_time
mem-sort_by_time e [] = (λ m. m, λ m. m)
mem-sort_by_time e (f ∷ es) =
    let ih = mem-sort_by_time e es in
    let here = mem-insert_by_time e f (sort_by_time es) in
    (λ m. here.0 (under_head ih.0 m), λ m. under_head ih.1 (here.1 m))

-- An entry of the list is due or pending.
pub mem-due_or_pending :
    (now : Seconds) (e : SupersededEntry) (es : List SupersededEntry)
    → Memᴰ e es
    → Memᴰ e (due_entries now es) ⊎ Memᴰ e (pending_entries now es)
unfolding due_entries pending_entries
mem-due_or_pending now e [] m = elim m [ ]
mem-due_or_pending now e (f ∷ es) (Memᴰ.head p) = elim (Bool-cases (ltb now f.revoke_at)) [
  | inl later ↦ rw later (inr (Memᴰ.head p))
  | inr due ↦ rw due (inl (Memᴰ.head p))
]
mem-due_or_pending now e (f ∷ es) (Memᴰ.tail m) = elim (Bool-cases (ltb now f.revoke_at)) [
  | inl later ↦ rw later (grown_right (mem-due_or_pending now e es m))
  | inr due ↦ rw due (grown_left (mem-due_or_pending now e es m))
]
  where
    grown_right :
        {xs ys : List SupersededEntry} → Memᴰ e xs ⊎ Memᴰ e ys → Memᴰ e xs ⊎ Memᴰ e (f ∷ ys)
    grown_right (inl l) = inl l
    grown_right (inr r) = inr (Memᴰ.tail r)

    grown_left :
        {xs ys : List SupersededEntry} → Memᴰ e xs ⊎ Memᴰ e ys → Memᴰ e (f ∷ xs) ⊎ Memᴰ e ys
    grown_left (inl l) = inl (Memᴰ.tail l)
    grown_left (inr r) = inr r

due_head :
    (now : Seconds) (e f : SupersededEntry) (es ds : List SupersededEntry)
    → ltb now f.revoke_at ≡ false
    → (Memᴰ e ds → Memᴰ e es × (e.revoke_at ≤ now))
    → Memᴰ e (f ∷ ds)
    → Memᴰ e (f ∷ es) × (e.revoke_at ≤ now)
due_head now e f es ds due ih (Memᴰ.head p) = (Memᴰ.head p, ground (arith, p))
due_head now e f es ds due ih (Memᴰ.tail m) = let (k, le) = ih m in (Memᴰ.tail k, le)

-- A due entry is of the list, and its time has come.
pub mem-due_entries :
    (now : Seconds) (e : SupersededEntry) (es : List SupersededEntry)
    → Memᴰ e (due_entries now es)
    → Memᴰ e es × (e.revoke_at ≤ now)
unfolding due_entries
mem-due_entries now e [] m = elim m [ ]
mem-due_entries now e (f ∷ es) m = elim (Bool-cases (ltb now f.revoke_at)) [
  | inl later ↦ let (k, le) = mem-due_entries now e es (rw later at m) in (Memᴰ.tail k, le)
  | inr due ↦ due_head now e f es (due_entries now es) due (mem-due_entries now e es) (rw due at m)
]

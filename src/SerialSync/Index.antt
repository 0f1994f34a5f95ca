-- ===== src/SerialSync/Index.antt =====
-- The index as a map: what dropping and setting a serial do to a lookup, and the map that is read.
use openvox_ca.Prelude.{
  ◌≡◌, refl, true, false, Option, none, some, List, [], ◌∷◌, arith, Bool-cases, String, ℤ, ◌==ℤ◌,
  ==ℤ_iff, inl, inr, if◌then◌else◌,
}
use openvox_ca.World.Types.{InventoryEntry}
use openvox_ca.Serial.{set_string}
use openvox_ca.Signing.Issue.{drop_serial}
use openvox_ca.Ocsp.{is_indexed}
use openvox_ca.SerialSync.{SerialIndex, subject_at, set_serial, index_entry, index_entries}

pub subject_at-drop_serial :
    (k n : ℤ) (index : SerialIndex)
    → subject_at k (drop_serial n index) ≡ (if n ==ℤ k then none else subject_at k index)
unfolding subject_at
subject_at-drop_serial k n [] = ground arith
subject_at-drop_serial k n ((m, s) ∷ index) =
    ground (arith, subject_at-drop_serial k n index, ==ℤ_iff m n, ==ℤ_iff n k, ==ℤ_iff m k)

pub subject_at-set_serial :
    (k n : ℤ) (s : String) (index : SerialIndex)
    → subject_at k (set_serial n s index) ≡ (if n ==ℤ k then some s else subject_at k index)
unfolding subject_at
subject_at-set_serial k n s index = ground (arith, subject_at-drop_serial k n index)

-- A serial is indexed where it has a subject.
pub is_indexed-none :
    (k : ℤ) (index : SerialIndex) → subject_at k index ≡ none → is_indexed k index ≡ false
unfolding subject_at is_indexed
is_indexed-none k [] h = refl
is_indexed-none k ((m, s) ∷ index) h = ground (arith, is_indexed-none k index)

pub is_indexed-some :
    (k : ℤ) (index : SerialIndex) {s : String}
    → subject_at k index ≡ some s
    → is_indexed k index ≡ true
unfolding subject_at is_indexed
is_indexed-some k [] h = cc
is_indexed-some k ((m, s) ∷ index) {s = t} h = ground (arith, is_indexed-some k index {s = t})

pub subject_at-none :
    (k : ℤ) (index : SerialIndex) → is_indexed k index ≡ false → subject_at k index ≡ none
unfolding subject_at is_indexed
subject_at-none k [] h = refl
subject_at-none k ((m, s) ∷ index) h = ground (arith, subject_at-none k index)

-- No serial stands twice.
abbrev pub IsMap : SerialIndex → Type 0
IsMap [] = Unit {0}
IsMap ((n, s) ∷ index) = (is_indexed n index ≡ false) × IsMap index

drop_serial-fresh :
    (n k : ℤ) (index : SerialIndex)
    → is_indexed k index ≡ false
    → is_indexed k (drop_serial n index) ≡ false
unfolding is_indexed
drop_serial-fresh n k [] h = refl
drop_serial-fresh n k ((m, s) ∷ index) h = ground (arith, drop_serial-fresh n k index)

drop_serial_self : (n : ℤ) (index : SerialIndex) → is_indexed n (drop_serial n index) ≡ false
unfolding is_indexed
drop_serial_self n [] = refl
drop_serial_self n ((m, s) ∷ index) = ground (arith, drop_serial_self n index)

drop_serial-IsMap : (n : ℤ) (index : SerialIndex) → IsMap index → IsMap (drop_serial n index)
drop_serial-IsMap n [] h = tt
drop_serial-IsMap n ((m, s) ∷ index) h = elim (Bool-cases (m ==ℤ n)) [
  | inl gone ↦ rw gone (drop_serial-IsMap n index h.1)
  | inr kept ↦ rw kept (drop_serial-fresh n m index h.0, drop_serial-IsMap n index h.1)
]

index_entry-IsMap :
    (n : Option ℤ) (s : String) (index : SerialIndex) → IsMap index → IsMap (index_entry n s index)
index_entry-IsMap none s index h = h
index_entry-IsMap (some n) s index h = (drop_serial_self n index, drop_serial-IsMap n index h)

pub index_entries-IsMap :
    (index : SerialIndex) (es : List InventoryEntry) → IsMap index → IsMap (index_entries index es)
unfolding index_entries
index_entries-IsMap index [] h = h
index_entries-IsMap index (e ∷ es) h =
    index_entries-IsMap (index_entry (set_string e.serial) e.subject index) es
      (index_entry-IsMap (set_string e.serial) e.subject index h)

-- ===== src/World/Storage.antt =====
-- The methods of StorageService (internal/storage/storage.go) that the CA calls. Each asks once
-- whether the backend fails, and then changes nothing; an append and a prune of the inventory may
-- also fail after the entries were written, when the integrity value cannot be.
use openvox_ca.Prelude.{
  ℕ, zero, suc, Bool, true, false, Option, none, some, List, [], ◌∷◌, ◌++◌, String, lookup, insert,
  delete, codes_eq, str_eq, if◌then◌else◌,
}
use openvox_ca.Serial.{SerialText, normalise_serial}
use openvox_ca.World.Types.{
  Store, Pem, Cert, Csr, CrlBlob, SupersededBlob, InventoryEntry, Seconds, Error, not_exist,
  backend_fault, duplicate_serial, malformed_serial,
}
use openvox_ca.World.Exec.{World, Exec, Result, ok, err, fails, ticked}

abbrev pub found {ℓ} : {A : Type ℓ} → Option A → Result A
found none = err not_exist
found (some a) = ok a

-- A read of the backend.
abbrev pub read_store {ℓ} : {A : Type ℓ} → (Store → Result A) → Exec A
read_store f w = if fails w then (err backend_fault, ticked w) else (f w.store, ticked w)

-- A write of the backend.
abbrev pub write_store : (Store → Store) → Exec (Unit {0})
write_store f w =
    if fails w
    then (err backend_fault, ticked w)
    else (ok tt, record (ticked w) { store = f w.store })

unfoldable pub get_crl : Exec CrlBlob
get_crl = read_store (λ s. found s.crl)

unfoldable pub update_crl : CrlBlob → Exec (Unit {0})
update_crl blob = write_store (λ s. record s { crl = some blob })

unfoldable pub get_superseded : Exec SupersededBlob
get_superseded = read_store (λ s. found s.superseded)

unfoldable pub save_superseded : SupersededBlob → Exec (Unit {0})
save_superseded b = write_store (λ s. record s { superseded = some b })

unfoldable pub get_cert : String → Exec (Pem Cert)
get_cert subject = read_store (λ s. found (lookup subject s.certs))

unfoldable pub save_cert : String → Pem Cert → Exec (Unit {0})
save_cert subject c = write_store (λ s. record s { certs = insert subject c s.certs })

unfoldable pub get_csr : String → Exec (Pem Csr)
get_csr subject = read_store (λ s. found (lookup subject s.csrs))

unfoldable pub save_csr : String → Pem Csr → Exec (Unit {0})
save_csr subject c = write_store (λ s. record s { csrs = insert subject c s.csrs })

abbrev pub is_there {ℓ} : {A : Type ℓ} → Option A → Bool
is_there none = false
is_there (some _) = true

-- The backend's Delete of a key that is absent reports that it does not exist.
abbrev pub delete_found : Bool → (Store → Store) → Exec (Unit {0})
delete_found true f w = (ok tt, record (ticked w) { store = f w.store })
delete_found false f w = (err not_exist, ticked w)

unfoldable pub delete_cert : String → Exec (Unit {0})
delete_cert subject w =
    if fails w
    then (err backend_fault, ticked w)
    else delete_found (is_there (lookup subject w.store.certs))
        (λ s. record s { certs = delete subject s.certs }) w

unfoldable pub delete_csr : String → Exec (Unit {0})
delete_csr subject w =
    if fails w
    then (err backend_fault, ticked w)
    else delete_found (is_there (lookup subject w.store.csrs))
        (λ s. record s { csrs = delete subject s.csrs }) w

unfoldable pub cert_exists_in : String → Exec Bool
cert_exists_in subject = read_store (λ s. ok (is_there (lookup subject s.certs)))

unfoldable pub csr_exists_in : String → Exec Bool
csr_exists_in subject = read_store (λ s. ok (is_there (lookup subject s.csrs)))

-- HasCert and HasCSR read a failure as absence.
unfoldable pub has_cert : String → Exec Bool
has_cert subject w =
    if fails w
    then (ok false, ticked w)
    else (ok (is_there (lookup subject w.store.certs)), ticked w)

unfoldable pub has_csr : String → Exec Bool
has_csr subject w =
    if fails w
    then (ok false, ticked w)
    else (ok (is_there (lookup subject w.store.csrs)), ticked w)

-- latestSerialFromBlob: the last entry of the subject; an empty serial reads as none.
unfoldable pub latest_serial : SerialText → String → List InventoryEntry → SerialText
latest_serial last subject [] = last
latest_serial last subject (e ∷ es) =
    latest_serial (if str_eq e.subject subject then e.serial else last) subject es

abbrev pub non_empty : SerialText → Result SerialText
non_empty [] = err not_exist
non_empty (c ∷ cs) = ok (c ∷ cs)

unfoldable pub latest_serial_for_subject : String → Exec SerialText
unfolding latest_serial
latest_serial_for_subject subject =
    read_store (λ s. non_empty (latest_serial [] subject s.inventory))

abbrev pub same_text : SerialText → Option SerialText → Bool
same_text want none = false
same_text want (some got) = codes_eq got want

-- The first entry whose serial normalises to `want`.
unfoldable pub subject_of : SerialText → List InventoryEntry → Result String
subject_of want [] = err not_exist
subject_of want (e ∷ es) =
    if same_text want (normalise_serial e.serial) then ok e.subject else subject_of want es

abbrev pub subject_for : Option SerialText → Exec String
subject_for none w = (err malformed_serial, w)
subject_for (some want) w = read_store (λ s. subject_of want s.inventory) w

unfoldable pub subject_for_serial : SerialText → Exec String
unfolding subject_of
subject_for_serial serial = subject_for (normalise_serial serial)

unfoldable pub has_serial : SerialText → List InventoryEntry → Bool
has_serial serial [] = false
has_serial serial (e ∷ es) = if codes_eq e.serial serial then true else has_serial serial es

-- InventoryEntries; an integrity value that does not match is a failure of the backend.
unfoldable pub inventory_entries : Exec (List InventoryEntry)
inventory_entries = read_store (λ s. ok s.inventory)

-- A second failure leaves the entry appended.
abbrev pub append_checked : Bool → InventoryEntry → Exec (Unit {0})
append_checked true e w = (err duplicate_serial, ticked w)
append_checked false e w =
    let s = w.store in
    let w' = record (ticked w) { store = record s { inventory = s.inventory ++ e ∷ [] } } in
    if fails (ticked w) then (err backend_fault, ticked w') else (ok tt, ticked w')

unfoldable pub append_inventory_record : InventoryEntry → Exec (Unit {0})
unfolding has_serial
append_inventory_record e w =
    if fails w
    then (err backend_fault, ticked w)
    else append_checked (has_serial e.serial w.store.inventory) e w

-- The entries that a prune takes out, the first `cap` of those not to be kept: a backend may bound how
-- much one call removes, or stop at an error between two batches.
unfoldable pub dropped_entries :
    ℕ → (InventoryEntry → Bool) → List InventoryEntry → List InventoryEntry
dropped_entries zero keep es = []
dropped_entries (suc cap) keep [] = []
dropped_entries (suc cap) keep (e ∷ es) =
    let rest = dropped_entries (suc cap) keep es in
    let later = dropped_entries cap keep es in if keep e then rest else e ∷ later

-- The entries that such a prune leaves.
unfoldable pub kept_entries :
    ℕ → (InventoryEntry → Bool) → List InventoryEntry → List InventoryEntry
kept_entries zero keep es = es
kept_entries (suc cap) keep [] = []
kept_entries (suc cap) keep (e ∷ es) =
    let rest = kept_entries (suc cap) keep es in
    let later = kept_entries cap keep es in if keep e then e ∷ rest else later

-- What a prune removed, and the error that it may report beside that.
abbrev pub Pruned : Type 0
Pruned = List InventoryEntry × Option Error

-- Nothing is written where nothing is to be removed, and an error after the first write, of a later
-- batch or of the integrity value, leaves the entries removed that are returned with it.
abbrev pub prune_found : ℕ → List InventoryEntry → (InventoryEntry → Bool) → World → Pruned × World
prune_found cap [] keep w = (([], none), ticked w)
prune_found cap (e ∷ es) keep w =
    let s = w.store in
    let w' = record (ticked w) {
      store = record s { inventory = kept_entries cap keep s.inventory };
    } in
    if fails (ticked w)
    then ((e ∷ es, some backend_fault), ticked w')
    else ((e ∷ es, none), ticked w')

-- PruneInventory, by the contract of PruneEntries; how much the backend removes in one call, at least
-- one entry, is drawn from the world.
unfoldable pub prune_inventory : (InventoryEntry → Bool) → World → Pruned × World
unfolding kept_entries dropped_entries
prune_inventory keep w =
    let cap = suc (w.random w.tick) in
    if fails w
    then (([], some backend_fault), ticked w)
    else prune_found cap (dropped_entries cap keep w.store.inventory) keep w

unfoldable pub mark_cert_revoked : SerialText → Seconds → Exec (Unit {0})
mark_cert_revoked serial at =
    write_store (λ s. record s { revoked_marks = (serial, at) ∷ s.revoked_marks })

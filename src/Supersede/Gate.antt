-- ===== src/Supersede/Gate.antt =====
-- What the gate of the renewal paths lets through (refuseIfRevoked and refuseIfSuperseded).
use openvox_ca.Prelude.{
  ℕ, ◌≡◌, refl, ap, ◌∙◌, true, false, Option, none, some, List, [], ◌∷◌, ◌++◌, arith, Bool-cases,
  inl, inr, ◌≢◌, ◌↔◌, ◌+◌, pos, ℤ, String, codes_eq_refl, Option-cases,
}
use openvox_ca.Serial.{SerialText, normalise_serial, serial_hex_str}
use openvox_ca.Serial.Canonical.{StandsFor, normalise_serial-canonical}
use openvox_ca.World.Types.{Crl, Cert, Config, Store, SupersededEntry, SupersededBlob, Seconds}
use openvox_ca.World.Exec.{World, Result, ok, err, fails, continue}
use openvox_ca.Crl.Lists.{serial_in_crl}
use openvox_ca.Crl.Store.{sync_crl_cache, is_revoked_serial, revoked_in}
use openvox_ca.Supersede.Pending.{load_superseded, read_superseded, write_superseded}
use openvox_ca.Supersede.Sweep.{record_superseded, append_superseded, count_superseded}
use openvox_ca.World.Locks.{with_lock, granted}
use openvox_ca.Supersede.Write.{pending_blob, write-ok}
use openvox_ca.Supersede.Refuse.{
  names_serial, refuse_if_superseded, judge_superseded, refuse_if_revoked, judge_revoked,
}

-- The pending list can be read in full, and names the number nowhere.
pub record IsClear (n : ℤ) (w : World) : Type 0 where
  pub readable : fails w ≡ false
  pub whole : (pending_blob w.store.superseded).corrupt ≡ false
  pub unnamed : names_serial (serial_hex_str n) (pending_blob w.store.superseded).recovered ≡ false

judged :
    (n : ℤ) (r : Result SupersededBlob) (w : World)
    → (judge_superseded n (r, w)).0 ≡ ok tt
    → (b : SupersededBlob) × (r ≡ ok b)
      × (b.corrupt ≡ false)
      × (names_serial (serial_hex_str n) b.recovered ≡ false)
judged n (err e) w h = cc
judged n (ok b) w h = (b, refl, ground arith, ground arith)

loaded :
    (w : World) {b : SupersededBlob}
    → (load_superseded w).0 ≡ ok b
    → (fails w ≡ false) × (b ≡ pending_blob w.store.superseded)
unfolding load_superseded
loaded w h = (ground arith, ground arith)

load-fine :
    (w : World) → fails w ≡ false → (load_superseded w).0 ≡ ok (pending_blob w.store.superseded)
unfolding load_superseded
load-fine w h = ground arith

judge-clear :
    (n : ℤ) (b : SupersededBlob) (w : World)
    → b.corrupt ≡ false
    → names_serial (serial_hex_str n) b.recovered ≡ false
    → (judge_superseded n (ok b, w)).0 ≡ ok tt
judge-clear n b w h k = ground arith

-- A certificate whose serial is n passes the supersession gate exactly where the pending list was
-- read, is not corrupt, and has no entry that normalises to the printed form of n.
refuse_if_superseded_iff :
    (n : ℤ) (w : World) → ((refuse_if_superseded n w).0 ≡ ok tt) ↔ IsClear n w
unfolding refuse_if_superseded
refuse_if_superseded_iff n w = (
  λ h.
      (let (b, read, whole, unnamed) = judged n (load_superseded w).0 (load_superseded w).1 h in
        let (readable, blob) = loaded w read in
        record { readable = readable; whole = rw (← blob) whole; unnamed = rw (← blob) unnamed }),
  λ clear. rw (load-fine w clear.readable) (
      judge-clear n (pending_blob w.store.superseded) (load_superseded w).1 clear.whole
        clear.unnamed),
)

-- The entry that recordSuperseded writes is found by the number that it was printed from.
names-recorded :
    (n : ℤ) (e : SupersededEntry) (es : List SupersededEntry)
    → normalise_serial e.serial ≡ some (serial_hex_str n)
    → names_serial (serial_hex_str n) (es ++ e ∷ []) ≡ true
unfolding names_serial
names-recorded n e [] h = rw h (ground (arith, codes_eq_refl (serial_hex_str n)))
names-recorded n e (f ∷ es) h = ground (arith, names-recorded n e es h)

-- What lets a presented certificate through: the list in memory after the refresh does not hold it,
-- and the pending list does not name it.
pub record Passes (c : Config) (presented : Cert) (w : World) : Type 0 where
  pub crl : Crl
  pub in_memory : (sync_crl_cache c w).1.mem.cached_crl ≡ some crl
  pub unlisted : serial_in_crl crl presented.serial ≡ false
  pub clear : IsClear presented.serial (sync_crl_cache c w).1

-- What the gate does once the list in memory is known.
abbrev decide : ℤ → Option Crl → World → Result (Unit {0}) × World
decide n m v = continue (revoked_in m n) (λ b. judge_revoked b (refuse_if_superseded n)) v

decide-ok :
    (n : ℤ) (m : Option Crl) (v : World)
    → (decide n m v).0 ≡ ok tt
    → (crl : Crl) × (m ≡ some crl)
      × (serial_in_crl crl n ≡ false)
      × ((refuse_if_superseded n v).0 ≡ ok tt)
decide-ok n none v = λ h. cc
decide-ok n (some crl) v = elim (Bool-cases (serial_in_crl crl n)) [
  | inl on ↦ rw on (λ h. cc)
  | inr off ↦ rw off (λ h. (crl, refl, off, h))
]

decide-fine :
    (n : ℤ) (m : Option Crl) (v : World) (crl : Crl)
    → m ≡ some crl
    → serial_in_crl crl n ≡ false
    → (refuse_if_superseded n v).0 ≡ ok tt
    → (decide n m v).0 ≡ ok tt
decide-fine n m v crl at off h = rw (at, off) h

-- A renewal's gate opens exactly where the list that the refresh left in memory does not hold the
-- presented serial, and the pending list was read, is not corrupt and does not name it.
pub refuse_if_revoked_iff :
    (c : Config) (presented : Cert) (w : World)
    → ((refuse_if_revoked c presented w).0 ≡ ok tt) ↔ Passes c presented w
unfolding refuse_if_revoked is_revoked_serial
refuse_if_revoked_iff c presented w =
    let n = presented.serial in
    let v = (sync_crl_cache c w).1 in
    (
      λ h.
          (let (crl, at, off, rest) = decide-ok n v.mem.cached_crl v h in
            record {
              crl = crl;
              in_memory = at;
              unlisted = off;
              clear = (refuse_if_superseded_iff n v).0 rest;
            }),
      λ p.
          decide-fine n v.mem.cached_crl v p.crl p.in_memory p.unlisted
            ((refuse_if_superseded_iff n v).1 p.clear),
    )

-- The list ends in the entry.
abbrev EndsIn : SupersededEntry → Store → Type 0
EndsIn e s =
    (es : List SupersededEntry) × (s.superseded
      ≡ some (record { recovered = es ++ e ∷ []; corrupt = false }))

appended-ok :
    (e : SupersededEntry) (w : World)
    → (append_superseded e w).0 ≡ ok tt
    → EndsIn e (append_superseded e w).1.store
unfolding append_superseded
appended-ok e w = go (read_superseded w).0
  where
    go :
        (r : Result SupersededBlob)
        → let p =
            continue r (λ b. write_superseded (b.recovered ++ e ∷ [])) (read_superseded w).1 in
          p.0 ≡ ok tt → EndsIn e p.1.store
    go (ok b) h = (
      b.recovered,
      ap (λ (t : Store). t.superseded) (write-ok (b.recovered ++ e ∷ []) (read_superseded w).1 h),
    )
    go (err x) h = cc

counted-ok :
    (e : SupersededEntry) (r : Result (Unit {0})) (v : World)
    → (r ≡ ok tt → EndsIn e v.store)
    → (count_superseded (r, v)).0 ≡ ok tt
    → EndsIn e (count_superseded (r, v)).1.store
counted-ok e (ok _) v ends h = ends refl
counted-ok e (err x) v ends h = cc

locked-ok :
    (e : SupersededEntry) (w : World)
    → (with_lock (append_superseded e) w).0 ≡ ok tt
    → EndsIn e (with_lock (append_superseded e) w).1.store
unfolding with_lock
locked-ok e w = elim (Bool-cases (fails w)) [
  | inl failed ↦ rw failed (λ h. cc)
  | inr fine ↦ rw fine (λ h. appended-ok e (granted w) h)
]

recorded :
    (subject : String) (serial : SerialText) (after : Seconds) (w : World)
    → (record_superseded subject serial after w).0 ≡ ok tt
    → (n : ℕ) × StandsFor serial (pos n)
      × ((e : SupersededEntry) × (normalise_serial e.serial ≡ some (serial_hex_str (pos n)))
          × EndsIn e (record_superseded subject serial after w).1.store)
unfolding record_superseded
recorded subject serial after w = elim (Option-cases (normalise_serial serial)) [
  | inl bad ↦ rw bad (λ h. cc)
  | inr (t, good) ↦
      (let (n, value, printed, _, stays) = normalise_serial-canonical serial good in
        rw good (λ h. (
          n,
          value,
          (
            record { serial = t; subject = subject; revoke_at = w.now + after },
            stays ∙ ap some printed,
            counted-ok _ (with_lock (append_superseded _) w).0 (with_lock (append_superseded _) w).1
                (locked-ok _ w) h,
          ),
        )))
]

-- A serial that was recorded closes the gate, however it was written: it stands for a number, and
-- while the pending list is the one that recordSuperseded left, no certificate with that number
-- passes, whatever else is the case.
pub record-closes :
    (subject : String) (serial : SerialText) (after : Seconds) (w v : World)
    → (record_superseded subject serial after w).0 ≡ ok tt
    → v.store.superseded ≡ (record_superseded subject serial after w).1.store.superseded
    → (n : ℕ) × StandsFor serial (pos n) × ((refuse_if_superseded (pos n) v).0 ≢ ok tt)
record-closes subject serial after w v h same =
    let (n, value, (e, canonical, (es, list))) = recorded subject serial after w h in
    (
      n,
      value,
      λ passes.
          (let clear = (refuse_if_superseded_iff (pos n) v).0 passes in
            let unnamed =
              ap (λ l. names_serial (serial_hex_str (pos n)) (pending_blob l).recovered)
                (same ∙ list) in
            absurd (cc (unnamed, clear.unnamed, names-recorded (pos n) e es canonical))),
    )

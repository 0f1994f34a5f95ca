-- ===== src/ChainFile/Refreshed.antt =====
-- What a pass over the chain file leaves (RefreshCRLChainFile of internal/ca/crlchainfile.go).
use openvox_ca.Prelude.{
  ◌≡◌, ◌≢◌, refl, ◌∙◌, map, Bool, true, false, ◌⊎◌, inl, inr, Option, none, some, List, ◌∷◌, arith,
  Bool-cases,
}
use openvox_ca.World.Types.{
  Crl, CrlBlob, crl_block, CaCert, Config, Store, Error, upstream_fault, stated,
}
use openvox_ca.World.Exec.{World, Result, ok, err, pure, fails, ticked}
use openvox_ca.World.Steps.{bind-ok}
use openvox_ca.World.Storage.{get_crl, found}
use openvox_ca.Crl.Lists.{foreign_crls}
use openvox_ca.Crl.Store.{StoredCrl, read_stored_crl}
use openvox_ca.Crl.Sign.{sign_crl_locked, reissue_crl_locked}
use openvox_ca.Crl.Chain.{IsReady, stored_crl}
use openvox_ca.Crl.Read.{read-ok}
use openvox_ca.Crl.Follow.{Carried, Follow}
use openvox_ca.Crl.Outcome.{sign-ok}
use openvox_ca.ChainFile.{upstream_crls, published_upstream}
use openvox_ca.ChainFile.Stated.{upstream_crls-StatedOver}
use openvox_ca.ChainFile.Refresh.{
  Reading, states, as_upstream, same_crl_set, stating, rewrite_unless_same, rewrite_wanted,
  rewrite_current, refresh_chain_locked,
}

-- What the second reading leaves behind our list: the lists that it states, or, where the file makes
-- no statement, those of the chain `from` that others signed.
pub data Behind (c : Config) (from : CrlBlob) (crls : List Crl) : Option (List Crl) → Type 0 where
  as_stated : Behind c from crls (some crls)
  as_carried :
      (ca : CaCert) → c.ca_cert ≡ some ca → Carried ca.key from crls → Behind c from crls none

-- A list of ours with the old entries, then the lists of the second reading, is the chain now, and the
-- list is the one in memory.
pub record Rewritten (c : Config) (again : Option (List Crl)) (s : Store) (w' : World)
    : Type 0 where
  pub prev : StoredCrl
  pub read : stored_crl c s ≡ some prev
  pub crl : Crl
  pub entries : crl.entries ≡ prev.own.entries
  pub behind : List Crl
  pub follow : Behind c prev.blob behind again
  pub store : w'.store ≡ record s { crl = some (map crl_block (crl ∷ behind)) }
  pub cached : w'.mem.cached_crl ≡ some crl

stating-IsReady :
    (c : Config) (r : Result (Option (List Crl)))
    → IsReady c
    → ((us : List Crl) → r ≡ ok (some us) → foreign_crls c.ca_cert us ≡ us)
    → IsReady (stating c r)
stating-IsReady c r ready foreign = record {
  cert = ready.cert;
  has_cert = ready.has_cert;
  has_key = ready.has_key;
  upstream_foreign = λ us h. foreign us (stated_of r h);
}
  where
    stated_of :
        (r : Result (Option (List Crl))) {us : List Crl}
        → as_upstream r ≡ stated us
        → r ≡ ok (some us)
    stated_of (err e) h = cc
    stated_of (ok none) h = cc
    stated_of (ok (some us)) h = ground (arith, h)

-- A reading that failed signs nothing.
reading-ok :
    (c : Config) (r : Result (Option (List Crl))) (from : CrlBlob) (crls : List Crl)
    → ((e : Error) → as_upstream r ≢ upstream_fault e)
    → Follow (stating c r) from crls
    → (again : Option (List Crl)) × (r ≡ ok again) × Behind c from crls again
reading-ok c (err e) from crls fine f = absurd (fine e refl)
reading-ok c (ok none) from crls fine (Follow.as_stated h) = absurd (cc h)
reading-ok c (ok none) from crls fine (Follow.as_carried ca silent has carried) =
    (none, refl, as_carried ca has carried)
reading-ok c (ok (some us)) from crls fine (Follow.as_stated h) =
    let same : us ≡ crls = ground (arith, h) in (some us, refl, rw (← same) as_stated)
reading-ok c (ok (some us)) from crls fine (Follow.as_carried ca silent has carried) =
    absurd (silent us refl)

store_eq :
    (s t : Store) (a b : CrlBlob)
    → s ≡ t
    → a ≡ b
    → (let u : Store = record s { crl = some a } in u) ≡ record t { crl = some b }
store_eq s t a b p q = rw (p, q) refl

reissue-Rewritten :
    (c : Config) (r : Result (Option (List Crl))) (w : World)
    → IsReady c
    → ((us : List Crl) → r ≡ ok (some us) → foreign_crls c.ca_cert us ≡ us)
    → (reissue_crl_locked (stating c r) w).0 ≡ ok tt
    → (again : Option (List Crl)) × (r ≡ ok again)
      × Rewritten c again w.store (reissue_crl_locked (stating c r) w).1
unfolding reissue_crl_locked stored_crl
reissue-Rewritten c r w ready foreign h =
    let d = stating c r in
    let v = read_stored_crl d w in
    let (prev, is, to_sign, h1) =
      bind-ok v.0 (λ st. sign_crl_locked d (some st) st.own.entries) v.1 h in
    let (read, same) = read-ok d w is in
    let s = sign-ok d prev prev.own.entries v.1 (stating-IsReady c r ready foreign) h1 in
    let p = s.published in
    let (again, reads, follow) = reading-ok c r prev.blob p.behind p.no_fault p.follow in
    let blob = map crl_block (s.crl ∷ p.behind) in
    (
      again,
      reads,
      rw (to_sign) (record {
        prev = prev;
        read = read;
        crl = s.crl;
        entries = s.made.entries;
        behind = p.behind;
        follow = follow;
        store = p.store ∙ store_eq v.1.store w.store blob blob same.store refl;
        cached = p.cached;
      }),
    )

-- A pass that rewrote the chain: the first reading of the file states lists other than those
-- published, and the chain now holds those of the second after the list of ours.
pub record Rewrote (c : Config) (first second : Reading) (s : Store) (w' : World) : Type 0 where
  pub current : CrlBlob
  pub held : s.crl ≡ some current
  pub wanted : List Crl
  pub decides : upstream_crls c.ca_cert first.bundle first.file (some current) ≡ ok (some wanted)
  pub published : List Crl
  pub is_published : published_upstream c.ca_cert (some current) ≡ ok published
  pub differs : same_crl_set published wanted ≡ false
  pub again : Option (List Crl)
  pub reads : upstream_crls c.ca_cert second.bundle second.file (some current) ≡ ok again
  pub rewritten : Rewritten c again s w'

abbrev pub ChainRefreshed : Config → Reading → Reading → Bool → Store → World → Type 0
ChainRefreshed c first second b s w' =
    ((b ≡ false) × (w'.store ≡ s)) ⊎ ((b ≡ true) × Rewrote c first second s w')

unless_same-ChainRefreshed :
    (c : Config) (first second : Reading) (current : CrlBlob) (wanted : List Crl)
    (r : Result (List Crl)) (w : World) {b : Bool}
    → IsReady c
    → w.store.crl ≡ some current
    → states c first current ≡ ok (some wanted)
    → published_upstream c.ca_cert (some current) ≡ r
    → (rewrite_unless_same c (states c second current) wanted r w).0 ≡ ok b
    → ChainRefreshed c first second b w.store
        (rewrite_unless_same c (states c second current) wanted r w).1
unless_same-ChainRefreshed c first second current wanted (err e) w ready held decides is = λ h. cc
unless_same-ChainRefreshed c first second current wanted (ok published) w ready held decides is =
    elim (Bool-cases (same_crl_set published wanted)) [
      | inl same ↦ rw same (λ h. inl (ground (arith, h), refl))
      | inr differs ↦ rw differs (λ h.
          (let again = states c second current in
            let made = reissue_crl_locked (stating c again) w in
            let (u, done, to_end, last) = bind-ok made.0 (λ _. pure true) made.1 h in
            let (lists, reads, rewritten) =
              reissue-Rewritten c again w ready
                (λ us e.
                  (let so =
                      upstream_crls-StatedOver c.ca_cert second.bundle second.file (some current)
                        e in
                    so.over.foreign))
                done in
            rw (to_end) (
              inr (
                ground (arith, last),
                record {
                  current = current;
                  held = held;
                  wanted = wanted;
                  decides = decides;
                  published = published;
                  is_published = is;
                  differs = differs;
                  again = lists;
                  reads = reads;
                  rewritten = rewritten;
                },
              ))))
    ]

wanted-ChainRefreshed :
    (c : Config) (first second : Reading) (current : CrlBlob) (r : Result (Option (List Crl)))
    (w : World) {b : Bool}
    → IsReady c
    → w.store.crl ≡ some current
    → states c first current ≡ r
    → (rewrite_wanted c (states c second current) current r w).0 ≡ ok b
    → ChainRefreshed c first second b w.store
        (rewrite_wanted c (states c second current) current r w).1
wanted-ChainRefreshed c first second current (err e) w ready held decides h = cc
wanted-ChainRefreshed c first second current (ok none) w ready held decides h =
    inl (ground (arith, h), refl)
wanted-ChainRefreshed c first second current (ok (some wanted)) w ready held decides h =
    unless_same-ChainRefreshed c first second current wanted
      (published_upstream c.ca_cert (some current)) w ready held decides refl h

current-ChainRefreshed :
    (c : Config) (first second : Reading) (stored : Option CrlBlob) (w : World) {b : Bool}
    → IsReady c
    → w.store.crl ≡ stored
    → (rewrite_current c first second (found stored) (ticked w)).0 ≡ ok b
    → ChainRefreshed c first second b w.store
        (rewrite_current c first second (found stored) (ticked w)).1
current-ChainRefreshed c first second none w ready held h = cc
current-ChainRefreshed c first second (some current) w ready held h =
    wanted-ChainRefreshed c first second current (states c first current) (ticked w) ready held refl
      h

-- A pass over the chain file, under the lock of the list, that gives an answer left the store alone, or
-- says that it rewrote the chain. Then the first reading of the file states lists other than the
-- published ones, and the chain is a new list of ours with the entries that it had, followed by exactly
-- the lists that the second reading states, whether they are those of the first or not, or, where that
-- one found no statement, by exactly those that the CA's key did not sign; and that list is the one in
-- memory.
pub refresh_chain_locked-ChainRefreshed :
    (c : Config) (first second : Reading) (w : World) {b : Bool}
    → IsReady c
    → (refresh_chain_locked c first second w).0 ≡ ok b
    → ChainRefreshed c first second b w.store (refresh_chain_locked c first second w).1
unfolding refresh_chain_locked get_crl
refresh_chain_locked-ChainRefreshed c first second w ready = elim (Bool-cases (fails w)) [
  | inl bad ↦ rw bad (λ h. cc)
  | inr fine ↦ rw fine (λ h. current-ChainRefreshed c first second w.store.crl w ready refl h)
]

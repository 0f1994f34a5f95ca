-- ===== src/Managed/Served.antt =====
-- A managed certificate against the spec that it was signed for: issueDecision and renewWindowFor of
-- internal/ca/managedcert.go after issueLeafLocked of signing.go.
use openvox_ca.Prelude.{
  ℕ, ◌+◌, ◌-◌, ◌/◌, ◌≤◌, ◌≡◌, refl, sym, Bool, true, false, ◌||◌, Option, some, List, [], ◌∷◌, map,
  String, str_eq, str_eq_refl, ltb, ◌==◌, if◌then◌else◌, arith, Memᴰ,
}
use openvox_ca.World.Types.{Cert, CaCert, Config, parsed, PublicKey, Seconds}
use openvox_ca.Signing.Issue.{min, leaf_template, leaf_validity, leaf_backdate, usage_or_default}
use openvox_ca.Managed.Spec.{CertSpec}
use openvox_ca.Managed.Reconcile.{managed_request}
use openvox_ca.Managed.Decide.{
  IssueReason, current, renew_window, contains, carries, leaf_carries_names, equal_codes,
  leaf_carries_usages, renew_window_for, forward_life, contents_reason, key_reason, issue_decision,
  usage_code, sorted_codes, compact,
}

or_true : (b : Bool) → (b || true) ≡ true
or_true true = refl
or_true false = refl

contains-mem : (n : String) (ns : List String) → Memᴰ n ns → contains n ns ≡ true
unfolding contains
contains-mem n [] m = elim m [ ]
contains-mem n (k ∷ ks) m = elim m [
  | Memᴰ.head p ↦ rw (sym p, str_eq_refl n) refl
  | Memᴰ.tail t ↦ rw (contains-mem n ks t) (or_true (str_eq n k))
]

carries-mem :
    (want have : List String)
    → ((n : String) → Memᴰ n want → Memᴰ n have)
    → carries want have ≡ true
unfolding carries
carries-mem [] have sub = refl
carries-mem (n ∷ ns) have sub =
    rw
      (
        contains-mem n have (sub n (Memᴰ.head refl)),
        carries-mem ns have (λ k m. sub k (Memᴰ.tail m)),
      )
      refl

carries_self : (ns : List String) → carries ns ns ≡ true
carries_self ns = carries-mem ns ns (λ n m. m)

equal_codes_self : (ns : List ℕ) → equal_codes ns ns ≡ true
unfolding equal_codes
equal_codes_self [] = refl
equal_codes_self (n ∷ ns) =
    let same : (n == n) ≡ true = ground arith in rw (same, equal_codes_self ns) refl

-- How long a leaf of this request would be good for from now.
abbrev pub granted_life : Config → CaCert → Seconds → Seconds → Seconds
granted_life c ca ttl now = min (leaf_validity c ttl) (ca.not_after - now)

==_same : (n : ℕ) → (n == n) ≡ true
==_same n = ground arith

life_from :
    (now life backdate : ℕ) → backdate ≤ now → now + life - (now - backdate) - backdate ≡ life
life_from now life backdate h = omega arith

half_life : (now life asked : ℕ) → now + (life - life / 2) ≤ now + life - min asked (life / 2)
half_life now life asked = ground arith

module _ (c : Config) (ca : CaCert) (spec : CertSpec) (key : PublicKey) (number : ℕ)
    (now : Seconds) where
  abbrev pub managed_leaf : Cert
  managed_leaf = leaf_template c ca ca.key (managed_request spec key) number now

  -- The time from which on the next is due.
  abbrev pub due_at : Seconds
  due_at =
      let life = granted_life c ca spec.ttl now in now + life - min spec.renew_before (life / 2)

  leaf-Names : leaf_carries_names managed_leaf spec ≡ true
  unfolding leaf_carries_names leaf_template
  leaf-Names =
      rw
        (
          str_eq_refl spec.subject,
          carries_self spec.sans.dns_names,
          carries_self spec.sans.ip_addresses,
          carries_self spec.sans.email_addresses,
          carries_self spec.sans.uris,
        )
        refl

  leaf-Usages : leaf_carries_usages managed_leaf spec ≡ true
  unfolding leaf_carries_usages leaf_template
  leaf-Usages =
      equal_codes_self
        (compact (sorted_codes (map usage_code (usage_or_default spec.ext_key_usage))))

  module _ (starts : leaf_backdate c ≤ now) where
    leaf-forward : forward_life managed_leaf (leaf_backdate c) ≡ granted_life c ca spec.ttl now
    unfolding leaf_template
    leaf-forward = life_from now (granted_life c ca spec.ttl now) (leaf_backdate c) starts

    leaf-due :
        managed_leaf.not_after - renew_window_for managed_leaf spec (leaf_backdate c) ≡ due_at
    unfolding renew_window_for leaf_template
    leaf-due = rw (leaf-forward) refl

    leaf-reason :
        (later : Seconds)
        → contents_reason managed_leaf spec (leaf_backdate c) later false
          ≡ (if ltb later due_at then current else renew_window)
    unfolding contents_reason
    leaf-reason later = rw (leaf-Names, leaf-Usages, leaf-due) refl

  -- What the decision is on the leaf, beside the key it was signed for, at a later time.
  abbrev pub decided_at : Seconds → IssueReason × Option Cert
  decided_at later =
      issue_decision (some (parsed managed_leaf)) (some (parsed key)) spec (some ca)
        (leaf_backdate c) later false

-- A leaf that the CA has signed for a spec, stored with its key and not revoked, is current up to
-- the time at which the renew window opens and due from then on, where the clock was not below the
-- backdate at the signing and the settings are those of the signing. That time leaves it at least
-- half of the life that it was granted, however short the CA certificate made that.
pub issued-Current :
    (c : Config) (ca : CaCert) (spec : CertSpec) (key : PublicKey) (number : ℕ) (now : Seconds)
    → leaf_backdate c ≤ now
    → ((later : Seconds)
        → decided_at c ca spec key number now later ≡ (
          (if ltb later (due_at c ca spec key number now) then current else renew_window),
          some (managed_leaf c ca spec key number now),
        ))
      × (now + (granted_life c ca spec.ttl now - granted_life c ca spec.ttl now / 2)
          ≤ due_at c ca spec key number now)
unfolding issue_decision key_reason leaf_template
issued-Current c ca spec key number now starts = (
  λ later.
      rw (==_same ca.key, ==_same key.identity, leaf-reason c ca spec key number now starts later)
        refl,
  half_life now (granted_life c ca spec.ttl now) spec.renew_before,
)

-- ===== src/Ocsp/Signed.antt =====
-- What signing a response gives, and what may be said of an answer (AnswerOCSP).
use openvox_ca.Prelude.{
  ℕ, ◌+◌, ◌<◌, ◌≡◌, refl, ap, sym, ◌∙◌, Bool, true, false, Option, none, some, List, [], ◌∷◌, Memᴰ,
  arith, Bool-cases, and_true, ℤ, ◌==ℤ◌, ==ℤ_iff, inl, inr, ◌==◌,
}
use openvox_ca.World.Types.{
  Store, Mem, Seconds, Extension, CachedResponse, OcspStatus, good, OcspResponse, HashId, Error,
}
use openvox_ca.World.Exec.{World, ok, attempt}
use openvox_ca.World.Locks.{granted}
use openvox_ca.Crl.Store.{was_listed, has_key}
use openvox_ca.Ocsp.{
  OcspRequest, OcspAnswer, cache_response, is_definite, ocsp_template, sign_response, answer_signed,
  after_signing, find_response, reusable,
}
use openvox_ca.Ocsp.Current.{OcspSafe}
use openvox_ca.Ocsp.Write.{cache_response-OcspSafe, next_update_definite}

-- What an answer that a cache may reuse says, in the world in which it is given. Its time of reuse is
-- counted from the time `now` at which the request was read, so it ends later than the answer's next
-- update by the time that passed since then.
pub record IsReusable (asked : Option Extension) (now : Seconds) (a : OcspAnswer) (w : World)
    : Type 0 where
  pub unasked : asked ≡ none
  pub definite : is_definite a.der.status ≡ true
  pub next_update : Seconds
  pub window : a.der.next_update ≡ some next_update
  pub elapsed : Seconds
  pub later : w.now ≡ now + elapsed
  pub overshoot : w.now + a.max_age ≡ next_update + elapsed
  pub unrevoked : a.der.status ≡ good → was_listed w.mem.cached_crl a.der.serial ≡ false

pub record Answered (asked : Option Extension) (r : OcspRequest) (now : Seconds) (a : OcspAnswer)
    (w : World) : Type 0 where
  pub own : a.der.serial ≡ r.serial
  pub safe : OcspSafe w.mem
  pub reuse : 0 < a.max_age → IsReusable asked now a w

-- What others do keeps the cache safe.
abbrev pub Respects : World → Type 0
Respects w = (n : ℕ) (s : Store) (m : Mem) → OcspSafe m → OcspSafe (w.others n s m).1

pub find_response_lem :
    (n : ℤ) (h : HashId) (rs : List CachedResponse) {r : CachedResponse}
    → find_response n h rs ≡ some r
    → Memᴰ r rs × (r.serial ≡ n)
unfolding find_response
find_response_lem n h [] e = cc
find_response_lem n h (x ∷ rs) {r = r} e = elim (Bool-cases (has_key n h x)) [
  | inl found ↦
      let same : some x ≡ some r = rw found at e in
      let key = and_true (x.serial ==ℤ n) (x.hash == h) found in
      let is : x ≡ r = ground (arith, same) in
      (Memᴰ.head (sym is), rw (← is) ((==ℤ_iff x.serial n).0 key.0))
  | inr other ↦
      let (there, same) = find_response_lem n h rs (rw other at e) in (Memᴰ.tail there, same)
]

-- What signing leaves alone.
abbrev pub Kept : World → World → Type 0
Kept v w = (v.mem ≡ w.mem) × (v.others ≡ w.others) × (v.now ≡ w.now)

attempt-Kept : (e : Error) (w : World) → Kept (attempt e w).1 w
unfolding attempt
attempt-Kept e w = (ground arith, ground arith, ground arith)

pub sign_response-Kept :
    (key : Option ℕ) (asked : Option Extension) (r : OcspRequest) (status : OcspStatus)
    (now : Seconds) (w : World)
    → Kept (sign_response key asked r status now w).1 w
unfolding sign_response attempt
sign_response-Kept none asked r status now w = (ground arith, ground arith, ground arith)
sign_response-Kept (some k) asked r status now w = (ground arith, ground arith, ground arith)

pub sign_response-ok :
    (key : Option ℕ) (asked : Option Extension) (r : OcspRequest) (status : OcspStatus)
    (now : Seconds) (w : World) {a : OcspResponse}
    → (sign_response key asked r status now w).0 ≡ ok a
    → (k : ℕ) × (a ≡ ocsp_template k asked r status now)
unfolding sign_response attempt
sign_response-ok none asked r status now w h = ground arith
sign_response-ok (some k) asked r status now w h = (k, ground arith)

reusable_only : (b : Bool) → b ≡ false → ¬ (0 < reusable b)
reusable_only true h positive = cc
reusable_only false h positive = omega arith

cache_response-now :
    (asked : Option Extension) (r : OcspRequest) (response : OcspResponse) (now : Seconds)
    (w : World)
    → (cache_response asked r response now w).1.now ≡ w.now
unfolding cache_response
cache_response-now asked r response now w = ground arith

-- The answer that was signed, with what others did meanwhile.
pub signed-Answered :
    (k : ℕ) (asked : Option Extension) (r : OcspRequest) (status : OcspStatus) (now : Seconds)
    (w : World)
    → w.now ≡ now
    → OcspSafe (granted w).mem
    → let done = answer_signed asked r now (ocsp_template k asked r status now) w in
      (a : OcspAnswer) × (done.0 ≡ ok a) × Answered asked r now a done.1
signed-Answered k asked r status now w at safe =
    let response = ocsp_template k asked r status now in
    let wrote = cache_response asked r response now (after_signing w) in
    let (kept, cached) = cache_response-OcspSafe k asked r status now (after_signing w) safe in
    let clock = cache_response-now asked r response now (after_signing w) in
    (
      record { der = response; max_age = reusable wrote.0 },
      refl,
      record {
        own = refl;
        safe = kept;
        reuse = λ positive. elim (Bool-cases wrote.0) [
          | inr moved ↦ absurd (reusable_only wrote.0 moved positive)
          | inl kept' ↦
              let c = cached kept' in
              record {
                unasked = c.unasked;
                definite = c.definite;
                next_update = now + reusable wrote.0;
                window = rw kept' (next_update_definite status now c.definite);
                elapsed = w.random w.tick;
                later = clock ∙ ap (λ t. t + w.random w.tick) at;
                overshoot = rw (clock, at) (omega arith);
                unrevoked = c.unrevoked;
              }
        ];
      },
    )

-- ===== src/Ocsp/Answer.antt =====
-- What an answer of the responder says, and what it leaves in the cache (AnswerOCSP).
use openvox_ca.Prelude.{
  ℕ, ◌+◌, ◌-◌, ◌<◌, ◌≡◌, refl, sym, ◌∙◌, Option, none, some, arith, Bool-cases, inl, inr, ltb,
  ltb→lt,
}
use openvox_ca.World.Types.{
  Seconds, Extension, CachedResponse, OcspStatus, OcspResponse, Config, Error,
}
use openvox_ca.World.Exec.{World, Result, ok, err, ◌>>=◌, continue}
use openvox_ca.World.Locks.{granted}
use openvox_ca.Ocsp.{
  Hashes, OcspRequest, OcspMessage, OcspAnswer, is_indexed, decide_ocsp_status, ocsp_template,
  sign_response, answer_signed, answer_uncached, answer_from, answer_parsed, answer_ocsp,
  find_response, unexpired, cached_for, check_ocsp_issuer, extract_nonce, within_length,
}
use openvox_ca.Ocsp.Current.{OcspSafe}
use openvox_ca.Ocsp.Signed.{
  Answered, Respects, find_response_lem, sign_response-Kept, sign_response-ok, signed-Answered,
}

-- A run of the responder keeps the cache safe, and its answer is as said.
abbrev Outcome : Option Extension → OcspRequest → Seconds → Result OcspAnswer × World → Type 0
Outcome asked r now p =
    OcspSafe p.1.mem × ((a : OcspAnswer) → p.0 ≡ ok a → Answered asked r now a p.1)

failed-Outcome :
    (asked : Option Extension) (r : OcspRequest) (now : Seconds) (e : Error) (w : World)
    → OcspSafe w.mem
    → Outcome asked r now (err e, w)
failed-Outcome asked r now e w safe = (safe, λ a h. cc)

signed-Outcome :
    (k : ℕ) (asked : Option Extension) (r : OcspRequest) (status : OcspStatus) (now : Seconds)
    (w : World)
    → w.now ≡ now
    → OcspSafe (granted w).mem
    → Outcome asked r now (answer_signed asked r now (ocsp_template k asked r status now) w)
signed-Outcome k asked r status now w at safe =
    let (a, is, answered) = signed-Answered k asked r status now w at safe in
    (answered.safe, λ b h. let same : a ≡ b = ground (arith, sym is ∙ h) in rw (← same) answered)

granted-OcspSafe :
    (v w : World)
    → v.mem ≡ w.mem
    → v.others ≡ w.others
    → OcspSafe w.mem
    → Respects w
    → OcspSafe (granted v).mem
granted-OcspSafe v w mem others safe respects =
    let kept : OcspSafe v.mem = rw mem safe in
    let same : Respects v = rw others respects in same v.tick v.store v.mem kept

-- Signing, and then answering.
sign-Outcome :
    (key : Option ℕ) (asked : Option Extension) (r : OcspRequest) (status : OcspStatus)
    (now : Seconds) (w : World)
    → w.now ≡ now
    → OcspSafe w.mem
    → Respects w
    → Outcome asked r now ((sign_response key asked r status now >>= answer_signed asked r now) w)
sign-Outcome key asked r status now w at safe respects =
    let s = sign_response key asked r status now w in
    let (mem, others, clock) = sign_response-Kept key asked r status now w in
    go s.0 refl mem others (clock ∙ at)
  where
    go :
        (x : Result OcspResponse)
        → (sign_response key asked r status now w).0 ≡ x
        → (sign_response key asked r status now w).1.mem ≡ w.mem
        → (sign_response key asked r status now w).1.others ≡ w.others
        → (sign_response key asked r status now w).1.now ≡ now
        → Outcome asked r now
            (continue x (answer_signed asked r now) (sign_response key asked r status now w).1)
    go (err e) h mem others clock = failed-Outcome asked r now e _ (rw mem safe)
    go (ok a) h mem others clock =
        let v = (sign_response key asked r status now w).1 in
        let (k, is) = sign_response-ok key asked r status now w h in
        rw is (
          signed-Outcome k asked r status now v clock
            (granted-OcspSafe v w mem others safe respects))

uncached-Outcome :
    (c : Config) (asked : Option Extension) (r : OcspRequest) (w : World)
    → OcspSafe w.mem
    → Respects w
    → Outcome asked r w.now (answer_uncached c asked r w)
unfolding answer_uncached
uncached-Outcome c asked r w safe respects =
    go (decide_ocsp_status w.mem.cached_crl r.serial (is_indexed r.serial w.mem.serial_index))
  where
    go :
        (x : Result OcspStatus)
        → Outcome asked r w.now (
            continue x
              (λ status.
                sign_response c.ca_key asked r status w.now >>= answer_signed asked r w.now)
              w)
    go (err e) = failed-Outcome asked r w.now e w safe
    go (ok status) = sign-Outcome c.ca_key asked r status w.now w refl safe respects

-- An entry that serves a request says what it says in the cache, for the time that it has left.
entry-Outcome :
    (c : Config) (r : OcspRequest) (w : World) (x : CachedResponse)
    → OcspSafe w.mem
    → w.now < x.expires_at
    → find_response r.serial r.hash w.mem.ocsp_cache ≡ some x
    → Outcome none r w.now (answer_from c none r (some x) w)
entry-Outcome c r w x safe fresh f =
    let (there, same) = find_response_lem r.serial r.hash w.mem.ocsp_cache f in
    let current = safe x there in
    let answer : OcspAnswer = record { der = x.der; max_age = x.expires_at - w.now } in
    let left : w.now + (x.expires_at - w.now) ≡ x.expires_at = omega arith in
    let answered : Answered none r w.now answer w = record {
      own = current.own ∙ same;
      safe = safe;
      reuse = λ positive. record {
        unasked = refl;
        definite = current.definite;
        next_update = x.expires_at;
        window = current.window;
        elapsed = 0;
        later = omega arith;
        overshoot = omega (arith, left);
        unrevoked = λ vouches. rw current.own (current.unrevoked vouches);
      };
    } in
    (safe, λ a h. let is : answer ≡ a = ground (arith, h) in rw (← is) answered)

hit-Outcome :
    (c : Config) (asked : Option Extension) (r : OcspRequest) (w : World) (entry : CachedResponse)
    → OcspSafe w.mem
    → cached_for asked r w ≡ some entry
    → Outcome asked r w.now (answer_from c asked r (some entry) w)
hit-Outcome c (some e) r w entry safe h = cc
hit-Outcome c none r w entry safe h = go (find_response r.serial r.hash w.mem.ocsp_cache) refl h
  where
    go :
        (o : Option CachedResponse)
        → find_response r.serial r.hash w.mem.ocsp_cache ≡ o
        → unexpired w.now o ≡ some entry
        → Outcome none r w.now (answer_from c none r (some entry) w)
    go none f h = cc
    go (some x) f h = elim (Bool-cases (ltb w.now x.expires_at)) [
      | inr over ↦ cc (rw over at h)
      | inl fresh ↦
          let found : some x ≡ some entry = rw fresh at h in
          let is : x ≡ entry = ground (arith, found) in
          rw (← is) (entry-Outcome c r w x safe (ltb→lt w.now x.expires_at fresh) f)
    ]

-- Once the issuer is checked, a cached entry answers or the key signs.
request-Outcome :
    (c : Config) (asked : Option Extension) (r : OcspRequest) (w : World)
    → OcspSafe w.mem
    → Respects w
    → Outcome asked r w.now (answer_from c asked r (cached_for asked r w) w)
request-Outcome c asked r w safe respects = go (cached_for asked r w) refl
  where
    go :
        (o : Option CachedResponse)
        → cached_for asked r w ≡ o
        → Outcome asked r w.now (answer_from c asked r o w)
    go none h = uncached-Outcome c asked r w safe respects
    go (some entry) h = hit-Outcome c asked r w entry safe h

-- What is said of a run for a request that was read.
abbrev pub RunAnswered :
    Hashes
    → Config
    → Option Extension
    → Option OcspRequest
    → World
    → Result OcspAnswer × World
    → Type 0
RunAnswered hs c asked o w p =
    OcspSafe p.1.mem
    × ((a : OcspAnswer)
        → p.0 ≡ ok a
        → (r : OcspRequest) × (o ≡ some r)
          × (check_ocsp_issuer hs r c.ca_cert ≡ ok tt)
          × Answered asked r w.now a p.1)

checked-RunAnswered :
    (hs : Hashes) (c : Config) (asked : Option Extension) (r : OcspRequest) (w : World)
    (x : Result (Unit {0}))
    → check_ocsp_issuer hs r c.ca_cert ≡ x
    → OcspSafe w.mem
    → Respects w
    → RunAnswered hs c asked
        (some r)
        w
        (continue x (λ _ v. answer_from c asked r (cached_for asked r v) v) w)
checked-RunAnswered hs c asked r w (err e) h safe respects = (safe, λ a k. cc)
checked-RunAnswered hs c asked r w (ok u) h safe respects =
    let (kept, answered) = request-Outcome c asked r w safe respects in
    (kept, λ a k. (r, refl, h, answered a k))

parsed-RunAnswered :
    (hs : Hashes) (c : Config) (asked : Option Extension) (o : Option OcspRequest) (w : World)
    → OcspSafe w.mem
    → Respects w
    → RunAnswered hs c asked o w (answer_parsed hs c asked o w)
parsed-RunAnswered hs c asked none w safe respects = (safe, λ a k. cc)
parsed-RunAnswered hs c asked (some r) w safe respects =
    checked-RunAnswered hs c asked r w (check_ocsp_issuer hs r c.ca_cert) refl safe respects

-- Where the cache is safe and others keep it so, it is safe after an answer, even if a list is
-- installed or a serial pruned while the key signs. An answer is for the serial asked and is given
-- only to a request that names this CA. One that a cache may reuse at all was asked for without a
-- nonce and is definite; its reuse ends later than its own next update by exactly the time that
-- has passed since the request was read; and, where it says good, it is for a
-- serial that the list in memory does not hold when the answer is given.
pub answer_ocsp-Answered :
    (hs : Hashes) (c : Config) (msg : OcspMessage) (w : World)
    → OcspSafe w.mem
    → Respects w
    → RunAnswered hs c
        (within_length (extract_nonce msg.extensions))
        msg.request
        w
        (answer_ocsp hs c msg w)
unfolding answer_ocsp
answer_ocsp-Answered hs c msg w safe respects =
    parsed-RunAnswered hs c (within_length (extract_nonce msg.extensions)) msg.request w safe
      respects

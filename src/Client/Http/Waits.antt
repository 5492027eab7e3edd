-- ===== src/Client/Http/Waits.antt =====
-- The retries of a call, and the end of a poll (client/src/http.rs).
use blindjoin.Prelude.{
  ℕ, zero, suc, ◌+◌, ◌≤◌, ◌<◌, ◌≡◌, ◌⊎◌, inl, inr, false, Option, none, some, List, [], ◌∷◌, length,
  Result, ok, err, refl, arith, Bool-cases, Option-cases, sym, subst, ap, ◌∙◌, ltb, ==_iff,
}
use blindjoin.Prelude.Eq.{Text, ◌==◌, nat_eq, bytes_eq, bytes_beq_iff}
use blindjoin.Coordinator.Api.{InfoResponse}
use blindjoin.Client.Http.{
  Reply, Poll, HttpFailure, unreachable, too_many_requests, retry_after_backoff_ms, retry_floor_ms,
  send_with_retries, send_with_429_retry, read_reply, judge, poll_until_phase,
}

module _ {ℓ} {A : Type ℓ} (send : ℕ → Option (Reply A)) where
  -- The request number `n` was turned away for its rate.
  pub record Limited (n : ℕ) : Type ℓ where
    pub resp : Reply A
    pub sent : send n ≡ some resp
    pub status : resp.status ≡ too_many_requests

  abbrev pub outcome : Option (Reply A) → Result HttpFailure (Reply A)
  outcome none = err unreachable
  outcome (some resp) = ok resp

  -- What a loop that starts at the request `n` has done when it ends at the request `last`.
  pub record Retried (left n : ℕ) (waits : List ℕ) (r : Result HttpFailure (Reply A)) : Type ℓ where
    pub bounded : length waits ≤ left
    pub ends : r ≡ outcome (send (n + length waits))
    pub limited : (i : ℕ) → n ≤ i → i < n + length waits → Limited i
    pub given_up : Limited (n + length waits) → length waits ≡ left

  stopped :
      (left n : ℕ) (r : Result HttpFailure (Reply A))
      → r ≡ outcome (send n)
      → (Limited n → 0 ≡ left)
      → Retried left n [] r
  stopped left n r ends given = record {
    bounded = omega arith;
    ends = rw (plus_zero n) ends;
    limited = λ i lo hi. absurd (omega (arith, lo, hi));
    given_up = λ l. given (subst Limited (plus_zero n) l);
  }
    where
      plus_zero : (m : ℕ) → m + 0 ≡ m
      plus_zero m = omega arith

  waited :
      (left n w : ℕ) (waits : List ℕ) (r : Result HttpFailure (Reply A))
      → Limited n
      → Retried left (suc n) waits r
      → Retried (suc left) n (w ∷ waits) r
  waited left n w waits r here rest =
      let shift : n + length (w ∷ waits) ≡ suc n + length waits = omega arith in
      record {
        bounded = omega (arith, rest.bounded);
        ends = rw shift rest.ends;
        limited = λ i lo hi. elim (Bool-cases (i == n)) [
          | inl same ↦ subst Limited (sym ((==_iff i n).0 same)) here
          | inr other ↦ rest.limited i (ground (arith, lo, other, ==_iff i n)) (omega (arith, hi))
        ];
        given_up = λ l. omega (arith, rest.given_up (subst Limited shift l));
      }

  different :
      {n : ℕ} {resp : Reply A}
      → send n ≡ some resp
      → (resp.status == too_many_requests) ≡ false
      → Limited n
      → ⊥
  different {n} {resp} e passed l =
      let same : l.resp ≡ resp = cc (l.sent, e) in
      let status : resp.status ≡ too_many_requests = cc (l.status, same) in
      cc (passed, (==_iff resp.status too_many_requests).1 status)

  retries : (left n : ℕ) → let (waits, r) = send_with_retries left n send in Retried left n waits r
  unfolding send_with_retries
  retries zero n = elim (Option-cases (send n)) [
    | inl e ↦ rw (send_with_retries, e) (stopped zero n (err unreachable) (rw e refl) (λ l. refl))
    | inr (resp, e) ↦ rw (send_with_retries, e) (stopped zero n (ok resp) (rw e refl) (λ l. refl))
  ]
  retries (suc left) n = elim (Option-cases (send n)) [
    | inl e ↦
        rw (send_with_retries, e)
          (stopped (suc left) n (err unreachable) (rw e refl) (λ l. absurd (cc (l.sent, e))))
    | inr (resp, e) ↦ elim (Bool-cases (resp.status == too_many_requests)) [
      | inl limited ↦
          let (waits, r) = send_with_retries left (suc n) send in
          let here : Limited n = record {
            resp = resp;
            sent = e;
            status = (==_iff resp.status too_many_requests).0 limited;
          } in
          rw (send_with_retries, e, limited)
            (waited left n (retry_after_backoff_ms resp.retry_after retry_floor_ms) waits r here
              (retries left (suc n)))
      | inr passed ↦
          rw (send_with_retries, e, passed)
            (stopped (suc left) n (ok resp) (rw e refl) (λ l. absurd (different e passed l)))
    ]
  ]

  -- A call is repeated only while it is turned away for its rate, five times at most; its outcome is that of
  -- the last request, and that is turned away itself only after five repetitions.
  pub send_with_429_retry-Retried : let (waits, r) = send_with_429_retry send in Retried 5 0 waits r
  unfolding send_with_429_retry
  send_with_429_retry-Retried = retries 5 0

judged :
    (expected : Text) (later r : Result HttpFailure InfoResponse) {info : InfoResponse}
    → judge expected later r ≡ ok info
    → (info.round_state ≡ expected) ⊎ (later ≡ ok info)
judged expected later (err e) h = absurd (cc h)
judged expected later (ok found) {info} h = elim (Bool-cases (found.round_state == expected)) [
  | inl there ↦
      let same : found ≡ info = cc (rw there at h) in
      inl (
        ap (λ (i : InfoResponse). i.round_state) (sym same)
        ∙ (bytes_beq_iff found.round_state expected).0 there)
  | inr elsewhere ↦ inr (rw elsewhere at h)
]

-- A poll that succeeds ends with the coordinator in the phase that was waited for.
pub poll_until_phase-eq :
    (expected : Text) (interval_ms max_wait elapsed : ℕ) (polls : List Poll) {info : InfoResponse}
    → poll_until_phase expected interval_ms max_wait elapsed polls ≡ ok info
    → info.round_state ≡ expected
unfolding poll_until_phase
poll_until_phase-eq expected interval_ms max_wait elapsed [] h = absurd (cc h)
poll_until_phase-eq expected interval_ms max_wait elapsed ((took, none) ∷ polls) h = ground arith
poll_until_phase-eq expected interval_ms max_wait elapsed ((took, some resp) ∷ polls) {info} h =
    let now = elapsed + took in
    elim (Bool-cases (ltb max_wait now)) [
      | inl over ↦ absurd (cc (rw (poll_until_phase, over) at h))
      | inr early ↦ elim (Bool-cases (resp.status == too_many_requests)) [
        | inl limited ↦
            poll_until_phase-eq expected interval_ms max_wait
              (now + retry_after_backoff_ms resp.retry_after interval_ms) polls
              (rw (poll_until_phase, early, limited) at h)
        | inr passed ↦
            let later = poll_until_phase expected interval_ms max_wait (now + interval_ms) polls in
            elim (judged expected later (read_reply (ok resp))
              (rw (poll_until_phase, early, passed) at h)) [
                | inl there ↦ there
                | inr rest ↦
                    poll_until_phase-eq expected interval_ms max_wait (now + interval_ms) polls rest
              ]
      ]
    ]

-- ===== src/Client/Http.antt =====
-- client/src/http.rs: the calls to the coordinator.
pub mod Waits
pub mod Told
use blindjoin.Prelude.{
  ℕ, zero, suc, ◌+◌, ◌*◌, ◌^◌, ◌&&◌, not, Bool, true, false, Option, none, some, List, [], ◌∷◌, ltb,
  leb, if◌then◌else◌, Result, ok, err, sat_mul64,
}
use blindjoin.Prelude.Eq.{Text, ◌==◌, nat_eq, bytes_eq}
use blindjoin.Prelude.Strings.{trim_start, trim_end}
use blindjoin.Coordinator.Round.OutPoints.{parse_unsigned}
use blindjoin.Coordinator.Api.{InfoResponse}

-- An HTTP response: the status, the header `Retry-After`, and what its JSON body decodes to.
pub record Reply {ℓ} (A : Type ℓ) : Type ℓ where
  pub status : ℕ
  pub retry_after : Option Text
  pub body : Option A

pub data HttpFailure : Type 0 where
  unreachable timed_out undecodable : HttpFailure
  refused : ℕ → HttpFailure

abbrev pub too_many_requests : ℕ
too_many_requests = 429

abbrev pub max_429_retries : ℕ
max_429_retries = 5

abbrev pub retry_floor_ms : ℕ
retry_floor_ms = 250

abbrev pub max : ℕ → ℕ → ℕ
max a b = if leb a b then b else a

-- `unwrap_or`
abbrev pub or_floor : ℕ → Option ℕ → ℕ
or_floor floor_ms none = floor_ms
or_floor floor_ms (some secs) = sat_mul64 secs 1000

abbrev pub seconds_of : Option Text → Option ℕ
seconds_of none = none
seconds_of (some s) = parse_unsigned (2 ^ 64) (trim_end (trim_start s))

unfoldable pub retry_after_backoff_ms : Option Text → ℕ → ℕ
retry_after_backoff_ms header floor_ms = max (or_floor floor_ms (seconds_of header)) floor_ms

-- The clients for the two circuits; without Tor there is one.
pub record CoordinatorClient : Type 0 where
  pub alice_client : Option Text
  pub bob_client : Option (Option Text)
  pub base_url : Text

abbrev pub new_client : Text → CoordinatorClient
new_client base_url = record { alice_client = none; bob_client = none; base_url = base_url }

abbrev pub new_tor : Text → Text → Text → CoordinatorClient
new_tor base_url alice_proxy bob_proxy = record {
  alice_client = some alice_proxy;
  bob_client = some (some bob_proxy);
  base_url = base_url;
}

-- The proxy through which an output is registered.
unfoldable pub bob : CoordinatorClient → Option Text
bob c = elim c.bob_client [ none ↦ c.alice_client | some client ↦ client ]

abbrev pub is_success : ℕ → Bool
is_success status = leb 200 status && ltb status 300

-- `error_for_status` refuses the statuses from 400 to 599.
abbrev pub is_error : ℕ → Bool
is_error status = leb 400 status && ltb status 600

module _ {ℓ} {A : Type ℓ} where
  -- The loop, with the retries that are left; `send n` is the response to the request number `n`.
  -- The response, and the pauses before it.
  unfoldable pub send_with_retries :
      ℕ → ℕ → (ℕ → Option (Reply A)) → List ℕ × Result HttpFailure (Reply A)
  unfolding retry_after_backoff_ms
  send_with_retries zero n send = elim (send n) [
    | none ↦ ([], err unreachable)
    | some resp ↦ ([], ok resp)
  ]
  send_with_retries (suc left) n send = elim (send n) [
    | none ↦ ([], err unreachable)
    | some resp ↦ elim (resp.status == too_many_requests) [
      | false ↦ ([], ok resp)
      | true ↦
          let (waits, last) = send_with_retries left (suc n) send in
          (retry_after_backoff_ms resp.retry_after retry_floor_ms ∷ waits, last)
    ]
  ]

  unfoldable pub send_with_429_retry :
      (ℕ → Option (Reply A)) → List ℕ × Result HttpFailure (Reply A)
  unfolding send_with_retries
  send_with_429_retry send = send_with_retries max_429_retries 0 send

  abbrev pub json_of : Option A → Result HttpFailure A
  json_of none = err undecodable
  json_of (some a) = ok a

  -- The end of `get_info` and `get_tx`.
  unfoldable pub read_reply : Result HttpFailure (Reply A) → Result HttpFailure A
  read_reply (err e) = err e
  read_reply (ok resp) =
      if is_error resp.status then err (refused resp.status) else json_of resp.body

  -- The end of the calls that post.
  unfoldable pub posted_reply : Result HttpFailure (Reply A) → Result HttpFailure A
  posted_reply (err e) = err e
  posted_reply (ok resp) =
      if is_success resp.status then json_of resp.body else err (refused resp.status)

-- A poll: how long the request takes, and the response.
abbrev pub Poll : Type 0
Poll = ℕ × Option (Reply InfoResponse)

-- A response in the phase that is waited for ends the loop.
abbrev pub judge :
    Text
    → Result HttpFailure InfoResponse
    → Result HttpFailure InfoResponse
    → Result HttpFailure InfoResponse
judge expected later (err e) = err e
judge expected later (ok info) = if info.round_state == expected then ok info else later

-- The loop of `poll_until_phase` over the responses that come; `elapsed` milliseconds have passed. The
-- coordinator is asked until it is in the phase or the time is over.
unfoldable pub poll_until_phase : Text → ℕ → ℕ → ℕ → List Poll → Result HttpFailure InfoResponse
poll_until_phase expected interval_ms max_wait elapsed [] = err timed_out
poll_until_phase expected interval_ms max_wait elapsed ((took, none) ∷ polls) =
    if ltb max_wait (elapsed + took) then err timed_out else err unreachable
poll_until_phase expected interval_ms max_wait elapsed ((took, some resp) ∷ polls) =
    let now = elapsed + took in
    let limited = resp.status == too_many_requests in
    let pause =
      if limited then retry_after_backoff_ms resp.retry_after interval_ms else interval_ms in
    let later = poll_until_phase expected interval_ms max_wait (now + pause) polls in
    if ltb max_wait now
    then err timed_out
    else if limited
    then later
    else judge expected later (read_reply (ok resp))

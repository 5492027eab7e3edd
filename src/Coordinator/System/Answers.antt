-- ===== src/Coordinator/System/Answers.antt =====
-- Handlers that answer: with a result or an HTTP error, and not with a panic.
pub mod Key
pub mod Inputs
pub mod Outputs
pub mod Registrations
use blindjoin.Prelude.{
  ◌≡◌, Bool, true, false, Option, none, some, Result, ok, err, ◌>>=◌, ok_or, ensure, map_err, refl,
}
use blindjoin.Prelude.Eq.{Text}
use blindjoin.Shared.Errors.{ErrorCode, ApiError}
use blindjoin.Coordinator.Config.{CoordinatorConfig}
use blindjoin.Coordinator.Config.Valid.{Valid}
use blindjoin.Coordinator.Failure.{Failure, api, panicked}
use blindjoin.Coordinator.Api.{
  Status, HttpError, Refusal, http, panic, api_error, map_failure, network_of,
}
use blindjoin.Coordinator.Api.KnownNetwork.{network_of-eq}

-- An error that a handler answers with.
pub data IsHttp : Refusal → Type 0 where
  is_http : (e : HttpError) → IsHttp (http e)

-- A step of a handler that does not panic.
pub data Answers {ℓ} {A : Type ℓ} : Result Refusal A → Type ℓ where
  replies : (a : A) → Answers (ok a)
  refuses : {e : Refusal} → IsHttp e → Answers (err e)

-- A step of the round's logic that does not panic.
pub data Quiet {ℓ} {A : Type ℓ} : Result Failure A → Type ℓ where
  returns : (a : A) → Quiet (ok a)
  rejects : (e : ApiError) → Quiet (err (api e))

pub api_error-IsHttp : (s : Status) (c : Text) (r : Option Text) → IsHttp (api_error s c r)
unfolding api_error
api_error-IsHttp s c r = is_http _

module _ {ℓ κ} {A : Type ℓ} {B : Type κ} where
  -- A step that answers, followed by one that does whatever the step gives it.
  pub >>=-Answers :
      {m : Result Refusal A} {f : A → Result Refusal B}
      → Answers m
      → ((a : A) → m ≡ ok a → Answers (f a))
      → Answers (m >>= f)
  >>=-Answers (replies a) k = k a refl
  >>=-Answers (refuses h) k = refuses h

  pub >>=-Quiet :
      {m : Result Failure A} {f : A → Result Failure B}
      → Quiet m
      → ((a : A) → m ≡ ok a → Quiet (f a))
      → Quiet (m >>= f)
  >>=-Quiet (returns a) k = k a refl
  >>=-Quiet (rejects e) k = rejects e

pub map_err-Answers {ℓ κ} :
    {E : Type κ} {A : Type ℓ} (f : E → Refusal) (m : Result E A)
    → ((e : E) → IsHttp (f e))
    → Answers (map_err f m)
map_err-Answers f (ok a) h = replies a
map_err-Answers f (err e) h = refuses (h e)

module _ {ℓ} {A : Type ℓ} where
  pub ok_or-Answers : (o : Option A) {e : Refusal} → IsHttp e → Answers (ok_or o e)
  ok_or-Answers none h = refuses h
  ok_or-Answers (some a) h = replies a

  pub ok_or-Quiet : (o : Option A) (e : ApiError) → Quiet (ok_or o (api e))
  ok_or-Quiet none e = rejects e
  ok_or-Quiet (some a) e = returns a

  pub map_failure-Answers :
      (status_of : ErrorCode → Status) (round_id : Text) {m : Result Failure A}
      → Quiet m
      → Answers (map_err (map_failure status_of round_id) m)
  map_failure-Answers status_of round_id (returns a) = replies a
  map_failure-Answers status_of round_id (rejects e) = refuses (api_error-IsHttp _ _ _)

pub ensure-Answers : (b : Bool) {e : Refusal} → IsHttp e → Answers (ensure b e)
ensure-Answers true h = replies tt
ensure-Answers false h = refuses h

pub ensure-Quiet : (b : Bool) (e : ApiError) → Quiet (ensure b (api e))
ensure-Quiet true e = returns tt
ensure-Quiet false e = rejects e

pub network_of-Answers : (cfg : CoordinatorConfig) → Valid cfg → Answers (network_of cfg)
network_of-Answers cfg valid = rw (network_of-eq cfg valid) (replies valid.network)

pub ruleset answers = (>>=-Answers, ok_or-Answers, ensure-Answers, api_error-IsHttp, replies)

pub ruleset quiets = (>>=-Quiet, ok_or-Quiet, ensure-Quiet, returns)

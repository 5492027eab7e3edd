-- ===== src/Coordinator/Api/Limits.antt =====
-- coordinator/src/api/middleware.rs: the limits of the server, by the rates of the configuration.
use blindjoin.Prelude.{
  ℕ, ◌/◌, ◌≤◌, ◌≡◌, ◌&&◌, true, Option, none, some, leb, if◌then◌else◌, Result, ok, err, ◌>>=◌,
  ok_or,
}
use blindjoin.Prelude.Eq.{Text, codes}
use blindjoin.Prelude.Strings.{is_some}
use blindjoin.Coordinator.Config.{CoordinatorConfig}
use blindjoin.Coordinator.Round.OutPoints.{decimal}

-- `assert!` or `expect` fails.
pub data Panic : Type 0 where
  rate_out_of_range no_quota : Panic

-- The layers of the two buckets.
pub record RateLimitLayers {ℓ} (Layer : Type ℓ) : Type ℓ where
  pub reads_layer : Layer
  pub writes_layer : Layer

-- The milliseconds for a token, and the burst.
unfoldable pub per_min_to_governor : ℕ → Result Panic (ℕ × ℕ)
per_min_to_governor rpm =
    if leb 1 rpm && leb rpm 60000 then ok (60000 / rpm, rpm) else err rate_out_of_range

module _ {ℓ} {Layer : Type ℓ} (finish : ℕ → ℕ → Option Layer) where
  -- `finish` builds the layer of a period and a burst (tower_governor).
  unfoldable pub build_rate_limit_layers : CoordinatorConfig → Result Panic (RateLimitLayers Layer)
  unfolding per_min_to_governor
  build_rate_limit_layers cfg = do
    (reads_period_ms, reads_burst) ← per_min_to_governor cfg.coordinator.rate_limit_info_per_min
    (writes_period_ms, writes_burst) ← per_min_to_governor cfg.coordinator.rate_limit_writes_per_min
    reads_layer ← ok_or (finish reads_period_ms reads_burst) no_quota
    writes_layer ← ok_or (finish writes_period_ms writes_burst) no_quota
    ok (record { reads_layer = reads_layer; writes_layer = writes_layer })

-- A quota that is not zero can be built.
pub record Quotas {ℓ} {Layer : Type ℓ} (finish : ℕ → ℕ → Option Layer) : Type ℓ where
  pub built : (period burst : ℕ) → 1 ≤ period → 1 ≤ burst → is_some (finish period burst) ≡ true

-- `GovernorError` of tower_governor.
pub data GovernorError : Type 0 where
  too_many_requests : ℕ → GovernorError
  unable_to_extract_key other : GovernorError

-- The status, the code and the header `retry-after` of an answer.
pub record LimitResponse : Type 0 where
  pub status : ℕ
  pub code : Text
  pub retry_after : Option Text

unfoldable pub rate_limit_to_json : GovernorError → LimitResponse
rate_limit_to_json (too_many_requests wait_time) = record {
  status = 429;
  code = codes "RATE_LIMITED";
  retry_after = some (decimal wait_time);
}
rate_limit_to_json _ = record { status = 500; code = codes "INTERNAL_ERROR"; retry_after = none }

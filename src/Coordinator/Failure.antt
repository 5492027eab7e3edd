-- ===== src/Coordinator/Failure.antt =====
-- How a handler of the coordinator fails.
use blindjoin.Prelude.{none, some}
use blindjoin.Prelude.Eq.{Text}
use blindjoin.Shared.Errors.{ErrorCode, ApiError}

-- `panicked` is an `expect`, or an index, that does not hold.
pub data Failure : Type 0 where
  api : ApiError → Failure
  panicked : Failure

abbrev pub refuse : ErrorCode → Text → Failure
refuse c round_id = api (record { code = c; round_id = some round_id })

abbrev pub refuse_anon : ErrorCode → Failure
refuse_anon c = api (record { code = c; round_id = none })

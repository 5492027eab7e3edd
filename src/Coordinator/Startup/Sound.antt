-- ===== src/Coordinator/Startup/Sound.antt =====
-- How a start ends (coordinator/src/run.rs, coordinator/src/api/middleware.rs).
use blindjoin.Prelude.{◌≡◌, Bool, true, false, Result, ok, err}
use blindjoin.Coordinator.Startup.{StartupError, panicked}

abbrev pub panics : StartupError → Bool
panics (panicked p) = true
panics _ = false

-- No panic.
pub data Orderly {ℓ} {A : Type ℓ} : Result StartupError A → Type ℓ where
  serves : (a : A) → Orderly (ok a)
  refuses : (e : StartupError) → panics e ≡ false → Orderly (err e)

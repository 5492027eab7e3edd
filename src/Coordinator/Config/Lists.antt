-- ===== src/Coordinator/Config/Lists.antt =====
-- The allowlist and the watchdog of coordinator/src/config.rs.
use blindjoin.Prelude.{◌≡◌, any, arith}
use blindjoin.Prelude.Eq.{◌==◌}
use blindjoin.Shared.Script.{ScriptType, p2wpkh, p2tr, p2sh_p2wpkh, script_type_eq}
use blindjoin.Coordinator.Config.{BipConfig, allows, supported, allowed_set, allowed_of}

-- The three views of the allowlist agree: a script type is advertised, and counted in the worst case of
-- the fee, exactly when the policy admits it.
pub supported-allows :
    (c : BipConfig) (st : ScriptType)
    → (any (λ t. t == st) (supported c) ≡ allows c st)
      × (any (λ t. t == st) (allowed_set c) ≡ allows c st)
unfolding supported allowed_set allowed_of allows
supported-allows c p2wpkh = ground arith
supported-allows c p2tr = ground arith
supported-allows c p2sh_p2wpkh = ground arith

-- ===== src/Coordinator/Fee.antt =====
-- coordinator/src/bitcoin/fee.rs and the weight tables of coordinator/src/bitcoin/tx.rs.
pub mod Bounds
pub mod Worst
use blindjoin.Prelude.{
  ℕ, ◌/◌, Option, none, some, List, [], ◌∷◌, map, ltb, if◌then◌else◌, add64, mul64,
}
use blindjoin.Prelude.Eq.{◌==◌, nat_eq}
use blindjoin.Shared.Script.{ScriptType, p2wpkh, p2tr, p2sh_p2wpkh}
use blindjoin.Coordinator.Config.{BipConfig, allowed_set}

abbrev pub tx_overhead_vbytes : ℕ
tx_overhead_vbytes = 10

unfoldable pub script_input_vbytes : ScriptType → ℕ
script_input_vbytes p2wpkh = 68
script_input_vbytes p2tr = 58
script_input_vbytes p2sh_p2wpkh = 91

unfoldable pub script_output_vbytes : ScriptType → ℕ
script_output_vbytes p2wpkh = 31
script_output_vbytes p2tr = 43
script_output_vbytes p2sh_p2wpkh = 32

-- `Iterator::max`
unfoldable pub max? : List ℕ → Option ℕ
max? [] = none
max? (n ∷ ns) = elim (max? ns) [ none ↦ some n | some m ↦ some (if ltb m n then n else m) ]

-- `none` is the panic of `expect` when no script type is allowed.
unfoldable pub estimate_fee_share : BipConfig → ℕ → ℕ → Option ℕ
estimate_fee_share bip n fee_rate =
    if n == 0 then some 0 else elim (max? (map script_input_vbytes (allowed_set bip))) [
      | none ↦ none
      | some worst_input_vb ↦
          let output_vb = script_output_vbytes bip.output_script_type in
          let estimated_vsize =
            add64 (add64 tx_overhead_vbytes (mul64 worst_input_vb n))
              (mul64 (mul64 output_vb 2) n) in
          some (mul64 estimated_vsize fee_rate / n)
    ]

-- ===== src/Coordinator/Fee/Worst.antt =====
-- The worst-case weight of coordinator/src/bitcoin/fee.rs.
use blindjoin.Prelude.{
  ℕ, ◌+◌, ◌*◌, ◌/◌, ◌^◌, ◌≤◌, ◌<◌, ◌≡◌, ◌≢◌, inl, inr, true, some, Option, none, ok, map, arith,
  add64, mul64, mul64-eq, Option-cases,
}
use blindjoin.Shared.Script.{ScriptType}
use blindjoin.Coordinator.Config.{BipConfig, allows, allowed_set, validate_bip}
use blindjoin.Coordinator.Fee.Bounds.{mul_mono, mul_mono_left, weigh64-eq}
use blindjoin.Coordinator.Fee.{script_input_vbytes, script_output_vbytes, max?, estimate_fee_share}

pub input_vbytes-le : (st : ScriptType) → script_input_vbytes st ≤ 91
unfolding script_input_vbytes
input_vbytes-le st = ground arith

pub output_vbytes-le : (st : ScriptType) → script_output_vbytes st ≤ 43
unfolding script_output_vbytes
output_vbytes-le st = ground arith

abbrev pub worst_vbytes : BipConfig → Option ℕ
worst_vbytes bip = max? (map script_input_vbytes (allowed_set bip))

-- The worst case bounds every allowed type, and is a weight of the table.
pub worst-bounds :
    (bip : BipConfig) {w : ℕ}
    → worst_vbytes bip ≡ some w
    → (w ≤ 91) × ((st : ScriptType) → allows bip st ≡ true → script_input_vbytes st ≤ w)
unfolding max? script_input_vbytes allowed_set allows
worst-bounds bip h = (ground arith, λ st a. ground arith)

worst-ne-none : (bip : BipConfig) → validate_bip bip ≡ ok tt → worst_vbytes bip ≢ none
unfolding max? script_input_vbytes allowed_set validate_bip
worst-ne-none bip h = ground arith

-- A validated configuration has a worst case.
pub worst-total :
    (bip : BipConfig) → validate_bip bip ≡ ok tt → (w : ℕ) × (worst_vbytes bip ≡ some w)
worst-total bip h = elim (Option-cases (worst_vbytes bip)) [
  | inl e ↦ absurd (worst-ne-none bip h e)
  | inr found ↦ found
]

vsize-eq :
    (w o m r : ℕ)
    → w ≤ 91
    → o ≤ 43
    → 1 ≤ m
    → 1 ≤ r
    → (10 + 177 * m) * r < 2 ^ 64
    → mul64 (add64 (add64 10 (mul64 w m)) (mul64 (mul64 o 2) m)) r ≡ (10 + w * m + o * 2 * m) * r
vsize-eq w o m r hw ho pos rate fits =
    let wide : 10 + 177 * m ≤ (10 + 177 * m) * r =
      omega (arith, mul_mono (10 + 177 * m) 1 r rate) in
    let ins = mul_mono_left w 91 m hw in
    let outs = mul_mono_left (o * 2) 86 m (omega arith) in
    rw (mul64-eq w m (omega arith), mul64-eq o 2 (omega arith), mul64-eq (o * 2) m (omega arith))
      (weigh64-eq (w * m) (o * 2 * m) (10 + 177 * m) r (omega arith) rate fits)

-- Without overflow the estimate is the formula over the numbers.
pub estimate-eq :
    (bip : BipConfig) (m r : ℕ) {w : ℕ}
    → 1 ≤ m
    → 1 ≤ r
    → (10 + 177 * m) * r < 2 ^ 64
    → worst_vbytes bip ≡ some w
    → estimate_fee_share bip m r
      ≡ some ((10 + w * m + script_output_vbytes bip.output_script_type * 2 * m) * r / m)
unfolding estimate_fee_share
estimate-eq bip m r {w} pos rate fits h =
    let o = script_output_vbytes bip.output_script_type in
    ground (
      arith,
      vsize-eq w o m r (worst-bounds bip h).0 (output_vbytes-le bip.output_script_type) pos rate
          fits,
    )

-- An estimate for a quorum has a worst case behind it.
pub worst_of_estimate :
    (bip : BipConfig) (m r : ℕ) {est : ℕ}
    → 1 ≤ m
    → estimate_fee_share bip m r ≡ some est
    → (w : ℕ) × (worst_vbytes bip ≡ some w)
unfolding estimate_fee_share
worst_of_estimate bip m r pos h = elim (Option-cases (worst_vbytes bip)) [
  | inl e ↦ absurd (ground arith)
  | inr found ↦ found
]

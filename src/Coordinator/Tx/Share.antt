-- ===== src/Coordinator/Tx/Share.antt =====
-- The fee share that coordinator/src/bitcoin/tx.rs charges, against the estimate of fee.rs.
use blindjoin.Prelude.{
  ℕ, ◌+◌, ◌*◌, ◌/◌, ◌^◌, ◌≤◌, ◌<◌, ◌≡◌, true, some, List, [], ◌∷◌, arith, length, sum, All, sym,
  ◌∙◌, All-imp, sum64-eq, add64-eq, mul64-eq,
}
use blindjoin.Shared.Script.{ScriptType}
use blindjoin.Coordinator.Config.{BipConfig, allows}
use blindjoin.Coordinator.Fee.{script_input_vbytes, script_output_vbytes, estimate_fee_share}
use blindjoin.Coordinator.Fee.Bounds.{mul_mono, mul_mono_left, weigh64-eq, share_mono}
use blindjoin.Coordinator.Fee.Worst.{
  input_vbytes-le, output_vbytes-le, worst_vbytes, worst-bounds, worst_of_estimate, estimate-eq,
}
use blindjoin.Coordinator.Tx.{ParticipantInput, input_vbytes, estimated_vsize, round_fee_share}

-- The operator's allowlist admits the type of every input.
abbrev pub Allowed : BipConfig → List ParticipantInput → Type 0
Allowed bip = All λ i. allows bip i.script_type ≡ true

sum-input_vbytes-le :
    (w : ℕ) (inputs : List ParticipantInput)
    → All (λ i. script_input_vbytes i.script_type ≤ w) inputs
    → sum (input_vbytes inputs) ≤ w * length inputs
unfolding input_vbytes
sum-input_vbytes-le w [] h = omega arith
sum-input_vbytes-le w (i ∷ is) h = omega (arith, h.0, sum-input_vbytes-le w is h.1)

light : (inputs : List ParticipantInput) → All (λ i. script_input_vbytes i.script_type ≤ 91) inputs
light [] = tt
light (i ∷ is) = (input_vbytes-le i.script_type, light is)

-- Without overflow the share is the formula over the numbers.
pub round_fee_share-eq :
    (inputs : List ParticipantInput) (o : ScriptType) (r : ℕ)
    → 1 ≤ r
    → (10 + 177 * length inputs) * r < 2 ^ 64
    → round_fee_share inputs o r
      ≡ (10 + sum (input_vbytes inputs) + (length inputs + length inputs) * script_output_vbytes o)
        * r
        / length inputs
unfolding round_fee_share estimated_vsize
round_fee_share-eq inputs o r rate fits =
    let n = length inputs in
    let s = sum (input_vbytes inputs) in
    let b = script_output_vbytes o in
    let ins : s ≤ 91 * n = sum-input_vbytes-le 91 inputs (light inputs) in
    let outs = mul_mono (n + n) b 43 (output_vbytes-le o) in
    let wide : 10 + 177 * n ≤ (10 + 177 * n) * r =
      omega (arith, mul_mono (10 + 177 * n) 1 r rate) in
    rw (
      sum64-eq (input_vbytes inputs) (omega arith),
      add64-eq n n (omega arith),
      mul64-eq (n + n) b (omega arith),
      weigh64-eq s ((n + n) * b) (10 + 177 * n) r (omega arith) rate fits,
    )

light_of_worst :
    (bip : BipConfig) {w : ℕ} (inputs : List ParticipantInput)
    → worst_vbytes bip ≡ some w
    → Allowed bip inputs
    → All (λ i. script_input_vbytes i.script_type ≤ w) inputs
light_of_worst bip inputs found = All-imp (λ i a. (worst-bounds bip found).1 i.script_type a) inputs

module _ (bip : BipConfig) (inputs : List ParticipantInput) (m r : ℕ) {est : ℕ} (quorum : 1 ≤ m)
    (reached : m ≤ length inputs) (rate : 1 ≤ r) (fits : (10 + 177 * length inputs) * r < 2 ^ 64)
    (allowed : Allowed bip inputs) (estimated : estimate_fee_share bip m r ≡ some est) where
  pub share-le-estimate : round_fee_share inputs bip.output_script_type r ≤ est
  share-le-estimate =
      let n = length inputs in
      let o = script_output_vbytes bip.output_script_type in
      let (w, found) = worst_of_estimate bip m r quorum estimated in
      let small = mul_mono_left (10 + 177 * m) (10 + 177 * n) r (omega arith) in
      let charged = estimate-eq bip m r quorum rate (omega arith) found in
      let heavy = sum-input_vbytes-le w inputs (light_of_worst bip inputs found allowed) in
      let e : some est ≡ some ((10 + w * m + o * 2 * m) * r / m) = sym estimated ∙ charged in
      ground (
        arith,
        e,
        round_fee_share-eq inputs bip.output_script_type r rate fits,
        share_mono r (sum (input_vbytes inputs)) w o m n quorum reached heavy,
      )

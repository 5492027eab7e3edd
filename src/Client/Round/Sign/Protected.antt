-- ===== src/Client/Round/Sign/Protected.antt =====
-- What a client that signs is protected from (client/src/round/sign.rs).
use blindjoin.Prelude.{
  ℕ, ◌+◌, ◌-◌, ◌%◌, ◌^◌, ◌≤◌, ◌≡◌, true, not, Option, some, List, ◌∷◌, ◌++◌, ltb, any-split,
  keep_if, length, ok, ok_or, ensure, sum, sum64, sum64-le, arith, >>=-eq-ok, ok_or-eq-ok,
  ensure-eq-ok,
}
use blindjoin.Prelude.Eq.{Bytes, ◌==◌, nat_eq, bytes_eq, bytes_beq_iff}
use blindjoin.External.{External, TxOut, Psbt}
use blindjoin.Coordinator.Round.Signing.{position}
use blindjoin.Coordinator.Round.OutPoints.{outpoint_text}
use blindjoin.Coordinator.Api.Tx.{RoundTxResponse}
use blindjoin.Coordinator.Api.Sign.{SignRequest}
use blindjoin.Client.Wallet.{
  ClientWallet, bad_base64, bad_psbt, no_own_output, below_anonymity_floor, no_own_input,
  no_witness_utxo, outputs_exceed_input, fee_above_cap, sign_psbt_input,
}
use blindjoin.Client.Round.{InputRegState}
use blindjoin.Client.Round.Sign.{
  verify_own_denomination_output, verify_anonymity_floor, verify_fee_within_cap, witness_utxo_of,
  own_input_value, ours, our_received_value, fee_cap_of, scripts_of, verify_psbt, verify_and_sign,
}

-- The client's output is there at the denomination.
abbrev pub Paid : Psbt → Bytes → ℕ → Type 0
Paid psbt our_script denomination_sats =
    (front : List TxOut) × (o : TxOut) × (back : List TxOut) × (psbt.unsigned_tx.output
      ≡ front ++ o ∷ back)
    × (o.script_pubkey ≡ our_script)
    × (o.value ≡ denomination_sats)

-- What the client keeps: the input is its own, and all of its value but the cap comes back to its scripts.
pub record Protected (wallet : ClientWallet) (state : InputRegState) (floor cap : ℕ) (psbt : Psbt)
    : Type 0 where
  pub paid : Paid psbt state.output_script state.denomination_sats
  pub company :
      floor ≤ length (keep_if (λ o. o.value == state.denomination_sats) psbt.unsigned_tx.output)
  pub index : ℕ
  pub utxo : TxOut
  pub placed : position wallet.utxo_outpoint psbt.unsigned_tx.input ≡ some index
  pub attached : witness_utxo_of psbt index ≡ some utxo
  pub kept : utxo.value ≤ sum (ours (scripts_of wallet state) psbt.unsigned_tx.output) + cap

own-Paid :
    (psbt : Psbt) (our_script : Bytes) (denomination_sats : ℕ)
    → verify_own_denomination_output psbt our_script denomination_sats ≡ ok tt
    → Paid psbt our_script denomination_sats
unfolding verify_own_denomination_output
own-Paid psbt our_script denomination_sats h =
    let (front, o, back, e, q) =
      any-split _ psbt.unsigned_tx.output (ensure-eq-ok _ no_own_output h) in
    (front, o, back, e, ground (arith, bytes_beq_iff o.script_pubkey our_script), ground arith)

-- Dropping the high bits only loses value.
not_below : (n floor : ℕ) → not (ltb (n % 2 ^ 32) floor) ≡ true → floor ≤ n
not_below n floor h = ground arith

company_lem :
    (psbt : Psbt) (denomination_sats floor : ℕ)
    → verify_anonymity_floor psbt denomination_sats floor ≡ ok tt
    → floor ≤ length (keep_if (λ o. o.value == denomination_sats) psbt.unsigned_tx.output)
unfolding verify_anonymity_floor
company_lem psbt denomination_sats floor h =
    not_below (length (keep_if (λ o. o.value == denomination_sats) psbt.unsigned_tx.output)) floor
      (ensure-eq-ok _ below_anonymity_floor h)

kept_lem : (v r cap : ℕ) → verify_fee_within_cap v r cap ≡ ok tt → v ≤ r + cap
unfolding verify_fee_within_cap
kept_lem v r cap h =
    let (_, _, k) = >>=-eq-ok (ensure (not (ltb v r)) outputs_exceed_input) _ h in
    let q = ensure-eq-ok (not (ltb cap (v - r))) fee_above_cap k in ground arith

module _ (x : External) (wallet : ClientWallet) (state : InputRegState) (floor : ℕ)
    (max_fee_sats : Option ℕ) where
  verify_psbt-Protected :
      (psbt : Psbt)
      → verify_psbt x wallet state floor max_fee_sats psbt ≡ ok tt
      → Protected wallet state floor (fee_cap_of max_fee_sats state.denomination_sats) psbt
  unfolding verify_psbt own_input_value our_received_value
  verify_psbt-Protected psbt h =
      let (_, own, h1) =
        >>=-eq-ok (verify_own_denomination_output psbt state.output_script state.denomination_sats)
          _ h in
      let (_, many, h2) =
        >>=-eq-ok (verify_anonymity_floor psbt state.denomination_sats floor) _ h1 in
      let (v, valued, fee) = >>=-eq-ok (own_input_value psbt wallet.utxo_outpoint) _ h2 in
      let (index, found, h3) =
        >>=-eq-ok (ok_or (position wallet.utxo_outpoint psbt.unsigned_tx.input) no_own_input) _
          valued in
      let (utxo, attached, h4) =
        >>=-eq-ok (ok_or (witness_utxo_of psbt index) no_witness_utxo) _ h3 in
      let returned = ours (scripts_of wallet state) psbt.unsigned_tx.output in
      let kept =
        kept_lem v (sum64 returned) (fee_cap_of max_fee_sats state.denomination_sats) fee in
      let same : utxo.value ≡ v = cc in
      record {
        paid = own-Paid psbt state.output_script state.denomination_sats own;
        company = company_lem psbt state.denomination_sats floor many;
        index = index;
        utxo = utxo;
        placed = ok_or-eq-ok _ no_own_input found;
        attached = ok_or-eq-ok _ no_witness_utxo attached;
        kept = omega (arith, kept, same, sum64-le returned);
      }

  -- A client posts a signature only for a PSBT that the coordinator sent in which its output stands at exactly
  -- the denomination, at least as many outputs as its anonymity floor have the denomination, and its own
  -- input is worth at most the fee cap more than all that the transaction pays to its scripts; the request
  -- names its round and outpoint.
  pub verify_and_sign-Protected :
      (tx_resp : RoundTxResponse) {req : SignRequest}
      → verify_and_sign x wallet state floor max_fee_sats tx_resp ≡ ok req
      → (psbt_bytes : Bytes) × (psbt : Psbt) × (after : Psbt) × (partial_sig : Bytes)
        × (x.b64_decode tx_resp.psbt ≡ some psbt_bytes)
        × (x.deserialize_psbt psbt_bytes ≡ some psbt)
        × Protected wallet state floor (fee_cap_of max_fee_sats state.denomination_sats) psbt
        × (sign_psbt_input x wallet psbt ≡ ok (after, partial_sig))
        × (req.utxo_outpoint ≡ outpoint_text x wallet.utxo_outpoint)
        × (req.round_id ≡ state.round_id)
        × (req.partial_signature ≡ x.b64_encode partial_sig)
  unfolding verify_and_sign
  verify_and_sign-Protected tx_resp h =
      let (b, decoded, h1) = >>=-eq-ok (ok_or (x.b64_decode tx_resp.psbt) bad_base64) _ h in
      let (psbt, read, h2) = >>=-eq-ok (ok_or (x.deserialize_psbt b) bad_psbt) _ h1 in
      let (_, verified, h3) = >>=-eq-ok (verify_psbt x wallet state floor max_fee_sats psbt) _ h2 in
      let ((after, partial_sig), signed, h4) = >>=-eq-ok (sign_psbt_input x wallet psbt) _ h3 in
      (
        b,
        psbt,
        after,
        partial_sig,
        ok_or-eq-ok _ bad_base64 decoded,
        ok_or-eq-ok _ bad_psbt read,
        verify_psbt-Protected psbt verified,
        signed,
        cc,
        cc,
        cc,
      )

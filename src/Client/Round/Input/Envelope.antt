-- ===== src/Client/Round/Input/Envelope.antt =====
-- The envelope of a proof of version 2, from client/src/round/input.rs to coordinator/src/bitcoin/utxo.rs.
use blindjoin.Prelude.{◌≡◌, Option, none, some, ok, refl, [], ◌∷◌}
use blindjoin.Prelude.Eq.{Bytes, Text}
use blindjoin.External.{External, PsbtCreation, PsbtText, Witness, blank_input, Psbt}
use blindjoin.Coordinator.Utxo.{decode_psbt_input_witness}
use blindjoin.Client.Round.Input.{envelope_tx, with_proof, build_v2_psbt_input_b64}

-- The PSBT of the envelope.
abbrev pub envelope : Witness → Option Bytes → Psbt
envelope witness final_script_sig = record {
  unsigned_tx = envelope_tx;
  inputs =
      with_proof witness final_script_sig (
        blank_input (record {
          previous_output = record { txid = 0; vout = 0xFFFFFFFF };
          script_sig = [];
          sequence = 0;
          witness = [];
        }))
      ∷ [];
}

-- The client always builds the envelope of its proof, and the coordinator decodes the witness that the client
-- put in.
pub envelope-decodes :
    (x : External)
    → PsbtCreation x
    → (witness : Witness) (final_script_sig : Option Bytes)
    → PsbtText x (envelope witness final_script_sig)
    → (b64 : Text) × (build_v2_psbt_input_b64 x witness final_script_sig ≡ some b64)
      × (decode_psbt_input_witness x b64 ≡ ok witness)
unfolding build_v2_psbt_input_b64 decode_psbt_input_witness
envelope-decodes x creation witness none text =
    let made = creation.created envelope_tx (refl, refl, tt) in
    let b = x.serialize_psbt (envelope witness none) in
    (
      x.b64_encode b,
      rw (build_v2_psbt_input_b64, made),
      rw (decode_psbt_input_witness, text.base64 b, text.psbt),
    )
envelope-decodes x creation witness (some sig) text =
    let made = creation.created envelope_tx (refl, refl, tt) in
    let b = x.serialize_psbt (envelope witness (some sig)) in
    (
      x.b64_encode b,
      rw (build_v2_psbt_input_b64, made),
      rw (decode_psbt_input_witness, text.base64 b, text.psbt),
    )

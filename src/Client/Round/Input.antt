-- ===== src/Client/Round/Input.antt =====
-- client/src/round/input.rs: the registration of an input.
pub mod Envelope
use blindjoin.Prelude.{
  ℕ, Option, none, some, List, [], ◌∷◌, if◌then◌else◌, Bool, Result, ok, err, ◌>>=◌, ◌>>◌, ok_or,
  ensure,
}
use blindjoin.Prelude.Eq.{Bytes, Text, codes, ◌==◌, bytes_eq}
use blindjoin.External.{External, OutPoint, TxIn, Transaction, Witness, PsbtInput, Psbt}

-- `OutPoint::null()`
abbrev pub null_outpoint : OutPoint
null_outpoint = record { txid = 0; vout = 0xFFFFFFFF }

abbrev pub envelope_tx : Transaction
envelope_tx = record {
  version = 2;
  lock_time = 0;
  input =
      record { previous_output = null_outpoint; script_sig = []; sequence = 0; witness = [] } ∷ [];
  output = [];
}

-- `psbt.inputs[0].final_script_witness = ..`, and the script when there is one.
abbrev pub with_proof : Witness → Option Bytes → PsbtInput → PsbtInput
with_proof witness none p = record p { final_script_witness = some witness }
with_proof witness (some sig) p = record p {
  final_script_witness = some witness;
  final_script_sig = some sig;
}

-- `none` is a transaction that is refused, or an index out of range, where the program panics.
abbrev pub prove_first : Witness → Option Bytes → Psbt → Option Psbt
prove_first witness final_script_sig psbt = elim psbt.inputs [
  | [] ↦ none
  | p ∷ ps ↦ some (record psbt { inputs = with_proof witness final_script_sig p ∷ ps })
]

module _ (x : External) where
  unfoldable pub build_v2_psbt_input_b64 : Witness → Option Bytes → Option Text
  build_v2_psbt_input_b64 witness final_script_sig = elim (x.from_unsigned_tx envelope_tx) [
    | none ↦ none
    | some psbt ↦ elim (prove_first witness final_script_sig psbt) [
      | none ↦ none
      | some proved ↦ some (x.b64_encode (x.serialize_psbt proved))
    ]
  ]

-- ===== src/Coordinator/Round/InputReg.antt =====
-- coordinator/src/round/input_reg.rs: the registration of an input under the write lock.
-- pub mod Registered
use blindjoin.Prelude.{ℕ, some, not, Result, ok, ◌>>=◌, ◌>>◌, ok_or, ensure, add32}
use blindjoin.Prelude.Eq.{Bytes, Text, bytes_eq}
use blindjoin.Prelude.Dict.{contains_key, insert}
use blindjoin.External.{External, OutPoint}
use blindjoin.Shared.Script.{ScriptType}
use blindjoin.Shared.Errors.{wrong_phase, utxo_already_registered, invalid_token}
use blindjoin.Coordinator.Failure.{Failure, panicked, refuse}
use blindjoin.Coordinator.Round.State.{RegisteredInput, RoundStateInner, RoundState}
use blindjoin.Coordinator.Round.OutPoints.{outpoint_text}
use blindjoin.Coordinator.Round.Manager.{generate_session_token}

pub record InputRegResult : Type 0 where
  pub blind_signature_b64 : Text
  pub session_token_b64 : Text

-- A participant that registers: what the handler passes.
pub record Registration : Type 0 where
  pub utxo : OutPoint
  pub blinded_token : Bytes
  pub change_address : Text
  pub script_pubkey : Bytes
  pub value_sats : ℕ
  pub script_type : ScriptType

module _ (x : External) where
  abbrev pub registered_input : Registration → RegisteredInput
  registered_input r = record {
    utxo_str = outpoint_text x r.utxo;
    change_address = r.change_address;
    script_pubkey = r.script_pubkey;
    value_sats = r.value_sats;
    script_type = r.script_type;
  }

  unfoldable pub with_input : RoundStateInner → Registration → RoundStateInner
  with_input inner r = record inner {
    registered_inputs =
        insert (outpoint_text x r.utxo) (registered_input r) inner.registered_inputs;
  }

  -- The state with the input inserted and counted.
  unfoldable pub insert_input : RoundState → RoundStateInner → Registration → RoundState
  insert_input s inner r = record s {
    inner = some (with_input inner r);
    participant_count = add32 s.participant_count 1;
  }

  unfoldable pub register_input :
      RoundState → Registration → Text → Result Failure (InputRegResult × RoundState)
  unfolding generate_session_token insert_input
  register_input s r round_id = do
    inner ← ok_or s.inner (refuse wrong_phase round_id)
    ensure (not (contains_key (outpoint_text x r.utxo) inner.registered_inputs))
        (refuse utxo_already_registered round_id)
    signer ← ok_or inner.rsa_signer panicked
    blind_sig ←
        ok_or (x.blind_sign signer.secret_key r.blinded_token) (refuse invalid_token round_id)
    let session_token = generate_session_token x inner.round_secret r.utxo
    let result : InputRegResult = record {
      blind_signature_b64 = x.b64_encode blind_sig;
      session_token_b64 = x.b64_encode session_token;
    }
    ok (result, insert_input s inner r)

-- ===== src/Client/Round/Output.antt =====
-- client/src/round/output.rs: the registration of an output.
pub mod SameKey
use blindjoin.Prelude.{ℕ, Bool, Option, none, some, Result, ok, err, ◌>>=◌, ◌>>◌, ok_or, ensure}
use blindjoin.Prelude.Eq.{Bytes, Text, ◌==◌, bytes_eq}
use blindjoin.External.{External}
use blindjoin.Coordinator.Api.{InfoResponse, option_map}
use blindjoin.Coordinator.Api.Output.{OutputRegRequest, OutputRegResponse}
use blindjoin.Client.Round.{InputRegState}

pub data OutputError : Type 0 where
  missing_key bad_base64 key_rotated rejected : OutputError

module _ (x : External) where
  -- The request that is posted. `current_info` is the coordinator's answer to `get_info` in the
  -- output phase, and `output_address` the text of the wallet's address.
  unfoldable pub output_request :
      InputRegState → InfoResponse → Text → Result OutputError OutputRegRequest
  output_request state current_info output_address = do
    pk_der_b64 ← ok_or current_info.rsa_pubkey_der_b64 missing_key
    pk_der_bytes ← ok_or (x.b64_decode pk_der_b64) bad_base64
    ensure (x.sha256 pk_der_bytes == state.pk_hash_at_registration) key_rotated
    ok (record {
      unblinded_token = x.b64_encode state.message_bytes;
      signature = x.b64_encode state.unblinded_sig;
      output_address = output_address;
      amount_sats = current_info.denomination_sats;
      msg_randomizer = option_map x.b64_encode state.msg_randomizer;
    })

-- The end of `register_output`: the coordinator's answer to the request.
unfoldable pub on_output_response : OutputRegResponse → Result OutputError (Unit {0})
on_output_response resp = ensure resp.accepted rejected

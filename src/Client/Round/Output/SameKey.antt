-- ===== src/Client/Round/Output/SameKey.antt =====
-- The request of client/src/round/output.rs, and what coordinator/src/api/handlers.rs reads from it.
use blindjoin.Prelude.{
  ◌≡◌, true, Option, none, some, ok, ok_or, ensure, length, refl, arith, >>=-eq-ok, ok_or-eq-ok,
  ensure-eq-ok, subst,
}
use blindjoin.Prelude.Eq.{Bytes, Text, ◌==◌, nat_eq, bytes_eq, bytes_beq_iff}
use blindjoin.External.{External}
use blindjoin.Coordinator.Round.State.{RoundState, output_reg}
use blindjoin.Coordinator.Round.OutputReg.{Token}
use blindjoin.Coordinator.Api.{InfoResponse, option_map}
use blindjoin.Coordinator.Api.Output.{OutputRegRequest, decode_randomizer, decode_token}
use blindjoin.Client.Round.{InputRegState}
use blindjoin.Client.Round.Output.{missing_key, bad_base64, key_rotated, output_request}

-- A message randomizer is of 32 bytes.
abbrev pub Randomizer32 : Option Bytes → Type 0
Randomizer32 none = Unit
Randomizer32 (some r) = length r ≡ 32

abbrev pub token_of : InputRegState → Token
token_of state = record {
  message = state.message_bytes;
  signature = state.unblinded_sig;
  randomizer = state.msg_randomizer;
}

module _ (x : External) where
  abbrev pub request_of : InputRegState → InfoResponse → Text → OutputRegRequest
  request_of state info address = record {
    unblinded_token = x.b64_encode state.message_bytes;
    signature = x.b64_encode state.unblinded_sig;
    output_address = address;
    amount_sats = info.denomination_sats;
    msg_randomizer = option_map x.b64_encode state.msg_randomizer;
  }

  -- What an output request was made from.
  pub record Requested (state : InputRegState) (info : InfoResponse) (address : Text)
      (req : OutputRegRequest) : Type 0 where
    pub b64 : Text
    pub der : Bytes
    pub given : info.rsa_pubkey_der_b64 ≡ some b64
    pub decoded : x.b64_decode b64 ≡ some der
    pub same_key : x.sha256 der ≡ state.pk_hash_at_registration
    pub made : request_of state info address ≡ req

  pub output_request-Requested :
      (state : InputRegState) (info : InfoResponse) (address : Text) {req : OutputRegRequest}
      → output_request x state info address ≡ ok req
      → Requested state info address req
  unfolding output_request
  output_request-Requested state info address {req} h =
      let (b64, given, h1) = >>=-eq-ok (ok_or info.rsa_pubkey_der_b64 missing_key) _ h in
      let (der, decoded, h2) = >>=-eq-ok (ok_or (x.b64_decode b64) bad_base64) _ h1 in
      let (_, matching, h3) =
        >>=-eq-ok (ensure (x.sha256 der == state.pk_hash_at_registration) key_rotated) _ h2 in
      record {
        b64 = b64;
        der = der;
        given = ok_or-eq-ok info.rsa_pubkey_der_b64 missing_key given;
        decoded = ok_or-eq-ok (x.b64_decode b64) bad_base64 decoded;
        same_key = ground (
          arith,
          ensure-eq-ok (x.sha256 der == state.pk_hash_at_registration) key_rotated matching,
          bytes_beq_iff (x.sha256 der) state.pk_hash_at_registration,
        );
        made = cc h3;
      }

module _ (x : External) (base64 : (b : Bytes) → x.b64_decode (x.b64_encode b) ≡ some b) where
  randomizer-decodes :
      (m : Option Bytes) → Randomizer32 m → decode_randomizer x (option_map x.b64_encode m) ≡ ok m
  unfolding decode_randomizer
  randomizer-decodes none h = refl
  randomizer-decodes (some r) h =
      let sized : (length r == 32) ≡ true = ground arith in rw (base64 r, sized)

  token-decodes :
      (state : InputRegState) (info : InfoResponse) (address : Text) (seen : RoundState)
      → length state.message_bytes ≡ 32
      → Randomizer32 state.msg_randomizer
      → seen.phase ≡ output_reg
      → decode_token x seen (request_of x state info address) ≡ ok (token_of state)
  unfolding decode_token
  token-decodes state info address seen sized random phase =
      let long : (length state.message_bytes == 32) ≡ true = ground arith in
      rw (
        phase,
        base64 state.message_bytes,
        long,
        base64 state.unblinded_sig,
        randomizer-decodes state.msg_randomizer random,
      )

  -- A client that asks for an output has seen the key of its input registration again, and the coordinator reads
  -- from the request, in the output phase, the token that the client has: its message, its signature and its
  -- randomizer, given that the message and a randomizer are of 32 bytes and that base64 is read back as written.
  pub request-decodes :
      (state : InputRegState) (info : InfoResponse) (address : Text) (seen : RoundState)
      {req : OutputRegRequest}
      → output_request x state info address ≡ ok req
      → length state.message_bytes ≡ 32
      → Randomizer32 state.msg_randomizer
      → seen.phase ≡ output_reg
      → (decode_token x seen req ≡ ok (token_of state))
        × (b64 : Text) × (der : Bytes) × (info.rsa_pubkey_der_b64 ≡ some b64)
        × (x.b64_decode b64 ≡ some der)
        × (x.sha256 der ≡ state.pk_hash_at_registration)
  request-decodes state info address seen {req} h sized random phase =
      let q = output_request-Requested x state info address h in
      (
        subst (λ r. decode_token x seen r ≡ ok (token_of state)) q.made
            (token-decodes state info address seen sized random phase),
        q.b64,
        q.der,
        q.given,
        q.decoded,
        q.same_key,
      )

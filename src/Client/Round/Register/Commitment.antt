-- ===== src/Client/Round/Register/Commitment.antt =====
-- What a client holds when its input is registered (client/src/round/input.rs), and what the coordinator
-- makes of it (coordinator/src/round/output_reg.rs).
use blindjoin.Prelude.{
  ◌≡◌, Bool, true, false, any, Option, some, List, ok, ok_or, ensure, arith, subst, refl, sym, ◌∙◌,
  >>=-eq-ok, ok_or-eq-ok, ensure-eq-ok,
}
use blindjoin.Prelude.Eq.{Bytes, Text, ◌==◌, nat_eq, bytes_eq, bytes_beq_iff}
use blindjoin.External.{External}
use blindjoin.External.Keys.{Keys}
use blindjoin.External.Blind.{Blind, BlindingResult}
use blindjoin.Shared.Ownership.{WireText}
use blindjoin.Shared.Token.{compute_blind_token_message}
use blindjoin.Coordinator.Api.{InfoResponse}
use blindjoin.Coordinator.Api.Input.{InputRegRequest, InputRegResponse}
use blindjoin.Coordinator.Round.OutputReg.{Token, register_output_logic, redeem}
use blindjoin.Client.Wallet.{
  ClientWallet, bad_base64, no_key_announced, bad_hash, key_mismatch, bad_key, blinding_failed,
  request_failed, finalization_failed,
}
use blindjoin.Client.Round.{InputRegState}
use blindjoin.Client.Round.Register.{
  RoundKey, check_round_key, bip322_message, prove_ownership, input_request, finish_registration,
  register_input,
}

-- `finalize` gives only a signature that verifies.
pub record Finalizes (x : External) (b : Blind) : Type 0 where
  pub verified :
      (pk blind_sig message sig : Bytes) (r : BlindingResult)
      → b.finalize pk blind_sig r message ≡ some sig
      → x.verify_blind pk sig r.msg_randomizer message ≡ true

-- The key that the coordinator announced, and its hash.
pub record Committed (x : External) (b : Blind) (info : InfoResponse) (key : RoundKey)
    : Type 0 where
  pub der_b64 : Text
  pub der : Bytes
  pub hash : Text
  pub announced : info.rsa_pubkey_der_b64 ≡ some der_b64
  pub decoded : x.b64_decode der_b64 ≡ some der
  pub announced_hash : info.rsa_pubkey_hash ≡ some hash
  pub hashed : x.hex_decode hash ≡ some (x.sha256 der)
  pub parsed : b.from_spki der ≡ some key.pk
  pub held : key.pk_hash ≡ x.sha256 der

-- The token of a client.
abbrev pub held_token : InputRegState → Token
held_token s = record {
  message = s.message_bytes;
  signature = s.unblinded_sig;
  randomizer = s.msg_randomizer;
}

-- Under the key, the token buys an output of the denomination to the client's script, unless it has
-- been redeemed.
abbrev pub Redeemable : External → Bytes → InputRegState → Type 0
Redeemable x pk s =
    (redeemed : List Bytes)
    → any (λ m. m == s.message_bytes) redeemed ≡ false
    → register_output_logic x pk redeemed (held_token s) s.denomination_sats s.denomination_sats
        s.output_script
      ≡ ok (redeem redeemed s.message_bytes)

module _ (x : External) (b : Blind) where
  check_round_key-Committed :
      (info : InfoResponse) {key : RoundKey}
      → check_round_key x b info ≡ ok key
      → Committed x b info key
  unfolding check_round_key
  check_round_key-Committed info {key} h =
      let (der_b64, h1, k1) = >>=-eq-ok (ok_or info.rsa_pubkey_der_b64 no_key_announced) _ h in
      let (der, h2, k2) = >>=-eq-ok (ok_or (x.b64_decode der_b64) bad_base64) _ k1 in
      let (hash, h3, k3) = >>=-eq-ok (ok_or info.rsa_pubkey_hash no_key_announced) _ k2 in
      let (bytes, h4, k4) = >>=-eq-ok (ok_or (x.hex_decode hash) bad_hash) _ k3 in
      let (_, h5, k5) = >>=-eq-ok (ensure (bytes == x.sha256 der) key_mismatch) _ k4 in
      let (pk, h6, end) = >>=-eq-ok (ok_or (b.from_spki der) bad_key) _ k5 in
      let made : RoundKey = record { pk = pk; pk_hash = x.sha256 der } in
      let same : made ≡ key = cc end in
      let equal : bytes ≡ x.sha256 der =
        (bytes_beq_iff bytes (x.sha256 der)).0
          (ensure-eq-ok (bytes == x.sha256 der) key_mismatch h5) in
      record {
        der_b64 = der_b64;
        der = der;
        hash = hash;
        announced = ok_or-eq-ok info.rsa_pubkey_der_b64 no_key_announced h1;
        decoded = ok_or-eq-ok (x.b64_decode der_b64) bad_base64 h2;
        announced_hash = ok_or-eq-ok info.rsa_pubkey_hash no_key_announced h3;
        hashed = cc (ok_or-eq-ok (x.hex_decode hash) bad_hash h4, equal);
        parsed = cc (ok_or-eq-ok (b.from_spki der) bad_key h6, same);
        held = cc same;
      }

  redeems :
      (pk : Bytes) (s : InputRegState)
      → s.message_bytes ≡ compute_blind_token_message x s.output_script s.denomination_sats
      → x.verify_blind pk s.unblinded_sig s.msg_randomizer s.message_bytes ≡ true
      → Redeemable x pk s
  unfolding register_output_logic
  redeems pk s bound verified redeemed fresh =
      let amount : (s.denomination_sats == s.denomination_sats) ≡ true = ground arith in
      let m = compute_blind_token_message x s.output_script s.denomination_sats in
      let message : (m == s.message_bytes) ≡ true =
        (bytes_beq_iff m s.message_bytes).1 (sym bound) in
      rw (amount, verified, message, fresh) refl

  asked-checked :
      (k : Keys) (wire : WireText) (rng : Bytes) (wallet : ClientWallet) (info : InfoResponse)
      (is_legacy : Bool) {request : InputRegRequest} {key : RoundKey} {r : BlindingResult}
      → input_request x k wire b rng wallet info is_legacy ≡ ok (request, key, r)
      → check_round_key x b info ≡ ok key
  unfolding input_request
  asked-checked k wire rng wallet info is_legacy h =
      let (found, checked, k1) = >>=-eq-ok (check_round_key x b info) _ h in
      let m = compute_blind_token_message x wallet.inner.external_script info.denomination_sats in
      let (blinding, _, k2) = >>=-eq-ok (ok_or (b.blind found.pk m rng) blinding_failed) _ k1 in
      let (proof, _, end) =
        >>=-eq-ok
          (prove_ownership x k wire wallet is_legacy
            (bip322_message x info.round_id wallet.utxo_outpoint))
          _ k2 in
      checked ∙ cc end

  module _ (finalizes : Finalizes x b) (k : Keys) (wire : WireText) where
    finish-Redeemable :
        (wallet : ClientWallet) (info : InfoResponse) (key : RoundKey) (r : BlindingResult)
        (resp : InputRegResponse) {s : InputRegState}
        → finish_registration x k wire b wallet info key r resp ≡ ok s
        → Redeemable x key.pk s
          × (s.pk_hash_at_registration ≡ key.pk_hash)
          × (s.output_script ≡ wallet.inner.external_script)
          × (s.denomination_sats ≡ info.denomination_sats)
    unfolding finish_registration
    finish-Redeemable wallet info key r resp {s} h =
        let script = wallet.inner.external_script in
        let m = compute_blind_token_message x script info.denomination_sats in
        let (blind_sig, _, k1) =
          >>=-eq-ok (ok_or (x.b64_decode resp.blind_signature) bad_base64) _ h in
        let (sig, h2, k2) =
          >>=-eq-ok (ok_or (b.finalize key.pk blind_sig r m) finalization_failed) _ k1 in
        let (session, _, end) =
          >>=-eq-ok (ok_or (x.b64_decode resp.session_token) bad_base64) _ k2 in
        let made : InputRegState = record {
          round_id = resp.round_id;
          session_token = session;
          blinding_secret = r.secret;
          msg_randomizer = r.msg_randomizer;
          message_bytes = m;
          output_script = script;
          unblinded_sig = sig;
          pk_hash_at_registration = key.pk_hash;
          denomination_sats = info.denomination_sats;
        } in
        let same : made ≡ s = cc end in
        let found = ok_or-eq-ok (b.finalize key.pk blind_sig r m) finalization_failed h2 in
        subst
          (λ t.
            Redeemable x key.pk t
            × (t.pk_hash_at_registration ≡ key.pk_hash)
            × (t.output_script ≡ script)
            × (t.denomination_sats ≡ info.denomination_sats))
          same
          (
            redeems key.pk made refl (finalizes.verified key.pk blind_sig m sig r found),
            refl,
            refl,
            refl,
          )

    -- A registration that succeeds was made under the key that the coordinator announced together with its
    -- hash, which the client keeps; and the coordinator that holds this key gives an output of the announced
    -- denomination to the wallet's address for the client's token, if the token has not been redeemed before.
    pub registered-Redeemable :
        (rng : Bytes) (post : InputRegRequest → Option InputRegResponse) (wallet : ClientWallet)
        (info : InfoResponse) (is_legacy : Bool) {s : InputRegState}
        → register_input x k wire b rng post wallet info is_legacy ≡ ok s
        → (key : RoundKey) × Committed x b info key
          × (s.pk_hash_at_registration ≡ key.pk_hash)
          × (s.output_script ≡ wallet.inner.external_script)
          × (s.denomination_sats ≡ info.denomination_sats)
          × Redeemable x key.pk s
    unfolding register_input
    registered-Redeemable rng post wallet info is_legacy {s} h =
        let ((request, key, r), asked, k1) =
          >>=-eq-ok (input_request x k wire b rng wallet info is_legacy) _ h in
        let (resp, _, end) = >>=-eq-ok (ok_or (post request) request_failed) _ k1 in
        let key_checked = asked-checked k wire rng wallet info is_legacy asked in
        let (good, kept, script, denomination) = finish-Redeemable wallet info key r resp end in
        (key, check_round_key-Committed info key_checked, kept, script, denomination, good)

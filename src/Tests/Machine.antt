-- ===== src/Tests/Machine.antt =====
-- Runs of the state machine, of the outpoints, of the configuration and of the bans.
use blindjoin.Prelude.{
  ap, Bool, ℕ, ◌≡◌, ◌≢◌, ◌⊎◌, refl, true, some, none, [], ◌∷◌, ok, err, arith, ltb, add64,
}
use blindjoin.Prelude.Eq.{Text, codes, bytes_eq}
use blindjoin.Prelude.Dict.{contains_key}
use blindjoin.External.{OutPoint}
use blindjoin.Shared.Script.{p2wpkh}
use blindjoin.Coordinator.Round.State.{
  idle, signing, broadcast, RegisteredInput, RoundStateInner, RoundState, invalid_transition,
  transition_to, new_idle,
}
use blindjoin.Coordinator.Round.State.Graph.{◌⟶◌, transition_to_cases}
use blindjoin.Coordinator.Round.OutPoints.{outpoint_text, parse_outpoint}
use blindjoin.Coordinator.Round.OutPoints.RoundTrip.{parse_outpoint-text}
use blindjoin.Coordinator.Round.Blame.{
  is_banned, hash_utxo_str, detect_non_signers, on_signing_timeout,
}
use blindjoin.Coordinator.Round.Blame.Bans.{
  Ending, bans_after, non_signer-banned, signer-keeps, timeout-ends,
}
use blindjoin.Tests.Sample.{sample, sample_txids}
use blindjoin.Tests.Scenario.{sample_json}

-- A round of two inputs, of which the first has signed.
abbrev coin_input : Text → RegisteredInput
coin_input utxo = record {
  utxo_str = utxo;
  change_address = 5 ∷ [];
  script_pubkey = 0 ∷ [];
  value_sats = 20000;
  script_type = p2wpkh;
}

abbrev half_signed : RoundStateInner
half_signed = record {
  rsa_signing_key = [];
  rsa_signer = none;
  round_secret = 7 ∷ [];
  registered_inputs =
      (codes "1:0", coin_input (codes "1:0")) ∷ (codes "2:7", coin_input (codes "2:7")) ∷ [];
  redeemed_tokens = [];
  registered_outputs = [];
  partial_sigs = (codes "1:0", 0 ∷ []) ∷ [];
}

abbrev late : RoundState
late = record {
  phase = signing;
  round_id = 3;
  rsa_pubkey_hash = none;
  rsa_pubkey_der = none;
  participant_count = 2;
  inner = some half_signed;
}

transition_to_cases_example :
    ((late.phase ⟶ broadcast)
      × (((broadcast ≡ idle) × (transition_to 9 late broadcast ≡ ok (new_idle 9)))
          ⊎ ((broadcast ≢ idle)
              × (transition_to 9 late broadcast ≡ ok (record late { phase = broadcast })))))
    ⊎ ((¬ (late.phase ⟶ broadcast))
        × (transition_to 9 late broadcast ≡ err (invalid_transition signing broadcast)))
transition_to_cases_example = transition_to_cases 9 late broadcast

abbrev far_coin : OutPoint
far_coin = record { txid = 2; vout = 4294967295 }

parse_outpoint-text_example : parse_outpoint sample (outpoint_text sample far_coin) ≡ some far_coin
parse_outpoint-text_example =
    parse_outpoint-text sample far_coin (sample_txids.read 2) (omega arith)

abbrev writable : Text → Bool
writable u = true

non_signer-banned_example :
    is_banned sample
      (bans_after sample sample_json writable 100 9 late half_signed [] [] 3600 0 refl
        (codes "2:7"))
      (codes "2:7")
      3699
    ≡ ltb 3699 (add64 100 3600)
unfolding contains_key
non_signer-banned_example =
    non_signer-banned sample sample_json writable 100 9 late half_signed [] [] 3600 0 refl
      (codes "2:7") 3699 refl refl

abbrev first_byte : Text → ℕ
first_byte [] = 0
first_byte (c ∷ cs) = c

signer-keeps_example :
    is_banned sample
      (bans_after sample sample_json writable 100 9 late half_signed [] [] 3600 0 refl
        (codes "1:0"))
      (codes "1:0")
      3699
    ≡ is_banned sample [] (codes "1:0") 3699
unfolding contains_key hash_utxo_str
signer-keeps_example =
    signer-keeps sample sample_json writable 100 9 late half_signed [] [] 3600 0 refl (codes "1:0")
      3699 refl ((λ e. refl), ((λ e. absurd (omega (arith, ap first_byte e))), tt))

timeout-ends_example :
    let (left, outcome) = on_signing_timeout sample sample_json writable 100 9 late [] [] 3600 1 in
    (left.state ≡ new_idle 9)
    × Ending 1 (detect_non_signers half_signed.registered_inputs half_signed.partial_sigs) outcome
timeout-ends_example =
    timeout-ends sample sample_json writable 100 9 late half_signed [] [] 3600 1 refl refl

-- ===== src/Client/Main.antt =====
-- client/src/main.rs: a client takes part in a round.
pub mod Safe
use blindjoin.Prelude.{
  ℕ, ◌+◌, Bool, true, false, not, Option, none, some, List, [], ◌∷◌, if◌then◌else◌, Result, ok, err,
  ◌>>=◌, ◌>>◌, ok_or, map_err,
}
use blindjoin.Prelude.Eq.{Bytes, Text, codes, ◌==◌, bytes_eq}
use blindjoin.External.{External, Network, bitcoin, testnet, signet}
use blindjoin.External.Keys.{Keys}
use blindjoin.External.Blind.{Blind}
use blindjoin.Shared.Script.{ScriptType, p2wpkh, p2tr, p2sh_p2wpkh}
use blindjoin.Shared.Ownership.{WireText}
use blindjoin.Coordinator.Api.{InfoResponse}
use blindjoin.Coordinator.Api.Input.{InputRegRequest, InputRegResponse}
use blindjoin.Coordinator.Api.Output.{OutputRegRequest, OutputRegResponse}
use blindjoin.Coordinator.Api.Tx.{RoundTxResponse}
use blindjoin.Coordinator.Api.Sign.{SignRequest}
use blindjoin.Client.Wallet.{ClientWallet, ClientError}
use blindjoin.Client.Wallet.Create.{Bdk, from_wif, from_descriptor}
use blindjoin.Client.Discover.{CoordinatorInfo, DiscoveryError}
use blindjoin.Client.Http.{
  Reply, Poll, HttpFailure, refused, is_success, send_with_429_retry, read_reply, posted_reply,
  poll_until_phase,
}
use blindjoin.Client.Round.{InputRegState}
use blindjoin.Client.Round.Register.{register_input}
use blindjoin.Client.Round.Output.{OutputError, output_request, on_output_response}
use blindjoin.Client.Round.Sign.{verify_and_sign}

-- The arguments of the command line that a round needs.
pub record ClientConfig : Type 0 where
  pub coordinator_url : Text
  pub utxo : Option Text
  pub utxo_wif : Option Text
  pub descriptor : Option Text
  pub utxo_address : Option Text
  pub script_type : ScriptType
  pub network : Text
  pub poll_interval_ms : ℕ
  pub min_anonymity_set : ℕ
  pub max_fee_sats : Option ℕ

pub data RunError : Type 0 where
  unknown_network utxo_required utxo_address_required utxo_wif_required : RunError
  http : HttpFailure → RunError
  client : ClientError → RunError
  output : OutputError → RunError
  discovery : DiscoveryError → RunError

unfoldable pub network_named : Text → Option Network
network_named name =
    if name == codes "signet"
    then some signet
    else if name == codes "testnet4"
    then some testnet
    else if name == codes "mainnet"
    then some bitcoin
    else none

-- What the coordinator answers: the responses to the polls of the three phases, and the response to
-- each request by its number among the retries.
pub record Remote : Type 0 where
  pub input_polls : List Poll
  pub output_polls : List Poll
  pub signing_polls : List Poll
  pub post_input : InputRegRequest → ℕ → Option (Reply InputRegResponse)
  pub get_info : ℕ → Option (Reply InfoResponse)
  pub post_output : OutputRegRequest → ℕ → Option (Reply OutputRegResponse)
  pub get_tx : ℕ → Option (Reply RoundTxResponse)
  pub post_sign : SignRequest → ℕ → Option (Reply (Unit {0}))

abbrev pub to_option {ℓ} : {A : Type ℓ} → Result HttpFailure A → Option A
to_option (err e) = none
to_option (ok a) = some a

-- `post_sign` of http.rs reads no body.
abbrev pub signed_reply : Result HttpFailure (Reply (Unit {0})) → Result HttpFailure (Unit {0})
signed_reply (err e) = err e
signed_reply (ok resp) = if is_success resp.status then ok tt else err (refused resp.status)

-- A coordinator that the user names is taken for a current one.
abbrev pub manual_info : Text → List ScriptType → ScriptType → CoordinatorInfo
manual_info url types output_type = record {
  coordinator_url = url;
  capabilities = record {
    record_version = codes "manual";
    is_legacy = false;
    supported_script_types = types;
    output_script_type = output_type;
  };
}

-- With a public key, what is discovered; `discover` takes the wallet's type.
unfoldable pub coordinator_info :
    Option (ScriptType → Result DiscoveryError CoordinatorInfo)
    → ClientConfig
    → ClientWallet
    → Result RunError CoordinatorInfo
coordinator_info none cfg wallet =
    ok (manual_info cfg.coordinator_url (p2wpkh ∷ p2tr ∷ p2sh_p2wpkh ∷ []) wallet.script_type)
coordinator_info (some discover) cfg wallet = map_err discovery (discover wallet.script_type)

-- Ten minutes
abbrev pub phase_timeout_ms : ℕ
phase_timeout_ms = 600000

module _ (x : External) (k : Keys) (wire : WireText) (b : Blind) where
  -- A descriptor goes before a WIF key.
  unfoldable pub build_wallet : Bdk → ClientConfig → Result RunError ClientWallet
  unfolding network_named
  build_wallet bdk cfg = do
    network ← ok_or (network_named cfg.network) unknown_network
    utxo ← ok_or cfg.utxo utxo_required
    elim cfg.descriptor [
      | some descriptor ↦ do
        utxo_address ← ok_or cfg.utxo_address utxo_address_required
        map_err client
            (from_descriptor x k bdk descriptor utxo utxo_address network cfg.script_type)
      | none ↦ do
        wif ← ok_or cfg.utxo_wif utxo_wif_required
        map_err client (from_wif x k bdk wif utxo network)
    ]

  -- `register_output`, from the key of the coordinator as it is now.
  unfoldable pub output_phase : Remote → ClientWallet → InputRegState → Result RunError (Unit {0})
  output_phase remote wallet state = do
    current_info ← map_err http (read_reply (send_with_429_retry remote.get_info).1)
    request ← map_err output (output_request x state current_info wallet.inner.external_address)
    resp ← map_err http (posted_reply (send_with_429_retry (remote.post_output request)).1)
    map_err output (on_output_response resp)

  -- `verify_and_sign`, from the transaction that the coordinator shows.
  unfoldable pub signing_phase :
      Remote → ClientWallet → InputRegState → ℕ → Option ℕ → Result RunError (Unit {0})
  signing_phase remote wallet state min_anonymity_set max_fee_sats = do
    tx_resp ← map_err http (read_reply (send_with_429_retry remote.get_tx).1)
    request ← map_err client (verify_and_sign x wallet state min_anonymity_set max_fee_sats tx_resp)
    map_err http (signed_reply (send_with_429_retry (remote.post_sign request)).1)

  -- The three phases of a round; `interval_of` gives the pauses of the polls of each.
  unfoldable pub participate :
      Bytes → Remote → ClientWallet → Bool → ℕ × ℕ → ℕ → Option ℕ → Result RunError (Unit {0})
  unfolding output_phase signing_phase
  participate rng remote wallet is_legacy (first_interval, interval) min_anonymity_set
        max_fee_sats =
      do
        info ← map_err http (
            poll_until_phase (codes "input_reg") first_interval phase_timeout_ms 0
              remote.input_polls)
        state ← map_err client (
            register_input x k wire b rng
              (λ req. to_option (posted_reply (send_with_429_retry (remote.post_input req)).1))
              wallet info is_legacy)
        collecting ←
            map_err http (
              poll_until_phase (codes "output_reg") interval phase_timeout_ms 0 remote.output_polls)
        output_phase remote wallet state
        signs ←
            map_err http
              (poll_until_phase (codes "signing") interval phase_timeout_ms 0 remote.signing_polls)
        signing_phase remote wallet state min_anonymity_set max_fee_sats

  -- The main function of the client, without `--generate-wallet`.
  unfoldable pub run_client :
      Bdk
      → Option (ScriptType → Result DiscoveryError CoordinatorInfo)
      → Bytes
      → Remote
      → ClientConfig
      → Result RunError (Unit {0})
  unfolding build_wallet coordinator_info participate
  run_client bdk discover rng remote cfg = do
    wallet ← build_wallet bdk cfg
    info ← coordinator_info discover cfg wallet
    participate rng remote wallet info.capabilities.is_legacy
        (cfg.poll_interval_ms, cfg.poll_interval_ms) cfg.min_anonymity_set cfg.max_fee_sats

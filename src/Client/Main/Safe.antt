-- ===== src/Client/Main/Safe.antt =====
-- What a client that ends a round has done (client/src/main.rs).
use blindjoin.Prelude.{ℕ, ◌≡◌, Option, ok}
use blindjoin.Prelude.Eq.{Bytes, codes}
use blindjoin.External.{External, Psbt}
use blindjoin.External.Keys.{Keys}
use blindjoin.External.Blind.{Blind}
use blindjoin.Coordinator.Api.{InfoResponse}
use blindjoin.Coordinator.Api.Output.{OutputRegRequest}
use blindjoin.Client.Wallet.{ClientWallet, sign_psbt_input}
use blindjoin.Client.Round.{InputRegState}
use blindjoin.Client.Round.Register.{RoundKey}
use blindjoin.Client.Round.Register.Commitment.{Committed, Redeemable}
use blindjoin.Client.Round.Output.SameKey.{Requested}
use blindjoin.Client.Round.Sign.{fee_cap_of}
use blindjoin.Client.Round.Sign.Protected.{Protected}

-- The client has registered its input in the phase for inputs, under a key that the coordinator announced
-- with its hash; asked for its output while the same key was announced, with a token that buys it; and
-- signed a PSBT that it is protected by.
pub record Participated (x : External) (b : Blind) (wallet : ClientWallet) (floor : ℕ)
    (max_fee_sats : Option ℕ) : Type 0 where
  pub info : InfoResponse
  pub opened : info.round_state ≡ codes "input_reg"
  pub state : InputRegState
  pub key : RoundKey
  pub committed : Committed x b info key
  pub redeemable : Redeemable x key.pk state
  pub paid_to : state.output_script ≡ wallet.inner.external_script
  pub denomination : state.denomination_sats ≡ info.denomination_sats
  pub later_info : InfoResponse
  pub request : OutputRegRequest
  pub requested : Requested x state later_info wallet.inner.external_address request
  pub unchanged : x.sha256 requested.der ≡ key.pk_hash
  pub psbt : Psbt
  pub protected :
      Protected wallet state floor (fee_cap_of max_fee_sats state.denomination_sats) psbt
  pub signed : (after : Psbt) × (sig : Bytes) × (sign_psbt_input x wallet psbt ≡ ok (after, sig))

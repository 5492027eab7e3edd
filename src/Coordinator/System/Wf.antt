-- ===== src/Coordinator/System/Wf.antt =====
-- When the state of a round is well formed (coordinator/src/round/state.rs).
use blindjoin.Prelude.{
  refl, ℕ, ◌≡◌, ◌≤◌, ◌<◌, false, true, some, List, [], ◌∷◌, any, All, length, add64,
}
use blindjoin.Prelude.Eq.{Bytes, ◌==◌, bytes_eq}
use blindjoin.Prelude.Dict.{keys, values, contains_key, KeysDistinct}
use blindjoin.External.{External, Network, OutPoint}
use blindjoin.Coordinator.Config.{CoordinatorConfig, allows}
use blindjoin.Coordinator.Fee.{estimate_fee_share}
use blindjoin.Coordinator.Round.State.{
  Phase, idle, input_reg, output_reg, signing, broadcast, blame, RegisteredInput, RegisteredOutput,
  RsaBlindSigner, RoundStateInner, RoundState, new_idle, phase_beq,
}
use blindjoin.Coordinator.Round.OutPoints.{parse_outpoint}

-- No token stands twice.
abbrev pub NoDup : List Bytes → Type 0
NoDup [] = Unit
NoDup (m ∷ ms) = (any (λ k. k == m) ms ≡ false) × NoDup ms

module _ (x : External) (cfg : CoordinatorConfig) (network : Network) where
  -- A registered input: its text names an outpoint, its change address belongs to the network, its
  -- type is allowed, and its value covers the denomination and the estimate of the fee.
  pub record InputOk (reg : RegisteredInput) : Type 0 where
    pub outpoint : OutPoint
    pub parsed : parse_outpoint x reg.utxo_str ≡ some outpoint
    pub change_script : Bytes
    pub change : x.address_script network reg.change_address ≡ some change_script
    pub allowed : allows cfg.bip reg.script_type ≡ true
    pub estimate : ℕ
    pub estimated :
        estimate_fee_share cfg.bip cfg.coordinator.min_participants
          cfg.coordinator.fee_rate_sat_per_vbyte
        ≡ some estimate
    pub funded : add64 cfg.coordinator.denomination_sats estimate ≤ reg.value_sats

  -- A registered output: the denomination, to an address of the network.
  pub record OutputOk (out : RegisteredOutput) : Type 0 where
    pub denomination : out.amount_sats ≡ cfg.coordinator.denomination_sats
    pub script : Bytes
    pub address : x.address_script network out.address ≡ some script

  -- The parts of a round under way that every phase shares.
  pub record Running (participant_count : ℕ) (inner : RoundStateInner) : Type 0 where
    pub signer : RsaBlindSigner
    pub signs : inner.rsa_signer ≡ some signer
    pub counted : participant_count ≡ length inner.registered_inputs
    pub bounded : length inner.registered_inputs ≤ cfg.coordinator.max_participants
    pub distinct : KeysDistinct inner.registered_inputs
    pub inputs : All InputOk (values inner.registered_inputs)
    pub redeemed : length inner.registered_outputs ≡ length inner.redeemed_tokens
    pub once : NoDup inner.redeemed_tokens
    pub outputs : All OutputOk inner.registered_outputs
    pub sigs_distinct : KeysDistinct inner.partial_sigs
    pub sigs_registered :
        All (λ k. contains_key k inner.registered_inputs ≡ true) (keys inner.partial_sigs)

  -- What the phase adds.
  abbrev pub Stage : Phase → RoundStateInner → Type 0
  Stage input_reg inner =
      (inner.registered_outputs ≡ [])
      × (inner.partial_sigs ≡ [])
      × (length inner.registered_inputs < cfg.coordinator.max_participants)
  Stage output_reg inner =
      (inner.partial_sigs ≡ [])
      × (cfg.coordinator.min_participants ≤ length inner.registered_inputs)
      × (length inner.registered_outputs < length inner.registered_inputs)
  Stage signing inner =
      (cfg.coordinator.min_participants ≤ length inner.registered_inputs)
      × (length inner.registered_outputs ≡ length inner.registered_inputs)
  Stage broadcast inner =
      (cfg.coordinator.min_participants ≤ length inner.registered_inputs)
      × (length inner.registered_outputs ≡ length inner.registered_inputs)
      × (length inner.registered_inputs ≤ length inner.partial_sigs)
  Stage idle inner = ⊥
  Stage blame inner = ⊥

  -- Idle holds nothing of the last round, and Blame is left under the lock under which it is entered.
  pub data Wf : RoundState → Type 0 where
    rests : (fresh : ℕ) → Wf (new_idle fresh)
    runs :
        (s : RoundState) (inner : RoundStateInner)
        → s.inner ≡ some inner
        → Running s.participant_count inner
        → Stage s.phase inner
        → Wf s

  pub running_not_idle :
      (p : Phase) (inner : RoundStateInner) → Stage p inner → phase_beq p idle ≡ false
  running_not_idle idle inner h = absurd h
  running_not_idle input_reg inner h = refl
  running_not_idle output_reg inner h = refl
  running_not_idle signing inner h = refl
  running_not_idle broadcast inner h = refl
  running_not_idle blame inner h = refl

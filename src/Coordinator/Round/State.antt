-- ===== src/Coordinator/Round/State.antt =====
-- coordinator/src/round/state.rs: the phases, the state of a round and its transitions.
pub mod Graph
pub mod Phases
use blindjoin.Prelude.{ℕ, Bool, true, false, Option, none, List, Result, ok, err}
use blindjoin.Prelude.Eq.{Bytes, Text, codes}
use blindjoin.Prelude.Dict.{Dict}
use blindjoin.Shared.Script.{ScriptType}

pub data Phase : Type 0 where
  idle input_reg output_reg signing broadcast blame : Phase

unfoldable pub as_str : Phase → Text
as_str idle = codes "idle"
as_str input_reg = codes "input_reg"
as_str output_reg = codes "output_reg"
as_str signing = codes "signing"
as_str broadcast = codes "broadcast"
as_str blame = codes "blame"

unfoldable pub can_transition_to : Phase → Phase → Bool
can_transition_to idle input_reg = true
can_transition_to input_reg output_reg = true
can_transition_to input_reg idle = true
can_transition_to output_reg signing = true
can_transition_to output_reg blame = true
can_transition_to signing broadcast = true
can_transition_to signing blame = true
can_transition_to broadcast idle = true
can_transition_to broadcast blame = true
can_transition_to blame idle = true
can_transition_to _ _ = false

-- `==` of Phase
abbrev pub phase_beq : Phase → Phase → Bool
phase_beq idle idle = true
phase_beq input_reg input_reg = true
phase_beq output_reg output_reg = true
phase_beq signing signing = true
phase_beq broadcast broadcast = true
phase_beq blame blame = true
phase_beq _ _ = false

pub record RegisteredInput : Type 0 where
  pub utxo_str : Text
  pub change_address : Text
  pub script_pubkey : Bytes
  pub value_sats : ℕ  -- u64
  pub script_type : ScriptType

pub record RegisteredOutput : Type 0 where
  pub address : Text
  pub amount_sats : ℕ  -- u64

-- coordinator/src/blind/rsa.rs
pub record RsaBlindSigner : Type 0 where
  pub public_key : Bytes
  pub secret_key : Bytes

pub record RoundStateInner : Type 0 where
  pub rsa_signing_key : Bytes
  pub rsa_signer : Option RsaBlindSigner
  pub round_secret : Bytes
  pub registered_inputs : Dict Text RegisteredInput
  pub redeemed_tokens : List Bytes
  pub registered_outputs : List RegisteredOutput
  pub partial_sigs : Dict Text Bytes

pub record RoundState : Type 0 where
  pub phase : Phase
  pub round_id : ℕ
  pub rsa_pubkey_hash : Option Bytes
  pub rsa_pubkey_der : Option Bytes
  pub participant_count : ℕ  -- u32
  pub inner : Option RoundStateInner

pub data TransitionError : Type 0 where
  invalid_transition : Phase → Phase → TransitionError

-- `fresh` is the identifier that `Uuid::new_v4` draws.
unfoldable pub new_idle : ℕ → RoundState
new_idle fresh = record {
  phase = idle;
  round_id = fresh;
  rsa_pubkey_hash = none;
  rsa_pubkey_der = none;
  participant_count = 0;
  inner = none;
}

-- What a transition to Idle resets.
abbrev pub reset_if_idle : ℕ → RoundState → Phase → RoundState
reset_if_idle fresh s idle = record s {
  inner = none;
  rsa_pubkey_hash = none;
  rsa_pubkey_der = none;
  participant_count = 0;
  round_id = fresh;
}
reset_if_idle fresh s _ = s

abbrev pub move_to : ℕ → RoundState → Phase → Bool → Result TransitionError RoundState
move_to fresh s next true = ok (record (reset_if_idle fresh s next) { phase = next })
move_to fresh s next false = err (invalid_transition s.phase next)

unfoldable pub transition_to : ℕ → RoundState → Phase → Result TransitionError RoundState
unfolding can_transition_to
transition_to fresh s next = move_to fresh s next (can_transition_to s.phase next)

-- `let _ = state.transition_to(next)`: an error is dropped and the state stays.
unfoldable pub attempt : ℕ → RoundState → Phase → RoundState
unfolding transition_to
attempt fresh s next = elim (transition_to fresh s next) [ ok t ↦ t | err e ↦ s ]

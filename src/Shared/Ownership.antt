-- ===== src/Shared/Ownership.antt =====
-- shared/src/protocol.rs: the ownership proof on the wire.
pub mod RoundTrip
use blindjoin.Prelude.{ℕ, ◌&&◌, Bool, true, false, Option, none, some, List, [], ◌∷◌, map}
use blindjoin.Prelude.Eq.{Bytes, Text, ◌==◌, nat_eq}
use blindjoin.External.{External}
use blindjoin.Shared.Script.{ScriptType}

pub record OwnershipProof : Type 0 where
  pub version : ℕ  -- u8
  pub witness_stack : List Bytes
  pub psbt_input_b64 : Option Text
  pub script_type : Option ScriptType

-- What `serde_json` reads: an array of strings, or the flat record.
pub record WireJson : Type 0 where
  pub strings : Text → Option (List Text)
  pub proof : Text → Option OwnershipProof

-- What `serde_json` writes for them.
pub record WireText : Type 0 where
  pub strings_text : List Text → Text
  pub proof_text : OwnershipProof → Text

abbrev pub absent {ℓ} : {A : Type ℓ} → Option A → Bool
absent none = true
absent (some a) = false

-- A proof of version 1 without the later fields.
unfoldable pub old_shape : OwnershipProof → Bool
old_shape p = (p.version == 1) && (absent p.psbt_input_b64 && absent p.script_type)

module _ (x : External) where
  unfoldable pub decode_all : List Text → Option (List Bytes)
  decode_all [] = some []
  decode_all (h ∷ hs) = elim (x.hex_decode h) [
    | none ↦ none
    | some bytes ↦ elim (decode_all hs) [ none ↦ none | some rest ↦ some (bytes ∷ rest) ]
  ]

  -- `none` is an error; its text is left out.
  unfoldable pub from_json_hex_str : WireJson → Text → Option OwnershipProof
  unfolding decode_all
  from_json_hex_str json s = elim (json.strings s) [
    | none ↦ json.proof s
    | some items ↦ elim (decode_all items) [
      | none ↦ none
      | some stack ↦
          some (record {
            version = 1;
            witness_stack = stack;
            psbt_input_b64 = none;
            script_type = none;
          })
    ]
  ]

  unfoldable pub to_json_hex_str : WireText → OwnershipProof → Text
  to_json_hex_str text p = elim (old_shape p) [
    | true ↦ text.strings_text (map x.hex_encode p.witness_stack)
    | false ↦ text.proof_text p
  ]

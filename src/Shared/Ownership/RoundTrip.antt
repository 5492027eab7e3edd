-- ===== src/Shared/Ownership/RoundTrip.antt =====
-- A proof is read as it was written (shared/src/protocol.rs).
use blindjoin.Prelude.{
  ◌≡◌, true, false, none, some, List, [], ◌∷◌, map, refl, sym, subst, arith, ==_iff, Bool-cases,
  inl, inr,
}
use blindjoin.Prelude.Eq.{Bytes, Text, nat_eq}
use blindjoin.External.{External}
use blindjoin.Shared.Ownership.{
  OwnershipProof, WireJson, WireText, old_shape, decode_all, from_json_hex_str, to_json_hex_str,
}

-- `serde_json` reads what it wrote: an array of strings, and the record, which is no array.
pub record JsonText (json : WireJson) (text : WireText) : Type 0 where
  pub strings : (ts : List Text) → json.strings (text.strings_text ts) ≡ some ts
  pub no_array : (p : OwnershipProof) → json.strings (text.proof_text p) ≡ none
  pub proof : (p : OwnershipProof) → json.proof (text.proof_text p) ≡ some p

-- `hex` reads what it wrote.
pub record HexText (x : External) : Type 0 where
  pub read : (b : Bytes) → x.hex_decode (x.hex_encode b) ≡ some b

decode_all-encode :
    (x : External)
    → HexText x
    → (stack : List Bytes) → decode_all x (map x.hex_encode stack) ≡ some stack
unfolding decode_all
decode_all-encode x hex [] = refl
decode_all-encode x hex (b ∷ bs) = rw (hex.read b, decode_all-encode x hex bs) refl

abbrev old_proof : List Bytes → OwnershipProof
old_proof stack = record {
  version = 1;
  witness_stack = stack;
  psbt_input_b64 = none;
  script_type = none;
}

old_shape-eq : (p : OwnershipProof) → old_shape p ≡ true → p ≡ old_proof p.witness_stack
unfolding old_shape
old_shape-eq p h =
    let v : p.version ≡ 1 = ground (arith, h, ==_iff p.version 1) in
    let b : p.psbt_input_b64 ≡ none = ground (arith, h) in
    let s : p.script_type ≡ none = ground (arith, h) in cc (v, b, s)

short_text :
    (x : External) (text : WireText) (p : OwnershipProof)
    → old_shape p ≡ true
    → to_json_hex_str x text p ≡ text.strings_text (map x.hex_encode p.witness_stack)
unfolding to_json_hex_str
short_text x text p h = rw (to_json_hex_str, h) refl

long_text :
    (x : External) (text : WireText) (p : OwnershipProof)
    → old_shape p ≡ false
    → to_json_hex_str x text p ≡ text.proof_text p
unfolding to_json_hex_str
long_text x text p h = rw (to_json_hex_str, h) refl

-- Every proof, of whichever version and with whichever fields, is read from the text that it is written as.
pub from_json-to_json :
    (x : External) (json : WireJson) (text : WireText)
    → HexText x
    → JsonText json text
    → (p : OwnershipProof) → from_json_hex_str x json (to_json_hex_str x text p) ≡ some p
unfolding from_json_hex_str
from_json-to_json x json text hex laws p =
    let reads : Text → Type 0 = λ s. from_json_hex_str x json s ≡ some p in
    elim (Bool-cases (old_shape p)) [
      | inl short ↦
          let read = decode_all-encode x hex p.witness_stack in
          let items = laws.strings (map x.hex_encode p.witness_stack) in
          subst reads (sym (short_text x text p short))
            (rw (from_json_hex_str, items, read) (cc (old_shape-eq p short)))
      | inr long ↦
          subst reads (sym (long_text x text p long))
            (rw (from_json_hex_str, laws.no_array p, laws.proof p) refl)
    ]

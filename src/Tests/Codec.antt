-- ===== src/Tests/Codec.antt =====
-- An encoding of lists of texts, as a stand-in for those of other crates.
use blindjoin.Prelude.{ℕ, zero, suc, ◌≡◌, refl, Option, none, some, List, [], ◌∷◌, ◌++◌}
use blindjoin.Prelude.Eq.{Bytes, Text}
use blindjoin.External.{External, Witness, Psbt, PsbtInput, PsbtText, PsbtCreation}
use blindjoin.Shared.Script.{ScriptType, p2wpkh, p2tr, p2sh_p2wpkh}
use blindjoin.Shared.Ownership.{OwnershipProof, WireJson, WireText}
use blindjoin.Shared.Ownership.RoundTrip.{JsonText}
use blindjoin.Client.Round.Input.Envelope.{envelope}
use blindjoin.Tests.Sample.{sample}

-- Every byte one higher, and a zero after each text.
abbrev pub shifted : Text → Text
shifted [] = 0 ∷ []
shifted (c ∷ cs) = suc c ∷ shifted cs

abbrev pub join : List Text → Text
join [] = []
join (t ∷ ts) = shifted t ++ join ts

abbrev pub push : ℕ → List Text → List Text
push c [] = []
push c (t ∷ ts) = (c ∷ t) ∷ ts

unfoldable pub cut : Text → List Text
cut [] = []
cut (zero ∷ cs) = [] ∷ cut cs
cut (suc c ∷ cs) = push c (cut cs)

cut-shifted : (t r : Text) → cut (shifted t ++ r) ≡ t ∷ cut r
unfolding cut
cut-shifted [] r = refl
cut-shifted (c ∷ cs) r = rw (cut-shifted cs r) refl

pub cut-join : (ts : List Text) → cut (join ts) ≡ ts
unfolding cut
cut-join [] = refl
cut-join (t ∷ ts) = rw (cut-shifted t (join ts), cut-join ts) refl

abbrev pub optional : Option Text → Text
optional none = []
optional (some t) = 0 ∷ t

abbrev pub of_optional : Text → Option Text
of_optional [] = none
of_optional (c ∷ t) = some t

-- The envelope of a proof, by its witness and script.
abbrev pub envelope_items : PsbtInput → List Text
envelope_items p =
    optional p.final_script_sig ∷ elim p.final_script_witness [ none ↦ [] | some w ↦ w ]

abbrev pub psbt_items : Psbt → List Text
psbt_items p = elim p.inputs [ [] ↦ [] | i ∷ is ↦ envelope_items i ]

abbrev pub envelope_of : List Text → Option Psbt
envelope_of [] = none
envelope_of (sig ∷ witness) = some (envelope witness (of_optional sig))

abbrev pub wired : External
wired = record sample {
  serialize_psbt = λ p. join (psbt_items p);
  deserialize_psbt = λ b. envelope_of (cut b);
}

pub wired_creation : PsbtCreation wired
wired_creation = record { created = λ tx u. refl }

pub wired_text : (witness : Witness) (sig : Option Bytes) → PsbtText wired (envelope witness sig)
wired_text witness none = record { base64 = λ b. refl; psbt = rw (cut-join ([] ∷ witness)) refl }
wired_text witness (some sig) = record {
  base64 = λ b. refl;
  psbt = rw (cut-join ((0 ∷ sig) ∷ witness)) refl;
}

abbrev pub type_code : Option ScriptType → Text
type_code none = []
type_code (some p2wpkh) = 0 ∷ []
type_code (some p2tr) = 1 ∷ []
type_code (some p2sh_p2wpkh) = 2 ∷ []

abbrev pub of_type_code : Text → Option ScriptType
of_type_code [] = none
of_type_code (zero ∷ cs) = some p2wpkh
of_type_code (suc zero ∷ cs) = some p2tr
of_type_code (suc (suc c) ∷ cs) = some p2sh_p2wpkh

type_code-of : (st : Option ScriptType) → of_type_code (type_code st) ≡ st
type_code-of none = refl
type_code-of (some p2wpkh) = refl
type_code-of (some p2tr) = refl
type_code-of (some p2sh_p2wpkh) = refl

abbrev pub proof_items : OwnershipProof → List Text
proof_items p =
    (p.version ∷ []) ∷ optional p.psbt_input_b64 ∷ type_code p.script_type ∷ p.witness_stack

abbrev pub of_items : List Text → Option OwnershipProof
of_items ((v ∷ []) ∷ b ∷ st ∷ stack) = some (record {
  version = v;
  witness_stack = stack;
  psbt_input_b64 = of_optional b;
  script_type = of_type_code st;
})
of_items _ = none

-- An array begins with a zero, and a record with a one.
abbrev pub read_array : Text → Option (List Text)
read_array (zero ∷ cs) = some (cut cs)
read_array _ = none

abbrev pub read_record : Text → Option OwnershipProof
read_record (suc c ∷ cs) = of_items (cut cs)
read_record _ = none

abbrev pub wired_json : WireJson
wired_json = record { strings = read_array; proof = read_record }

abbrev pub wired_wire : WireText
wired_wire = record { strings_text = λ ts. 0 ∷ join ts; proof_text = λ p. 1 ∷ join (proof_items p) }

optional-of : (o : Option Text) → of_optional (optional o) ≡ o
optional-of none = refl
optional-of (some t) = refl

pub wired_laws : JsonText wired_json wired_wire
wired_laws = record {
  strings = λ ts. rw (cut-join ts) refl;
  no_array = λ p. refl;
  proof = λ p.
      rw (cut-join (proof_items p), optional-of p.psbt_input_b64, type_code-of p.script_type) refl;
}

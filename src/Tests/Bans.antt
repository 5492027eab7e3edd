-- ===== src/Tests/Bans.antt =====
-- A stand-in for the JSON of a ban record, and runs of the ban file.
use blindjoin.Prelude.{◌+◌, ◌-◌, ◌≡◌, refl, Option, some, none, [], ◌∷◌, ◌++◌, arith, split_last}
use blindjoin.Prelude.Eq.{Text, codes, nat_eq}
use blindjoin.Coordinator.Round.Blame.{
  BanRecord, BanFile, Json, load_unexpired_entries, compact_ban_file, trim_start, trim_end,
}
use blindjoin.Coordinator.Round.Blame.File.{JsonLaws, load-compact}

-- A brace, the two times above the blanks, the hash and a brace.
abbrev pub framed : BanRecord → Text
framed r = 123 ∷ (100 + r.banned_at) ∷ (100 + r.expires_at) ∷ (r.utxo_hash ++ 125 ∷ [])

abbrev unframed : Text → Option BanRecord
unframed [] = none
unframed (c ∷ []) = none
unframed (c ∷ b ∷ []) = none
unframed (c ∷ b ∷ e ∷ rest) = elim (split_last rest) [
  | none ↦ none
  | some (hash, brace) ↦
      some (record { utxo_hash = hash; banned_at = b - 100; expires_at = e - 100 })
]

abbrev pub framed_json : Json
framed_json = record { to_string = framed; from_str = unframed }

split_last-brace : (h : Text) → split_last (h ++ 125 ∷ []) ≡ some (h, 125)
split_last-brace [] = refl
split_last-brace (c ∷ cs) = rw (split_last-brace cs)

trim_end-brace : (h : Text) → trim_end (h ++ 125 ∷ []) ≡ h ++ 125 ∷ []
unfolding trim_end
trim_end-brace [] = refl
trim_end-brace (c ∷ []) = refl
trim_end-brace (c ∷ d ∷ cs) = rw (trim_end-brace (d ∷ cs))

framed-read : (r : BanRecord) → unframed (framed r) ≡ some r
framed-read r =
    let b : (100 + r.banned_at) - 100 ≡ r.banned_at = omega arith in
    let e : (100 + r.expires_at) - 100 ≡ r.expires_at = omega arith in
    rw (unframed, split_last-brace r.utxo_hash, b, e)

framed-trimmed : (r : BanRecord) → trim_end (trim_start (framed r)) ≡ framed r
unfolding trim_start
framed-trimmed r = trim_end-brace (123 ∷ (100 + r.banned_at) ∷ (100 + r.expires_at) ∷ r.utxo_hash)

pub framed_laws : JsonLaws framed_json
framed_laws = record { read = framed-read; trimmed = framed-trimmed; written = λ r e. cc }

-- A blank line, a record that expires at 200, and one that is no record.
abbrev old_file : BanFile
old_file =
    []
    ∷ framed (record { utxo_hash = codes "ab"; banned_at = 100; expires_at = 200 })
    ∷ codes "?"
    ∷ []

load-compact_example :
    load_unexpired_entries framed_json 160 (compact_ban_file framed_json 150 old_file)
    ≡ load_unexpired_entries framed_json 160 old_file
load-compact_example = load-compact framed_json framed_laws 150 160 old_file (omega arith)

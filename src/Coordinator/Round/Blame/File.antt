-- ===== src/Coordinator/Round/Blame/File.antt =====
-- The ban file (coordinator/src/round/blame.rs): what is written can be read, and compaction drops
-- only what has expired.
use mathlib.Core.List.{append_assoc, append-nil, map-append}
use blindjoin.Prelude.{
  ℕ, ◌≤◌, ◌≡◌, ◌≢◌, refl, sym, ◌∙◌, true, Option, none, some, [], ◌∷◌, ◌++◌, map, arith, ltb,
  if◌then◌else◌,
}
use blindjoin.Prelude.Eq.{Text}
use blindjoin.External.{External}
use blindjoin.Coordinator.Round.Blame.{
  BanEntry, BanRecord, BanFile, Json, hash_utxo_str, trim_start, trim_end, append_ban_entry,
  parse_line, keep_unexpired, load_line, load_unexpired_entries, entry_line, compact_ban_file,
}

-- A record is written as a line with no blanks at its ends, and read back.
pub record JsonLaws (json : Json) : Type 0 where
  pub read : (r : BanRecord) → json.from_str (json.to_string r) ≡ some r
  pub trimmed : (r : BanRecord) → trim_end (trim_start (json.to_string r)) ≡ json.to_string r
  pub written : (r : BanRecord) → json.to_string r ≢ []

module _ (json : Json) where
  load-append :
      (now : ℕ) (f g : BanFile)
      → load_unexpired_entries json now (f ++ g)
        ≡ load_unexpired_entries json now f ++ load_unexpired_entries json now g
  unfolding load_unexpired_entries
  load-append now [] g = refl
  load-append now (l ∷ f) g = rw (load-append now f g) (
      sym (
        append_assoc (load_line json now l) (load_unexpired_entries json now f)
          (load_unexpired_entries json now g)))

module _ (json : Json) (laws : JsonLaws json) where
  parse_line-written :
      (t : Text) {r : BanRecord} → json.from_str t ≡ some r → t ≢ [] → parse_line json t ≡ some r
  unfolding parse_line
  parse_line-written [] h ne = absurd (ne refl)
  parse_line-written (c ∷ cs) h ne = h

  load_line-entry :
      (now : ℕ) (hash : Text) (e : BanEntry)
      → load_line json now (entry_line json (hash, e))
        ≡ (if ltb now e.expires_at then (hash, e) ∷ [] else [])
  unfolding load_line keep_unexpired
  load_line-entry now hash e =
      let r : BanRecord = record {
        utxo_hash = hash;
        banned_at = e.banned_at;
        expires_at = e.expires_at;
      } in
      rw (laws.trimmed r, parse_line-written (json.to_string r) (laws.read r) (laws.written r))

  load-keep_unexpired :
      (now later : ℕ) (o : Option BanRecord)
      → now ≤ later
      → load_unexpired_entries json later (map (entry_line json) (keep_unexpired now o))
        ≡ keep_unexpired later o
  unfolding load_unexpired_entries keep_unexpired
  load-keep_unexpired now later none h = refl
  load-keep_unexpired now later (some r) h = ground (
    arith,
    load_line-entry later r.utxo_hash
        (record { banned_at = r.banned_at; expires_at = r.expires_at }),
  )

  -- Compaction at one time changes nothing that a later start would load.
  pub load-compact :
      (now later : ℕ) (file : BanFile)
      → now ≤ later
      → load_unexpired_entries json later (compact_ban_file json now file)
        ≡ load_unexpired_entries json later file
  unfolding compact_ban_file load_unexpired_entries load_line
  load-compact now later [] h = refl
  load-compact now later (line ∷ file) h =
      rw
        (map-append (entry_line json) (load_line json now line)
          (load_unexpired_entries json now file))
        (load-append json later (map (entry_line json) (load_line json now line)) _
          ∙ cc (
            load-keep_unexpired now later (parse_line json (trim_end (trim_start line))) h,
            load-compact now later file h,
          ))

  -- A ban that is appended is loaded behind those before it, until it expires.
  pub load-append_ban_entry :
      (x : External) (file : BanFile) (utxo_str : Text) (e : BanEntry) (now : ℕ) {file' : BanFile}
      → append_ban_entry x json true file utxo_str e ≡ some file'
      → load_unexpired_entries json now file'
        ≡ load_unexpired_entries json now file
          ++ (if ltb now e.expires_at then (hash_utxo_str x utxo_str, e) ∷ [] else [])
  unfolding append_ban_entry load_unexpired_entries
  load-append_ban_entry x file utxo_str e now h =
      let loaded = load_line-entry now (hash_utxo_str x utxo_str) e in
      ground (
        arith,
        load-append json now file (entry_line json (hash_utxo_str x utxo_str, e) ∷ []),
        loaded,
        append-nil (load_line json now (entry_line json (hash_utxo_str x utxo_str, e))),
      )

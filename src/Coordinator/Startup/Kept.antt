-- ===== src/Coordinator/Startup/Kept.antt =====
-- No ban is lost when the coordinator starts again (coordinator/src/round/blame.rs,
-- coordinator/src/run.rs).
use blindjoin.Prelude.{
  ℕ, ◌≤◌, ◌<◌, ◌≡◌, Bool, true, false, Option, none, some, List, [], ◌∷◌, ◌++◌, refl, arith, ltb,
  if◌then◌else◌, add64,
}
use blindjoin.Prelude.Eq.{Text, bytes_eq}
use blindjoin.Prelude.Dict.{get, insert, get-insert}
use blindjoin.External.{External}
use blindjoin.Coordinator.Round.Blame.{
  BanEntry, BanRecord, BanList, BanFile, Json, hash_utxo_str, ban, load_entry, load_all,
  append_ban_entry, parse_line, keep_unexpired, load_line, load_unexpired_entries, trim_start,
  trim_end, entry_line, ban_all,
}
use blindjoin.Coordinator.Round.Blame.File.{JsonLaws, load-compact, load-append_ban_entry}
use blindjoin.Coordinator.Startup.{load_bans, compacted}

-- A start from the file at any time from `since` on loads every ban of the list that has not expired then.
unfoldable pub Kept : Json → ℕ → BanList → BanFile → Type 0
Kept json since bl file =
    (hash : Text) (e : BanEntry)
    → get hash bl ≡ some e
    → (now : ℕ) → since ≤ now
    → now < e.expires_at
    → get hash (load_bans json now (some file)) ≡ some e

load_all-append :
    (bl : BanList) (es fs : List (Text × BanEntry))
    → load_all bl (es ++ fs) ≡ load_all (load_all bl es) fs
unfolding load_all
load_all-append bl [] fs = refl
load_all-append bl ((h, e) ∷ es) fs = load_all-append (load_entry bl h e) es fs

-- For one hash, what a later start loads over `later` is what the earlier start loads over `earlier`, until
-- it expires.
Agrees : Text → ℕ → BanList → BanList → Type 0
Agrees hash now earlier later =
    (e : BanEntry) → get hash earlier ≡ some e → now < e.expires_at → get hash later ≡ some e

module _ (hash : Text) (since now : ℕ) where
  unexpired-Agrees :
      (o : Option BanRecord) (earlier later : BanList)
      → since ≤ now
      → Agrees hash now earlier later
      → Agrees hash now
          (load_all earlier (keep_unexpired since o))
          (load_all later (keep_unexpired now o))
  unfolding Agrees load_all load_entry keep_unexpired
  unexpired-Agrees none earlier later le agree = agree
  unexpired-Agrees (some r) earlier later le agree =
      let entry : BanEntry = record { banned_at = r.banned_at; expires_at = r.expires_at } in
      λ e h unexpired. ground (
        arith,
        get-insert r.utxo_hash hash entry earlier,
        get-insert r.utxo_hash hash entry later,
        agree e,
        h,
        unexpired,
        le,
      )

  loaded-Agrees :
      (json : Json) (file : BanFile) (earlier later : BanList)
      → since ≤ now
      → Agrees hash now earlier later
      → Agrees hash now
          (load_all earlier (load_unexpired_entries json since file))
          (load_all later (load_unexpired_entries json now file))
  unfolding load_unexpired_entries load_line load_all
  loaded-Agrees json [] earlier later le agree = agree
  loaded-Agrees json (line ∷ file) earlier later le agree =
      let o = parse_line json (trim_end (trim_start line)) in
      rw
        (
          load_all-append earlier (keep_unexpired since o) (load_unexpired_entries json since file),
          load_all-append later (keep_unexpired now o) (load_unexpired_entries json now file),
        )
        (loaded-Agrees json file (load_all earlier (keep_unexpired since o))
          (load_all later (keep_unexpired now o)) le (unexpired-Agrees o earlier later le agree))

none-Agrees : (hash : Text) (now : ℕ) (later : BanList) → Agrees hash now [] later
unfolding Agrees get
none-Agrees hash now later e h = absurd (cc h)

compacted-loads :
    (json : Json) (laws : JsonLaws json) (since now : ℕ) (done : Bool) (file : BanFile)
    → since ≤ now
    → load_bans json now (some (compacted json since done (some file)))
      ≡ load_bans json now (some file)
unfolding compacted load_bans
compacted-loads json laws since now true file le =
    rw (load-compact json laws since now file le) refl
compacted-loads json laws since now false file le = refl

-- What a start loads is kept by the file that it leaves, compacted or not.
pub load_bans-Kept :
    (json : Json) (laws : JsonLaws json) (since : ℕ) (done : Bool) (file : Option BanFile)
    → Kept json since (load_bans json since file) (compacted json since done file)
unfolding Kept load_bans Agrees get
load_bans-Kept json laws since done none hash e h now le unexpired = absurd (cc h)
load_bans-Kept json laws since done (some file) hash e h now le unexpired =
    rw (compacted-loads json laws since now done file le)
      (loaded-Agrees hash since now json file [] [] le (none-Agrees hash now []) e h unexpired)

-- An entry that is put into the list and read from the end of the file.
added :
    (key hash : Text) (entry : BanEntry) (bl loaded : BanList) (now : ℕ) {e : BanEntry}
    → get hash (insert key entry bl) ≡ some e
    → ((e' : BanEntry) → get hash bl ≡ some e' → now < e'.expires_at → get hash loaded ≡ some e')
    → now < e.expires_at
    → get hash (load_all loaded (if ltb now entry.expires_at then (key, entry) ∷ [] else []))
      ≡ some e
unfolding load_all load_entry
added key hash entry bl loaded now {e} h kept unexpired =
    ground
      (arith, get-insert key hash entry bl, get-insert key hash entry loaded, kept e, h, unexpired)

module _ (x : External) (json : Json) (laws : JsonLaws json) where
  appended-Kept :
      (since at_time duration : ℕ) (utxo_str : Text) (bl : BanList) (file : BanFile)
      {file' : BanFile}
      → append_ban_entry x json true file utxo_str
          (record { banned_at = at_time; expires_at = add64 at_time duration })
        ≡ some file'
      → Kept json since bl file
      → Kept json since (ban x bl utxo_str at_time duration) file'
  unfolding Kept ban load_bans
  appended-Kept since at_time duration utxo_str bl file {file'} written kept hash e h now le
        unexpired =
      let entry : BanEntry = record { banned_at = at_time; expires_at = add64 at_time duration } in
      rw
        (
          load-append_ban_entry json laws x file utxo_str entry now written,
          load_all-append [] (load_unexpired_entries json now file)
              (if ltb now entry.expires_at then (hash_utxo_str x utxo_str, entry) ∷ [] else []),
        )
        (added (hash_utxo_str x utxo_str) hash entry bl
          (load_all [] (load_unexpired_entries json now file)) now h
          (λ e' h' later. kept hash e' h' now le later) unexpired)

  pub ban_all-Kept :
      (since at_time duration : ℕ) (writable : Text → Bool) (utxos : List Text) (bl : BanList)
      (file : BanFile)
      → ((u : Text) → writable u ≡ true)
      → Kept json since bl file
      → let (bl', file') = ban_all x json writable at_time duration utxos bl file in
        Kept json since bl' file'
  unfolding ban_all append_ban_entry
  ban_all-Kept since at_time duration writable [] bl file can kept = kept
  ban_all-Kept since at_time duration writable (u ∷ us) bl file can kept =
      let entry : BanEntry = record { banned_at = at_time; expires_at = add64 at_time duration } in
      let file' = file ++ entry_line json (hash_utxo_str x u, entry) ∷ [] in
      rw (ban_all, can u)
        (ban_all-Kept since at_time duration writable us (ban x bl u at_time duration) file' can
          (appended-Kept since at_time duration u bl file refl kept))

-- ===== src/Coordinator/Round/Blame.antt =====
-- coordinator/src/round/blame.rs: the ban list, its file, and the end of the signing time.
pub mod Bans
pub mod File
use blindjoin.Prelude.{
  ℕ, Bool, false, not, ◌&&◌, ◌||◌, Option, none, some, List, [], ◌∷◌, ◌++◌, map, ltb, leb,
  if◌then◌else◌, keep_if, add64,
}
use blindjoin.Prelude.Eq.{Text, Bytes, bytes_eq, nat_eq, ◌==◌}
use blindjoin.Prelude.Dict.{Dict, keys, get, contains_key, insert}
use blindjoin.External.{External}
use blindjoin.Coordinator.Round.State.{
  idle, blame, RegisteredInput, RoundStateInner, RoundState, attempt,
}

pub record BanEntry : Type 0 where
  pub banned_at : ℕ  -- u64
  pub expires_at : ℕ  -- u64

abbrev pub BanList : Type 0
BanList = Dict Text BanEntry

pub record BanRecord : Type 0 where
  pub utxo_hash : Text
  pub banned_at : ℕ  -- u64
  pub expires_at : ℕ  -- u64

-- `serde_json` for a record. A record is written as one line with no blanks at its ends.
pub record Json : Type 0 where
  pub to_string : BanRecord → Text
  pub from_str : Text → Option BanRecord

module _ (x : External) where
  unfoldable pub hash_utxo_str : Text → Text
  hash_utxo_str utxo_str = x.hex_encode (x.sha256 utxo_str)

  unfoldable pub ban : BanList → Text → ℕ → ℕ → BanList
  unfolding hash_utxo_str
  ban bl utxo_str now_secs ban_duration =
      insert (hash_utxo_str utxo_str)
        (record { banned_at = now_secs; expires_at = add64 now_secs ban_duration }) bl

  unfoldable pub is_banned : BanList → Text → ℕ → Bool
  unfolding hash_utxo_str
  is_banned bl utxo_str now_secs = elim (get (hash_utxo_str utxo_str) bl) [
    | none ↦ false
    | some entry ↦ ltb now_secs entry.expires_at
  ]

unfoldable pub load_entry : BanList → Text → BanEntry → BanList
load_entry bl utxo_hash entry = insert utxo_hash entry bl

unfoldable pub detect_non_signers : Dict Text RegisteredInput → Dict Text Bytes → List Text
detect_non_signers registered_inputs partial_sigs =
    keep_if (λ utxo_str. not (contains_key utxo_str partial_sigs)) (keys registered_inputs)

unfoldable pub has_missing_outputs : ℕ → ℕ → Bool
has_missing_outputs input_count output_count = ltb output_count input_count

-- ASCII white space at the ends of a line
abbrev pub is_blank : ℕ → Bool
is_blank c = (c == 32) || (leb 9 c && leb c 13)

unfoldable pub trim_start : Text → Text
trim_start [] = []
trim_start (c ∷ cs) = let rest = trim_start cs in if is_blank c then rest else c ∷ cs

unfoldable pub trim_end : Text → Text
trim_end [] = []
trim_end (c ∷ cs) = elim (trim_end cs) [
  | [] ↦ if is_blank c then [] else c ∷ []
  | d ∷ ds ↦ c ∷ d ∷ ds
]

-- The ban file as its lines.
abbrev pub BanFile : Type 0
BanFile = List Text

module _ (x : External) (json : Json) where
  -- `writable` says whether the file could be opened and written; `none` is the error.
  unfoldable pub append_ban_entry : Bool → BanFile → Text → BanEntry → Option BanFile
  unfolding hash_utxo_str
  append_ban_entry writable file utxo_str entry =
      let rec : BanRecord = record {
        utxo_hash = hash_utxo_str x utxo_str;
        banned_at = entry.banned_at;
        expires_at = entry.expires_at;
      } in
      if writable then some (file ++ json.to_string rec ∷ []) else none

-- An expired record is skipped.
unfoldable pub keep_unexpired : ℕ → Option BanRecord → List (Text × BanEntry)
keep_unexpired now_secs none = []
keep_unexpired now_secs (some rec) =
    if ltb now_secs rec.expires_at
    then (rec.utxo_hash, record { banned_at = rec.banned_at; expires_at = rec.expires_at }) ∷ []
    else []

module _ (json : Json) where
  -- A line that is blank, or is no record, is skipped.
  unfoldable pub parse_line : Text → Option BanRecord
  parse_line [] = none
  parse_line (c ∷ cs) = json.from_str (c ∷ cs)

  -- One round of the loop of `load_unexpired_entries`.
  unfoldable pub load_line : ℕ → Text → List (Text × BanEntry)
  load_line now_secs line = keep_unexpired now_secs (parse_line (trim_end (trim_start line)))

  unfoldable pub load_unexpired_entries : ℕ → BanFile → List (Text × BanEntry)
  load_unexpired_entries now_secs [] = []
  load_unexpired_entries now_secs (line ∷ file) =
      load_line now_secs line ++ load_unexpired_entries now_secs file

  abbrev pub entry_line : Text × BanEntry → Text
  entry_line (utxo_hash, entry) =
      json.to_string (record {
        utxo_hash = utxo_hash;
        banned_at = entry.banned_at;
        expires_at = entry.expires_at;
      })

  -- The file that replaces the old one, where no step of the rewriting fails.
  unfoldable pub compact_ban_file : ℕ → BanFile → BanFile
  unfolding load_unexpired_entries
  compact_ban_file now_secs file = map entry_line (load_unexpired_entries now_secs file)

-- The entries of the file, loaded in order at startup.
unfoldable pub load_all : BanList → List (Text × BanEntry) → BanList
unfolding load_entry
load_all bl [] = bl
load_all bl ((utxo_hash, entry) ∷ rest) = load_all (load_entry bl utxo_hash entry) rest

abbrev pub consecutive_blame_cap : ℕ
consecutive_blame_cap = 2

pub data BlameOutcome : Type 0 where
  full_abort : BlameOutcome
  restart_without : List Text → BlameOutcome

-- A round with the bans that its end leaves.
pub record Blamed : Type 0 where
  pub state : RoundState
  pub ban_list : BanList
  pub ban_file : BanFile

abbrev pub non_signers_of : Option RoundStateInner → List Text
non_signers_of none = []
non_signers_of (some inner) = detect_non_signers inner.registered_inputs inner.partial_sigs

abbrev pub timeout_outcome : ℕ → List Text → BlameOutcome
timeout_outcome blame_round_count non_signers =
    if leb consecutive_blame_cap blame_round_count
    then full_abort
    else elim non_signers [ [] ↦ full_abort | u ∷ us ↦ restart_without (u ∷ us) ]

module _ (x : External) (json : Json) where
  -- The loop over the participants to ban. A write that fails is only warned of.
  unfoldable pub ban_all : (Text → Bool) → ℕ → ℕ → List Text → BanList → BanFile → BanList × BanFile
  unfolding append_ban_entry
  ban_all writable now duration [] bl file = (bl, file)
  ban_all writable now duration (utxo_str ∷ rest) bl file =
      let entry : BanEntry = record { banned_at = now; expires_at = add64 now duration } in
      let file' : BanFile = elim (append_ban_entry x json (writable utxo_str) file utxo_str entry) [
        | none ↦ file
        | some written ↦ written
      ] in
      ban_all writable now duration rest (ban x bl utxo_str now duration) file'

  unfoldable pub on_signing_timeout :
      (Text → Bool) → ℕ → ℕ → RoundState → BanList → BanFile → ℕ → ℕ → Blamed × BlameOutcome
  unfolding detect_non_signers
  on_signing_timeout writable now fresh s bl file duration blame_round_count =
      let non_signers = non_signers_of s.inner in
      let (bl', file') = ban_all writable now duration non_signers bl file in
      (
        record {
          state = attempt fresh (attempt fresh s blame) idle;
          ban_list = bl';
          ban_file = file';
        },
        timeout_outcome blame_round_count non_signers,
      )

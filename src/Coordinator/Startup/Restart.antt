-- ===== src/Coordinator/Startup/Restart.antt =====
-- The bans of a coordinator that stops and starts again (coordinator/src/run.rs,
-- coordinator/src/round/blame.rs, coordinator/src/round/signing.rs).
use blindjoin.Prelude.{
  ℕ, ◌≤◌, ◌<◌, ◌≡◌, true, inl, inr, Option, some, ok, arith, Option-cases, ltb, >>=-eq-ok, ensure,
  map_err, sym, subst,
}
use blindjoin.Prelude.Eq.{Text, nat_eq, bytes_eq}
use blindjoin.Prelude.Dict.{get}
use blindjoin.External.{External}
use blindjoin.Coordinator.Config.{CoordinatorConfig, validate}
use blindjoin.Coordinator.State.{AppState}
use blindjoin.Coordinator.Round.Blame.{BanEntry, BanList, Json, hash_utxo_str, is_banned}
use blindjoin.Coordinator.Round.Blame.File.{JsonLaws}
use blindjoin.Coordinator.System.{
  Site, Step, installs, registers, redeems, signs, finalizes, expires, started,
}
use blindjoin.Coordinator.Startup.{
  invalid, no_publisher, Surroundings, Booted, load_bans, compacted, start_transport,
  startup_health_check, load_or_generate_keypair, boot,
}
use blindjoin.Coordinator.Startup.Steps.{finalize-Kept, fire-Kept}
use blindjoin.Coordinator.Startup.Kept.{Kept, load_bans-Kept}

-- The steps of one process.
pub data Runs (x : External) (site : Site) (from : AppState) : AppState → Type 0 where
  begins : Runs x site from from
  goes : {a b : AppState} → Runs x site from a → Step x site a b → Runs x site from b

module _ (x : External) (site : Site) (laws : JsonLaws site.ban_json)
    (can : (u : Text) → site.writable u ≡ true) (since : ℕ) where
  Step-Kept :
      {a b : AppState}
      → Step x site a b
      → Kept site.ban_json since a.ban_list a.ban_file
      → Kept site.ban_json since b.ban_list b.ban_file
  Step-Kept (installs fresh round_id m r a) kept = kept
  Step-Kept (registers now fresh gettxout seen snap bans req a response s h) kept = kept
  Step-Kept (redeems fresh seen req a response s h) kept = kept
  Step-Kept (signs fresh seen req a) kept = kept
  Step-Kept (finalizes node now fresh prepared round_id a) kept =
      finalize-Kept x site.ban_json laws site.writable can since node now fresh site.cfg prepared
        round_id a kept
  Step-Kept (expires now fresh phase round_id a) kept =
      fire-Kept x site.ban_json laws site.writable can since now fresh site.cfg phase round_id a
        kept

  Runs-Kept :
      {from b : AppState}
      → Kept site.ban_json since from.ban_list from.ban_file
      → Runs x site from b
      → Kept site.ban_json since b.ban_list b.ban_file
  Runs-Kept kept begins = kept
  Runs-Kept kept (goes runs step) = Step-Kept step (Runs-Kept kept runs)

-- The state that a start leaves.
boot_state :
    {K Layer : Type 0} (finish : ℕ → ℕ → Option Layer) (json : Json) (now fresh : ℕ)
    (cfg : CoordinatorConfig) (w : Surroundings K) {booted : Booted K Layer}
    → boot finish json now fresh cfg w ≡ ok booted
    → booted.state
      ≡ started fresh (load_bans json now w.ban_file) (compacted json now w.compacts w.ban_file)
unfolding boot
boot_state finish json now fresh cfg w {booted} h =
    let (_, _, h1) = >>=-eq-ok (map_err invalid (validate cfg)) _ h in
    let (_, _, h2) = >>=-eq-ok (startup_health_check w.getblockcount) _ h1 in
    let (_, _, h3) =
      >>=-eq-ok (load_or_generate_keypair w.key_file w.random_key w.key_written) _ h2 in
    let (_, _, h4) = >>=-eq-ok (ensure w.publisher_built no_publisher) _ h3 in
    let (_, _, h5) = >>=-eq-ok (start_transport finish cfg w) _ h4 in cc h5

survives :
    (x : External) (utxo_str : Text) (bl bl' : BanList) (now : ℕ)
    → ((e : BanEntry)
        → get (hash_utxo_str x utxo_str) bl ≡ some e
        → now < e.expires_at
        → get (hash_utxo_str x utxo_str) bl' ≡ some e)
    → is_banned x bl utxo_str now ≡ true
    → is_banned x bl' utxo_str now ≡ true
unfolding is_banned
survives x utxo_str bl bl' now kept h = elim (Option-cases (get (hash_utxo_str x utxo_str) bl)) [
  | inl e ↦ absurd (cc (rw (is_banned, e) at h))
  | inr (entry, e) ↦
      let unexpired : ltb now entry.expires_at ≡ true = rw (is_banned, e) at h in
      rw (is_banned, kept entry e (ground (arith, unexpired))) unexpired
]

-- A ban outlives the process. Let the records of the ban file be read back as they are written, and let every
-- write of one succeed. The coordinator starts at the time `since`, takes any steps, and starts again, with
-- any configuration, at a time not before, with the file that was left. Whoever is banned when it stops, as
-- of some time after the second start, is banned as of that time in the second process.
pub restart-banned :
    {K Layer : Type 0} (finish : ℕ → ℕ → Option Layer) (x : External) (site : Site)
    → JsonLaws site.ban_json
    → ((u : Text) → site.writable u ≡ true)
    → (since fresh : ℕ) (w : Surroundings K) {booted : Booted K Layer}
    → boot finish site.ban_json since fresh site.cfg w ≡ ok booted
    → {a : AppState} → Runs x site booted.state a
    → (again fresh' : ℕ) (cfg' : CoordinatorConfig) (w' : Surroundings K) {booted' : Booted K Layer}
    → since ≤ again
    → w'.ban_file ≡ some a.ban_file
    → boot finish site.ban_json again fresh' cfg' w' ≡ ok booted'
    → (utxo_str : Text) (now : ℕ) → again ≤ now
    → is_banned x a.ban_list utxo_str now ≡ true
    → is_banned x booted'.state.ban_list utxo_str now ≡ true
unfolding Kept
restart-banned finish x site laws can since fresh w {booted} h {a} runs again fresh' cfg' w'
      {booted'} le left h' utxo_str now later banned =
    let first = boot_state finish site.ban_json since fresh site.cfg w h in
    let kept0 =
      subst (λ (s : AppState). Kept site.ban_json since s.ban_list s.ban_file) (sym first)
        (load_bans-Kept site.ban_json laws since w.compacts w.ban_file) in
    let kept = Runs-Kept x site laws can since kept0 runs in
    let second = boot_state finish site.ban_json again fresh' cfg' w' h' in
    let list : booted'.state.ban_list ≡ load_bans site.ban_json again (some a.ban_file) =
      cc (second, left) in
    rw list (
      survives x utxo_str a.ban_list (load_bans site.ban_json again (some a.ban_file)) now
        (λ e found unexpired.
          kept (hash_utxo_str x utxo_str) e found again le (omega (arith, later, unexpired)))
        banned)

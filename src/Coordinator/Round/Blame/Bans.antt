-- ===== src/Coordinator/Round/Blame/Bans.antt =====
-- Who is banned when the signing time is over (coordinator/src/round/blame.rs).
use blindjoin.Prelude.{
  ◌⊎◌, inl, inr, leb, leb→le, Bool-cases, ℕ, ◌≡◌, ◌≢◌, refl, Bool, true, false, not, some, List, [],
  ◌∷◌, arith, ltb, if◌then◌else◌, keep_if, any, All, add64, ◌≤◌, ◌<◌, ◌∙◌,
}
use blindjoin.Prelude.Eq.{◌==◌, bytes_eq, bytes_beq_iff, Text}
use blindjoin.Prelude.Dict.{Dict, keys, contains_key, get-insert}
use blindjoin.External.{External}
use blindjoin.Coordinator.Round.State.{
  signing, blame, idle, RoundStateInner, RoundState, attempt, new_idle,
}
use blindjoin.Coordinator.Round.Blame.{
  BlameOutcome, BanList, BanFile, Json, hash_utxo_str, ban, is_banned, ban_all, detect_non_signers,
  full_abort, restart_without, timeout_outcome, on_signing_timeout,
}

module _ (x : External) where
  abbrev pub same_hash : Text → Text → Bool
  same_hash u w = hash_utxo_str x w == hash_utxo_str x u

  is_banned-ban :
      (bl : BanList) (w u : Text) (now duration t : ℕ)
      → is_banned x (ban x bl w now duration) u t
        ≡ (if same_hash u w then ltb t (add64 now duration) else is_banned x bl u t)
  unfolding is_banned ban
  is_banned-ban bl w u now duration t = ground (
    arith,
    get-insert (hash_utxo_str x w) (hash_utxo_str x u)
        (record { banned_at = now; expires_at = add64 now duration }) bl,
  )

  -- A list of bans sets the expiry of those in it, and of no other.
  pub is_banned-ban_all :
      (json : Json) (writable : Text → Bool) (now duration : ℕ) (ws : List Text) (bl : BanList)
      (file : BanFile) (u : Text) (t : ℕ)
      → is_banned x (ban_all x json writable now duration ws bl file).0 u t
        ≡ (if any (same_hash u) ws then ltb t (add64 now duration) else is_banned x bl u t)
  unfolding ban_all
  is_banned-ban_all json writable now duration [] bl file u t = refl
  is_banned-ban_all json writable now duration (w ∷ ws) bl file u t =
      is_banned-ban_all json writable now duration ws (ban x bl w now duration) _ u t
      ∙ ground (arith, is_banned-ban bl w u now duration t)

  kept_hit :
      {V : Type 0} (p : Text → Bool) (m : Dict Text V) (u : Text)
      → contains_key u m ≡ true
      → p u ≡ true
      → any (same_hash u) (keep_if p (keys m)) ≡ true
  unfolding contains_key
  kept_hit p [] u h k = absurd (cc)
  kept_hit p ((w, v) ∷ m) u h k = ground (
    arith,
    kept_hit p m u,
    bytes_beq_iff w u,
    bytes_beq_iff (hash_utxo_str x w) (hash_utxo_str x u),
  )

  kept_miss :
      (p : Text → Bool) (ws : List Text) (u : Text)
      → All (λ w. hash_utxo_str x w ≡ hash_utxo_str x u → w ≡ u) ws
      → p u ≡ false
      → any (same_hash u) (keep_if p ws) ≡ false
  kept_miss p [] u h k = refl
  kept_miss p (w ∷ ws) u h k =
      ground
        (arith, kept_miss p ws u h.1 k, h.0, bytes_beq_iff (hash_utxo_str x w) (hash_utxo_str x u))

  module _ (json : Json) (writable : Text → Bool) (now fresh : ℕ) (s : RoundState)
      (inner : RoundStateInner) (bl : BanList) (file : BanFile) (duration count : ℕ)
      (started : s.inner ≡ some inner) (u : Text) where
    -- The bans that the end of the signing time leaves.
    abbrev pub bans_after : BanList
    bans_after = (on_signing_timeout x json writable now fresh s bl file duration count).0.ban_list

    timeout_bans :
        (t : ℕ)
        → is_banned x bans_after u t ≡ (
            if any (same_hash u) (detect_non_signers inner.registered_inputs inner.partial_sigs)
            then ltb t (add64 now duration)
            else is_banned x bl u t)
    unfolding on_signing_timeout
    timeout_bans t = rw started (is_banned-ban_all json writable now duration _ bl file u t)

    -- A participant who registered and did not sign is banned from now for the configured time.
    pub non_signer-banned :
        (t : ℕ)
        → contains_key u inner.registered_inputs ≡ true
        → contains_key u inner.partial_sigs ≡ false
        → is_banned x bans_after u t ≡ ltb t (add64 now duration)
    unfolding detect_non_signers
    non_signer-banned t registered unsigned =
        timeout_bans t
        ∙ ground (
          arith,
          kept_hit (λ w. not (contains_key w inner.partial_sigs)) inner.registered_inputs u
              registered (rw unsigned),
        )

    -- A participant who signed keeps the standing that it had, where the hashes of the registered
    -- inputs do not collide with its own.
    pub signer-keeps :
        (t : ℕ)
        → contains_key u inner.partial_sigs ≡ true
        → All (λ w. hash_utxo_str x w ≡ hash_utxo_str x u → w ≡ u) (keys inner.registered_inputs)
        → is_banned x bans_after u t ≡ is_banned x bl u t
    unfolding detect_non_signers
    signer-keeps t signed apart =
        timeout_bans t
        ∙ ground (
          arith,
          kept_miss (λ w. not (contains_key w inner.partial_sigs)) (keys inner.registered_inputs) u
              apart (rw signed),
        )

-- The choice between the two outcomes.
abbrev pub Ending : ℕ → List Text → BlameOutcome → Type 0
Ending count missing outcome =
    ((outcome ≡ full_abort) × ((2 ≤ count) ⊎ (missing ≡ [])))
    ⊎ ((outcome ≡ restart_without missing) × (count < 2) × (missing ≢ []))

outcomes : (count : ℕ) (ws : List Text) → Ending count ws (timeout_outcome count ws)
outcomes count ws = elim (Bool-cases (leb 2 count)) [
  | inl capped ↦ inl (rw capped, inl (leb→le 2 count capped))
  | inr early ↦ below ws early
]
  where
    below : (us : List Text) → leb 2 count ≡ false → Ending count us (timeout_outcome count us)
    below [] early = inl (rw early, inr refl)
    below (u ∷ us) early = inr (rw early, ground arith, λ e. cc)

pub blamed-idle :
    (fresh : ℕ) (s : RoundState)
    → s.phase ≡ signing
    → attempt fresh (attempt fresh s blame) idle ≡ new_idle fresh
unfolding attempt new_idle
blamed-idle fresh s p = ground arith

-- The end of the signing time takes the round to a clean Idle under the fresh identifier. It aborts in
-- full exactly when the cap on blame rounds is reached or when everybody signed, and otherwise restarts
-- without exactly the participants who did not sign.
pub timeout-ends :
    (x : External) (json : Json) (writable : Text → Bool) (now fresh : ℕ) (s : RoundState)
    (inner : RoundStateInner) (bl : BanList) (file : BanFile) (duration count : ℕ)
    → s.phase ≡ signing
    → s.inner ≡ some inner
    → let (left, outcome) = on_signing_timeout x json writable now fresh s bl file duration count in
      (left.state ≡ new_idle fresh)
      × Ending count (detect_non_signers inner.registered_inputs inner.partial_sigs) outcome
unfolding on_signing_timeout
timeout-ends x json writable now fresh s inner bl file duration count p started = (
  blamed-idle fresh s p,
  rw started (outcomes count (detect_non_signers inner.registered_inputs inner.partial_sigs)),
)

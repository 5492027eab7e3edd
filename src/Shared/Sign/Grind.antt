-- ===== src/Shared/Sign/Grind.antt =====
-- The retries for the length of an ECDSA signature (shared/src/bip322/mod.rs).
use blindjoin.Prelude.{
  ℕ, zero, suc, ◌+◌, ◌≤◌, ◌<◌, ◌≡◌, ◌⊎◌, inl, inr, true, false, refl, arith, Bool-cases, leb,
  leb→le,
}
use blindjoin.Prelude.Eq.{Bytes}
use blindjoin.External.Keys.{Keys}
use blindjoin.Shared.Sign.{fits, entropy, grind, sign_ecdsa_compat_bip322_length}

le_cases : (c i : ℕ) → c ≤ i → (i ≡ c) ⊎ (suc c ≤ i)
le_cases c i h = elim (Bool-cases (leb (suc c) i)) [
  | inl later ↦ inr (leb→le (suc c) i later)
  | inr here ↦ inl (ground (arith, here, h))
]

-- The deterministic signature, and then those with the counter as entropy.
abbrev pub attempt_at : Keys → Bytes → Bytes → ℕ → Bytes
attempt_at k msg key zero = k.sign_ecdsa msg key
attempt_at k msg key (suc c) = k.sign_ecdsa_with_noncedata msg key (entropy k (suc c))

module _ (k : Keys) (msg key : Bytes) where
  -- The signature is the first attempt of `from` to `last` that fits, or the last one.
  pub record FirstFit (from last : ℕ) (sig : Bytes) : Type 0 where
    pub index : ℕ
    pub above : from ≤ index
    pub below : index ≤ last
    pub chosen : sig ≡ attempt_at k msg key index
    pub earlier : (i : ℕ) → from ≤ i → i < index → fits k (attempt_at k msg key i) ≡ false
    pub good : (fits k (attempt_at k msg key index) ≡ true) ⊎ (index ≡ last)

  passed :
      (c last : ℕ) {sig : Bytes}
      → fits k (attempt_at k msg key c) ≡ false
      → FirstFit (suc c) last sig
      → FirstFit c last sig
  passed c last bad f = record {
    index = f.index;
    above = omega (arith, f.above);
    below = f.below;
    chosen = f.chosen;
    earlier = λ i lo hi. elim (le_cases c i lo) [
      | inl same ↦ rw same bad
      | inr later ↦ f.earlier i later hi
    ];
    good = f.good;
  }

  grind-FirstFit :
      (turns c last : ℕ)
      → last ≡ turns + c
      → FirstFit c last (grind k turns (suc c) msg key (attempt_at k msg key c))
  unfolding grind
  grind-FirstFit zero c last e = record {
    index = c;
    above = omega arith;
    below = omega (arith, e);
    chosen = refl;
    earlier = λ i lo hi. absurd (omega (arith, lo, hi));
    good = inr (omega (arith, e));
  }
  grind-FirstFit (suc turns) c last e = elim (Bool-cases (fits k (attempt_at k msg key c))) [
    | inl good ↦
        rw (grind, good)
          (record {
            index = c;
            above = omega arith;
            below = omega (arith, e);
            chosen = refl;
            earlier = λ i lo hi. absurd (omega (arith, lo, hi));
            good = inl good;
          })
    | inr bad ↦
        rw (grind, bad) (passed c last bad (grind-FirstFit turns (suc c) last (omega (arith, e))))
  ]

  -- The signature of a proof is the first of 257 attempts, the deterministic signature and then those with
  -- the counters from 1 to 256 as entropy, that has 71 or 72 bytes with the byte of the sighash, and the last
  -- of them if none has.
  pub sign_ecdsa_compat-FirstFit : FirstFit 0 256 (sign_ecdsa_compat_bip322_length k msg key)
  unfolding sign_ecdsa_compat_bip322_length
  sign_ecdsa_compat-FirstFit = grind-FirstFit 256 0 256 refl

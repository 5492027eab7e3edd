-- ===== src/Coordinator/Round/OutPoints/RoundTrip.antt =====
-- Reading back the text of an outpoint (coordinator/src/round/input_reg.rs).
use blindjoin.Prelude.{
  ◌-◌, sym, Option-cases, inl, inr, none, some, ◌<◌, ◌≤◌, ◌^◌, ℕ, zero, suc, ◌+◌, ◌*◌, ◌/◌, ◌%◌,
  ◌^◌, ◌<◌, ◌≡◌, refl, true, none, some, [], ◌∷◌, ◌++◌, arith, ltb, Bool-cases, inl, inr, ◌∙◌,
}
use blindjoin.Prelude.Eq.{Text}
use blindjoin.External.{External, OutPoint}
use blindjoin.Coordinator.Round.OutPoints.{
  show_digits, decimal, is_digit, read_digits, parse_unsigned, parse_u32, rsplit_colon,
  outpoint_text, parse_outpoint,
}

module _ (limit : ℕ) where
  read-digit :
      (a d n : ℕ) (acc : Text)
      → d < 10
      → a * 10 + d ≡ n
      → n < limit
      → read_digits limit a ((48 + d) ∷ acc) ≡ read_digits limit n acc
  unfolding read_digits
  read-digit a d n acc h e k = rw (← e) (ground arith)

  read-show :
      (f n : ℕ) (acc : Text)
      → n < f
      → n < limit
      → read_digits limit 0 (show_digits f n acc) ≡ read_digits limit n acc
  unfolding show_digits
  read-show zero n acc h k = elim h [ ]
  read-show (suc f) n acc h k = elim (Bool-cases (ltb n 10)) [
    | inl small ↦ rw small (read-digit 0 n n acc (ground arith) (omega arith) k)
    | inr large ↦ rw large (
        read-show f (n / 10) ((48 + n % 10) ∷ acc) (ground arith) (omega arith)
        ∙ read-digit (n / 10) (n % 10) n acc (omega arith) (omega arith) k)
  ]

-- The digits begin with a digit.
abbrev StartsWithDigit : Text → Type 0
StartsWithDigit [] = ⊥
StartsWithDigit (c ∷ cs) = is_digit c ≡ true

show-start : (f n : ℕ) (acc : Text) → n < f → StartsWithDigit (show_digits f n acc)
unfolding show_digits
show-start zero n acc h = elim h [ ]
show-start (suc f) n acc h = ground (arith, show-start f (n / 10) ((48 + n % 10) ∷ acc))

parse-read :
    (limit : ℕ) (s : Text)
    → StartsWithDigit s
    → 10 ≤ limit
    → parse_unsigned limit s ≡ read_digits limit 0 s
unfolding read_digits
parse-read limit [] h k = elim h [ ]
parse-read limit (c ∷ []) h k = ground arith
parse-read limit (c ∷ d ∷ cs) h k = ground arith

-- A number in range is read back from its decimal text.
pub parse_unsigned-decimal :
    (limit n : ℕ) → 10 ≤ limit → n < limit → parse_unsigned limit (decimal n) ≡ some n
unfolding decimal read_digits
parse_unsigned-decimal limit n ten h =
    parse-read limit (decimal n) (show-start (suc n) n [] (omega arith)) ten
    ∙ read-show limit (suc n) n [] (omega arith) h

parse_u32-decimal : (n : ℕ) → n < 2 ^ 32 → parse_u32 (decimal n) ≡ some n
unfolding parse_u32
parse_u32-decimal n h = parse_unsigned-decimal (2 ^ 32) n (omega arith) h

show-no_colon :
    (f n : ℕ) (acc : Text) → rsplit_colon acc ≡ none → rsplit_colon (show_digits f n acc) ≡ none
unfolding show_digits rsplit_colon
show-no_colon zero n acc h = h
show-no_colon (suc f) n acc h = ground (arith, show-no_colon f (n / 10) ((48 + n % 10) ∷ acc))

rsplit_colon-append :
    (head tail : Text)
    → rsplit_colon tail ≡ none
    → rsplit_colon (head ++ (b':' ∷ tail)) ≡ some (head, tail)
unfolding rsplit_colon
rsplit_colon-append [] tail h = rw h
rsplit_colon-append (c ∷ cs) tail h = rw (rsplit_colon-append cs tail h)

no_colon : (n : ℕ) → rsplit_colon (decimal n) ≡ none
unfolding decimal rsplit_colon
no_colon n = show-no_colon (suc n) n [] refl

-- The text of an outpoint is read back as that outpoint, where the text of its Txid is.
pub parse_outpoint-text :
    (x : External) (o : OutPoint)
    → x.parse_txid (x.txid_text o.txid) ≡ some o.txid
    → o.vout < 2 ^ 32
    → parse_outpoint x (outpoint_text x o) ≡ some o
unfolding parse_outpoint outpoint_text
parse_outpoint-text x o h k = ground (
  arith,
  rsplit_colon-append (x.txid_text o.txid) (decimal o.vout) (no_colon o.vout),
  parse_u32-decimal o.vout k,
)

read_digits-bound :
    (limit acc : ℕ) (s : Text) (n : ℕ) → acc < limit → read_digits limit acc s ≡ some n → n < limit
unfolding read_digits
read_digits-bound limit acc [] n small h = ground arith
read_digits-bound limit acc (c ∷ cs) n small h =
    ground (arith, read_digits-bound limit (acc * 10 + (c - 48)) cs n)

parse_u32-bound : (s : Text) (n : ℕ) → parse_u32 s ≡ some n → n < 2 ^ 32
unfolding parse_u32
parse_u32-bound [] n h = absurd (cc)
parse_u32-bound (c ∷ []) n h = ground arith
parse_u32-bound (c ∷ d ∷ cs) n h = ground (
  arith,
  read_digits-bound (2 ^ 32) 0 (d ∷ cs) n (omega arith),
  read_digits-bound (2 ^ 32) 0 (c ∷ d ∷ cs) n (omega arith),
)

-- An outpoint that is read has an index of 32 bits.
pub vout-bound :
    (x : External) (s : Text) {o : OutPoint} → parse_outpoint x s ≡ some o → o.vout < 2 ^ 32
unfolding parse_outpoint
vout-bound x s {o} h = elim (Option-cases (rsplit_colon s)) [
  | inl missing ↦ absurd (cc (rw (parse_outpoint, missing) at h))
  | inr ((txid_str, vout_str), split) ↦ elim (Option-cases (parse_u32 vout_str)) [
    | inl missing ↦ absurd (cc (rw (parse_outpoint, split, missing) at h))
    | inr (vout, number) ↦ elim (Option-cases (x.parse_txid txid_str)) [
      | inl missing ↦ absurd (cc (rw (parse_outpoint, split, number, missing) at h))
      | inr (txid, name) ↦
          let found : OutPoint = record { txid = txid; vout = vout } in
          let read : some found ≡ some o = rw (parse_outpoint, split, number, name) at h in
          let same : vout ≡ o.vout = cc read in rw (sym same) (parse_u32-bound vout_str vout number)
    ]
  ]
]

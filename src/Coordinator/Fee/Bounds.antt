-- ===== src/Coordinator/Fee/Bounds.antt =====
-- The estimate of coordinator/src/bitcoin/fee.rs against the share that tx.rs charges.
use native.Mathlib.Nat.{le-div_iff_mul-le, div-mul-le_self}
use native.Mathlib.Decide.{dec_le}
use blindjoin.Prelude.{
  ℕ, ◌+◌, ◌-◌, ◌*◌, ◌/◌, ◌^◌, ◌≤◌, ◌<◌, ◌≡◌, ap, arith, add64, mul64, add64-eq, mul64-eq,
}

pub mul_mono : (a m n : ℕ) → m ≤ n → a * m ≤ a * n
mul_mono a m n h = grind arith

pub mul_mono_left : (a b m : ℕ) → a ≤ b → a * m ≤ b * m
mul_mono_left a b m h = grind arith

-- What a share exceeds c by, the fixed part pays; it pays more at fewer participants.
share_excess : (r c m n q : ℕ) → m ≤ n → q * n ≤ 10 * r + c * n → q * m ≤ 10 * r + c * m
share_excess r c m n q h k = elim (dec_le q c) [
  | yes le ↦ omega (arith, mul_mono_left q c m le)
  | no gt ↦
      let e : q ≡ c + (q - c) = omega arith in
      omega (arith, mul_mono (q - c) m n h, ap (λ (t : ℕ). t * n) e, ap (λ (t : ℕ). t * m) e)
]

pub share_mono :
    (r s w o m n : ℕ)
    → 1 ≤ m
    → m ≤ n
    → s ≤ w * n
    → (10 + s + (n + n) * o) * r / n ≤ (10 + w * m + o * 2 * m) * r / m
share_mono r s w o m n pos h k =
    let q = (10 + s + (n + n) * o) * r / n in
    let below : q * n ≤ 10 * r + (w + o * 2) * r * n =
      omega (arith, div-mul-le_self ((10 + s + (n + n) * o) * r) n, mul_mono_left s (w * n) r k) in
    (le-div_iff_mul-le pos).1 (omega (arith, share_excess r ((w + o * 2) * r) m n q h below))

-- The weights of a transaction that stays below v virtual bytes are computed without overflow.
pub weigh64-eq :
    (a b v r : ℕ)
    → 10 + a + b ≤ v
    → 1 ≤ r
    → v * r < 2 ^ 64
    → mul64 (add64 (add64 10 a) b) r ≡ (10 + a + b) * r
weigh64-eq a b v r le rate fits =
    let wide : v ≤ v * r = grind arith in
    let scaled = mul_mono_left (10 + a + b) v r le in
    rw (add64-eq 10 a (omega arith), add64-eq (10 + a) b (omega arith))
      (mul64-eq (10 + a + b) r (omega arith))

-- ===== src/Shared/Token.antt =====
-- shared/src/token.rs: the message that a blind token signs.
use blindjoin.Prelude.{ℕ, zero, suc, ◌/◌, ◌%◌, [], ◌∷◌, ◌++◌}
use blindjoin.Prelude.Eq.{Bytes, codes}
use blindjoin.External.{External}

-- `to_le_bytes`, the lowest byte first
unfoldable pub le_bytes : ℕ → ℕ → Bytes
le_bytes zero n = []
le_bytes (suc k) n = (n % 256) ∷ le_bytes k (n / 256)

unfoldable pub compute_blind_token_message : External → Bytes → ℕ → Bytes
unfolding le_bytes
compute_blind_token_message x output_script amount_sats =
    x.sha256 (codes "blindjoin-v1" ++ (output_script ++ le_bytes 8 amount_sats))

-- ===== src/Shared/Bip322.antt =====
-- shared/src/bip322/mod.rs: the two transactions of BIP-322, and the script of a wrapped input.
use blindjoin.Prelude.{[], ◌∷◌, ◌++◌}
use blindjoin.Prelude.Eq.{Bytes, codes}
use blindjoin.External.{External, Transaction}
use blindjoin.External.Keys.{Keys}

module _ (x : External) where
  -- The tagged hash of BIP-340.
  unfoldable pub bip322_message_hash : Bytes → Bytes
  bip322_message_hash message =
      let tag_hash = x.sha256 (codes "BIP0322-signed-message") in
      x.sha256 (tag_hash ++ (tag_hash ++ message))

  -- `scriptSig` of a P2SH-P2WPKH input: the push of the 22 bytes of the redeem script.
  unfoldable pub p2sh_p2wpkh_final_script_sig : Bytes → Bytes
  p2sh_p2wpkh_final_script_sig pubkey = 0x16 ∷ x.new_p2wpkh pubkey

-- `OP_0`, then the push of the 32 bytes of the hash; it spends `OutPoint::null()`.
unfoldable pub build_bip322_to_spend : Bytes → Bytes → Transaction
build_bip322_to_spend script_pubkey msg_hash = record {
  version = 0;
  lock_time = 0;
  input =
      record {
        previous_output = record { txid = 0; vout = 0xFFFFFFFF };
        script_sig = 0x00 ∷ 0x20 ∷ msg_hash;
        sequence = 0;
        witness = [];
      }
      ∷ [];
  output = record { value = 0; script_pubkey = script_pubkey } ∷ [];
}

-- Its output is the opcode `OP_RETURN` alone.
unfoldable pub build_bip322_to_sign : Keys → Transaction → Transaction
build_bip322_to_sign k to_spend = record {
  version = 0;
  lock_time = 0;
  input =
      record {
        previous_output = record { txid = k.compute_txid to_spend; vout = 0 };
        script_sig = [];
        sequence = 0;
        witness = [];
      }
      ∷ [];
  output = record { value = 0; script_pubkey = 0x6a ∷ [] } ∷ [];
}

-- The transaction that a proof of a message signs.
unfoldable pub to_sign_of : External → Keys → Bytes → Bytes → Transaction
to_sign_of x k spk message =
    build_bip322_to_sign k (build_bip322_to_spend spk (bip322_message_hash x message))

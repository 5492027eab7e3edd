-- ===== src/Coordinator/SigVerify/Sound.antt =====
-- What a verified partial signature is (coordinator/src/bitcoin/sig_verify.rs).
use blindjoin.Prelude.{ℕ}
use blindjoin.Prelude.Eq.{nat_eq, bytes_eq}
use blindjoin.External.{External, TxOut, Witness, Psbt}
use blindjoin.Shared.Script.{ScriptType, p2wpkh, p2tr, p2sh_p2wpkh}
use blindjoin.Coordinator.SigVerify.Ecdsa.{EcdsaSigned}
use blindjoin.Coordinator.SigVerify.Schnorr.{SchnorrSigned}

module _ (x : External) (psbt : Psbt) (index : ℕ) where
  -- What each script type asks of the witness that spends an output.
  abbrev pub Signed : ScriptType → Witness → TxOut → Type 0
  Signed p2wpkh witness o =
      EcdsaSigned x psbt index witness (λ k. o.script_pubkey) o.value x.new_p2wpkh o.script_pubkey
  Signed p2sh_p2wpkh witness o =
      EcdsaSigned x psbt index witness x.new_p2wpkh o.value (λ k. x.new_p2sh (x.new_p2wpkh k))
        o.script_pubkey
  Signed p2tr witness o = SchnorrSigned x psbt index witness

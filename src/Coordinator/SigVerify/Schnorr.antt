-- ===== src/Coordinator/SigVerify/Schnorr.antt =====
-- What a verified Taproot witness is (coordinator/src/bitcoin/sig_verify.rs).
use blindjoin.Prelude.{
  ℕ, ◌≡◌, true, some, ok, ok_or, ensure, List, arith, length, get_elem?, take, drop, >>=-eq-ok,
  ok_or-eq-ok, ensure-eq-ok,
}
use blindjoin.Prelude.Eq.{Bytes, ◌==◌, nat_eq, bytes_eq}
use blindjoin.External.{External, TxOut, Witness, Psbt, TapSighashType}
use blindjoin.Coordinator.SigVerify.{
  wrong_arity, sighash_failed, malformed_schnorr, missing_prevout, not_p2tr, bad_xonly,
  verification_failed, panicked, prevouts_of, split_taproot_sig, verify_p2tr,
}

module _ (x : External) (psbt : Psbt) (index : ℕ) where
  -- A witness of one Schnorr signature, which verifies for the key in the script over all prevouts.
  pub record SchnorrSigned (witness : Witness) : Type 0 where
    pub sig_elem : Bytes
    pub one : length witness ≡ 1
    pub first : get_elem? witness 0 ≡ some sig_elem
    pub sig_bytes : Bytes
    pub sighash_type : TapSighashType
    pub split : split_taproot_sig sig_elem ≡ ok (sig_bytes, sighash_type)
    pub sig : Bytes
    pub decoded : x.decode_schnorr sig_bytes ≡ some sig
    pub prevouts : List TxOut
    pub complete : prevouts_of psbt.inputs ≡ some prevouts
    pub prevout : TxOut
    pub spends : get_elem? prevouts index ≡ some prevout
    pub taproot : x.is_p2tr prevout.script_pubkey ≡ true
    pub key : Bytes
    pub keyed : x.decode_xonly (take 32 (drop 2 prevout.script_pubkey)) ≡ some key
    pub sighash : Bytes
    pub over : x.taproot_sighash psbt.unsigned_tx index prevouts sighash_type ≡ some sighash
    pub verified : x.verify_schnorr sighash sig key ≡ true

  pub p2tr-SchnorrSigned :
      (witness : Witness) → verify_p2tr x psbt index witness ≡ ok tt → SchnorrSigned witness
  unfolding verify_p2tr
  p2tr-SchnorrSigned witness h =
      let (_, h0, k0) = >>=-eq-ok (ensure (length witness == 1) wrong_arity) _ h in
      let (sig_elem, h1, k1) = >>=-eq-ok (ok_or (get_elem? witness 0) panicked) _ k0 in
      let ((sig_bytes, kind), h2, k2) = >>=-eq-ok (split_taproot_sig sig_elem) _ k1 in
      let (sig, h3, k3) = >>=-eq-ok (ok_or (x.decode_schnorr sig_bytes) malformed_schnorr) _ k2 in
      let (prevouts, h4, k4) = >>=-eq-ok (ok_or (prevouts_of psbt.inputs) missing_prevout) _ k3 in
      let (prevout, h5, k5) = >>=-eq-ok (ok_or (get_elem? prevouts index) panicked) _ k4 in
      let spk = prevout.script_pubkey in
      let (_, h6, k6) = >>=-eq-ok (ensure (x.is_p2tr spk) not_p2tr) _ k5 in
      let (key, h7, k7) =
        >>=-eq-ok (ok_or (x.decode_xonly (take 32 (drop 2 spk))) bad_xonly) _ k6 in
      let (sighash, h8, h9) =
        >>=-eq-ok (ok_or (x.taproot_sighash psbt.unsigned_tx index prevouts kind) sighash_failed) _
          k7 in
      record {
        sig_elem = sig_elem;
        one = ground (arith, ensure-eq-ok (length witness == 1) wrong_arity h0);
        first = ok_or-eq-ok (get_elem? witness 0) panicked h1;
        sig_bytes = sig_bytes;
        sighash_type = kind;
        split = h2;
        sig = sig;
        decoded = ok_or-eq-ok (x.decode_schnorr sig_bytes) malformed_schnorr h3;
        prevouts = prevouts;
        complete = ok_or-eq-ok (prevouts_of psbt.inputs) missing_prevout h4;
        prevout = prevout;
        spends = ok_or-eq-ok (get_elem? prevouts index) panicked h5;
        taproot = ensure-eq-ok (x.is_p2tr spk) not_p2tr h6;
        key = key;
        keyed = ok_or-eq-ok (x.decode_xonly (take 32 (drop 2 spk))) bad_xonly h7;
        sighash = sighash;
        over =
            ok_or-eq-ok (x.taproot_sighash psbt.unsigned_tx index prevouts kind) sighash_failed h8;
        verified = ensure-eq-ok (x.verify_schnorr sighash sig key) verification_failed h9;
      }

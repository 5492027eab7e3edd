-- ===== src/Coordinator/SigVerify/Ecdsa.antt =====
-- What a verified ECDSA witness is (coordinator/src/bitcoin/sig_verify.rs).
use blindjoin.Prelude.{
  ℕ, ◌≡◌, true, some, ok, ok_or, ensure, arith, length, get_elem?, split_last, >>=-eq-ok,
  ok_or-eq-ok, ensure-eq-ok,
}
use blindjoin.Prelude.Eq.{Bytes, ◌==◌, nat_eq, bytes_eq, bytes_beq_iff}
use blindjoin.External.{External, Witness, Psbt}
use blindjoin.Coordinator.SigVerify.{
  wrong_arity, empty_signature, not_sighash_all, malformed_der, bad_pubkey, script_mismatch,
  sighash_failed, verification_failed, panicked, sighash_all_byte, parse_ecdsa_sig, sig_and_key,
  verify_p2wpkh, verify_p2sh_p2wpkh,
}

module _ (x : External) (psbt : Psbt) (index : ℕ) where
  -- A witness of an ECDSA signature and a key: the signature covers the whole transaction, and verifies
  -- for that key over the sighash of the input.
  pub record EcdsaSigned (witness : Witness) (script_code : Bytes → Bytes) (value : ℕ)
      (committed : Bytes → Bytes) (spk : Bytes) : Type 0 where
    pub sig_elem : Bytes
    pub key_elem : Bytes
    pub two : length witness ≡ 2
    pub first : get_elem? witness 0 ≡ some sig_elem
    pub second : get_elem? witness 1 ≡ some key_elem
    pub der : Bytes
    pub whole : split_last sig_elem ≡ some (der, sighash_all_byte)
    pub sig : Bytes
    pub decoded : x.decode_der der ≡ some sig
    pub key : Bytes
    pub keyed : x.decode_pubkey key_elem ≡ some key
    pub commits : committed key ≡ spk
    pub sighash : Bytes
    pub over : x.p2wpkh_sighash psbt.unsigned_tx index (script_code key) value ≡ some sighash
    pub verified : x.verify_ecdsa sighash sig key ≡ true

  -- The signature and the key of a witness.
  record Parts (witness : Witness) (sig key : Bytes) : Type 0 where
    sig_elem : Bytes
    key_elem : Bytes
    two : length witness ≡ 2
    first : get_elem? witness 0 ≡ some sig_elem
    second : get_elem? witness 1 ≡ some key_elem
    der : Bytes
    whole : split_last sig_elem ≡ some (der, sighash_all_byte)
    decoded : x.decode_der der ≡ some sig
    keyed : x.decode_pubkey key_elem ≡ some key

  parsed :
      (sig_elem : Bytes) {sig : Bytes}
      → parse_ecdsa_sig x sig_elem ≡ ok sig
      → (der : Bytes) × (split_last sig_elem ≡ some (der, sighash_all_byte))
        × (x.decode_der der ≡ some sig)
  unfolding parse_ecdsa_sig
  parsed sig_elem h =
      let ((der, flag), split, k) = >>=-eq-ok (ok_or (split_last sig_elem) empty_signature) _ h in
      let (_, marked, end) = >>=-eq-ok (ensure (flag == sighash_all_byte) not_sighash_all) _ k in
      let all : flag ≡ sighash_all_byte =
        ground (arith, ensure-eq-ok (flag == sighash_all_byte) not_sighash_all marked) in
      let read = ok_or-eq-ok (split_last sig_elem) empty_signature split in
      (der, cc (read, all), ok_or-eq-ok (x.decode_der der) malformed_der end)

  parts :
      (witness : Witness) {sig key : Bytes}
      → sig_and_key x witness ≡ ok (sig, key)
      → Parts witness sig key
  unfolding sig_and_key
  parts witness {sig} {key} h =
      let (_, arity, k0) = >>=-eq-ok (ensure (length witness == 2) wrong_arity) _ h in
      let (sig_elem, h1, k1) = >>=-eq-ok (ok_or (get_elem? witness 0) panicked) _ k0 in
      let (s, h2, k2) = >>=-eq-ok (parse_ecdsa_sig x sig_elem) _ k1 in
      let (key_elem, h3, k3) = >>=-eq-ok (ok_or (get_elem? witness 1) panicked) _ k2 in
      let (k, h4, end) = >>=-eq-ok (ok_or (x.decode_pubkey key_elem) bad_pubkey) _ k3 in
      let same_sig : s ≡ sig = cc end in
      let same_key : k ≡ key = cc end in
      let (der, whole, decoded) = parsed sig_elem h2 in
      record {
        sig_elem = sig_elem;
        key_elem = key_elem;
        two = ground (arith, ensure-eq-ok (length witness == 2) wrong_arity arity);
        first = ok_or-eq-ok (get_elem? witness 0) panicked h1;
        second = ok_or-eq-ok (get_elem? witness 1) panicked h3;
        der = der;
        whole = whole;
        decoded = cc (decoded, same_sig);
        keyed = cc (ok_or-eq-ok (x.decode_pubkey key_elem) bad_pubkey h4, same_key);
      }

  pub p2wpkh-EcdsaSigned :
      (witness : Witness) (spk : Bytes) (value : ℕ)
      → verify_p2wpkh x psbt index witness spk value ≡ ok tt
      → EcdsaSigned witness (λ k. spk) value x.new_p2wpkh spk
  unfolding verify_p2wpkh
  p2wpkh-EcdsaSigned witness spk value h =
      let ((sig, key), h0, k0) = >>=-eq-ok (sig_and_key x witness) _ h in
      let p = parts witness h0 in
      let (_, h1, k1) = >>=-eq-ok (ensure (x.new_p2wpkh key == spk) script_mismatch) _ k0 in
      let (sighash, h2, h3) =
        >>=-eq-ok (ok_or (x.p2wpkh_sighash psbt.unsigned_tx index spk value) sighash_failed) _ k1 in
      record {
        sig_elem = p.sig_elem;
        key_elem = p.key_elem;
        two = p.two;
        first = p.first;
        second = p.second;
        der = p.der;
        whole = p.whole;
        sig = sig;
        decoded = p.decoded;
        key = key;
        keyed = p.keyed;
        commits =
            (bytes_beq_iff (x.new_p2wpkh key) spk).0
              (ensure-eq-ok (x.new_p2wpkh key == spk) script_mismatch h1);
        sighash = sighash;
        over = ok_or-eq-ok (x.p2wpkh_sighash psbt.unsigned_tx index spk value) sighash_failed h2;
        verified = ensure-eq-ok (x.verify_ecdsa sighash sig key) verification_failed h3;
      }

  pub p2sh-EcdsaSigned :
      (witness : Witness) (spk : Bytes) (value : ℕ)
      → verify_p2sh_p2wpkh x psbt index witness spk value ≡ ok tt
      → EcdsaSigned witness x.new_p2wpkh value (λ k. x.new_p2sh (x.new_p2wpkh k)) spk
  unfolding verify_p2sh_p2wpkh
  p2sh-EcdsaSigned witness spk value h =
      let ((sig, key), h0, k0) = >>=-eq-ok (sig_and_key x witness) _ h in
      let p = parts witness h0 in
      let redeem = x.new_p2wpkh key in
      let (_, h1, k1) = >>=-eq-ok (ensure (x.new_p2sh redeem == spk) script_mismatch) _ k0 in
      let (sighash, h2, h3) =
        >>=-eq-ok (ok_or (x.p2wpkh_sighash psbt.unsigned_tx index redeem value) sighash_failed) _
          k1 in
      record {
        sig_elem = p.sig_elem;
        key_elem = p.key_elem;
        two = p.two;
        first = p.first;
        second = p.second;
        der = p.der;
        whole = p.whole;
        sig = sig;
        decoded = p.decoded;
        key = key;
        keyed = p.keyed;
        commits =
            (bytes_beq_iff (x.new_p2sh redeem) spk).0
              (ensure-eq-ok (x.new_p2sh redeem == spk) script_mismatch h1);
        sighash = sighash;
        over = ok_or-eq-ok (x.p2wpkh_sighash psbt.unsigned_tx index redeem value) sighash_failed h2;
        verified = ensure-eq-ok (x.verify_ecdsa sighash sig key) verification_failed h3;
      }

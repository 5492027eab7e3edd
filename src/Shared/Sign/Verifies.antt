-- ===== src/Shared/Sign/Verifies.antt =====
-- A proof that is signed with the key of its script verifies (shared/src/bip322/).
use blindjoin.Prelude.{ℕ, zero, suc, ◌≡◌, true, some, ok, [], ◌∷◌, refl, Bool-cases, inl, inr}
use blindjoin.Prelude.Eq.{Bytes, ◌==◌, bytes_eq, bytes_beq_iff, nat_eq}
use blindjoin.External.{External, Network, Witness}
use blindjoin.External.Keys.{Keys}
use blindjoin.Shared.Script.{ScriptType, p2wpkh, p2tr, p2sh_p2wpkh}
use blindjoin.Shared.Verify.{verify_simple, verify_via_bip322_crate, key_binding_guard}
use blindjoin.Shared.Sign.{entropy, sign_ecdsa_compat_bip322_length, ecdsa_witness, sign_simple}
use blindjoin.Shared.Sign.Laws.{script_of, Signatures, Scripts, Bip322Crate}
use blindjoin.Shared.Sign.Grind.{attempt_at, sign_ecdsa_compat-FirstFit}

module _ (x : External) (k : Keys) (network : Network) (signatures : Signatures x k)
    (scripts : Scripts x k network) (crate : Bip322Crate x k network scripts) where
  attempt-verifies :
      (m key : Bytes) (c : ℕ) → x.verify_ecdsa m (attempt_at k m key c) (k.public_key key) ≡ true
  attempt-verifies m key zero = signatures.ecdsa m key
  attempt-verifies m key (suc c) = signatures.ecdsa_noncedata m key (entropy k (suc c))

  -- Whichever attempt was taken.
  compat-verifies :
      (m key : Bytes)
      → x.verify_ecdsa m (sign_ecdsa_compat_bip322_length k m key) (k.public_key key) ≡ true
  compat-verifies m key =
      let f = sign_ecdsa_compat-FirstFit k m key in rw f.chosen (attempt-verifies m key f.index)

  same_script : (spk : Bytes) → (spk == spk) ≡ true
  same_script spk = (bytes_beq_iff spk spk).1 refl

  -- A witness with the key of the address passes the guard.
  bound-verifies :
      (spk address pk sig message : Bytes)
      → x.address_from_script network spk ≡ some address
      → x.public_key_from_slice pk ≡ some (pk, true)
      → x.is_related_to_pubkey address pk ≡ true
      → x.bip322_verify_simple address message (sig ∷ pk ∷ []) ≡ true
      → verify_via_bip322_crate x spk (sig ∷ pk ∷ []) message network ≡ ok tt
  unfolding verify_via_bip322_crate key_binding_guard
  bound-verifies spk address pk sig message named key related accepted =
      elim (Bool-cases (x.is_p2tr spk)) [
        | inl taproot ↦ rw (named, taproot, accepted) refl
        | inr other ↦ rw (named, other, key, related, accepted) refl
      ]

  p2wpkh-verifies :
      (key message : Bytes)
      → let spk = script_of x k p2wpkh key in
        (w : Witness) × (sign_simple x k p2wpkh spk key message ≡ ok w)
        × (verify_simple x p2wpkh spk w message network ≡ ok tt)
  unfolding sign_simple verify_simple ecdsa_witness
  p2wpkh-verifies key message =
      let spk = script_of x k p2wpkh key in
      let digest = scripts.sighash spk message spk in
      let sig = sign_ecdsa_compat_bip322_length k digest key in
      (
        ecdsa_witness k digest key,
        rw (scripts.sighashes spk message spk) refl,
        bound-verifies spk (scripts.address p2wpkh key) (k.public_key key) _ message
            (scripts.from_script p2wpkh key) (scripts.compressed key) (scripts.related key)
            (crate.ecdsa key message sig (compat-verifies digest key)),
      )

  wrapped-verifies :
      (key message : Bytes)
      → let spk = script_of x k p2sh_p2wpkh key in
        (w : Witness) × (sign_simple x k p2sh_p2wpkh spk key message ≡ ok w)
        × (verify_simple x p2sh_p2wpkh spk w message network ≡ ok tt)
  unfolding sign_simple verify_simple ecdsa_witness
  wrapped-verifies key message =
      let spk = script_of x k p2sh_p2wpkh key in
      let code = x.new_p2wpkh (k.public_key key) in
      let digest = scripts.sighash spk message code in
      let sig = sign_ecdsa_compat_bip322_length k digest key in
      (
        ecdsa_witness k digest key,
        rw (same_script spk, scripts.sighashes spk message code) refl,
        bound-verifies spk (scripts.address p2sh_p2wpkh key) (k.public_key key) _ message
            (scripts.from_script p2sh_p2wpkh key) (scripts.compressed key)
            (scripts.related_wrapped key)
            (crate.wrapped key message sig (compat-verifies digest key)),
      )

  taproot-verifies :
      (key message : Bytes)
      → let spk = script_of x k p2tr key in
        (w : Witness) × (sign_simple x k p2tr spk key message ≡ ok w)
        × (verify_simple x p2tr spk w message network ≡ ok tt)
  unfolding sign_simple verify_simple verify_via_bip322_crate
  taproot-verifies key message =
      let spk = script_of x k p2tr key in
      let digest = scripts.taproot_digest spk message in
      let accepted = crate.schnorr key message _ (signatures.schnorr digest key) in
      (
        k.sign_schnorr_no_aux_rand digest key ∷ [],
        rw (same_script spk, scripts.taproot_sighashes spk message) refl,
        rw (scripts.from_script p2tr key, scripts.taproot key, accepted) refl,
      )

  -- A proof of ownership that is signed, for any of the script types, with the key that its script pays to
  -- is always produced, and verifies for that script and message.
  pub sign_simple-verifies :
      (st : ScriptType) (key message : Bytes)
      → (w : Witness) × (sign_simple x k st (script_of x k st key) key message ≡ ok w)
        × (verify_simple x st (script_of x k st key) w message network ≡ ok tt)
  sign_simple-verifies p2wpkh key message = p2wpkh-verifies key message
  sign_simple-verifies p2tr key message = taproot-verifies key message
  sign_simple-verifies p2sh_p2wpkh key message = wrapped-verifies key message

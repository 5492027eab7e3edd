-- ===== src/Shared/Verify/Binding.antt =====
-- What an accepted proof shows (shared/src/bip322/).
use blindjoin.Prelude.{
  ok_or, ensure, ◌&&◌, length, arith, ◌≡◌, true, false, ok, some, get_elem?, >>=-eq-ok, ok_or-eq-ok,
  ensure-eq-ok,
}
use blindjoin.Prelude.Eq.{Bytes, ◌==◌, nat_eq}
use blindjoin.External.{External, Network, Witness}
use blindjoin.Shared.Script.{
  ScriptType, unrecognised_script_pubkey, witness_key_mismatch, invalid_witness_length, p2wpkh,
  p2tr, p2sh_p2wpkh,
}
use blindjoin.Shared.Verify.{key_binding_guard, verify_via_bip322_crate, verify_simple}

module _ (x : External) (spk message : Bytes) (witness : Witness) (network : Network) where
  arity_passed :
      (st : ScriptType)
      → verify_simple x st spk witness message network ≡ ok tt
      → verify_via_bip322_crate x spk witness message network ≡ ok tt
  unfolding verify_simple
  arity_passed p2wpkh h = ground arith
  arity_passed p2tr h = ground arith
  arity_passed p2sh_p2wpkh h = ground arith

  -- The steps of an accepted proof.
  accepted_steps :
      (st : ScriptType)
      → verify_simple x st spk witness message network ≡ ok tt
      → (address : Bytes) × (x.address_from_script network spk ≡ some address)
        × (x.bip322_verify_simple address message witness ≡ true)
        × (x.is_p2tr spk ≡ false → key_binding_guard x address witness ≡ ok tt)
  unfolding verify_via_bip322_crate
  accepted_steps st h =
      let (address, h1, rest) =
        >>=-eq-ok (ok_or (x.address_from_script network spk) unrecognised_script_pubkey) _
          (arity_passed st h) in
      (
        address,
        ok_or-eq-ok (x.address_from_script network spk) _ h1,
        ground arith,
        (λ not_tr. ground arith),
      )

  guard_steps :
      (address : Bytes)
      → key_binding_guard x address witness ≡ ok tt
      → (pk_bytes pubkey : Bytes) × (get_elem? witness 1 ≡ some pk_bytes)
        × (x.public_key_from_slice pk_bytes ≡ some (pubkey, true))
        × (x.is_related_to_pubkey address pubkey ≡ true)
  unfolding key_binding_guard
  guard_steps address h =
      let (_, _, found) =
        >>=-eq-ok (ensure (length witness == 2) (invalid_witness_length 2 (length witness))) _ h in
      let (pk_bytes, h1, read) =
        >>=-eq-ok (ok_or (get_elem? witness 1) witness_key_mismatch) _ found in
      let ((pubkey, compressed), h2, related) =
        >>=-eq-ok (ok_or (x.public_key_from_slice pk_bytes) witness_key_mismatch) _ read in
      let both = ensure-eq-ok (compressed && x.is_related_to_pubkey address pubkey) _ related in
      (pk_bytes, pubkey, ok_or-eq-ok (get_elem? witness 1) _ h1, ground arith, ground arith)

  -- A proof that is accepted, for a script that commits to the hash of a key, is one that the bip322 crate
  -- accepts for the address of the script, and the second element of its witness is a compressed key to
  -- which that address is related.
  pub accepted-bound :
      (st : ScriptType)
      → x.is_p2tr spk ≡ false
      → verify_simple x st spk witness message network ≡ ok tt
      → (address pk_bytes pubkey : Bytes) × (x.address_from_script network spk ≡ some address)
        × (x.bip322_verify_simple address message witness ≡ true)
        × (get_elem? witness 1 ≡ some pk_bytes)
        × (x.public_key_from_slice pk_bytes ≡ some (pubkey, true))
        × (x.is_related_to_pubkey address pubkey ≡ true)
  accepted-bound st hashed h =
      let (address, named, verified, guard) = accepted_steps st h in
      let (pk_bytes, pubkey, second, key, related) = guard_steps address (guard hashed) in
      (address, pk_bytes, pubkey, named, verified, second, key, related)

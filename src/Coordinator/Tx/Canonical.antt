-- ===== src/Coordinator/Tx/Canonical.antt =====
-- The PSBT of coordinator/src/bitcoin/tx.rs does not depend on the order of the inputs.
use mathlib.Core.List.{Permᴰ}
use blindjoin.Prelude.{
  ℕ, suc, ◌≡◌, refl, ap, sym, ◌∙◌, List, [], ◌∷◌, ok, >>=-eq-ok, arith, length, add64, sum64,
}
use blindjoin.External.{External, OutPointOrder, Psbt}
use blindjoin.Shared.Script.{ScriptType}
use blindjoin.Coordinator.Fee.{script_input_vbytes}
use blindjoin.Coordinator.Tx.{
  ParticipantInput, ParticipantOutput, input_vbytes, estimated_vsize, round_fee_share, check_funds,
  build_coinjoin_psbt,
}
use blindjoin.Coordinator.Tx.Funds.{Funded-check_funds, check_funds-Funded}
use blindjoin.Coordinator.Tx.Order.{Apart, All-perm, sort_inputs-perm}

pub length-perm {ℓ} : {A : Type ℓ} {xs ys : List A} → Permᴰ xs ys → length xs ≡ length ys
length-perm Permᴰ.nil = refl
length-perm (Permᴰ.cons e p) = ap suc (length-perm p)
length-perm (Permᴰ.swap e f) = refl
length-perm (Permᴰ.trans p q) = length-perm p ∙ length-perm q

add64_left_comm : (a b c : ℕ) → add64 a (add64 b c) ≡ add64 b (add64 a c)
unfolding add64
add64_left_comm a b c = omega arith

sum64-perm :
    {xs ys : List ParticipantInput}
    → Permᴰ xs ys
    → sum64 (input_vbytes xs) ≡ sum64 (input_vbytes ys)
unfolding sum64 input_vbytes
sum64-perm Permᴰ.nil = refl
sum64-perm (Permᴰ.cons e p) = cc (e, sum64-perm p)
sum64-perm (Permᴰ.swap {a = a} {b = b} {l = l} e f) =
    add64_left_comm (script_input_vbytes a.script_type) (script_input_vbytes b.script_type)
      (sum64 (input_vbytes l))
    ∙ (cc (e, f))
sum64-perm (Permᴰ.trans p q) = sum64-perm p ∙ sum64-perm q

pub round_fee_share-perm :
    {xs ys : List ParticipantInput} (o : ScriptType) (r : ℕ)
    → Permᴰ xs ys
    → round_fee_share xs o r ≡ round_fee_share ys o r
unfolding round_fee_share estimated_vsize
round_fee_share-perm o r p = cc (length-perm p, sum64-perm p)

module _ (x : External) (order : OutPointOrder x) where
  -- Every order in which the registered inputs are iterated gives the same PSBT.
  pub build-perm :
      (xs ys : List ParticipantInput) (outputs : List ParticipantOutput) (d r : ℕ) (o : ScriptType)
      {p : Psbt}
      → Permᴰ xs ys
      → Apart xs
      → build_coinjoin_psbt x xs outputs d r o ≡ ok p
      → build_coinjoin_psbt x ys outputs d r o ≡ ok p
  unfolding build_coinjoin_psbt
  build-perm [] ys outputs d r o p apart h = absurd (cc)
  build-perm (i ∷ is) [] outputs d r o p apart h = absurd (omega (arith, length-perm p))
  build-perm (i ∷ is) (j ∷ js) outputs d r o p apart h =
      let share = round_fee_share (i ∷ is) o r in
      let (_, checked, created) = >>=-eq-ok (check_funds d share (i ∷ is)) _ h in
      let funds = All-perm _ p (check_funds-Funded d share (i ∷ is) checked) in
      rw (sym (round_fee_share-perm o r p), Funded-check_funds d share (j ∷ js) funds)
        (rw (sym (sort_inputs-perm x order p apart)) created)

-- ===== src/Coordinator/System/Answers/Key.antt =====
-- The key of a round under way (coordinator/src/round/state.rs).
use blindjoin.Prelude.{◌≡◌, none, some, ok, ok_or, ok_or-eq-ok}
use blindjoin.External.{External, Network}
use blindjoin.Coordinator.Config.{CoordinatorConfig}
use blindjoin.Coordinator.Failure.{Failure, panicked}
use blindjoin.Coordinator.Round.State.{RsaBlindSigner, RoundStateInner, RoundState, new_idle}
use blindjoin.Coordinator.Api.{Refusal, panic}
use blindjoin.Coordinator.System.Wf.{Wf, rests, runs}
use blindjoin.Coordinator.System.Answers.{Answers, replies, Quiet, returns}

module _ (x : External) (cfg : CoordinatorConfig) (network : Network) where
  -- The key is there while a round is under way.
  key :
      {E : Type 0} (s : RoundState) (inner : RoundStateInner) (e : E)
      → Wf x cfg network s
      → ok_or s.inner e ≡ ok inner
      → (signer : RsaBlindSigner) × (inner.rsa_signer ≡ some signer)
  unfolding new_idle
  key s inner e (rests fresh) here = absurd (cc (ok_or-eq-ok none e here))
  key s inner e (runs _ known this run st) here =
      let same : known ≡ inner = cc (this, ok_or-eq-ok s.inner e here) in
      (run.signer, cc (run.signs, same))

  pub signer-Answers :
      (s : RoundState) (inner : RoundStateInner) (e : Refusal)
      → Wf x cfg network s
      → ok_or s.inner e ≡ ok inner
      → Answers (ok_or inner.rsa_signer panic)
  signer-Answers s inner e wf here =
      let (signer, signs) = key s inner e wf here in rw signs (replies signer)

  pub signer-Quiet :
      (s : RoundState) (inner : RoundStateInner) (e : Failure)
      → Wf x cfg network s
      → ok_or s.inner e ≡ ok inner
      → Quiet (ok_or inner.rsa_signer panicked)
  signer-Quiet s inner e wf here =
      let (signer, signs) = key s inner e wf here in rw signs (returns signer)

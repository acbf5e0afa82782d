-- ===== src/Proxy.antt =====
-- src/service/ConsensusModuleProxy.{h,cpp}: requests to the consensus module over a publication that
-- may refuse them.
pub mod Claim
use aeron_cluster_cpp.Prelude.{
  ℕ, zero, suc, ◌+◌, if◌then◌else◌, Bool, true, false, ◌||◌, List, [], ◌∷◌, ◌++◌, ℤ, pos, ltb_ℤ,
  ◌==ℤ◌,
}
use aeron_cluster_cpp.Prelude.Outcome.{
  M, Outcome, returns, throws, Fault, bad_publication_state, pure, throw, ◌>>=◌, ◌>>◌,
}
use aeron_cluster_cpp.Aeron.{Constants}
use aeron_cluster_cpp.Publication.{Publication, is_fatal}

-- The messages of the generated codecs, with the fields that the proxy sets.
pub data Request : Type 0 where
  remove_member : ℤ → Bool → Request
  schedule_timer : ℤ → ℤ → Request
  cancel_timer : ℤ → Request
  close_session : ℤ → Request
  -- logPosition, timestamp, ackId, relevantId, serviceId
  service_ack : ℤ → ℤ → ℤ → ℤ → ℤ → Request

-- `m_publication`, whose calls are those of `tryClaim`.
abbrev pub Proxy : Type 0
Proxy = Publication Request

abbrev pub attempts : ℕ
attempts = 3

module _ ⦃c : Constants⦄ where
  -- `checkResult`.
  unfoldable pub check_result : {S : Type 0} → ℤ → M S (Unit {0})
  unfolding is_fatal
  check_result result = if is_fatal result then throw bad_publication_state else pure tt

  -- `m_publication->tryClaim(length, bufferClaim)`.
  unfoldable pub claim_once : M Proxy ℤ
  claim_once p = returns (p.answers p.calls) (record p { calls = suc p.calls })

  -- The loop of `tryClaim`, by the attempts left.
  unfoldable pub try_claim_loop : ℕ → M Proxy Bool
  unfolding claim_once check_result
  try_claim_loop zero = pure false
  try_claim_loop (suc n) = do
    result ← claim_once
    let again : M Proxy Bool = (do check_result result; try_claim_loop n)
    if ltb_ℤ (pos 0) result then pure true else again

  unfoldable pub try_claim : M Proxy Bool
  unfolding try_claim_loop
  try_claim = try_claim_loop attempts

  -- The codec fills the claimed buffer, and it is committed.
  unfoldable pub commit : Request → M Proxy (Unit {0})
  commit r p = returns tt (record p { sent = p.sent ++ r ∷ [] })

  -- `claim<Codec>(func)`, which each request goes through.
  unfoldable pub claim : Request → M Proxy Bool
  unfolding try_claim commit
  claim r = do claimed ← try_claim; if claimed then (do commit r; pure true) else pure false

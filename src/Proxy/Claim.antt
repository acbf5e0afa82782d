-- ===== src/Proxy/Claim.antt =====
-- When a request of src/service/ConsensusModuleProxy.h is sent.
use mathlib.Core.Path.{subst}
use aeron_cluster_cpp.Prelude.{
  ℕ, zero, suc, ◌+◌, ◌≡◌, refl, ◌∙◌, ◌⊎◌, inl, inr, Bool, true, false, [], ◌∷◌, ◌++◌, pos, ◌<ℤ◌,
  arith,
}
use aeron_cluster_cpp.Prelude.Outcome.{Outcome, returns, throws, bad_publication_state}
use aeron_cluster_cpp.Aeron.{Constants}
use aeron_cluster_cpp.Publication.{Verdict, granted, exhausted, refused, verdict, Verdict-cases}
use aeron_cluster_cpp.Publication.Settles.{IsLost, AllRetried, IsFirst, Settles, verdict-Settles}
use aeron_cluster_cpp.Proxy.{Proxy, Request, attempts, try_claim_loop, claim}

module _ ⦃c : Constants⦄ where
  -- What the loop leaves behind, for each verdict.
  abbrev pub claimed : Proxy → Verdict → Outcome Proxy Bool
  claimed p (granted k) = returns true (record p { calls = k })
  claimed p (exhausted k) = returns false (record p { calls = k })
  claimed p (refused k) = throws bad_publication_state (record p { calls = k })

  pub try_claim_loop-verdict :
      (n : ℕ) (p : Proxy) → try_claim_loop n p ≡ claimed p (verdict p.answers p.calls n)
  unfolding try_claim_loop
  try_claim_loop-verdict zero p = refl
  try_claim_loop-verdict (suc n) p =
      ground (arith, try_claim_loop-verdict n (record p { calls = suc p.calls }))

  abbrev pub sent_by : Request → Proxy → Verdict → Outcome Proxy Bool
  sent_by r p (granted k) = returns true (record p { calls = k; sent = p.sent ++ r ∷ [] })
  sent_by r p (exhausted k) = returns false (record p { calls = k })
  sent_by r p (refused k) = throws bad_publication_state (record p { calls = k })

  pub claim-verdict :
      (r : Request) (p : Proxy) → claim r p ≡ sent_by r p (verdict p.answers p.calls attempts)
  unfolding claim
  claim-verdict r p = ground (arith, try_claim_loop-verdict attempts p)

  -- For every request and any answers of the publication: the call ends at the first of the next three
  -- answers that is positive or one of not connected, closed and maximum position exceeded. Where that
  -- answer is positive, the request is committed, once, and the call returns true; where it is one of
  -- those codes, the call throws and nothing is committed. Where there is no such answer among the
  -- three, the call returns false after them and nothing is committed.
  pub claim_settled :
      (r : Request) (p : Proxy)
      → ((m : ℕ) × IsFirst p.answers p.calls 3 m
          × (pos 0 <ℤ p.answers m)
          × (claim r p ≡ returns true (record p { calls = suc m; sent = p.sent ++ r ∷ [] })))
        ⊎ (((m : ℕ) × IsFirst p.answers p.calls 3 m
              × IsLost (p.answers m)
              × (claim r p ≡ throws bad_publication_state (record p { calls = suc m })))
            ⊎ (AllRetried p.answers p.calls (p.calls + 3)
                × (claim r p ≡ returns false (record p { calls = p.calls + 3 }))))
  claim_settled r p =
      let settled = verdict-Settles p.answers p.calls attempts in
      let by : Verdict → Type 0 = Settles p.answers p.calls 3 in
      elim (Verdict-cases (verdict p.answers p.calls attempts)) [
        | inl (k, h) ↦
            let (m, first, x, e) = subst by h settled in
            inl (m, first, x, claim-verdict r p ∙ rw (h, e) refl)
        | inr o ↦ elim o [
          | inl (k, h) ↦
              let (all, e) = subst by h settled in
              inr (inr (all, claim-verdict r p ∙ rw (h, e) refl))
          | inr (k, h) ↦
              let (m, first, x, e) = subst by h settled in
              inr (inl (m, first, x, claim-verdict r p ∙ rw (h, e) refl))
        ]
      ]

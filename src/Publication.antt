-- ===== src/Publication.antt =====
-- A publication of the Aeron library, seen from its callers: each offer or claim is answered by a
-- position or by an error, which src/service/ConsensusModuleProxy.{h,cpp} and
-- src/service/SnapshotTaker.{h,cpp} test in the same way.
pub mod Settles
use aeron_cluster_cpp.Prelude.{
  ◌≡◌, refl, ◌⊎◌, inl, inr, ℕ, zero, suc, if◌then◌else◌, Bool, ◌||◌, List, ℤ, pos, ltb_ℤ, ◌==ℤ◌,
}
use aeron_cluster_cpp.Aeron.{Constants}

pub record Publication (A : Type 0) : Type 0 where
  -- What the library answers to the n-th call.
  pub answers : ℕ → ℤ
  -- How often it was called.
  pub calls : ℕ
  -- The messages that went out, oldest first.
  pub sent : List A

-- What comes of calls that are repeated, and how many had been made when it came.
pub data Verdict : Type 0 where
  granted exhausted refused : ℕ → Verdict

-- To split on a verdict and keep the equation.
pub Verdict-cases :
    (v : Verdict)
    → ((k : ℕ) × (v ≡ granted k)) ⊎ (((k : ℕ) × (v ≡ exhausted k)) ⊎ ((k : ℕ) × (v ≡ refused k)))
Verdict-cases (granted k) = inl (k, refl)
Verdict-cases (exhausted k) = inr (inl (k, refl))
Verdict-cases (refused k) = inr (inr (k, refl))

module _ ⦃c : Constants⦄ where
  -- The results after which no retry can help, by both functions `checkResult`.
  unfoldable pub is_fatal : ℤ → Bool
  is_fatal result =
      result ==ℤ c.not_connected
      || (result ==ℤ c.publication_closed || result ==ℤ c.max_position_exceeded)

  -- The independent description of a retry loop: the first answer that decides, from the `i`-th on,
  -- among the next `n`.
  abbrev pub verdict : (ℕ → ℤ) → ℕ → ℕ → Verdict
  verdict answers i zero = exhausted i
  verdict answers i (suc n) =
      let rest = verdict answers (suc i) n in
      if ltb_ℤ (pos 0) (answers i)
      then granted (suc i)
      else if is_fatal (answers i)
      then refused (suc i)
      else rest

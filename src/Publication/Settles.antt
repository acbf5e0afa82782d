-- ===== src/Publication/Settles.antt =====
-- How a retry loop over a publication ends, said of the answers alone: which of them decides, and that
-- none before it does (`checkResult` and its loops in src/service/ConsensusModuleProxy.h and
-- src/service/SnapshotTaker.h).
use aeron_cluster_cpp.Prelude.{
  ℕ, zero, suc, ◌+◌, ◌≤◌, ◌<◌, ◌≡◌, ◌≢◌, ◌⊎◌, inl, inr, true, false, ℤ, pos, ltb_ℤ, ◌≤ℤ◌, ◌<ℤ◌,
  ◌==ℤ◌, ◌==◌, ==_iff, ==ℤ_iff, refl, sym, arith, Bool-cases,
}
use aeron_cluster_cpp.Aeron.{Constants}
use aeron_cluster_cpp.Publication.{Verdict, granted, exhausted, refused, is_fatal, verdict}

module _ ⦃c : Constants⦄ where
  -- An answer that lets the loop go on: not positive, and none of the three results that are fatal.
  abbrev pub IsRetried : ℤ → Type 0
  IsRetried x =
      (x ≤ℤ pos 0)
      × (x ≢ c.not_connected)
      × (x ≢ c.publication_closed)
      × (x ≢ c.max_position_exceeded)

  abbrev pub IsLost : ℤ → Type 0
  IsLost x =
      (x ≤ℤ pos 0)
      × ((x ≡ c.not_connected) ⊎ ((x ≡ c.publication_closed) ⊎ (x ≡ c.max_position_exceeded)))

  -- The answers from the `i`-th to the one before the `k`-th.
  abbrev pub AllRetried : (ℕ → ℤ) → ℕ → ℕ → Type 0
  AllRetried answers i k = (j : ℕ) → i ≤ j → j < k → IsRetried (answers j)

  -- The `m`-th answer is the first of the `n` from the `i`-th on that decides.
  abbrev pub IsFirst : (ℕ → ℤ) → ℕ → ℕ → ℕ → Type 0
  IsFirst answers i n m = (i ≤ m) × (m < i + n) × AllRetried answers i m

  retried : (x : ℤ) → ltb_ℤ (pos 0) x ≡ false → is_fatal x ≡ false → IsRetried x
  unfolding is_fatal
  retried x e f = (
    ground arith,
    λ g. absurd (ground (arith, ==ℤ_iff x c.not_connected)),
    λ g. absurd (ground (arith, ==ℤ_iff x c.publication_closed)),
    λ g. absurd (ground (arith, ==ℤ_iff x c.max_position_exceeded)),
  )

  lost : (x : ℤ) → ltb_ℤ (pos 0) x ≡ false → is_fatal x ≡ true → IsLost x
  unfolding is_fatal
  lost x e f = elim (Bool-cases (x ==ℤ c.not_connected)) [
    | inl g ↦ (ground arith, inl ((==ℤ_iff x c.not_connected).0 g))
    | inr g ↦ elim (Bool-cases (x ==ℤ c.publication_closed)) [
      | inl h ↦ (ground arith, inr (inl ((==ℤ_iff x c.publication_closed).0 h)))
      | inr h ↦ (ground arith, inr (inr ((==ℤ_iff x c.max_position_exceeded).0 (ground arith))))
    ]
  ]

  one_more :
      (answers : ℕ → ℤ) (i k : ℕ)
      → IsRetried (answers i)
      → AllRetried answers (suc i) k
      → AllRetried answers i k
  one_more answers i k h rest j = elim (Bool-cases (i == j)) [
    | inl e ↦ λ p q. rw (sym ((==_iff i j).0 e)) h
    | inr e ↦ λ p q. rest j (ground (arith, ==_iff i j)) q
  ]

  -- What a verdict says of the answers.
  abbrev pub Settles : (ℕ → ℤ) → ℕ → ℕ → Verdict → Type 0
  Settles answers i n (granted k) =
      (m : ℕ) × IsFirst answers i n m × (pos 0 <ℤ answers m) × (k ≡ suc m)
  Settles answers i n (refused k) =
      (m : ℕ) × IsFirst answers i n m × IsLost (answers m) × (k ≡ suc m)
  Settles answers i n (exhausted k) = AllRetried answers i (i + n) × (k ≡ i + n)

  one_later :
      (answers : ℕ → ℤ) (i n : ℕ) (v : Verdict)
      → IsRetried (answers i)
      → Settles answers (suc i) n v
      → Settles answers i (suc n) v
  one_later answers i n (granted k) h (m, f, x, e) =
      (m, (omega arith, omega arith, one_more answers i m h f.2), x, e)
  one_later answers i n (refused k) h (m, f, x, e) =
      (m, (omega arith, omega arith, one_more answers i m h f.2), x, e)
  one_later answers i n (exhausted k) h (f, e) =
      (one_more answers i (i + suc n) h (λ j p q. f j p (omega arith)), omega arith)

  pub verdict-Settles : (answers : ℕ → ℤ) (i n : ℕ) → Settles answers i n (verdict answers i n)
  verdict-Settles answers i zero = (λ j p q. absurd (omega arith), omega arith)
  verdict-Settles answers i (suc n) = elim (Bool-cases (ltb_ℤ (pos 0) (answers i))) [
    | inl e ↦
        rw e (i, (omega arith, omega arith, λ j p q. absurd (omega arith)), ground arith, refl)
    | inr e ↦ elim (Bool-cases (is_fatal (answers i))) [
      | inl f ↦
          rw (e, f)
            (
              i,
              (omega arith, omega arith, λ j p q. absurd (omega arith)),
              lost (answers i) e f,
              refl,
            )
      | inr f ↦
          rw (e, f)
            (one_later answers i n _ (retried (answers i) e f) (verdict-Settles answers (suc i) n))
    ]
  ]

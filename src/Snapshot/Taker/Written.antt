-- ===== src/Snapshot/Taker/Written.antt =====
-- What a snapshot holds once it is taken (src/service/SnapshotTaker.h, `offer`, and its callers).
use mathlib.Core.List.{map, append-nil, append_assoc}
use mathlib.Core.Path.{subst}
use aeron_cluster_cpp.Prelude.{
  ℕ, zero, suc, ◌+◌, ◌≡◌, refl, ◌∙◌, ◌⊎◌, inl, inr, List, [], ◌∷◌, ◌++◌, ℤ, pos, ◌<ℤ◌, arith,
}
use aeron_cluster_cpp.Prelude.Outcome.{
  M, Outcome, returns, throws, bad_publication_state, out_of_fuel, ◌>>◌,
}
use aeron_cluster_cpp.Aeron.{Constants}
use aeron_cluster_cpp.Publication.{Verdict, granted, exhausted, refused, verdict, Verdict-cases}
use aeron_cluster_cpp.Publication.Settles.{IsLost, AllRetried, IsFirst, Settles, verdict-Settles}
use aeron_cluster_cpp.Sessions.{ClientSession}
use aeron_cluster_cpp.Snapshot.Format.{
  SnapshotMark, unit_nanos, mark_begin, mark_end, SnapshotMessage, marker, saved_session,
}
use aeron_cluster_cpp.Snapshot.Taker.{
  SnapshotPublication, snapshot_type_id, saved, offer, snapshot_session, snapshot_sessions,
  snapshot_state,
}

module _ ⦃c : Constants⦄ where
  -- What `offer` leaves behind for each verdict on the answers to come.
  abbrev pub offered :
      SnapshotMessage → SnapshotPublication → Verdict → Outcome SnapshotPublication (Unit {0})
  offered m p (granted k) = returns tt (record p { calls = k; sent = p.sent ++ m ∷ [] })
  offered m p (exhausted k) = throws out_of_fuel (record p { calls = k })
  offered m p (refused k) = throws bad_publication_state (record p { calls = k })

  pub offer-verdict :
      (rounds : ℕ) (m : SnapshotMessage) (p : SnapshotPublication)
      → offer rounds m p ≡ offered m p (verdict p.answers p.calls rounds)
  unfolding offer
  offer-verdict zero m p = refl
  offer-verdict (suc rounds) m p =
      ground (arith, offer-verdict rounds m (record p { calls = suc p.calls }))

  -- For every message, any answers of the publication and any number of rounds: the call ends at the
  -- first answer of the rounds that is positive or one of not connected, closed and maximum position
  -- exceeded. Where that answer is positive, the message is sent, once, and the call returns; where it is
  -- one of those codes, the call throws and nothing is sent. The rounds run out, with nothing sent, only
  -- where there is no such answer among theirs.
  pub offer_settled :
      (rounds : ℕ) (x : SnapshotMessage) (p : SnapshotPublication)
      → ((m : ℕ) × IsFirst p.answers p.calls rounds m
          × (pos 0 <ℤ p.answers m)
          × (offer rounds x p ≡ returns tt (record p { calls = suc m; sent = p.sent ++ x ∷ [] })))
        ⊎ (((m : ℕ) × IsFirst p.answers p.calls rounds m
              × IsLost (p.answers m)
              × (offer rounds x p ≡ throws bad_publication_state (record p { calls = suc m })))
            ⊎ (AllRetried p.answers p.calls (p.calls + rounds)
                × (offer rounds x p ≡ throws out_of_fuel (record p { calls = p.calls + rounds }))))
  offer_settled rounds x p =
      let settled = verdict-Settles p.answers p.calls rounds in
      let by : Verdict → Type 0 = Settles p.answers p.calls rounds in
      elim (Verdict-cases (verdict p.answers p.calls rounds)) [
        | inl (k, h) ↦
            let (m, first, y, e) = subst by h settled in
            inl (m, first, y, offer-verdict rounds x p ∙ rw (h, e) refl)
        | inr o ↦ elim o [
          | inl (k, h) ↦
              let (all, e) = subst by h settled in
              inr (inr (all, offer-verdict rounds x p ∙ rw (h, e) refl))
          | inr (k, h) ↦
              let (m, first, y, e) = subst by h settled in
              inr (inl (m, first, y, offer-verdict rounds x p ∙ rw (h, e) refl))
        ]
      ]

  -- Wherever it stands, the publication grants one of its next `rounds` offers before a fatal answer.
  abbrev pub Accepts : ℕ → (ℕ → ℤ) → Type 0
  Accepts rounds answers = (i : ℕ) → (k : ℕ) × (verdict answers i rounds ≡ granted k)

  -- The call returned, and put these messages behind those that were sent before.
  abbrev pub Wrote :
      SnapshotPublication → List SnapshotMessage → Outcome SnapshotPublication (Unit {0}) → Type 0
  Wrote p ms r = (k : ℕ) × (r ≡ returns tt (record p { calls = k; sent = p.sent ++ ms }))

  offer-Wrote :
      (rounds : ℕ) (m : SnapshotMessage) (p : SnapshotPublication)
      → Accepts rounds p.answers
      → Wrote p (m ∷ []) (offer rounds m p)
  offer-Wrote rounds m p accepts =
      let (k, e) = accepts p.calls in (k, rw (offer-verdict rounds m p, e) refl)

  seq-Wrote :
      (p : SnapshotPublication) (ms ns : List SnapshotMessage)
      (m k : M SnapshotPublication (Unit {0}))
      → Wrote p ms (m p)
      → ((q : SnapshotPublication) → q.answers ≡ p.answers → Wrote q ns (k q))
      → Wrote p (ms ++ ns) ((m >> k) p)
  seq-Wrote p ms ns m k (i, e) next =
      let (j, f) = next (record p { calls = i; sent = p.sent ++ ms }) refl in
      (j, ground (arith, e, f, append_assoc p.sent ms ns))

  snapshot_sessions-Wrote :
      (rounds : ℕ) (ss : List ClientSession) (p : SnapshotPublication)
      → Accepts rounds p.answers
      → Wrote p (map (λ s. saved_session (saved s)) ss) (snapshot_sessions rounds ss p)
  unfolding snapshot_sessions
  snapshot_sessions-Wrote rounds [] p accepts = (p.calls, ground (arith, append-nil p.sent))
  snapshot_sessions-Wrote rounds (s ∷ ss) p accepts =
      seq-Wrote p (saved_session (saved s) ∷ []) _ (snapshot_session rounds s)
        (snapshot_sessions rounds ss) (offer-Wrote rounds _ p accepts)
        (λ q e. snapshot_sessions-Wrote rounds ss q (rw e accepts))

  -- The messages of a whole snapshot: a begin mark, each session in the vector's order, an end mark.
  abbrev pub edge : ℤ → ℤ → ℤ → SnapshotMark → SnapshotMessage
  edge log_position leadership_term_id app_version mark = marker (record {
    type_id = snapshot_type_id;
    log_position = log_position;
    leadership_term_id = leadership_term_id;
    index = pos 0;
    mark = mark;
    time_unit = unit_nanos;
    app_version = app_version;
  })

  abbrev pub snapshot_messages : ℤ → ℤ → ℤ → List ClientSession → List SnapshotMessage
  snapshot_messages log_position leadership_term_id app_version ss =
      edge log_position leadership_term_id app_version mark_begin
      ∷ (map (λ s. saved_session (saved s)) ss
          ++ edge log_position leadership_term_id app_version mark_end ∷ [])

  -- Where the publication grants one of any `rounds` offers before a fatal answer, `snapshotState`
  -- returns and has sent exactly a begin mark, each session in order and an end mark.
  pub snapshot_state-Wrote :
      (rounds : ℕ) (log_position leadership_term_id app_version : ℤ) (ss : List ClientSession)
      (p : SnapshotPublication)
      → Accepts rounds p.answers
      → Wrote p
          (snapshot_messages log_position leadership_term_id app_version ss)
          (snapshot_state rounds log_position leadership_term_id app_version ss p)
  unfolding snapshot_state
  snapshot_state-Wrote rounds log_position leadership_term_id app_version ss p accepts =
      seq-Wrote p (edge log_position leadership_term_id app_version mark_begin ∷ []) _
        (offer rounds (edge log_position leadership_term_id app_version mark_begin))
        (snapshot_sessions rounds ss
          >> offer rounds (edge log_position leadership_term_id app_version mark_end))
        (offer-Wrote rounds _ p accepts)
        λ q e.
          seq-Wrote q _ _ (snapshot_sessions rounds ss) _
            (snapshot_sessions-Wrote rounds ss q (rw e accepts))
            λ r f. offer-Wrote rounds _ r (rw (f ∙ e) accepts)
